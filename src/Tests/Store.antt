-- ===== src/Tests/Store.antt =====
-- The theorems on the store's tables at concrete inputs.
use xisnove.Prelude.{◌≡◌, refl, List, [], ◌∷◌, none, some}
use xisnove.Prelude.Int.{pos, ltb_ℤ, i64, ◌*ℤ◌}
use xisnove.Result.{ok}
use xisnove.Domain.Agent.{AgentCapability}
use xisnove.Domain.Monitor.{http, ProbeDefinition, no_http, no_tcp, no_dns}
use xisnove.Application.Records.{NewRunRecord, ClaimRunParams, RunRecord, leased, resolved}
use xisnove.Sqlite.Tables.{
  Engine, RunRow, Db, find, first, select, order_by, insert_by, from_milliseconds,
}
use xisnove.Sqlite.Mapping.{map_run, decode_probe}
use xisnove.Sqlite.Runs.{claim_probe, lease_row, next_run}
use xisnove.Sqlite.Runs.Leases.{run_row, AreRunsKeyed}
use xisnove.Sqlite.Runs.Traces.{
  RunStatement, insert, claim, resolve, execute_all, execute_all-AreRunsKeyed, lease_exclusive,
  resolved_final,
}
use xisnove.Sqlite.Runs.Claims.{IsClaim, claim_probe-IsClaim}
use xisnove.Tests.Domain.{agent}

abbrev pub engine : Engine
engine = record { julianday = λ t. t; text_before = ltb_ℤ }

abbrev pub probe : ProbeDefinition
probe = record {
  kind = http;
  http = record no_http { url = "https://example.org" };
  tcp = no_tcp;
  dns = no_dns;
}

abbrev pub run : RunRow
run = record {
  id = "r";
  monitor_id = "m";
  location_id = "l";
  scheduled_for = pos 10;
  probe = probe;
  probe_kind = http;
  timeout_ms = pos 5000;
  status = leased;
  lease_agent_id = some "a";
  lease_token_hash = some (7 ∷ []);
  lease_attempt = 1;
  lease_expires_at = some (pos 100);
  resolved_at = none;
}

abbrev pub db : Db
db = record {
  now = pos 20;
  admins = [];
  sessions = [];
  locations = [];
  monitors = [];
  monitor_locations = [];
  agents = record { agent = agent; credential_hash = 9 ∷ [] } ∷ [];
  enrollment_tokens = [];
  check_runs = run ∷ [];
  probe_results = [];
  location_health = [];
  monitor_health = [];
  incidents = [];
  incident_events = [];
}

db-AreRunsKeyed : AreRunsKeyed db
unfolding find
db-AreRunsKeyed = record { ids = (refl, tt); slots = (refl, tt) }

held : run_row "r" db ≡ some run
unfolding find
held = refl

abbrev early_claim : ClaimRunParams
early_claim = record {
  agent_id = "a";
  capabilities = AgentCapability.http ∷ [];
  lease_token_hash = 8 ∷ [];
  lease_expires_at = pos 200;
  now = pos 99;
}

abbrev new_run : NewRunRecord
new_run = record {
  id = "s";
  monitor_id = "m";
  location_id = "l";
  scheduled_for = pos 70;
  probe = probe;
  timeout = pos 5_000_000_000;
}

abbrev others : List RunStatement
others =
    claim early_claim
    ∷ insert new_run
    ∷ resolve "r" "b" (7 ∷ []) (pos 50)
    ∷ resolve "r" "a" (8 ∷ []) (pos 50)
    ∷ []

execute_all-AreRunsKeyed_example : AreRunsKeyed (execute_all engine db others)
execute_all-AreRunsKeyed_example = execute_all-AreRunsKeyed engine db others db-AreRunsKeyed

lease_exclusive_example : run_row "r" (execute_all engine db others) ≡ some run
lease_exclusive_example =
    lease_exclusive engine db "r" run others db-AreRunsKeyed held refl
      (refl, (tt, (refl, (refl, tt))))

abbrev closed : RunRow
closed = record run { status = resolved; resolved_at = some (pos 60) }

abbrev closed_db : Db
closed_db = record db { check_runs = closed ∷ [] }

closed_db-AreRunsKeyed : AreRunsKeyed closed_db
unfolding find
closed_db-AreRunsKeyed = record { ids = (refl, tt); slots = (refl, tt) }

closed_row : run_row "r" closed_db ≡ some closed
unfolding find
closed_row = refl

abbrev late_claim : ClaimRunParams
late_claim = record early_claim { now = pos 150; lease_expires_at = pos 300 }

resolved_final_example :
    run_row "r" (execute_all engine closed_db (claim late_claim ∷ others)) ≡ some closed
resolved_final_example =
    resolved_final engine closed_db "r" closed (claim late_claim ∷ others) closed_db-AreRunsKeyed
      closed_row refl

abbrev claimed_run : RunRecord
claimed_run = record {
  id = "r";
  monitor_id = "m";
  location_id = "l";
  scheduled_for = pos 10;
  probe = probe;
  timeout = pos 5_000_000_000;
  status = leased;
  lease_agent_id = "a";
  lease_token_hash = 8 ∷ [];
  lease_attempt = 2;
  lease_expires_at = some (pos 300);
  resolved_at = none;
}

late_claimed : (claim_probe engine late_claim db).0 ≡ ok claimed_run
unfolding claim_probe next_run lease_row find first select order_by insert_by map_run decode_probe
    from_milliseconds i64 ◌*ℤ◌
late_claimed = refl

claim_probe-IsClaim_example : IsClaim engine late_claim db claimed_run
claim_probe-IsClaim_example =
    claim_probe-IsClaim engine late_claim db claimed_run db-AreRunsKeyed late_claimed
