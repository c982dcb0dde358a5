-- ===== src/Sqlite/Mapping.antt =====
-- Rows become records: mapMonitor, mapRun, mapAgent and mapLocationHealth of
-- internal/adapters/sqlitecompat/store.go. The times and the JSON columns always decode here.
use xisnove.Prelude.{ℕ, String, ◌||◌, List, [], ◌∷◌, Option, none, some, ltb, ◌==◌, if◌then◌else◌}
use xisnove.Result.{Result, ok, err, other, and_then}
use xisnove.Domain.Health.{LocationHealth}
use xisnove.Domain.Agent.{new_agent}
use xisnove.Domain.Agent.Capabilities.{agent_params}
use xisnove.Domain.Monitor.{
  MonitorKind, http, tcp, dns, kind_eq, ProbeDefinition, Monitor, MonitorFields,
}
use xisnove.Domain.Monitor.Build.{Library, new_http_monitor, new_tcp_monitor, new_dns_monitor}
use xisnove.Application.Records.{AgentRecord, RunRecord}
use xisnove.Sqlite.Tables.{MonitorRow, RunRow, from_milliseconds}

-- decodeProbe, without the format of the first migration
unfoldable pub decode_probe : MonitorKind → ProbeDefinition → Result ProbeDefinition
decode_probe kind probe =
    if kind_eq probe.kind kind
    then ok probe
    else err (other "decode probe definition: kind mismatch")

abbrev pub row_fields : MonitorRow → MonitorFields
row_fields row = record {
  id = row.id;
  name = row.name;
  interval = from_milliseconds row.interval_ms;
  timeout = from_milliseconds row.timeout_ms;
  failure_threshold = row.failure_threshold;
  recovery_threshold = row.recovery_threshold;
  created_at = row.created_at;
}

unfoldable pub monitor_from_probe : Library → MonitorRow → ProbeDefinition → Result Monitor
monitor_from_probe library row probe = elim probe.kind [
  | http ↦ new_http_monitor library (row_fields row) probe.http
  | tcp ↦ new_tcp_monitor (row_fields row) probe.tcp
  | dns ↦ new_dns_monitor library (row_fields row) probe.dns
  | MonitorKind.other s ↦ err (other "map monitor: unsupported probe kind")
]

-- The columns that mapMonitor sets behind the constructor.
abbrev pub with_columns : MonitorRow → Monitor → Monitor
with_columns row m = record m {
  enabled = row.enabled;
  next_run_at = row.next_run_at;
  updated_at = row.updated_at;
}

unfoldable pub map_monitor : Library → MonitorRow → Result Monitor
map_monitor library row =
    if ltb 65535 row.failure_threshold || ltb 65535 row.recovery_threshold
    then err (other "map monitor: threshold exceeds uint16")
    else and_then (decode_probe row.kind row.probe)
        λ probe. and_then (monitor_from_probe library row probe) λ m. ok (with_columns row m)

abbrev or_empty : Option String → String
or_empty none = ""
or_empty (some s) = s

abbrev or_nil : Option (List ℕ) → List ℕ
or_nil none = []
or_nil (some bytes) = bytes

unfoldable pub map_run : RunRow → Result RunRecord
map_run row =
    if ltb 4294967295 row.lease_attempt
    then err (other "map run: lease attempt exceeds uint32")
    else and_then (decode_probe row.probe_kind row.probe) λ probe. ok (record {
      id = row.id;
      monitor_id = row.monitor_id;
      location_id = row.location_id;
      scheduled_for = row.scheduled_for;
      probe = probe;
      timeout = from_milliseconds row.timeout_ms;
      status = row.status;
      lease_agent_id = or_empty row.lease_agent_id;
      lease_token_hash = or_nil row.lease_token_hash;
      lease_attempt = row.lease_attempt;
      lease_expires_at = row.lease_expires_at;
      resolved_at = row.resolved_at;
    })

-- mapAgent makes the agent by `NewAgent` and sets the columns that change.
unfoldable pub map_agent : AgentRecord → Result AgentRecord
map_agent row =
    if row.agent.credential_generation == 0
    then err (other "map agent: invalid credential generation")
    else and_then (new_agent (agent_params row.agent)) λ a. ok (record row {
      agent = record a {
        version = row.agent.version;
        last_seen_at = row.agent.last_seen_at;
        revoked_at = row.agent.revoked_at;
      };
    })

-- The counters of a row are int64, those of the record uint16.
unfoldable pub map_location_health : LocationHealth → Result LocationHealth
map_location_health row =
    if ltb 65535 row.consecutive_failures || ltb 65535 row.consecutive_successes
    then err (other "map location health: counter exceeds uint16")
    else ok row

-- A loop that maps every row, or stops at the first that cannot be mapped.
unfoldable pub map_all : {A B : Type 0} → (A → Result B) → List A → Result (List B)
map_all f [] = ok []
map_all f (r ∷ rows) = and_then (f r) λ b. and_then (map_all f rows) λ rest. ok (b ∷ rest)
