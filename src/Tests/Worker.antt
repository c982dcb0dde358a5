-- ===== src/Tests/Worker.antt =====
-- The theorems on the worker at concrete inputs.
use xisnove.Prelude.{
  ◌≡◌, refl, ◌≤◌, String, true, [], ◌∷◌, none, some, arith, leb, length, if◌then◌else◌,
}
use xisnove.Prelude.Int.{pos, eqb_ℤ}
use xisnove.Result.{ok, err, canceled, other}
use xisnove.Action.{World}
use xisnove.Agent.Controlplane.{
  ProbeDefinition, ProbeWork, ProbeResultInput, passed, empty, accepted,
}
use xisnove.Agent.Worker.{
  Queue, Surroundings, Settings, status, queue_cap, bearer, enabled_capabilities, is_acknowledged,
  unacknowledged_results, heartbeat_result, lease_result, upload_verdict, requeue,
}
use xisnove.Agent.Worker.Run.{
  bearer_editor, heartbeat_with, send_heartbeat, identify, push, answer, lease_request, lease_with,
  lease_one, lease_each, settle_upload, upload_with, upload_one, upload_until_acknowledged,
  upload_queued, run_once,
}
use xisnove.Agent.Worker.Rounds.{DoneFrom, Returns, run_once-Returns}
use xisnove.Agent.Worker.Accounts.{
  Accounts, run_once-Accounts, run_once-bounded, upload_queued_lost,
}

abbrev probe : ProbeDefinition
probe = record { discriminator = some "http"; as_http = none; as_tcp = none; as_dns = none }

abbrev pub work : ProbeWork
work = record {
  run_id = "r";
  monitor_id = "m";
  lease_token = "t";
  scheduled_for = pos 100_000_000_000;
  timeout_millis = pos 5000;
  probe = probe;
}

abbrev result : String → ProbeResultInput
result id = record {
  result_id = id;
  run_id = "r";
  lease_token = "t";
  started_at = pos 101_000_000_000;
  finished_at = pos 102_000_000_000;
  outcome = passed;
  error_code = empty;
  latency_millis = pos 1000;
  observed_status = pos 200;
  body_assertion_passed = true;
  diagnostic_sample = "";
  observed_values = none;
  protocol_timings = none;
  tls_not_after = none;
}

-- Work for an empty queue, and acknowledgements of the result "x" alone.
abbrev outside : Surroundings
outside = record {
  credential = λ n. ok "secret";
  heartbeat = λ n editor request. status 204 none;
  lease = λ n editor request.
      if eqb_ℤ request.wait_seconds (pos 30) then status 200 (some work) else status 204 none;
  upload =
      λ n editor results. status 200 (some (record { result_id = "x"; status = accepted } ∷ []));
  execute = λ n w. record (result "x") { run_id = "" };
  new_id = λ n. "new";
  canceled = λ n. none;
  canceled_before = λ n backoff. none;
}

abbrev settings : Settings
settings = record { capabilities = []; version = "dev"; credential_generation = pos 0 }

abbrev idle : World Queue
idle = record { db = []; asked = 0 }

-- One result "y" that is never acknowledged.
abbrev waiting : World Queue
waiting = record { db = result "y" ∷ []; asked = 0 }

leases_and_uploads : run_once outside settings 5 idle ≡ some (ok tt, record { db = []; asked = 10 })
unfolding run_once send_heartbeat heartbeat_with bearer_editor bearer heartbeat_result
    enabled_capabilities lease_each lease_one lease_with lease_request lease_result answer identify
    push upload_queued upload_until_acknowledged upload_one upload_with upload_verdict settle_upload
    unacknowledged_results is_acknowledged
leases_and_uploads = refl

keeps_unacknowledged :
    run_once outside settings 5 waiting
    ≡ some (
      err (other "upload probe result: acknowledgement missing"),
      record { db = result "y" ∷ []; asked = 6 },
    )
unfolding run_once send_heartbeat heartbeat_with bearer_editor bearer heartbeat_result
    enabled_capabilities lease_each lease_one lease_with lease_request lease_result answer identify
    push upload_queued upload_until_acknowledged upload_one upload_with upload_verdict settle_upload
    unacknowledged_results is_acknowledged requeue
keeps_unacknowledged = refl

run_once-Accounts_example : Accounts outside [] [] (ok tt)
run_once-Accounts_example =
    run_once-Accounts outside settings 5 idle (record { db = []; asked = 10 }) (ok tt) (omega arith)
      leases_and_uploads

run_once-bounded_example : length (result "y" ∷ []) ≤ queue_cap
run_once-bounded_example =
    run_once-bounded outside settings 5 waiting (record { db = result "y" ∷ []; asked = 6 })
      (err (other "upload probe result: acknowledgement missing")) (omega arith)
      keeps_unacknowledged

-- A control plane that is down, until the worker is stopped.
abbrev down : Surroundings
down = record outside {
  upload = λ n editor results. status 503 none;
  canceled_before = λ n backoff. if leb 9 n then some canceled else none;
}

down-DoneFrom : DoneFrom down 9
down-DoneFrom n backoff h = (canceled, ground (arith, h))

run_once-Returns_example : Returns (run_once down settings 10 waiting)
run_once-Returns_example =
    run_once-Returns down settings 10 9 waiting down-DoneFrom (omega arith) (omega arith)

abbrev locked : Surroundings
locked = record outside { credential = λ n. err (other "permission denied") }

upload_queued_lost_example :
    upload_queued locked settings 5 waiting
    ≡ some (err (other "permission denied"), record { db = []; asked = 1 })
upload_queued_lost_example =
    upload_queued_lost locked settings 4 waiting (other "permission denied") (omega arith)
      (omega arith) refl
