-- ===== src/HttpApi/Work/Sent.antt =====
-- What LeaseAgentWork of internal/adapters/httpapi/work.go sends to an agent.
use xisnove.Prelude.{String, ◌≡◌, ap, ◌∙◌, Option, some, arith}
use xisnove.Prelude.Int.{ℤ, pos, IsInt32, i32, i32-eq, quot}
use xisnove.Result.{ok}
use xisnove.Application.Leasing as application
use xisnove.Agent.Controlplane.{ProbeDefinition, ProbeWork}
use xisnove.HttpApi.Results.{body, from_millis}
use xisnove.HttpApi.Probes.{Encoding, probe_from_api}
use xisnove.HttpApi.Probes.ToApi.{probe_to_api}
use xisnove.HttpApi.Probes.Numbers.{millis_back}
use xisnove.HttpApi.Probes.Faithful.{IsEncoding, IsInRange, Carried, probe_to_api-Carried}
use xisnove.HttpApi.Work.{map_probe_work, work_answer}

-- What mapProbeWork copies.
record IsMapped (encoding : Encoding) (work : application.ProbeWork) (sent : ProbeWork)
    : Type 0 where
  probe : probe_to_api encoding work.probe ≡ ok sent.probe
  timeout : sent.timeout_millis ≡ i32 (quot work.timeout (pos 1_000_000))
  token : sent.lease_token ≡ work.lease_token

-- What an agent gets of a probe that was submitted as `p` with a timeout of `n` milliseconds.
pub record IsSent (work : application.ProbeWork) (p : ProbeDefinition) (n : ℤ) (sent : ProbeWork)
    : Type 0 where
  pub probe : Carried p sent.probe
  pub timeout : sent.timeout_millis ≡ n
  pub token : sent.lease_token ≡ work.lease_token

module _ (parse_uuid : String → Option String) (encoding : Encoding) where
  map_probe_work-IsMapped :
      (work : application.ProbeWork) (sent : ProbeWork)
      → work_answer parse_uuid encoding (ok work) ≡ body (some sent)
      → IsMapped encoding work sent
  unfolding work_answer map_probe_work
  map_probe_work-IsMapped work sent e = ground (arith, e)

  -- An agent leases the probe that was submitted: where the probe of a work is what probeFromAPI made
  -- of a definition, and its timeout a number of milliseconds, LeaseAgentWork sends that definition,
  -- with the expected values of a DNS probe sorted, that number and the lease token. The generated
  -- functions read what they encoded, the numbers of the definition and the timeout are int32, and the
  -- seconds of the definition fit a time.Duration.
  pub work_answer-IsSent :
      (work : application.ProbeWork) (p : ProbeDefinition) (n : ℤ) (sent : ProbeWork)
      → IsEncoding encoding
      → IsInRange p
      → IsInt32 n
      → probe_from_api encoding p ≡ ok work.probe
      → work.timeout ≡ from_millis n
      → work_answer parse_uuid encoding (ok work) ≡ body (some sent)
      → IsSent work p n sent
  work_answer-IsSent work p n sent faithful range small made timed e =
      let k = map_probe_work-IsMapped work sent e in
      record {
        probe = probe_to_api-Carried encoding p sent.probe work.probe faithful range made k.probe;
        timeout =
            k.timeout
            ∙ ap (λ d. i32 (quot d (pos 1_000_000))) timed
            ∙ ap i32 (millis_back n small)
            ∙ i32-eq n small;
        token = k.token;
      }
