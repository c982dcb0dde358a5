-- ===== src/Tests/Pages.antt =====
-- The theorems on the HTTP probe at concrete inputs.
use text.Mathlib.Text.{◌==◌ as str_eq}
use xisnove.Prelude.{ℕ, ◌≡◌, refl, String, true, List, [], ◌∷◌, none, some, if◌then◌else◌}
use xisnove.Prelude.Int.{pos, ◌*ℤ◌, i64, ◌≤ℤ◌}
use xisnove.Prelude.Text.{trim_dot}
use xisnove.Agent.Controlplane.{ProbeWork, passed}
use xisnove.Agent.Probe.Addresses.{Addr, v4, unmap}
use xisnove.Agent.Probe.Policy.{
  ok, Url, validate_address, validate_each, validate_url, resolve_host,
}
use xisnove.Agent.Probe.Policy.Reachable.{Reachable}
use xisnove.Agent.Probe.Policy.Web.{IsWebUrl}
use xisnove.Agent.Probe.Steps.{◌>>=◌, update, require, set_timings, begin, finish, run, pass}
use xisnove.Agent.Probe.Diagnostic.{unless_error, value_or_stop}
use xisnove.Agent.Probe.Http.{
  HttpOutside, follow, status_matches, body_matches, check_redirect, dialled, dial_each,
  resolved_first, dial_context, certificate_checks, page_checks, http_checks, http_steps,
  execute_http,
}
use xisnove.Agent.Probe.Http.Evidence as http
use xisnove.Agent.Probe.Http.Evidence.{execute_http-Evidence}
use xisnove.Agent.Probe.Http.Reach.{IsConnection, dial_context-Reachable, check_redirect-follow}
use xisnove.Tests.Probes.{policy, resolver, unparsed, asked}

abbrev pub http_work : ProbeWork
http_work =
    asked none none
      (some (record {
        method = "GET";
        url = "https://example.org/";
        headers = [];
        body = [];
        expected_status = record { minimum = pos 200; maximum = pos 299 } ∷ [];
        body_contains = "ok" ∷ [];
        body_does_not_contain = "no" ∷ [];
        follow_redirects = true;
        tls_minimum_remaining_seconds = some (pos 60);
      }))
      "http"

abbrev site : Url
site = record { scheme = "https"; hostname = "example.org" }

abbrev bytes_of : String → List ℕ
bytes_of s = if str_eq s "ok" then 111 ∷ 107 ∷ [] else 110 ∷ 111 ∷ []

abbrev pub over_http : HttpOutside
over_http = record {
  id = "x";
  started = pos 101_000_000_000;
  finished = pos 102_000_000_000;
  parse_addr = unparsed;
  resolver = resolver;
  parse_url = λ s. some site;
  dial = λ address port. none;
  request_error = λ definition. none;
  send = λ redirect dial definition. ok (record { status = pos 204; certificates = pos 7 ∷ [] });
  trace = record { dns = none; connect = none; tls = none; first_byte = none };
  read_body = λ limit. ok (111 ∷ 107 ∷ 33 ∷ []);
  until = λ t. pos 3_600_000_000_000;
  text_of = λ bytes. "";
  bytes_of = bytes_of;
}

http_passes : (execute_http over_http policy http_work).outcome ≡ passed
unfolding execute_http http_steps http_checks run begin finish ◌>>=◌ require update set_timings pass
    value_or_stop unless_error validate_url page_checks certificate_checks status_matches
    body_matches i64 ◌*ℤ◌
http_passes = refl

execute_http-Evidence_example : http.Evidence over_http policy http_work
execute_http-Evidence_example = execute_http-Evidence over_http policy http_work http_passes

connects : dial_context over_http policy "example.org" "443" ≡ ok (some (v4 0x5db8d822))
unfolding dial_context resolved_first dial_each dialled resolve_host trim_dot validate_each
    validate_address unmap
connects = refl

dial_context-Reachable_example : IsConnection over_http policy "443" (some (v4 0x5db8d822))
dial_context-Reachable_example =
    dial_context-Reachable over_http policy "example.org" "443" (some (v4 0x5db8d822)) connects

follows : check_redirect over_http policy true site 3 ≡ follow
unfolding check_redirect validate_url trim_dot
follows = refl

check_redirect-follow_example :
    (true ≡ true)
    × (pos 3 ≤ℤ policy.max_redirects)
    × IsWebUrl site
    × ((address : Addr)
        → over_http.parse_addr (trim_dot site.hostname) ≡ some address
        → Reachable policy.allowed_private (unmap address))
check_redirect-follow_example = check_redirect-follow over_http policy true site 3 follows
