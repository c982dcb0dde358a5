-- ===== src/Agent/Probe/Http/Evidence.antt =====
-- The results of agent/probe/http.go.
use xisnove.Prelude.{
  ℕ, ◌≡◌, refl, Bool, true, List, [], ◌∷◌, Option, none, some, All, arith, length,
}
use xisnove.Prelude.Int.{ℤ, pos, ◌≤ℤ◌, ◌+ℤ◌, i64}
use xisnove.Domain.Health.{Time}
use xisnove.Domain.Monitor.{Duration}
use xisnove.Agent.Controlplane.{ProbeWork, ProbeResultInput, HttpProbeDefinition, passed}
use xisnove.Agent.Probe.Policy.{Policy, Url, ok}
use xisnove.Agent.Probe.Policy.Web.{IsWebUrl}
use xisnove.Agent.Probe.Http.Expected.{
  Lasting, IsExpected, outlives-Outlives, status_matches-IsExpected, is_allowed_url-IsWebUrl,
}
use xisnove.Agent.Probe.Diagnostic.Bounds.{len-diagnostic}
use xisnove.Agent.Probe.Steps.Rules.{
  Keeps, Keeps-bind, Keeps-pure, Yields, Yields-bind, Yields-require, Yields-any,
}
use xisnove.Agent.Probe.Steps.Fits.{
  Fits, Draft, IsElapsed, millis-AreMillis, update-Drafts, stop-Drafts, require-Drafts,
  set_timings-Drafts, unless_error-Drafts, value_or_stop-Drafts, value-Yields, run-Fits,
}
use xisnove.Agent.Probe.Tcp.Contains.{IsPart, all-AreParts, all-AreAbsent}
use xisnove.Agent.Probe.Http.{
  Page, HttpOutside, body_matches, check_redirect, dial_context, measured, http_definition,
  is_allowed_url, certificate_checks, texts_of, body_passed, page_checks, http_checks, http_steps,
  execute_http,
}

measured-IsElapsed : (outside : HttpOutside) (d : Option Duration) → IsElapsed (measured outside d)
measured-IsElapsed outside none = tt
measured-IsElapsed outside (some d) = millis-AreMillis d

module _ {work : ProbeWork} (outside : HttpOutside) where
  definition-Drafts :
      (given : Option HttpProbeDefinition) → Keeps (Draft work) (http_definition outside given)
  definition-Drafts none = stop-Drafts _ _ (omega arith)
  definition-Drafts (some d) = Keeps-pure d

  certificate-Drafts :
      (minimum : Option ℤ) (certificates : List Time)
      → Keeps (Draft work) (certificate_checks outside minimum certificates)
  unfolding certificate_checks
  certificate-Drafts minimum [] = Keeps-pure tt
  certificate-Drafts minimum (not_after ∷ others) =
      Keeps-bind _ _ (update-Drafts _ (λ r p. kept r p) (λ r. refl))
        λ u. require-Drafts _ _ _ (omega arith)
    where
      kept :
          (r : ProbeResultInput)
          → Fits work r
          → Fits work (record r { tls_not_after = some not_after })
      kept r p = record {
        sample = p.sample;
        observed = p.observed;
        timings = p.timings;
        latency = p.latency;
        run_id = p.run_id;
        lease_token = p.lease_token;
      }

  page-Drafts :
      (p : Policy) (d : HttpProbeDefinition) (page : Page)
      → Keeps (Draft work) (page_checks outside p d page)
  unfolding page_checks
  page-Drafts p d page = Keeps-bind _ _ (update-Drafts _ status_kept (λ r. refl)) λ u.
      Keeps-bind _ _ (certificate-Drafts _ _) λ u. Keeps-bind _ _ (value_or_stop-Drafts _ _) λ body.
        Keeps-bind _ _ (require-Drafts _ _ _ (len-diagnostic _)) λ u.
          Keeps-bind _ _ (update-Drafts _ (body_kept (body_passed outside d body)) (λ r. refl)) λ u.
            Keeps-bind _ _ (require-Drafts _ _ _ (len-diagnostic _))
              λ u. require-Drafts _ _ _ (len-diagnostic _)
    where
      status_kept :
          (r : ProbeResultInput)
          → Fits work r
          → Fits work (record r { observed_status = page.status })
      status_kept r p = record {
        sample = p.sample;
        observed = p.observed;
        timings = p.timings;
        latency = p.latency;
        run_id = p.run_id;
        lease_token = p.lease_token;
      }

      body_kept :
          (b : Bool) (r : ProbeResultInput)
          → Fits work r
          → Fits work (record r { body_assertion_passed = b })
      body_kept b r p = record {
        sample = p.sample;
        observed = p.observed;
        timings = p.timings;
        latency = p.latency;
        run_id = p.run_id;
        lease_token = p.lease_token;
      }

  http_checks-Drafts : (p : Policy) → Keeps (Draft work) (http_checks outside p work)
  unfolding http_checks
  http_checks-Drafts p = Keeps-bind _ _ (require-Drafts _ _ _ (omega arith)) λ u.
      Keeps-bind _ _ (require-Drafts _ _ _ (omega arith)) λ u.
        Keeps-bind _ _ (definition-Drafts work.probe.as_http) λ d.
          Keeps-bind _ _ (require-Drafts _ _ _ (omega arith)) λ u.
            Keeps-bind _ _ (unless_error-Drafts _ _) λ u.
              Keeps-bind _ _
                (set_timings-Drafts _ λ t h. record {
                  dns = measured-IsElapsed outside outside.trace.dns;
                  connect = measured-IsElapsed outside outside.trace.connect;
                  tls = measured-IsElapsed outside outside.trace.tls;
                  first_byte = measured-IsElapsed outside outside.trace.first_byte;
                })
                λ u. Keeps-bind _ _ (value_or_stop-Drafts _ _) λ page. page-Drafts p d page

module _ (outside : HttpOutside) (p : Policy) (work : ProbeWork) where
  pub record Evidence : Type 0 where
    pub definition : HttpProbeDefinition
    pub asked : work.probe.as_http ≡ some definition
    pub target : Url
    pub parsed : outside.parse_url definition.url ≡ some target
    pub allowed : IsWebUrl target
    pub page : Page
    pub sent :
        outside.send
          (check_redirect outside p definition.follow_redirects)
          (dial_context outside p)
          definition
        ≡ ok page
    pub lasting : Lasting outside definition.tls_minimum_remaining_seconds page.certificates
    pub body : List ℕ
    pub read : outside.read_body (i64 (p.max_response_bytes +ℤ pos 1)) ≡ ok body
    pub whole : pos (length body) ≤ℤ p.max_response_bytes
    pub status : IsExpected page.status definition.expected_status
    pub contains : All (IsPart body) (texts_of outside definition.body_contains)
    pub excludes :
        All (λ text. ¬ IsPart body text) (texts_of outside definition.body_does_not_contain)

  definition-Yields :
      (given : Option HttpProbeDefinition)
      → Yields (λ (d : HttpProbeDefinition). given ≡ some d) (http_definition outside given)
  definition-Yields none = record { at = λ r a e. absurd (ground (arith, e)) }
  definition-Yields (some d) = record { at = λ r a e. e }

  certificate-Yields :
      (minimum : Option ℤ) (certificates : List Time)
      → Yields
          (λ u. Lasting outside minimum certificates)
          (certificate_checks outside minimum certificates)
  unfolding certificate_checks
  certificate-Yields minimum [] = record { at = λ r a e. tt }
  certificate-Yields minimum (not_after ∷ others) =
      Yields-bind (λ u. Unit {0}) _ _ (Yields-any _)
        λ u x. record {
          at = λ r a e.
              outlives-Outlives outside minimum not_after ((Yields-require _ _ _).at r a e);
        }

  checked :
      (d : HttpProbeDefinition) (page : Page)
      → work.probe.as_http ≡ some d
      → is_allowed_url outside (outside.parse_url d.url) ≡ true
      → outside.send (check_redirect outside p d.follow_redirects) (dial_context outside p) d
        ≡ ok page
      → Yields (λ u. Evidence) (page_checks outside p d page)
  unfolding page_checks body_matches
  checked d page asked allowed sent =
      Yields-bind (λ u. Unit {0}) _ _ (Yields-any _)
        λ u x. Yields-bind _ _ _ (certificate-Yields _ _) λ u lasting.
          Yields-bind _ _ _ (value-Yields _ _) λ body read.
            Yields-bind _ _ _ (Yields-require _ _ _) λ u whole.
              Yields-bind (λ u. Unit {0}) _ _ (Yields-any _)
                λ u x. Yields-bind _ _ _ (Yields-require _ _ _) λ u status. record {
                  at = λ r a e.
                      let (target, parsed, web) = is_allowed_url-IsWebUrl outside _ allowed in
                      let matches = (Yields-require (body_passed outside d body) _ _).at r a e in
                      record {
                        definition = d;
                        asked = asked;
                        target = target;
                        parsed = parsed;
                        allowed = web;
                        page = page;
                        sent = sent;
                        lasting = lasting;
                        body = body;
                        read = read;
                        whole = ground (arith, whole);
                        status = status_matches-IsExpected _ _ status;
                        contains = all-AreParts body _ (ground (arith, matches));
                        excludes = all-AreAbsent body _ (ground (arith, matches));
                      };
                }

  http_checks-Evidence : Yields (λ u. Evidence) (http_checks outside p work)
  unfolding http_checks
  http_checks-Evidence =
      Yields-bind (λ u. Unit {0}) _ _ (Yields-any _)
        λ u x.
          Yields-bind (λ u. Unit {0}) _ _ (Yields-any _)
            λ u x. Yields-bind _ _ _ (definition-Yields work.probe.as_http) λ d asked.
              Yields-bind _ _ _ (Yields-require _ _ _) λ u allowed.
                Yields-bind (λ u. Unit {0}) _ _ (Yields-any _)
                  λ u x.
                    Yields-bind (λ u. Unit {0}) _ _ (Yields-any _)
                      λ u x.
                        Yields-bind _ _ _ (value-Yields _ _)
                          λ page sent. checked d page asked allowed sent

  both :
      Fits work (execute_http outside p work)
      × ((execute_http outside p work).outcome ≡ passed → Evidence)
  unfolding execute_http http_steps
  both =
      run-Fits outside.id outside.started outside.finished work (http_checks outside p work)
        (λ u. Evidence) (http_checks-Drafts outside p) http_checks-Evidence

  pub execute_http-Fits : Fits work (execute_http outside p work)
  execute_http-Fits = both.0

  -- An HTTP probe that passes has evidence: its URL is over http or https and has a host, a
  -- response came, sent with the probe's check of redirects and its way to connect; the
  -- certificate, if there is one and its life is asked about, lasts at least as many seconds as
  -- asked for; the whole body, within the policy's limit, contains all the texts that it must
  -- contain and none that it must not; and the status is in an expected range.
  pub execute_http-Evidence : (execute_http outside p work).outcome ≡ passed → Evidence
  execute_http-Evidence = both.1
