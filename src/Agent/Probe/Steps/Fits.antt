-- ===== src/Agent/Probe/Steps/Fits.antt =====
-- The limits that the control plane puts on a result, and the steps that keep them.
use xisnove.Prelude.{
  ◌≡◌, refl, ap, ◌∙◌, ◌≤◌, String, len, Bool, List, Option, none, some, length, arith,
}
use xisnove.Prelude.Int.{ℤ, pos, negsuc, ◌≤ℤ◌, ◌-ℤ◌, saturate, quot}
use xisnove.Domain.Health.{Time}
use xisnove.Domain.Monitor.{Duration}
use xisnove.Application.Results.{observed_bytes}
use xisnove.Agent.Controlplane.{
  ProbeResultInput, ProbeWork, ProtocolTimings, ProbeResultInputErrorCode, passed, failed,
}
use xisnove.Agent.Probe.Policy.{NetworkError, Outcome, ok, failed as unmet}
use xisnove.Agent.Probe.Diagnostic.{diagnostic, unless_error, value_or_stop}
use xisnove.Agent.Probe.Diagnostic.Bounds.{len-diagnostic}
use xisnove.Agent.Probe.Steps.{
  Steps, stop, require, update, pass, continue_from, ◌>>=◌, ◌>>◌, set_timings, timings_of, millis,
  begin, finish, run,
}
use xisnove.Agent.Probe.Steps.Rules.{Keeps, Keeps-pure, Keeps-require, Yields, some_injective}

-- A number of milliseconds whose nanoseconds an int64 holds.
abbrev pub AreMillis : ℤ → Type 0
AreMillis m = (pos 0 ≤ℤ m) × (m ≤ℤ pos 9_223_372_036_854)

abbrev pub IsElapsed : Option ℤ → Type 0
IsElapsed none = Unit
IsElapsed (some m) = AreMillis m

-- No timing is negative or too long.
pub record AreTimings (t : ProtocolTimings) : Type 0 where
  pub dns : IsElapsed t.dns_millis
  pub connect : IsElapsed t.connect_millis
  pub tls : IsElapsed t.tls_millis
  pub first_byte : IsElapsed t.first_byte_millis

abbrev pub AreObserved : Option (List String) → Type 0
AreObserved none = Unit
AreObserved (some values) = (length values ≤ 20) × (observed_bytes values ≤ 4096)

-- The result of a work, within the limits.
pub record Fits (work : ProbeWork) (r : ProbeResultInput) : Type 0 where
  pub sample : len r.diagnostic_sample ≤ 512
  pub observed : AreObserved r.observed_values
  pub timings : AreTimings (timings_of r.protocol_timings)
  pub latency : AreMillis r.latency_millis
  pub run_id : r.run_id ≡ work.run_id
  pub lease_token : r.lease_token ≡ work.lease_token

pub millis-AreMillis : (d : Duration) → AreMillis (millis d)
unfolding millis saturate quot
millis-AreMillis (pos n) = ground arith
millis-AreMillis (negsuc n) = ground arith

-- A result within the limits that has not passed.
pub record Draft (work : ProbeWork) (r : ProbeResultInput) : Type 0 where
  pub fits : Fits work r
  pub unpassed : r.outcome ≡ failed

module _ {work : ProbeWork} where
  -- A change of fields that the limits are not about.
  pub update-Drafts :
      (f : ProbeResultInput → ProbeResultInput)
      → ((r : ProbeResultInput) → Fits work r → Fits work (f r))
      → ((r : ProbeResultInput) → (f r).outcome ≡ r.outcome)
      → Keeps (Draft work) (update f)
  unfolding update
  update-Drafts f k same = record {
    at = λ r p. record { fits = k r p.fits; unpassed = same r ∙ p.unpassed };
  }

  pub stop-Drafts :
      {A : Type 0} (code : ProbeResultInputErrorCode) (sample : String)
      → len sample ≤ 512
      → Keeps {A = A} (Draft work) (stop code sample)
  stop-Drafts code sample h = record {
    at = λ r p. record {
      fits = record {
        sample = h;
        observed = p.fits.observed;
        timings = p.fits.timings;
        latency = p.fits.latency;
        run_id = p.fits.run_id;
        lease_token = p.fits.lease_token;
      };
      unpassed = p.unpassed;
    };
  }

  pub require-Drafts :
      (test : Bool) (code : ProbeResultInputErrorCode) (sample : String)
      → len sample ≤ 512
      → Keeps (Draft work) (require test code sample)
  require-Drafts test code sample h = Keeps-require test code sample (stop-Drafts code sample h)

  pub set_timings-Drafts :
      (f : ProtocolTimings → ProtocolTimings)
      → ((t : ProtocolTimings) → AreTimings t → AreTimings (f t))
      → Keeps (Draft work) (set_timings f)
  unfolding set_timings update
  set_timings-Drafts f k = record {
    at = λ r p. record {
      fits = record {
        sample = p.fits.sample;
        observed = p.fits.observed;
        timings = k _ p.fits.timings;
        latency = p.fits.latency;
        run_id = p.fits.run_id;
        lease_token = p.fits.lease_token;
      };
      unpassed = p.unpassed;
    };
  }

  pub unless_error-Drafts :
      (code : NetworkError → ProbeResultInputErrorCode) (e : Option NetworkError)
      → Keeps (Draft work) (unless_error code e)
  unfolding unless_error
  unless_error-Drafts code none = Keeps-pure tt
  unless_error-Drafts code (some e) =
      stop-Drafts (code e) (diagnostic e.text) (len-diagnostic e.text)

  pub value_or_stop-Drafts :
      {A : Type 0} (code : NetworkError → ProbeResultInputErrorCode) (o : Outcome A)
      → Keeps (Draft work) (value_or_stop code o)
  unfolding value_or_stop
  value_or_stop-Drafts code (ok a) = Keeps-pure a
  value_or_stop-Drafts code (unmet e) =
      stop-Drafts (code e) (diagnostic e.text) (len-diagnostic e.text)

pub value-Yields :
    {A : Type 0} (code : NetworkError → ProbeResultInputErrorCode) (o : Outcome A)
    → Yields (λ a. o ≡ ok a) (value_or_stop code o)
unfolding value_or_stop
value-Yields code (ok a) = record { at = λ r b e. ap ok (some_injective e) }
value-Yields code (unmet x) = record { at = λ r b e. absurd (ground (arith, e)) }

begin-Draft : (id : String) (now : Time) (work : ProbeWork) → Draft work (begin id now work)
unfolding begin
begin-Draft id now work = record {
  fits = record {
    sample = omega arith;
    observed = tt;
    timings = record { dns = tt; connect = tt; tls = tt; first_byte = tt };
    latency = (omega arith, omega arith);
    run_id = refl;
    lease_token = refl;
  };
  unpassed = refl;
}

module _ (id : String) (started finished : Time) (work : ProbeWork)
    (checks : Steps (Unit {0})) where
  passing :
      (P : Unit {0} → Type 0) (o : Option (Unit {0})) (r : ProbeResultInput)
      → Draft work r
      → ((u : Unit {0}) → o ≡ some u → P u)
      → Fits work (continue_from (o, r) (λ u. pass)).1
        × ((continue_from (o, r) (λ u. pass)).1.outcome ≡ passed → P tt)
  unfolding pass
  passing P none r h more = (h.fits, λ e. absurd (ground (arith, e, h.unpassed)))
  passing P (some u) r h more = (
    record {
      sample = h.fits.sample;
      observed = h.fits.observed;
      timings = h.fits.timings;
      latency = h.fits.latency;
      run_id = h.fits.run_id;
      lease_token = h.fits.lease_token;
    },
    λ e. more tt refl,
  )

  pub run-Fits :
      (P : Unit {0} → Type 0)
      → Keeps (Draft work) checks
      → Yields P checks
      → Fits work (run id started finished work (checks >> pass))
        × ((run id started finished work (checks >> pass)).outcome ≡ passed → P tt)
  unfolding run finish ◌>>=◌
  run-Fits P k y =
      let r = begin id started work in
      let (h, e) =
        passing P (checks r).0 (checks r).1 (k.at r (begin-Draft id started work)) (y.at r) in
      (
        record {
          sample = h.sample;
          observed = h.observed;
          timings = h.timings;
          latency = millis-AreMillis (finished -ℤ ((checks >> pass) r).1.started_at);
          run_id = h.run_id;
          lease_token = h.lease_token;
        },
        e,
      )
