-- ===== src/Agent/Probe/Http/Expected.antt =====
-- What the tests of agent/probe/http.go on a URL, a certificate and a status say.
use mathlib.Core.List.{Mem, mem-cons_self, mem-cons_of_mem}
use xisnove.Prelude.{
  ◌≡◌, refl, true, List, [], ◌∷◌, Option, none, some, arith, ◌&&◌, Bool-cases, inl, inr,
}
use xisnove.Prelude.Int.{ℤ, pos, ◌≤ℤ◌, leb_ℤ, ◌*ℤ◌, i64}
use xisnove.Domain.Health.{Time}
use xisnove.Agent.Controlplane.{StatusRange}
use xisnove.Agent.Probe.Policy.{Url}
use xisnove.Agent.Probe.Policy.Web.{IsWebUrl, validate_url-IsWebUrl}
use xisnove.Agent.Probe.Http.{HttpOutside, status_matches, is_allowed_url, outlives}

-- The status lies in one of the ranges.
abbrev pub IsExpected : ℤ → List StatusRange → Type 0
IsExpected status ranges =
    (r : StatusRange) × Mem r ranges × (r.minimum ≤ℤ status) × (status ≤ℤ r.maximum)

pub status_matches-IsExpected :
    (status : ℤ) (ranges : List StatusRange)
    → status_matches status ranges ≡ true
    → IsExpected status ranges
unfolding status_matches
status_matches-IsExpected status [] h = absurd (ground (arith, h))
status_matches-IsExpected status (r ∷ rest) h =
    elim (Bool-cases (leb_ℤ r.minimum status && leb_ℤ status r.maximum)) [
      | inl e ↦ (r, mem-cons_self, ground (arith, e), ground (arith, e))
      | inr e ↦
          let (s, m, low, high) = status_matches-IsExpected status rest (ground (arith, h, e)) in
          (s, mem-cons_of_mem r m, low, high)
    ]

module _ (outside : HttpOutside) where
  -- The time left to a certificate is at least the seconds asked for, if any are.
  abbrev pub Outlives : Option ℤ → Time → Type 0
  Outlives none not_after = Unit
  Outlives (some seconds) not_after = i64 (seconds *ℤ pos 1_000_000_000) ≤ℤ outside.until not_after

  -- The first certificate is valid long enough, if there is one and that is asked for.
  abbrev pub Lasting : Option ℤ → List Time → Type 0
  Lasting minimum [] = Unit
  Lasting minimum (not_after ∷ others) = Outlives minimum not_after

  pub outlives-Outlives :
      (minimum : Option ℤ) (not_after : Time)
      → outlives outside minimum not_after ≡ true
      → Outlives minimum not_after
  outlives-Outlives none not_after h = tt
  outlives-Outlives (some seconds) not_after h = ground (arith, h)

  pub is_allowed_url-IsWebUrl :
      (url : Option Url)
      → is_allowed_url outside url ≡ true
      → (target : Url) × (url ≡ some target) × IsWebUrl target
  is_allowed_url-IsWebUrl none h = absurd (ground (arith, h))
  is_allowed_url-IsWebUrl (some target) h =
      (target, refl, validate_url-IsWebUrl target (ground (arith, h)))
