-- ===== src/HttpApi/Probes/Numbers.antt =====
-- The numbers of internal/adapters/httpapi/configuration.go: seconds and milliseconds, int32 and uint16.
use xisnove.Prelude.{false, ◌≤◌, ◌≡◌, refl, ap, List, [], ◌∷◌, Option, none, some, map, arith, All}
use xisnove.Prelude.Int.{
  ℤ, pos, negsuc, pos_part, neg_part, ◌*ℤ◌, i64, u16, quot, IsInt32, i32-eq, leb_ℤ, ltb_ℤ,
}
use xisnove.Agent.Controlplane.{StatusRange}
use xisnove.HttpApi.Probes.{tls_from_seconds, tls_to_seconds, status_from_api, status_to_api}

-- The number of seconds fits the nanoseconds of an int64.
abbrev pub FitsDuration : Option ℤ → Type 0
FitsDuration none = Unit {0}
FitsDuration (some n) = (neg_part n ≤ 9_223_372_036) × (pos_part n ≤ 9_223_372_036)

pub seconds_back :
    (n : ℤ) → FitsDuration (some n) → quot (i64 (n *ℤ pos 1_000_000_000)) (pos 1_000_000_000) ≡ n
unfolding i64 ◌*ℤ◌ quot
seconds_back (pos n) h = ground arith
seconds_back (negsuc n) h = ground arith

pub tls-seconds : (s : Option ℤ) → FitsDuration s → tls_to_seconds (tls_from_seconds s) ≡ s
unfolding tls_to_seconds tls_from_seconds
tls-seconds none h = refl
tls-seconds (some n) h = ap some (seconds_back n h)

abbrev pub IsRange : StatusRange → Type 0
IsRange s = IsInt32 s.minimum × IsInt32 s.maximum

pub statuses_back :
    (statuses : List StatusRange)
    → All IsRange statuses
    → map status_to_api (map status_from_api statuses) ≡ statuses
statuses_back [] h = refl
statuses_back (s ∷ rest) ((low, high), h) =
    rw (i32-eq s.minimum low, i32-eq s.maximum high, statuses_back rest h)

pub u16-eq : (n : ℤ) → leb_ℤ n (pos 0) ≡ false → ltb_ℤ (pos 65_535) n ≡ false → pos (u16 n) ≡ n
unfolding u16
u16-eq (pos n) above below = ground arith
u16-eq (negsuc n) above below = ground arith

pub millis_back : (n : ℤ) → IsInt32 n → quot (i64 (n *ℤ pos 1_000_000)) (pos 1_000_000) ≡ n
unfolding i64 ◌*ℤ◌ quot
millis_back (pos n) h = ground arith
millis_back (negsuc n) h = ground arith

pub IsInt32-FitsDuration : (n : ℤ) → IsInt32 n → FitsDuration (some n)
IsInt32-FitsDuration n h = (ground arith, ground arith)
