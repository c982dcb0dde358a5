-- ===== src/HttpApi/Configuration/Created.antt =====
-- The answer of CreateMonitor in internal/adapters/httpapi/configuration.go.
use xisnove.Prelude.{
  String, Bool, true, false, ◌||◌, ◌⊎◌, inl, inr, ◌≡◌, refl, sym, ap, ◌∙◌, Option, some, arith,
  if◌then◌else◌,
}
use xisnove.Prelude.Int.{ℤ, pos, IsInt32, u16, i32, i32-eq, quot}
use xisnove.Prelude.Text.{trim_space}
use xisnove.Result.{Result, ok, err}
use xisnove.Action.{World}
use xisnove.Domain.Monitor as domain
use xisnove.Domain.Monitor.Build.{Library}
use xisnove.HttpApi.Cleared.{body_injective, from_error-not-body}
use xisnove.Application.Configuration.{CreateMonitorCommand, ConfiguredMonitor}
use xisnove.Application.Configuration as application
use xisnove.Application.Configuration.Created.{Echoes, create_monitor-Echoes}
use xisnove.Application.Environment.{Environment}
use xisnove.HttpApi.Results.{Response, body, body_or, from_millis}
use xisnove.HttpApi.Requests.{from_seconds, respond}
use xisnove.HttpApi.Probes.{Encoding, probe_from_api}
use xisnove.HttpApi.Probes.Numbers.{seconds_back, millis_back, u16-eq, IsInt32-FitsDuration}
use xisnove.HttpApi.Configuration.{
  CreateMonitorRequest, Monitor, bad_threshold, to_monitor_command, map_monitor, create_with,
  create_monitor,
}

-- The numbers of a request that are int32 in the code.
pub record IsRequest (r : CreateMonitorRequest) : Type 0 where
  pub interval : IsInt32 r.interval_seconds
  pub timeout : IsInt32 r.timeout_millis

-- A monitor of the API with what a request asks for.
pub record IsAsked (parse_uuid : String → Option String) (r : CreateMonitorRequest) (m : Monitor)
    : Type 0 where
  pub name : m.name ≡ trim_space r.name
  pub interval : m.interval_seconds ≡ r.interval_seconds
  pub timeout : m.timeout_millis ≡ r.timeout_millis
  pub failures : m.failure_threshold ≡ r.failure_threshold
  pub recoveries : m.recovery_threshold ≡ r.recovery_threshold
  pub location : parse_uuid r.location_id ≡ some m.location_id
  pub required : m.required_location ≡ r.required_location

threshold_back : (n : ℤ) → bad_threshold n ≡ false → pos (u16 n) ≡ n
threshold_back n h = u16-eq n (ground (arith, h)) (ground (arith, h))

-- What mapMonitor copies.
record IsMapped (parse_uuid : String → Option String) (c : ConfiguredMonitor) (m : Monitor)
    : Type 0 where
  name : m.name ≡ c.monitor.name
  interval : m.interval_seconds ≡ i32 (quot c.monitor.interval (pos 1_000_000_000))
  timeout : m.timeout_millis ≡ i32 (quot c.monitor.timeout (pos 1_000_000))
  failures : m.failure_threshold ≡ pos c.monitor.failure_threshold
  recoveries : m.recovery_threshold ≡ pos c.monitor.recovery_threshold
  location : parse_uuid c.location_id ≡ some m.location_id
  required : m.required_location ≡ c.required_location

map_monitor-IsMapped :
    (parse_uuid : String → Option String) (encoding : Encoding) (c : ConfiguredMonitor)
    (m : Monitor)
    → map_monitor parse_uuid encoding c ≡ ok m
    → IsMapped parse_uuid c m
unfolding map_monitor
map_monitor-IsMapped parse_uuid encoding c m e = ground (arith, e)

seconds_asked : (n : ℤ) → IsInt32 n → i32 (quot (from_seconds n) (pos 1_000_000_000)) ≡ n
seconds_asked n h = ap i32 (seconds_back n (IsInt32-FitsDuration n h)) ∙ i32-eq n h

millis_asked : (n : ℤ) → IsInt32 n → i32 (quot (from_millis n) (pos 1_000_000)) ≡ n
millis_asked n h = ap i32 (millis_back n h) ∙ i32-eq n h

mapped-IsAsked :
    (parse_uuid : String → Option String) (r : CreateMonitorRequest)
    (probe : domain.ProbeDefinition) (c : ConfiguredMonitor) (m : Monitor)
    → IsRequest r
    → bad_threshold r.failure_threshold ≡ false
    → bad_threshold r.recovery_threshold ≡ false
    → Echoes (to_monitor_command r probe) c
    → IsMapped parse_uuid c m
    → IsAsked parse_uuid r m
unfolding to_monitor_command
mapped-IsAsked parse_uuid r probe c m h f g echo k = record {
  name = k.name ∙ echo.fields.name;
  interval =
      k.interval
      ∙ ap (λ d. i32 (quot d (pos 1_000_000_000))) echo.fields.interval
      ∙ seconds_asked r.interval_seconds h.interval;
  timeout =
      k.timeout
      ∙ ap (λ d. i32 (quot d (pos 1_000_000))) echo.fields.timeout
      ∙ millis_asked r.timeout_millis h.timeout;
  failures = k.failures ∙ ap pos echo.fields.failures ∙ threshold_back r.failure_threshold f;
  recoveries = k.recoveries ∙ ap pos echo.fields.recoveries ∙ threshold_back r.recovery_threshold g;
  location = ap parse_uuid (sym echo.location) ∙ k.location;
  required = k.required ∙ echo.required;
}

module _ {D : Type 0} (env : Environment D) (parse_uuid : String → Option String)
    (encoding : Encoding) (library : Library) where
  responded :
      (r : CreateMonitorRequest) (m : Monitor) (outcome : Result ConfiguredMonitor × World D)
      → (respond (λ c. body_or (map_monitor parse_uuid encoding c)) outcome).0 ≡ body m
      → (c : ConfiguredMonitor) × (outcome.0 ≡ ok c) × (map_monitor parse_uuid encoding c ≡ ok m)
  responded r m (ok c, w) e = (c, refl, mapped_ok (map_monitor parse_uuid encoding c) e)
    where
      mapped_ok : (o : Result Monitor) → body_or o ≡ body m → o ≡ ok m
      mapped_ok (ok x) e = ap ok (body_injective e)
      mapped_ok (err x) e = absurd (ground (arith, e))
  responded r m (err x, w) e = absurd (from_error-not-body x m e)

  created :
      (r : CreateMonitorRequest) (probe : Result domain.ProbeDefinition) (m : Monitor) (w : World D)
      → IsRequest r
      → bad_threshold r.failure_threshold ≡ false
      → bad_threshold r.recovery_threshold ≡ false
      → (create_with env parse_uuid encoding library r probe w).0 ≡ body m
      → IsAsked parse_uuid r m
  created r (err x) m w h f g e = absurd (from_error-not-body _ m e)
  created r (ok probe) m w h f g e =
      let command = to_monitor_command r probe in
      let (c, made, mapped) = responded r m (application.create_monitor env library command w) e in
      mapped-IsAsked parse_uuid r probe c m h f g
        ((create_monitor-Echoes env library command).at w c made)
        (map_monitor-IsMapped parse_uuid encoding c m mapped)

  admitted :
      (b : Bool) (refused made : Response Monitor × World D) (m : Monitor)
      → (if b then refused else made).0 ≡ body m
      → ((b ≡ false) × (made.0 ≡ body m)) ⊎ (refused.0 ≡ body m)
  admitted true refused made m e = inr e
  admitted false refused made m e = inl (refl, e)

  -- A monitor that CreateMonitor of the API answers with is the one that was asked for: its interval
  -- in seconds, its timeout in milliseconds, its thresholds, its location and whether that one is
  -- required are those of the request, and its name is that name without the space around it. The
  -- numbers of the request are int32.
  pub create_monitor-IsAsked :
      (r : CreateMonitorRequest) (m : Monitor) (w : World D)
      → IsRequest r
      → (create_monitor env parse_uuid encoding library (some r) w).0 ≡ body m
      → IsAsked parse_uuid r m
  unfolding create_monitor
  create_monitor-IsAsked r m w h e =
      elim (admitted (bad_threshold r.failure_threshold || bad_threshold r.recovery_threshold) _ _ m
        e) [
          | inl (good, made) ↦
              created r (probe_from_api encoding r.probe) m w h (ground (arith, good))
                (ground (arith, good)) made
          | inr refused ↦ absurd (from_error-not-body _ m refused)
        ]
