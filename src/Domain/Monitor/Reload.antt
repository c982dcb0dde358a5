-- ===== src/Domain/Monitor/Reload.antt =====
-- What the constructors of internal/domain/monitor.go guarantee, and whether they accept again what
-- they made. The stores rebuild every monitor that they load by the same constructors, from a row
-- that keeps milliseconds: Sqlite/Monitors/Reload.antt has that row in between.
use mathlib.Core.Path.{subst}
use xisnove.Prelude.{Bool, true, false, ◌<◌, ◌≡◌, arith, if◌then◌else◌, Bool-cases, inl, inr}
use xisnove.Prelude.Int.{pos, ◌<ℤ◌}
use xisnove.Prelude.Text.{is_empty, trim_space}
use xisnove.Prelude.Text.Trimmed.{trim_space_idem}
use xisnove.Result.{ok, err, invalid_monitor}
use xisnove.Domain.Monitor.{
  MonitorKind, http, tcp, dns, HttpProbe, TcpProbe, DnsProbe, Monitor, MonitorFields, no_http,
  no_tcp, no_dns, new_monitor, valid_monitor_fields, normalize_dns_name,
}
use xisnove.Domain.Monitor.Build.{
  Library, with_method, http_refused, tcp_refused, dns_refused, normalize_dns, new_http_monitor,
  new_tcp_monitor, new_dns_monitor,
}

-- A monitor's own fields as parameters of a constructor.
abbrev pub monitor_fields : Monitor → MonitorFields
monitor_fields m = record {
  id = m.id;
  name = m.name;
  interval = m.interval;
  timeout = m.timeout;
  failure_threshold = m.failure_threshold;
  recovery_threshold = m.recovery_threshold;
  created_at = m.created_at;
}

-- What every accepted monitor satisfies.
pub record IsValidMonitor (m : Monitor) : Type 0 where
  pub named : is_empty m.name ≡ false
  pub timeout_positive : pos 0 <ℤ m.timeout
  pub timeout_short : m.timeout <ℤ m.interval
  pub failures_positive : 0 < m.failure_threshold
  pub recoveries_positive : 0 < m.recovery_threshold
  pub on : m.enabled ≡ true
  pub due_at_once : m.next_run_at ≡ m.created_at

-- The fields with the name that a constructor keeps.
abbrev kept : MonitorFields → MonitorFields
kept p = record p { name = trim_space p.name }

valid_monitor_fields-kept :
    (p : MonitorFields) → valid_monitor_fields (kept p) ≡ valid_monitor_fields p
unfolding valid_monitor_fields
valid_monitor_fields-kept p = rw (trim_space_idem p.name)

new_monitor-IsValidMonitor :
    (p : MonitorFields) (k : MonitorKind) (a : HttpProbe) (b : TcpProbe) (c : DnsProbe)
    → valid_monitor_fields p ≡ true
    → IsValidMonitor (record (new_monitor p k) { http = a; tcp = b; dns = c })
unfolding valid_monitor_fields new_monitor
new_monitor-IsValidMonitor p k a b c h = ground arith

-- What a constructor that tests, then builds, has built.
built :
    {refused : Bool} {made m : Monitor}
    → (if refused then err invalid_monitor else ok made) ≡ ok m
    → (refused ≡ false) × (made ≡ m)
built h = ground arith

with_method_idem : (probe : HttpProbe) → with_method (with_method probe) ≡ with_method probe
with_method_idem probe = ground arith

http_refused-kept :
    (library : Library) (p : MonitorFields) (probe : HttpProbe)
    → http_refused library (kept p) (with_method probe) ≡ http_refused library p probe
unfolding http_refused
http_refused-kept library p probe =
    rw (valid_monitor_fields-kept p)
      (elim (Bool-cases (is_empty probe.method)) [ inl e ↦ rw e | inr e ↦ rw (e, e) ])

http_refused-valid :
    (library : Library) (p : MonitorFields) (probe : HttpProbe)
    → http_refused library p probe ≡ false
    → valid_monitor_fields p ≡ true
unfolding http_refused
http_refused-valid library p probe h = ground arith

-- An HTTP monitor that the constructor accepts is valid, and the constructor makes the same monitor
-- again from its fields and its probe.
pub new_http_monitor_reload :
    (library : Library) (p : MonitorFields) (probe : HttpProbe) (m : Monitor)
    → new_http_monitor library p probe ≡ ok m
    → IsValidMonitor m × (new_http_monitor library (monitor_fields m) m.http ≡ ok m)
unfolding new_http_monitor new_monitor
new_http_monitor_reload library p probe m h =
    let (r, e) = built h in
    subst
      (λ (x : Monitor).
        IsValidMonitor x × (new_http_monitor library (monitor_fields x) x.http ≡ ok x))
      e
      (
        new_monitor-IsValidMonitor p http (with_method probe) no_tcp no_dns
            (http_refused-valid library p probe r),
        rw (http_refused-kept library p probe, r, with_method_idem probe, trim_space_idem p.name),
      )

tcp_refused-kept :
    (p : MonitorFields) (probe : TcpProbe) → tcp_refused (kept p) probe ≡ tcp_refused p probe
unfolding tcp_refused
tcp_refused-kept p probe = rw (valid_monitor_fields-kept p)

tcp_refused-valid :
    (p : MonitorFields) (probe : TcpProbe)
    → tcp_refused p probe ≡ false
    → valid_monitor_fields p ≡ true
unfolding tcp_refused
tcp_refused-valid p probe h = ground arith

-- A TCP monitor that the constructor accepts is valid. The constructor makes the same monitor again
-- from its fields and its probe, if normalising its host once more changes nothing.
new_tcp_monitor_reload :
    (p : MonitorFields) (probe : TcpProbe) (m : Monitor)
    → new_tcp_monitor p probe ≡ ok m
    → normalize_dns_name m.tcp.host ≡ m.tcp.host
    → IsValidMonitor m × (new_tcp_monitor (monitor_fields m) m.tcp ≡ ok m)
unfolding new_tcp_monitor new_monitor
new_tcp_monitor_reload p raw m h =
    let (r, e) = built h in
    let probe = record raw { host = normalize_dns_name raw.host } in
    subst
      (λ (x : Monitor).
        normalize_dns_name x.tcp.host ≡ x.tcp.host
        → IsValidMonitor x × (new_tcp_monitor (monitor_fields x) x.tcp ≡ ok x))
      e
      (λ n. (
        new_monitor-IsValidMonitor p tcp no_http probe no_dns (tcp_refused-valid p probe r),
        rw (n, tcp_refused-kept p probe, r, trim_space_idem p.name),
      ))

dns_refused-kept :
    (p : MonitorFields) (probe : DnsProbe) → dns_refused (kept p) probe ≡ dns_refused p probe
unfolding dns_refused
dns_refused-kept p probe = rw (valid_monitor_fields-kept p)

dns_refused-valid :
    (p : MonitorFields) (probe : DnsProbe)
    → dns_refused p probe ≡ false
    → valid_monitor_fields p ≡ true
unfolding dns_refused
dns_refused-valid p probe h = ground arith

-- A DNS monitor that the constructor accepts is valid. The constructor makes the same monitor again
-- from its fields and its probe, if normalising its name and taking the upper case of its record type once
-- more change nothing.
new_dns_monitor_reload :
    (library : Library) (p : MonitorFields) (probe : DnsProbe) (m : Monitor)
    → new_dns_monitor library p probe ≡ ok m
    → normalize_dns_name m.dns.name ≡ m.dns.name
    → library.to_upper (trim_space m.dns.record_type) ≡ m.dns.record_type
    → IsValidMonitor m × (new_dns_monitor library (monitor_fields m) m.dns ≡ ok m)
unfolding new_dns_monitor new_monitor
new_dns_monitor_reload library p raw m h =
    let (r, e) = built h in
    let probe = normalize_dns library raw in
    subst
      (λ (x : Monitor).
        normalize_dns_name x.dns.name ≡ x.dns.name
        → library.to_upper (trim_space x.dns.record_type) ≡ x.dns.record_type
        → IsValidMonitor x × (new_dns_monitor library (monitor_fields x) x.dns ≡ ok x))
      e
      (λ n u. (
        new_monitor-IsValidMonitor p dns no_http no_tcp probe (dns_refused-valid p probe r),
        rw (
          n,
          u,
          trim_space_idem raw.resolver,
          dns_refused-kept p probe,
          r,
          trim_space_idem p.name,
        ),
      ))
