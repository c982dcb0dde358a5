-- ===== src/Sqlite/Monitors/Reload.antt =====
-- A monitor that internal/adapters/sqlitecompat/store.go creates, and what it loads of it.
use text.Mathlib.Text.{◌==◌ as str_eq}
use text.Mathlib.TextPositions.{eq_refl}
use mathlib.Core.Path.{subst}
use xisnove.Prelude.{
  ℕ, String, ◌*◌, ◌≤◌, ◌<◌, ◌^◌, ◌≡◌, refl, sym, ap, ◌∙◌, Bool, true, false, not, ◌||◌, List, [],
  ◌∷◌, ◌++◌, some, any, ltb, arith, Bool-cases, inl, inr,
}
use xisnove.Prelude.Int.{pos, ◌*ℤ◌, i64, quot}
use xisnove.Result.{Result, ok, err, invalid_monitor, and_then}
use xisnove.Domain.Monitor.{
  Duration, http, tcp, HttpProbe, TcpProbe, Monitor, MonitorFields, probe_of, kind_eq, new_monitor,
  normalize_dns_name,
}
use xisnove.Prelude.Text.{trim_dot, trim_space}
use xisnove.Domain.Monitor.Build.{Library, new_http_monitor, new_tcp_monitor, tcp_refused}
use xisnove.Domain.Monitor.Reload.{monitor_fields, new_http_monitor_reload}
use xisnove.Sqlite.Tables.{MonitorRow, Db, find, milliseconds, from_milliseconds}
use xisnove.Sqlite.Tables.Laws.{find-append}
use xisnove.Sqlite.Mapping.{decode_probe, row_fields, monitor_from_probe, with_columns, map_monitor}
use xisnove.Sqlite.Monitors.{monitor_row, row_checked, create_monitor, mapped, get_monitor}

-- A whole number of milliseconds that an int64 of nanoseconds holds.
abbrev pub IsMillis : Duration → Type 0
IsMillis d = (n : ℕ) × (d ≡ pos (n * 1_000_000)) × (n * 1_000_000 < 2 ^ 63)

-- The columns of a monitor hold its durations and thresholds.
pub record FitsColumns (p : MonitorFields) : Type 0 where
  pub interval : IsMillis p.interval
  pub timeout : IsMillis p.timeout
  pub failures : p.failure_threshold ≤ 65535
  pub recoveries : p.recovery_threshold ≤ 65535

whole_back :
    (n : ℕ)
    → n * 1_000_000 < 2 ^ 63
    → from_milliseconds (milliseconds (pos (n * 1_000_000))) ≡ pos (n * 1_000_000)
unfolding from_milliseconds milliseconds i64 ◌*ℤ◌ quot
whole_back n small = ground arith

milliseconds_back : (d : Duration) → IsMillis d → from_milliseconds (milliseconds d) ≡ d
milliseconds_back d (n, e, small) =
    subst (λ x. from_milliseconds (milliseconds x) ≡ x) (sym e) (whole_back n small)

row_fields-monitor_row :
    (m : Monitor) → FitsColumns (monitor_fields m) → row_fields (monitor_row m) ≡ monitor_fields m
unfolding monitor_row
row_fields-monitor_row m h =
    rw (milliseconds_back m.interval h.interval, milliseconds_back m.timeout h.timeout) refl

-- The rows of other identifiers and names, where a row was inserted.
abbrev clashes : MonitorRow → List MonitorRow → Bool
clashes row rows = any (λ (k : MonitorRow). str_eq k.id row.id || str_eq k.name row.name) rows

any_id :
    (row : MonitorRow) (rows : List MonitorRow)
    → clashes row rows ≡ false
    → any (λ (k : MonitorRow). str_eq k.id row.id) rows ≡ false
any_id row [] h = refl
any_id row (k ∷ rows) h = ground (arith, h, any_id row rows)

found_last :
    (row : MonitorRow) (rows : List MonitorRow)
    → clashes row rows ≡ false
    → find (λ (k : MonitorRow). str_eq k.id row.id) (rows ++ row ∷ []) ≡ some row
unfolding find
found_last row rows h =
    find-append (λ (k : MonitorRow). str_eq k.id row.id) rows (row ∷ [])
    ∙ rw (any_id row rows h, eq_refl row.id) refl

same_id :
    (m : Monitor) (db : Db)
    → clashes (monitor_row m) db.monitors ≡ false
    → find (λ (k : MonitorRow). str_eq k.id m.id) (db.monitors ++ monitor_row m ∷ [])
      ≡ some (monitor_row m)
unfolding monitor_row
same_id m db e = found_last (monitor_row m) db.monitors e

-- The row that was created is the row that is found.
inserted :
    (m : Monitor) (db : Db)
    → (create_monitor m db).0 ≡ ok tt
    → find (λ (k : MonitorRow). str_eq k.id m.id) (create_monitor m db).1.monitors
      ≡ some (monitor_row m)
unfolding create_monitor
inserted m db h =
    elim (Bool-cases (not (row_checked (monitor_row m)) || clashes (monitor_row m) db.monitors)) [
      | inl e ↦ absurd (ground (arith, rw e at h))
      | inr e ↦ rw e (same_id m db (ground (arith, e)))
    ]

get_monitor-create_monitor :
    (library : Library) (m : Monitor) (db : Db)
    → (create_monitor m db).0 ≡ ok tt
    → (get_monitor library m.id (create_monitor m db).1).0 ≡ map_monitor library (monitor_row m)
unfolding get_monitor mapped
get_monitor-create_monitor library m db h = ap (mapped library) (inserted m db h)

http_kind :
    (library : Library) (p : MonitorFields) (probe : HttpProbe) (m : Monitor)
    → new_http_monitor library p probe ≡ ok m
    → m.kind ≡ http
unfolding new_http_monitor new_monitor
http_kind library p probe m e = ground (arith, e)

-- A monitor whose thresholds are uint16 and whose kind is known is what its constructor makes of its row.
loaded :
    (library : Library) (m : Monitor) (outcome : Result Monitor)
    → m.failure_threshold ≤ 65535
    → m.recovery_threshold ≤ 65535
    → kind_eq m.kind m.kind ≡ true
    → monitor_from_probe library (monitor_row m) (probe_of m) ≡ outcome
    → map_monitor library (monitor_row m)
      ≡ and_then outcome (λ made. ok (with_columns (monitor_row m) made))
unfolding map_monitor decode_probe monitor_row probe_of
loaded library m outcome failures recoveries same made =
    rw (under m.failure_threshold m.recovery_threshold failures recoveries, same, made) refl
  where
    under : (f r : ℕ) → f ≤ 65535 → r ≤ 65535 → (ltb 65535 f || ltb 65535 r) ≡ false
    under f r a b = ground arith

http_from :
    (library : Library) (m : Monitor)
    → m.kind ≡ http
    → monitor_from_probe library (monitor_row m) (probe_of m)
      ≡ new_http_monitor library (row_fields (monitor_row m)) m.http
unfolding monitor_from_probe probe_of
http_from library m kind = rw kind refl

http_loads :
    (library : Library) (m : Monitor)
    → m.kind ≡ http
    → FitsColumns (monitor_fields m)
    → new_http_monitor library (monitor_fields m) m.http ≡ ok m
    → map_monitor library (monitor_row m) ≡ ok m
unfolding monitor_row
http_loads library m kind fits made =
    loaded library m (ok m) fits.failures fits.recoveries (rw kind refl) (
      http_from library m kind
      ∙ ap (λ x. new_http_monitor library x m.http) (row_fields-monitor_row m fits)
      ∙ made)

-- The probe with a host of two dots, and of one.
abbrev dots : String → TcpProbe → TcpProbe
dots host probe = record probe { host = host }

one_dot : normalize_dns_name ".." ≡ "."
unfolding normalize_dns_name trim_dot trim_space
one_dot = refl

no_dot : normalize_dns_name "." ≡ ""
unfolding normalize_dns_name trim_dot trim_space
no_dot = refl

-- The tests on a host say only that it is not empty.
other_host :
    (p : MonitorFields) (probe : TcpProbe) (host : String)
    → tcp_refused p (dots host probe) ≡ false
    → tcp_refused p (dots "." probe) ≡ false
unfolding tcp_refused
other_host p probe host h = ground (arith, h)

accepted_tests :
    (p : MonitorFields) (probe : TcpProbe) (m : Monitor)
    → new_tcp_monitor p probe ≡ ok m
    → tcp_refused p (dots (normalize_dns_name probe.host) probe) ≡ false
unfolding new_tcp_monitor
accepted_tests p probe m h = ground (arith, h)

-- The monitor of a TCP probe with the host ".".
abbrev pub dotted : MonitorFields → TcpProbe → Monitor
dotted p probe = record (new_monitor p tcp) { tcp = dots "." probe }

dots_accepted :
    (p : MonitorFields) (probe : TcpProbe)
    → tcp_refused p (dots "." probe) ≡ false
    → new_tcp_monitor p (dots ".." probe) ≡ ok (dotted p probe)
unfolding new_tcp_monitor
dots_accepted p probe h = rw (one_dot, h) refl

dots_refused :
    (p : MonitorFields) (probe : TcpProbe)
    → new_tcp_monitor p (dots "." probe) ≡ err invalid_monitor
unfolding new_tcp_monitor tcp_refused
dots_refused p probe = rw no_dot (ground arith)

dots_lost :
    (library : Library) (p : MonitorFields) (probe : TcpProbe)
    → p.failure_threshold ≤ 65535
    → p.recovery_threshold ≤ 65535
    → map_monitor library (monitor_row (dotted p probe)) ≡ err invalid_monitor
unfolding new_monitor monitor_from_probe probe_of monitor_row
dots_lost library p probe failures recoveries =
    loaded library (dotted p probe) (err invalid_monitor) failures recoveries refl
      (dots_refused (row_fields (monitor_row (dotted p probe))) probe)

-- An HTTP monitor is loaded as it was created: if the constructor accepts a monitor, its interval and
-- its timeout are whole milliseconds that fit a time.Duration, its thresholds are uint16, and the store
-- creates it, then the store loads the same monitor under its identifier.
pub get_monitor-http :
    (library : Library) (p : MonitorFields) (probe : HttpProbe) (m : Monitor) (db : Db)
    → new_http_monitor library p probe ≡ ok m
    → FitsColumns (monitor_fields m)
    → (create_monitor m db).0 ≡ ok tt
    → (get_monitor library m.id (create_monitor m db).1).0 ≡ ok m
get_monitor-http library p probe m db made fits created =
    get_monitor-create_monitor library m db created
    ∙ http_loads library m (http_kind library p probe m made) fits
        (new_http_monitor_reload library p probe m made).1

-- A host of two dots is lost: whatever TCP probe is accepted for a monitor, the probe with the host ".."
-- is accepted too, and makes a monitor with the host "."; where the store has created that monitor, it
-- cannot load it again, since the constructor refuses it as invalid. The thresholds are uint16.
pub new_tcp_monitor_lost :
    (library : Library) (p : MonitorFields) (probe : TcpProbe) (accepted : Monitor) (db : Db)
    → new_tcp_monitor p probe ≡ ok accepted
    → p.failure_threshold ≤ 65535
    → p.recovery_threshold ≤ 65535
    → (create_monitor (dotted p probe) db).0 ≡ ok tt
    → (new_tcp_monitor p (record probe { host = ".." }) ≡ ok (dotted p probe))
      × ((get_monitor library (dotted p probe).id (create_monitor (dotted p probe) db).1).0
          ≡ err invalid_monitor)
new_tcp_monitor_lost library p probe accepted db h failures recoveries created = (
  dots_accepted p probe (other_host p probe _ (accepted_tests p probe accepted h)),
  get_monitor-create_monitor library (dotted p probe) db created
      ∙ dots_lost library p probe failures recoveries,
)
