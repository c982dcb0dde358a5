-- ===== src/Sqlite/Incidents/Active.antt =====
-- The active incident of a monitor after the statements that open, change and recover incidents.
use text.Mathlib.Text.{◌==◌ as str_eq}
use text.Mathlib.TextPositions.{eq_refl}
use xisnove.Prelude.{
  ◌≤◌, ◌≡◌, refl, sym, ap, ◌∙◌, String, true, false, List, [], ◌∷◌, Option, none, some, arith,
  Bool-cases, inl, inr,
}
use xisnove.Result.{ok}
use xisnove.Domain.Health.{Time, HealthState}
use xisnove.Domain.Incident.{Incident, IncidentSeverity}
use xisnove.Sqlite.Tables.{Db, find, count_where, update_where, is_null, nullable_time}
use xisnove.Sqlite.Tables.Laws.{find-append, find-update_where, find-holds}
use xisnove.Sqlite.Incidents.{
  is_active_of, is_open, open_incident_row, change_row, recover_row, update_incident,
}

some_injective {ℓ} : {A : Type ℓ} {a b : A} → some a ≡ some b → a ≡ b
some_injective h = cc

-- The active incident of a monitor.
abbrev pub active_of : String → Db → Option Incident
active_of m db = find (is_active_of m) db.incidents

-- Opening, when it succeeds, makes this incident the active one.
pub active_of-open :
    (m : String) (i : Incident) (db : Db)
    → i.monitor_id ≡ m
    → i.recovered_at ≡ none
    → (open_incident_row i db).0 ≡ ok tt
    → active_of m (open_incident_row i db).1 ≡ some i
unfolding open_incident_row find
active_of-open m i db h r e = ground (
  arith,
  find-append (is_active_of m) db.incidents (record i { recovered_at = none } ∷ []),
  eq_refl m,
)

-- Changing the active incident leaves it active, with the new values.
pub active_of-change :
    (m : String) (old : Incident) (state : HealthState) (severity : IncidentSeverity) (at : Time)
    (db : Db)
    → active_of m db ≡ some old
    → let new = record old { state = state; severity = severity; last_transition_at = at } in
      active_of m (update_incident new db).1 ≡ some new
unfolding update_incident change_row
active_of-change m old state severity at db a =
    let new : Incident = record old {
      state = state;
      severity = severity;
      last_transition_at = at;
    } in
    let null : is_null old.recovered_at ≡ true =
      ground (arith, find-holds (is_active_of m) db.incidents old a) in
    rw null (
      find-update_where (is_active_of m) (is_open old.id) (change_row new) db.incidents (λ r. refl)
      ∙ rw (a, eq_refl old.id, null) refl)

-- Recovering makes no incident active that was not.
recover_row-active :
    (m : String) (new i : Incident)
    → is_null (nullable_time new.recovered_at) ≡ false
    → is_active_of m (recover_row new i) ≡ false
unfolding recover_row
recover_row-active m new i r = ground arith

none_stays :
    (m id : String) (new : Incident) (rows : List Incident)
    → is_null (nullable_time new.recovered_at) ≡ false
    → count_where (is_active_of m) rows ≡ 0
    → find (is_active_of m) (update_where (is_open id) (recover_row new) rows) ≡ none
unfolding find update_where count_where
none_stays m id new [] r e = refl
none_stays m id new (x ∷ rows) r e =
    ground (arith, none_stays m id new rows r, recover_row-active m new x r)

head_active :
    (m : String) (old x : Incident) (rows : List Incident)
    → is_active_of m x ≡ true
    → find (is_active_of m) (x ∷ rows) ≡ some old
    → is_open old.id x ≡ true
unfolding find
head_active m old x rows y e =
    let q : x ≡ old = some_injective (rw y at e) in
    let named : str_eq x.id old.id ≡ true =
      ap (λ (k : Incident). str_eq x.id k.id) (sym q) ∙ eq_refl x.id in
    rw named (ground (arith, y))

one_recovered :
    (m : String) (old new : Incident) (rows : List Incident)
    → is_null (nullable_time new.recovered_at) ≡ false
    → find (is_active_of m) rows ≡ some old
    → count_where (is_active_of m) rows ≤ 1
    → find (is_active_of m) (update_where (is_open old.id) (recover_row new) rows) ≡ none
unfolding find update_where count_where
one_recovered m old new [] r e c = ground arith
one_recovered m old new (x ∷ rows) r e c = elim (Bool-cases (is_active_of m x)) [
  | inl y ↦
      rw (head_active m old x rows y e, recover_row-active m new x r)
        (none_stays m old.id new rows r (ground (arith, y, c)))
  | inr n ↦ ground (arith, n, e, c, recover_row-active m new x r, one_recovered m old new rows r)
]

-- With at most one active incident of the monitor, recovering it leaves none.
pub active_of-recover :
    (m : String) (old new : Incident) (db : Db)
    → active_of m db ≡ some old
    → count_where (is_active_of m) db.incidents ≤ 1
    → new.id ≡ old.id
    → is_null new.recovered_at ≡ false
    → is_null (nullable_time new.recovered_at) ≡ false
    → active_of m (update_incident new db).1 ≡ none
unfolding update_incident recover_row
active_of-recover m old new db a one same r t =
    rw (r, same) (one_recovered m old new db.incidents t a one)
