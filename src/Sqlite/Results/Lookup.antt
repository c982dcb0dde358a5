-- ===== src/Sqlite/Results/Lookup.antt =====
-- What the two lookups of probe_results find.
use text.Mathlib.Text.{◌==◌ as str_eq}
use xisnove.Prelude.{
  ◌≡◌, refl, String, Bool, true, false, arith, any, Option-cases, inl, inr, Bool-cases,
}
use xisnove.Result.{Result, ok, err, not_found}
use xisnove.Application.Records.{ProbeResultRecord}
use xisnove.Sqlite.Tables.{Db, find}
use xisnove.Sqlite.Tables.Laws.{find-none, any-none}
use xisnove.Sqlite.Results.{found, get_result_by_id, get_result_by_run}

-- The answer of a lookup: a row if the test holds of one, not found otherwise; the tables stay.
pub data IsLookup (there : Bool) (db : Db) (answer : Result ProbeResultRecord × Db) : Type 0 where
  hit : (r : ProbeResultRecord) → there ≡ true → answer ≡ (ok r, db) → IsLookup there db answer
  miss : there ≡ false → answer ≡ (err not_found, db) → IsLookup there db answer

lookup :
    (p : ProbeResultRecord → Bool) (db : Db)
    → IsLookup (any p db.probe_results) db (found (find p db.probe_results), db)
unfolding found
lookup p db = elim (Bool-cases (any p db.probe_results)) [
  | inr e ↦ miss e (rw (find-none p db.probe_results e) refl)
  | inl e ↦ elim (Option-cases (find p db.probe_results)) [
    | inl n ↦ absurd (ground (arith, any-none p db.probe_results n))
    | inr (r, s) ↦ hit r e (rw s refl)
  ]
]

pub get_result_by_id-IsLookup :
    (id : String) (db : Db)
    → IsLookup
        (any (λ (r : ProbeResultRecord). str_eq r.id id) db.probe_results)
        db
        (get_result_by_id id db)
unfolding get_result_by_id
get_result_by_id-IsLookup id db = lookup (λ (r : ProbeResultRecord). str_eq r.id id) db

pub get_result_by_run-IsLookup :
    (id : String) (db : Db)
    → IsLookup
        (any (λ (r : ProbeResultRecord). str_eq r.run_id id) db.probe_results)
        db
        (get_result_by_run id db)
unfolding get_result_by_run
get_result_by_run-IsLookup id db = lookup (λ (r : ProbeResultRecord). str_eq r.run_id id) db
