-- ===== src/Sqlite/Health/Stale.antt =====
-- `ClaimStale` of internal/adapters/sqlitecompat/store.go, called again for the same mark.
use xisnove.Prelude.{
  ◌≡◌, refl, sym, ap, ◌∙◌, String, Bool, true, false, List, [], ◌∷◌, arith, any, Bool-cases, inl,
  inr,
}
use xisnove.Prelude.Int.{eqb_ℤ, leb_ℤ, eq_of_parts}
use xisnove.Result.{ok}
use xisnove.Domain.Health.{Time, LocationHealth}
use xisnove.Sqlite.Tables.{Engine, Db, count_where, update_where}
use xisnove.Sqlite.Tables.Laws.{count_where_none, update_where_none}
use xisnove.Sqlite.Health.{is_claimed, stale_row, claim_stale}

same_time : (a b : Time) → eqb_ℤ a b ≡ true → a ≡ b
same_time a b h = eq_of_parts a b (ground (arith, h))

module _ (engine : Engine) (m l : String) (stale_at : Time) where
  -- The mark was due at this time.
  abbrev was_due : Time → Bool
  was_due at = leb_ℤ (engine.julianday stale_at) (engine.julianday at)

  claimed_due :
      (at : Time) (h : LocationHealth)
      → is_claimed engine m l stale_at at h ≡ true
      → was_due at ≡ true
  claimed_due at h c =
      let e : h.stale_at ≡ stale_at = same_time h.stale_at stale_at (ground (arith, c)) in
      ap (λ t. leb_ℤ (engine.julianday t) (engine.julianday at)) (sym e) ∙ ground (arith, c)

  any_due :
      (at : Time) (rows : List LocationHealth)
      → count_where (is_claimed engine m l stale_at at) rows ≡ 1
      → was_due at ≡ true
  unfolding count_where
  any_due at [] e = ground (arith, e)
  any_due at (h ∷ rows) e = elim (Bool-cases (is_claimed engine m l stale_at at h)) [
    | inl c ↦ claimed_due at h c
    | inr n ↦ any_due at rows (rw n at e)
  ]

  marked :
      (at later : Time) (h : LocationHealth)
      → is_claimed engine m l stale_at later (stale_row engine at h) ≡ false
  unfolding stale_row
  marked at later h = ground arith

  unmarked :
      (at later : Time) (h : LocationHealth)
      → was_due at ≡ true
      → is_claimed engine m l stale_at at h ≡ false
      → is_claimed engine m l stale_at later h ≡ false
  unmarked at later h d n = elim (Bool-cases (eqb_ℤ h.stale_at stale_at)) [
    | inl e ↦
        let due : leb_ℤ (engine.julianday h.stale_at) (engine.julianday at) ≡ true =
          ap (λ t. leb_ℤ (engine.julianday t) (engine.julianday at))
            (same_time h.stale_at stale_at e)
          ∙ d in
        ground (arith, n, due)
    | inr k ↦ ground (arith, k)
  ]

  none_left :
      (at later : Time) (rows : List LocationHealth)
      → was_due at ≡ true
      → any
          (is_claimed engine m l stale_at later)
          (update_where (is_claimed engine m l stale_at at) (stale_row engine at) rows)
        ≡ false
  unfolding update_where
  none_left at later [] d = refl
  none_left at later (h ∷ rows) d = elim (Bool-cases (is_claimed engine m l stale_at at h)) [
    | inl c ↦ rw (c, marked at later h) (none_left at later rows d)
    | inr n ↦ rw (n, unmarked at later h d n) (none_left at later rows d)
  ]

  one_claimed :
      (at : Time) (db : Db)
      → (claim_stale engine m l stale_at at db).0 ≡ ok true
      → count_where (is_claimed engine m l stale_at at) db.location_health ≡ 1
  unfolding claim_stale
  one_claimed at db e = ground (arith, e)

  claimed_rows :
      (at : Time) (db : Db)
      → (claim_stale engine m l stale_at at db).1.location_health
        ≡ update_where (is_claimed engine m l stale_at at) (stale_row engine at) db.location_health
  unfolding claim_stale
  claimed_rows at db = refl

  nothing_claimed :
      (at : Time) (db : Db)
      → any (is_claimed engine m l stale_at at) db.location_health ≡ false
      → claim_stale engine m l stale_at at db ≡ (ok false, db)
  unfolding claim_stale
  nothing_claimed at db n =
      rw
        (
          count_where_none (is_claimed engine m l stale_at at) db.location_health n,
          update_where_none (is_claimed engine m l stale_at at) (stale_row engine at)
              db.location_health n,
        )
        refl

  -- A stale location is marked once: after the mark of a time was claimed, a second claim of the same mark,
  -- at any time, fails and changes nothing, whatever else has changed, if the health of locations has not.
  pub claim_stale-once :
      (at later : Time) (db other : Db)
      → (claim_stale engine m l stale_at at db).0 ≡ ok true
      → other.location_health ≡ (claim_stale engine m l stale_at at db).1.location_health
      → claim_stale engine m l stale_at later other ≡ (ok false, other)
  claim_stale-once at later db other e kept =
      let due = any_due at db.location_health (one_claimed at db e) in
      nothing_claimed later other
        (rw (kept ∙ claimed_rows at db) (none_left at later db.location_health due))
