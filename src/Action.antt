-- ===== src/Action.antt =====
-- Operations that change the database, ask their environment and may fail. The environment (clock,
-- random identifiers and tokens) is a function of how many times it was asked before: `asked` counts
-- the calls, and a rollback does not take them back.
pub mod Keeps
pub mod Ensures
pub mod Meets
use xisnove.Prelude.{ℕ, suc, Bool, true, false}
use xisnove.Result.{Error, Result, ok, err}

pub record World (D : Type 0) : Type 0 where
  pub db : D
  pub asked : ℕ

abbrev pub Action : Type 0 → Type 0 → Type 0
Action D A = World D → Result A × World D

-- An operation of a repository: it sees the database alone.
abbrev pub Query : Type 0 → Type 0 → Type 0
Query D A = D → Result A × D

module _ {D A : Type 0} where
  abbrev pub pure : A → Action D A
  pure a w = (ok a, w)

  abbrev pub raise : Error → Action D A
  raise e w = (err e, w)

  abbrev pub lift : Result A → Action D A
  lift r w = (r, w)

  abbrev pub run_query : Query D A → Action D A
  run_query q w = let (r, db) = q w.db in (r, record w { db = db })

  -- One call of the environment.
  abbrev pub ask : (ℕ → A) → Action D A
  ask f w = (ok (f w.asked), record w { asked = suc w.asked })

  abbrev pub ask_or_fail : (ℕ → Result A) → Action D A
  ask_or_fail f w = (f w.asked, record w { asked = suc w.asked })

  -- The result of an operation as a value, to test its error.
  abbrev pub attempt : Action D A → Action D (Result A)
  attempt m w = let (r, w') = m w in (ok r, w')

module _ {D A B : Type 0} where
  abbrev pub continue_with : Result A → (A → Action D B) → Action D B
  continue_with (ok a) f w = f a w
  continue_with (err e) f w = (err e, w)

  infixl 5 ◌>>=◌ ◌>>◌
  abbrev pub ◌>>=◌ : Action D A → (A → Action D B) → Action D B
  ◌>>=◌ m f w = let (r, w') = m w in continue_with r f w'

  abbrev pub ◌>>◌ : Action D A → Action D B → Action D B
  m >> n = m >>= λ _. n

-- `if !test { return err }`
abbrev pub ensure : {D : Type 0} → Bool → Error → Action D (Unit {0})
ensure true e w = (ok tt, w)
ensure false e w = (err e, w)
