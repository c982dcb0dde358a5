-- ===== src/Action/Ensures.antt =====
-- What an action that succeeds has made true of the database.
use xisnove.Prelude.{Bool, true, false, ◌≡◌, refl, arith}
use xisnove.Result.{Error, Result, ok, err}
use mathlib.Core.Path.{subst}
use xisnove.Action.Meets.{ok_injective}
use xisnove.Action.{World, Action, Query, pure, lift, run_query, ensure, continue_with, ◌>>=◌}
use xisnove.Action.Keeps.{Keeps}

pub record Ensures {D A : Type 0} (P : A → D → Type 0) (m : Action D A) : Type 0 where
  pub at : (w : World D) (a : A) → (m w).0 ≡ ok a → P a (m w).1.db

module _ {D A : Type 0} {P : A → D → Type 0} where
  pub Ensures-run_query :
      (q : Query D A) → ((d : D) (a : A) → (q d).0 ≡ ok a → P a (q d).1) → Ensures P (run_query q)
  Ensures-run_query q h = record { at = λ w a e. h w.db a e }

  pub Ensures-pure : (a : A) → ((d : D) → P a d) → Ensures P (pure a)
  Ensures-pure a h = record { at = λ w b e. subst (λ x. P x w.db) (ok_injective e) (h w.db) }

module _ {D A B : Type 0} {P : B → D → Type 0} where
  continue-Ensures :
      (r : Result A) (f : A → Action D B) (w : World D) (b : B)
      → ((a : A) → Ensures P (f a))
      → (continue_with r f w).0 ≡ ok b
      → P b (continue_with r f w).1.db
  continue-Ensures (ok a) f w b k e = (k a).at w b e
  continue-Ensures (err x) f w b k e = absurd (ground arith)

  pub Ensures-bind :
      (m : Action D A) (f : A → Action D B) → ((a : A) → Ensures P (f a)) → Ensures P (m >>= f)
  Ensures-bind m f k = record { at = λ w b e. continue-Ensures (m w).0 f (m w).1 b k e }

  pub Ensures-lift :
      (r : Result A) (f : A → Action D B)
      → ((a : A) → r ≡ ok a → Ensures P (f a))
      → Ensures P (lift r >>= f)
  Ensures-lift (ok a) f k = record { at = λ w b e. (k a refl).at w b e }
  Ensures-lift (err x) f k = record { at = λ w b e. absurd (ground (arith, e)) }

module _ {D A B : Type 0} {Q : D → Type 0} where
  continue_kept :
      (r : Result A) (f : A → Action D B) (w : World D) (b : B)
      → ((a : A) → r ≡ ok a → Q w.db)
      → ((a : A) → Keeps Q (f a))
      → (continue_with r f w).0 ≡ ok b
      → Q (continue_with r f w).1.db
  continue_kept (ok a) f w b h k e = (k a).at w (h a refl)
  continue_kept (err x) f w b h k e = absurd (ground arith)

  -- What an action has made true stays true through actions that keep it.
  pub Ensures-then :
      (m : Action D A) (f : A → Action D B)
      → Ensures (λ a d. Q d) m
      → ((a : A) → Keeps Q (f a))
      → Ensures (λ b d. Q d) (m >>= f)
  Ensures-then m f h k = record { at = λ w b e. continue_kept (m w).0 f (m w).1 b (h.at w) k e }

module _ {D B : Type 0} {Q : D → Type 0} where
  guarded :
      (t : Bool) (x : Error) (f : Unit {0} → Action D B) (w : World D) (b : B)
      → (t ≡ true → Q w.db)
      → ((u : Unit {0}) → Keeps Q (f u))
      → ((ensure t x >>= f) w).0 ≡ ok b
      → Q ((ensure t x >>= f) w).1.db
  guarded true x f w b h k e = (k tt).at w (h refl)
  guarded false x f w b h k e = absurd (ground arith)

  -- A test that a guard asks for.
  pub Ensures-guard :
      (m : Action D Bool) (x : Error) (f : Unit {0} → Action D B)
      → Ensures (λ t d. t ≡ true → Q d) m
      → ((u : Unit {0}) → Keeps Q (f u))
      → Ensures (λ b d. Q d) (m >>= λ t. ensure t x >>= f)
  Ensures-guard m x f h k = record { at = λ w b e. continue_guarded (m w).0 (m w).1 b (h.at w) e }
    where
      continue_guarded :
          (r : Result Bool) (w : World D) (b : B)
          → ((t : Bool) → r ≡ ok t → t ≡ true → Q w.db)
          → (continue_with r (λ t. ensure t x >>= f) w).0 ≡ ok b
          → Q (continue_with r (λ t. ensure t x >>= f) w).1.db
      continue_guarded (ok t) w b h e = guarded t x f w b (h t refl) k e
      continue_guarded (err y) w b h e = absurd (ground arith)
