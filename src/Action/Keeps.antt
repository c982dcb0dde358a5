-- ===== src/Action/Keeps.antt =====
-- Invariants of actions, a rule for each way to build one.
use xisnove.Prelude.{Bool, true, false, if◌then◌else◌, ℕ}
use xisnove.Result.{Error, Result, ok, err}
use xisnove.Action.{
  World, Action, Query, pure, raise, lift, run_query, ask, ask_or_fail, attempt, ensure,
  continue_with, ◌>>=◌,
}

-- The action leaves `P` true of the database, whether it succeeds or fails.
pub record Keeps {D A : Type 0} (P : D → Type 0) (m : Action D A) : Type 0 where
  pub at : (w : World D) → P w.db → P (m w).1.db

module _ {D A : Type 0} {P : D → Type 0} where
  pub Keeps-pure : (a : A) → Keeps P (pure a)
  Keeps-pure a = record { at = λ w h. h }

  pub Keeps-raise : (e : Error) → Keeps P (raise {A = A} e)
  Keeps-raise e = record { at = λ w h. h }

  pub Keeps-lift : (r : Result A) → Keeps P (lift r)
  Keeps-lift r = record { at = λ w h. h }

  pub Keeps-ask : (f : ℕ → A) → Keeps P (ask f)
  Keeps-ask f = record { at = λ w h. h }

  Keeps-ask_or_fail : (f : ℕ → Result A) → Keeps P (ask_or_fail f)
  Keeps-ask_or_fail f = record { at = λ w h. h }

  pub Keeps-run_query : (q : Query D A) → ((d : D) → P d → P (q d).1) → Keeps P (run_query q)
  Keeps-run_query q k = record { at = λ w h. k w.db h }

  Keeps-attempt : (m : Action D A) → Keeps P m → Keeps P (attempt m)
  Keeps-attempt m k = record { at = k.at }

  pub Keeps-if :
      (b : Bool) (m n : Action D A) → Keeps P m → Keeps P n → Keeps P (if b then m else n)
  Keeps-if true m n km kn = km
  Keeps-if false m n km kn = kn

pub Keeps-ensure : {D : Type 0} {P : D → Type 0} (b : Bool) (e : Error) → Keeps P (ensure b e)
Keeps-ensure true e = record { at = λ w h. h }
Keeps-ensure false e = record { at = λ w h. h }

module _ {D A B : Type 0} {P : D → Type 0} where
  continue-Keeps :
      (r : Result A) (f : A → Action D B) → ((a : A) → Keeps P (f a)) → Keeps P (continue_with r f)
  continue-Keeps (ok a) f k = record { at = (k a).at }
  continue-Keeps (err e) f k = record { at = λ w h. h }

  pub Keeps-bind :
      (m : Action D A) (f : A → Action D B)
      → Keeps P m
      → ((a : A) → Keeps P (f a))
      → Keeps P (m >>= f)
  Keeps-bind m f km kf = record {
    at = λ w h. let (r, w') = m w in (continue-Keeps r f kf).at w' (km.at w h);
  }
