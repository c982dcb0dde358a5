-- ===== src/Action/Meets.antt =====
-- Actions with a condition before and, when they succeed, one after that may name the result.
use mathlib.Core.Path.{subst}
use xisnove.Prelude.{Bool, true, false, ◌≡◌, refl, arith, ℕ, if◌then◌else◌}
use xisnove.Result.{Result, ok, err}
use xisnove.Action.{World, Action, Query, pure, run_query, ask, continue_with, ◌>>=◌}

pub record Meets {D A : Type 0} (Before : D → Type 0) (m : Action D A) (After : A → D → Type 0)
    : Type 0 where
  pub at : (w : World D) (a : A) → Before w.db → (m w).0 ≡ ok a → After a (m w).1.db

pub ok_injective {ℓ} : {A : Type ℓ} {x y : A} → ok x ≡ ok y → x ≡ y
ok_injective h = cc

module _ {D A : Type 0} {P : D → Type 0} {Q : A → D → Type 0} where
  pub Meets-run_query :
      (q : Query D A)
      → ((d : D) (a : A) → P d → (q d).0 ≡ ok a → Q a (q d).1)
      → Meets P (run_query q) Q
  Meets-run_query q h = record { at = λ w a p e. h w.db a p e }

  pub Meets-ask : (f : ℕ → A) → ((d : D) (n : ℕ) → P d → Q (f n) d) → Meets P (ask f) Q
  Meets-ask f h = record {
    at = λ w a p e. subst (λ x. Q x w.db) (ok_injective e) (h w.db w.asked p);
  }

  pub Meets-pure : (a : A) → ((d : D) → P d → Q a d) → Meets P (pure a) Q
  Meets-pure a h = record { at = λ w b p e. subst (λ x. Q x w.db) (ok_injective e) (h w.db p) }

  pub Meets-if :
      (b : Bool) (m n : Action D A)
      → (b ≡ true → Meets P m Q)
      → (b ≡ false → Meets P n Q)
      → Meets P (if b then m else n) Q
  Meets-if true m n km kn = km refl
  Meets-if false m n km kn = kn refl

module _ {D A B : Type 0} {R : B → D → Type 0} where
  continue-Meets :
      (Q : A → D → Type 0) (r : Result A) (f : A → Action D B) (w : World D) (b : B)
      → ((a : A) → r ≡ ok a → Q a w.db)
      → ((a : A) → Meets (Q a) (f a) R)
      → (continue_with r f w).0 ≡ ok b
      → R b (continue_with r f w).1.db
  continue-Meets Q (ok a) f w b q k e = (k a).at w b (q a refl) e
  continue-Meets Q (err x) f w b q k e = absurd (ground arith)

  pub Meets-bind :
      {P : D → Type 0} (Q : A → D → Type 0) (m : Action D A) (f : A → Action D B)
      → Meets P m Q
      → ((a : A) → Meets (Q a) (f a) R)
      → Meets P (m >>= f) R
  Meets-bind Q m f km kf = record {
    at = λ w b p e. continue-Meets Q (m w).0 f (m w).1 b (λ a r. km.at w a p r) kf e;
  }
