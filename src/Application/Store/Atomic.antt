-- ===== src/Application/Store/Atomic.antt =====
-- Requests that leave the database as it was when they fail: their only change is a transaction.
use mathlib.Core.Path.{subst}
use xisnove.Action.Meets.{Meets}
use xisnove.Prelude.{sym, ◌≡◌, refl, ap, ◌∙◌, arith, ℕ, Bool, true, false}
use xisnove.Result.{Error, Result, ok, err}
use xisnove.Action.{
  World, Action, Query, pure, lift, run_query, ask, ask_or_fail, ensure, continue_with, ◌>>=◌,
}
use xisnove.Application.Store.{Store, within_tx, finish_tx}

-- An action that leaves the database as it was when it fails.
pub record IsAtomic {D A : Type 0} (m : Action D A) : Type 0 where
  pub at : (w : World D) (e : Error) → (m w).0 ≡ err e → (m w).1.db ≡ w.db

-- An action that never changes the database.
pub record ReadsOnly {D A : Type 0} (m : Action D A) : Type 0 where
  pub at : (w : World D) → (m w).1.db ≡ w.db

module _ {D A : Type 0} where
  finish_tx-IsAtomic :
      (store : Store D) (before : World D) (r : Result A) (after : World D) (e : Error)
      → (finish_tx store before (r, after)).0 ≡ err e
      → (finish_tx store before (r, after)).1.db ≡ before.db
  unfolding finish_tx
  finish_tx-IsAtomic store before (err x) after e h = refl
  finish_tx-IsAtomic store before (ok a) after e h = ground arith

  pub within_tx-IsAtomic : (store : Store D) (m : Action D A) → IsAtomic (within_tx store m)
  unfolding within_tx
  within_tx-IsAtomic store m = record {
    at = λ w e h. ground (arith, finish_tx-IsAtomic store w (m w).0 (m w).1 e);
  }

  pub ReadsOnly-lift : (r : Result A) → ReadsOnly (lift {D = D} r)
  ReadsOnly-lift r = record { at = λ w. refl }

  pub ReadsOnly-ask : (f : ℕ → A) → ReadsOnly (ask {D = D} f)
  ReadsOnly-ask f = record { at = λ w. refl }

  pub ReadsOnly-ask_or_fail : (f : ℕ → Result A) → ReadsOnly (ask_or_fail {D = D} f)
  ReadsOnly-ask_or_fail f = record { at = λ w. refl }

  pub ReadsOnly-run_query : (q : Query D A) → ((d : D) → (q d).1 ≡ d) → ReadsOnly (run_query q)
  ReadsOnly-run_query q h = record { at = λ w. h w.db }

  IsAtomic-pure : (a : A) → IsAtomic (pure {D = D} a)
  IsAtomic-pure a = record { at = λ w e h. refl }

pub ReadsOnly-ensure : {D : Type 0} (b : Bool) (e : Error) → ReadsOnly (ensure {D = D} b e)
ReadsOnly-ensure true e = record { at = λ w. refl }
ReadsOnly-ensure false e = record { at = λ w. refl }

module _ {D A B : Type 0} where
  continue-IsAtomic :
      (d : D) (r : Result A) (f : A → Action D B) (w : World D) (e : Error)
      → w.db ≡ d
      → ((a : A) → IsAtomic (f a))
      → (continue_with r f w).0 ≡ err e
      → (continue_with r f w).1.db ≡ d
  continue-IsAtomic d (ok a) f w e p k h = (k a).at w e h ∙ p
  continue-IsAtomic d (err x) f w e p k h = p

  pub IsAtomic-bind :
      (m : Action D A) (f : A → Action D B)
      → ReadsOnly m
      → ((a : A) → IsAtomic (f a))
      → IsAtomic (m >>= f)
  IsAtomic-bind m f r k = record {
    at = λ w e h. continue-IsAtomic w.db (m w).0 f (m w).1 e (r.at w) k h;
  }

  continue-IsAtomic_pure :
      (r : Result A) (g : A → B) (w : World D) (e : Error)
      → (continue_with r (λ a. pure (g a)) w).0 ≡ err e
      → (r ≡ err e) × ((continue_with r (λ a. pure (g a)) w).1 ≡ w)
  continue-IsAtomic_pure (ok a) g w e h = ground arith
  continue-IsAtomic_pure (err x) g w e h = (ground arith, refl)

  pub IsAtomic-return : (m : Action D A) (g : A → B) → IsAtomic m → IsAtomic (m >>= λ a. pure (g a))
  IsAtomic-return m g k = record {
    at = λ w e h.
        let (p, q) = continue-IsAtomic_pure (m w).0 g (m w).1 e h in
        ap (λ (x : World D). x.db) q ∙ k.at w e p;
  }

module _ {D A : Type 0} where
  finish_ok :
      (store : Store D) (before : World D) (r : Result A) (after : World D) (a : A)
      → (finish_tx store before (r, after)).0 ≡ ok a
      → (r ≡ ok a) × ((finish_tx store before (r, after)).1 ≡ after)
  unfolding finish_tx
  finish_ok store before (err x) after a e = absurd (ground arith)
  finish_ok store before (ok c) after a e = ground arith

  within_ok :
      (store : Store D) (m : Action D A) (w : World D) (a : A)
      → (within_tx store m w).0 ≡ ok a
      → ((m w).0 ≡ ok a) × ((within_tx store m w).1 ≡ (m w).1)
  unfolding within_tx
  within_ok store m w a e = ground (arith, finish_ok store w (m w).0 (m w).1 a)

  -- A transaction that succeeds does what its body does.
  pub within_tx-Meets :
      {P : D → Type 0} {Q : A → D → Type 0} (store : Store D) (m : Action D A)
      → Meets P m Q
      → Meets P (within_tx store m) Q
  within_tx-Meets {P} {Q} store m k = record {
    at = λ w a p e.
        let (r, s) = within_ok store m w a e in
        subst (λ (x : World D). Q a x.db) (sym s) (k.at w a p r);
  }
