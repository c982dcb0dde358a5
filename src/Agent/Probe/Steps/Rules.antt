-- ===== src/Agent/Probe/Steps/Rules.antt =====
-- What steps keep of the result, and what they have made sure of when they go on.
use xisnove.Prelude.{◌≡◌, refl, String, Bool, true, false, Option, none, some, arith}
use xisnove.Agent.Controlplane.{ProbeResultInput, ProbeResultInputErrorCode}
use xisnove.Agent.Probe.Steps.{Steps, continue_from, pure, stop, require, ◌>>=◌}

pub record Keeps {A : Type 0} (P : ProbeResultInput → Type 0) (s : Steps A) : Type 0 where
  pub at : (r : ProbeResultInput) → P r → P (s r).1

pub record Yields {A : Type 0} (P : A → Type 0) (s : Steps A) : Type 0 where
  pub at : (r : ProbeResultInput) (a : A) → (s r).0 ≡ some a → P a

pub some_injective {ℓ} : {A : Type ℓ} {x y : A} → some x ≡ some y → x ≡ y
some_injective h = cc

module _ {A B : Type 0} {P : ProbeResultInput → Type 0} where
  continue-Keeps :
      (o : Option A) (r : ProbeResultInput) (f : A → Steps B)
      → P r
      → ((a : A) → Keeps P (f a))
      → P (continue_from (o, r) f).1
  continue-Keeps none r f p k = p
  continue-Keeps (some a) r f p k = (k a).at r p

  pub Keeps-bind :
      (s : Steps A) (f : A → Steps B) → Keeps P s → ((a : A) → Keeps P (f a)) → Keeps P (s >>= f)
  unfolding ◌>>=◌
  Keeps-bind s f k kf = record { at = λ r p. continue-Keeps (s r).0 (s r).1 f (k.at r p) kf }

module _ {P : ProbeResultInput → Type 0} where
  pub Keeps-pure : {A : Type 0} (a : A) → Keeps P (pure a)
  Keeps-pure a = record { at = λ r p. p }

  pub Keeps-require :
      (test : Bool) (code : ProbeResultInputErrorCode) (sample : String)
      → Keeps {A = Unit {0}} P (stop code sample)
      → Keeps P (require test code sample)
  unfolding require
  Keeps-require true code sample k = record { at = λ r p. p }
  Keeps-require false code sample k = k

module _ {A B : Type 0} {P : B → Type 0} where
  continue-Yields :
      (Q : A → Type 0) (o : Option A) (r : ProbeResultInput) (f : A → Steps B) (b : B)
      → ((a : A) → o ≡ some a → Q a)
      → ((a : A) → Q a → Yields P (f a))
      → (continue_from (o, r) f).0 ≡ some b
      → P b
  continue-Yields Q none r f b h k e = absurd (ground (arith, e))
  continue-Yields Q (some a) r f b h k e = (k a (h a refl)).at r b e

  pub Yields-bind :
      (Q : A → Type 0) (s : Steps A) (f : A → Steps B)
      → Yields Q s
      → ((a : A) → Q a → Yields P (f a))
      → Yields P (s >>= f)
  unfolding ◌>>=◌
  Yields-bind Q s f h k = record {
    at = λ r b e. continue-Yields Q (s r).0 (s r).1 f b (h.at r) k e;
  }

pub Yields-any : {A : Type 0} (s : Steps A) → Yields (λ a. Unit {0}) s
Yields-any s = record { at = λ r a e. tt }

pub Yields-require :
    (test : Bool) (code : ProbeResultInputErrorCode) (sample : String)
    → Yields (λ u. test ≡ true) (require test code sample)
unfolding require
Yields-require true code sample = record { at = λ r a e. refl }
Yields-require false code sample = record { at = λ r a e. absurd (ground (arith, e)) }
