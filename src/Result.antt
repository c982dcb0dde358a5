-- ===== src/Result.antt =====
-- Go's `error` values of internal/application and internal/domain, and operations that return one.
-- An error is what `errors.Is` and `errors.As` see of it: the text that `fmt.Errorf("…: %w", err)`
-- puts in front is left out.
use xisnove.Prelude.{String, List, Bool, true, false}

pub data Error : Type 0 where
  not_found conflict invalid_credentials already_bootstrapped invalid_email weak_password : Error
  no_work invalid_enrollment_token invalid_monitor invalid_location invalid_agent : Error
  canceled : Error
  validation : List (String × String) → Error
  other : String → Error

pub data Result {ℓ} (A : Type ℓ) : Type ℓ where
  ok : A → Result A
  err : Error → Result A

-- errors.Is(err, ErrNotFound)
abbrev pub is_not_found : Error → Bool
is_not_found not_found = true
is_not_found _ = false

-- errors.Is(err, ErrNoWork)
abbrev pub is_no_work : Error → Bool
is_no_work no_work = true
is_no_work _ = false

abbrev pub and_then {ℓ κ} : {A : Type ℓ} {B : Type κ} → Result A → (A → Result B) → Result B
and_then (ok a) f = f a
and_then (err e) f = err e
