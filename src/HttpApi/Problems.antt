-- ===== src/HttpApi/Problems.antt =====
-- internal/adapters/httpapi/problems.go, and problemFromError of configuration.go.
use Prim.Native.Nat.{Ordering}
use Prim.Native.String.{compare}
use text.Mathlib.Text.{◌==◌ as str_eq}
use xisnove.Prelude.{
  ℕ, String, Bool, true, false, ◌&&◌, List, [], ◌∷◌, Option, none, some, any, leb, if◌then◌else◌,
}
use xisnove.Result.{
  Error, validation, not_found, conflict, invalid_credentials, invalid_enrollment_token,
}

pub record FieldError : Type 0 where
  pub field : String
  pub message : String

pub record Problem : Type 0 where
  pub type : String
  pub title : String
  pub status : ℕ
  pub code : String
  pub correlation_id : String
  pub detail : Option String
  pub field_errors : Option (List FieldError)

-- The entries of the map `Fields`: the last one of a key counts.
unfoldable pub entries : List (String × String) → List FieldError
entries [] = []
entries ((key, message) ∷ rest) =
    let others = entries rest in
    if any (λ (e : FieldError). str_eq e.field key) others
    then others
    else record { field = key; message = message } ∷ others

unfoldable pub insert_entry : FieldError → List FieldError → List FieldError
insert_entry e [] = e ∷ []
insert_entry e (f ∷ rest) =
    let later = insert_entry e rest in
    elim (compare f.field e.field) [ Ordering.lt ↦ f ∷ later | _ ↦ e ∷ f ∷ rest ]

-- sort.Strings of the keys, with their messages
unfoldable pub sort_entries : List FieldError → List FieldError
unfolding insert_entry
sort_entries [] = []
sort_entries (e ∷ rest) = insert_entry e (sort_entries rest)

abbrev pub plain : String → String → ℕ → String → Problem
plain type title status code = record {
  type = type;
  title = title;
  status = status;
  code = code;
  correlation_id = "unknown";
  detail = none;
  field_errors = none;
}

unfoldable pub problem_from_error : Error → Option (Problem × ℕ)
unfolding entries sort_entries
problem_from_error (validation fields) = some (
  record (plain "https://xisnove.dev/problems/validation" "Request validation failed" 400
      "validation_failed") { field_errors = some (sort_entries (entries fields)) },
  400,
)
problem_from_error not_found =
    some (plain "https://xisnove.dev/problems/not-found" "Resource not found" 404 "not_found", 404)
problem_from_error conflict =
    some
      (plain "https://xisnove.dev/problems/conflict" "Resource already exists" 409 "conflict", 409)
problem_from_error invalid_credentials = some (
  plain "https://xisnove.dev/problems/unauthorized" "Authentication required" 401 "unauthorized",
  401,
)
problem_from_error invalid_enrollment_token = some (
  plain "https://xisnove.dev/problems/unauthorized" "Authentication required" 401 "unauthorized",
  401,
)
problem_from_error _ = none

abbrev corrected : String → Option (Problem × ℕ) → Problem
corrected correlation_id (some (problem, status)) = record problem {
  correlation_id = correlation_id;
}
corrected correlation_id none =
    record (plain "https://xisnove.dev/problems/internal" "Internal server error" 500
      "internal_error") {
        correlation_id = correlation_id;
        detail = some "An unexpected error occurred.";
      }

unfoldable pub to_problem : Error → String → Problem
unfolding problem_from_error
to_problem e correlation_id = corrected correlation_id (problem_from_error e)

unfoldable pub status_for_problem : Problem → ℕ
status_for_problem problem =
    if leb 400 problem.status && leb problem.status 599 then problem.status else 500

unfoldable pub is_authentication_error : Error → Bool
is_authentication_error invalid_credentials = true
is_authentication_error invalid_enrollment_token = true
is_authentication_error _ = false
