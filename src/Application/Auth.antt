-- ===== src/Application/Auth.antt =====
-- internal/application/auth.go: the administrator and the sessions.
use text.Mathlib.Text.{◌==◌ as str_eq}
use Prim.Native.String.{count}
use xisnove.Prelude.{
  ℕ, String, Bool, true, false, not, Option, none, some, ◌==◌, ltb, if◌then◌else◌,
}
use xisnove.Prelude.Int.{◌+ℤ◌}
use xisnove.Prelude.Text.{is_empty, trim_space}
use xisnove.Result.{
  Result, ok, err, already_bootstrapped, invalid_credentials, invalid_email, weak_password,
  is_not_found,
}
use xisnove.Action.{
  Action, pure, raise, lift, run_query, ask, ask_or_fail, attempt, ensure, ◌>>=◌, ◌>>◌,
}
use xisnove.Domain.Health.{Time}
use xisnove.Domain.Monitor.{Duration}
use xisnove.Application.Records.{AdminRecord}
use xisnove.Application.Store.{within_tx}
use xisnove.Application.Environment.{principal_admin, Principal, Environment}

-- Go's library: `strings.ToLower`, and the address that `mail.ParseAddress` finds.
pub record Mail : Type 0 where
  pub to_lower : String → String
  pub parse_address : String → Option String

-- `PasswordHasher`: a hash draws a salt, so it asks the environment.
pub record Passwords : Type 0 where
  pub hash : String → ℕ → Result String
  pub verify : String → String → Bool

pub record SessionCredential : Type 0 where
  pub token : String
  pub expires_at : Time

unfoldable pub normalize_email : Mail → String → Result String
normalize_email mail value =
    let normalized = mail.to_lower (trim_space value) in
    elim (mail.parse_address normalized) [
      | none ↦ err invalid_email
      | some address ↦ if str_eq address normalized then ok normalized else err invalid_email
    ]

abbrev pub is_ok {ℓ} : {A : Type ℓ} → Result A → Bool
is_ok (ok a) = true
is_ok (err e) = false

module _ {D : Type 0} (env : Environment D) (mail : Mail) (passwords : Passwords) where
  open env.store.repositories use {admins, sessions}

  -- The transaction of `BootstrapAdmin`.
  unfoldable pub create_first : AdminRecord → Action D (Unit {0})
  create_first admin = do
    n ← run_query admins.count
    ensure (n == 0) already_bootstrapped
    run_query (admins.create admin)

  unfoldable pub bootstrap_admin : String → String → Action D (Unit {0})
  bootstrap_admin email password = do
    normalized ← lift (normalize_email mail email)
    ensure (not (ltb (count password) 16)) weak_password
    password_hash ← ask_or_fail (passwords.hash password)
    id ← ask env.new_id
    now ← ask env.now
    within_tx env.store (
        create_first
          (record { id = id; email = normalized; password_hash = password_hash; created_at = now }))

  or_bad_credentials : {A : Type 0} → Result A → Action D A
  or_bad_credentials (ok a) = pure a
  or_bad_credentials (err e) = raise (if is_not_found e then invalid_credentials else e)

  email_or_bad_credentials : Result String → Action D String
  email_or_bad_credentials (ok email) = pure email
  email_or_bad_credentials (err e) = raise invalid_credentials

  unfoldable pub create_session : Duration → String → String → Action D SessionCredential
  unfolding or_bad_credentials email_or_bad_credentials
  create_session session_duration email password = do
    normalized ← email_or_bad_credentials (normalize_email mail email)
    outcome ← attempt (run_query (admins.find_by_email normalized))
    admin ← or_bad_credentials outcome
    ensure (passwords.verify admin.password_hash password) invalid_credentials
    token ← ask_or_fail env.new_token
    now ← ask env.now
    id ← ask env.new_id
    let expires_at = now +ℤ session_duration
    run_query (
        sessions.create (record {
          id = id;
          admin_id = admin.id;
          token_hash = token.hash;
          expires_at = expires_at;
          revoked_at = none;
        }))
    pure (record { token = token.raw; expires_at = expires_at })

  unfoldable pub authenticate_session : String → Action D Principal
  unfolding or_bad_credentials
  authenticate_session raw_token = do
    ensure (not (is_empty raw_token)) invalid_credentials
    now ← ask env.now
    outcome ←
        attempt (run_query (sessions.find_active_by_token_hash (env.hash_token raw_token) now))
    session ← or_bad_credentials outcome
    pure (record { kind = principal_admin; subject_id = session.admin_id })
