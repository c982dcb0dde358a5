-- ===== src/Services/Admins.antt =====
-- The first administrator: `BootstrapAdmin` of internal/application/auth.go over the store.
use Prim.Native.String.{count}
use xisnove.Prelude.{
  ◌≡◌, refl, sym, ap, ◌∙◌, Bool, true, false, not, [], ◌∷◌, String, ltb, length, arith,
}
use xisnove.Prelude.Lists.{length-append}
use xisnove.Result.{Error, ok, err, weak_password}
use xisnove.Action.{World, ask, ask_or_fail, lift, ensure}
use xisnove.Action.Meets.{Meets, Meets-bind}
use xisnove.Application.Environment.{Environment}
use xisnove.Application.Records.{AdminRecord}
use xisnove.Application.Store.Atomic.{within_tx-Meets}
use xisnove.Application.Auth.{Mail, Passwords, normalize_email, create_first, bootstrap_admin}
use xisnove.Sqlite.Tables.{Db}
use xisnove.Sqlite.Accounts.{count_admins, create_admin}
use xisnove.Services.{Backend, on_sqlite}
use xisnove.Services.Atomic.{bootstrap_admin-IsAtomic}

module _ (b : Backend) (env : Environment Db) (mail : Mail) (passwords : Passwords) (d0 : Db) where
  abbrev here : Environment Db
  here = on_sqlite b env

  ensured : (t : Bool) → Meets (λ d. d ≡ d0) (ensure t weak_password) (λ _ d. d ≡ d0)
  ensured true = record { at = λ w a p e. p }
  ensured false = record { at = λ w a p e. p }

  -- There was no administrator, and there is one.
  abbrev IsFirst : Db → Type 0
  IsFirst d = (length d0.admins ≡ 0) × (length d.admins ≡ 1)

  created :
      (admin : AdminRecord) (w : World Db)
      → (create_first here mail passwords admin w).0 ≡ ok tt
      → (length w.db.admins ≡ 0)
        × (length (create_first here mail passwords admin w).1.db.admins ≡ 1)
  unfolding create_first count_admins create_admin
  created admin w e = ground (arith, length-append w.db.admins (admin ∷ []))

  create_first-Meets :
      (admin : AdminRecord)
      → Meets (λ d. d ≡ d0) (create_first here mail passwords admin) (λ _ d. IsFirst d)
  create_first-Meets admin = record {
    at = λ w u p e.
        let (none_before, one_after) = created admin w e in
        (ap (λ (x : Db). length x.admins) (sym p) ∙ none_before, one_after);
  }

  bootstrapped :
      (email password : String)
      → Meets (λ d. d ≡ d0) (bootstrap_admin here mail passwords email password) (λ _ d. IsFirst d)
  unfolding bootstrap_admin
  bootstrapped email password =
      let normalized = normalize_email mail email in
      let long = not (ltb (count password) 16) in
      Meets-bind (λ _ d. d ≡ d0) (lift normalized) _ (record { at = λ w a p e. p })
        λ email'.
          Meets-bind (λ _ d. d ≡ d0) (ensure long weak_password) _ (ensured long)
            λ u.
              Meets-bind (λ _ d. d ≡ d0) (ask_or_fail (passwords.hash password)) _
                (record { at = λ w a p e. p })
                λ hash.
                  Meets-bind (λ _ d. d ≡ d0) (ask env.new_id) _ (record { at = λ w a p e. p })
                    λ id.
                      Meets-bind (λ _ d. d ≡ d0) (ask env.now) _ (record { at = λ w a p e. p })
                        λ now.
                          let admin : AdminRecord = record {
                            id = id;
                            email = email';
                            password_hash = hash;
                            created_at = now;
                          } in
                          within_tx-Meets here.store (create_first here mail passwords admin)
                            (create_first-Meets admin)

-- Bootstrapping makes the first administrator or changes nothing: if it succeeds there was no
-- administrator and there is exactly one, and if it fails the database is as it was.
pub bootstrap_admin-IsFirst :
    (b : Backend) (env : Environment Db) (mail : Mail) (passwords : Passwords)
    (email password : String) (w : World Db)
    → let after = bootstrap_admin (on_sqlite b env) mail passwords email password w in
      (after.0 ≡ ok tt → (length w.db.admins ≡ 0) × (length after.1.db.admins ≡ 1))
      × ((e : Error) → after.0 ≡ err e → after.1.db ≡ w.db)
bootstrap_admin-IsFirst b env mail passwords email password w = (
  λ h. (bootstrapped b env mail passwords w.db email password).at w tt refl h,
  λ e h. (bootstrap_admin-IsAtomic b env mail passwords email password).at w e h,
)
