-- ===== src/Sqlite/Accounts/Tokens.antt =====
-- The lookups of an enrolment token in internal/adapters/sqlitecompat/store.go, before and after it is consumed.
use xisnove.Prelude.{◌≡◌, refl, ℕ, Bool, false, List, [], ◌∷◌, none, arith, any, if◌then◌else◌}
use xisnove.Prelude.Int.{◌≤ℤ◌, eqb_ℤ}
use xisnove.Result.{ok}
use xisnove.Domain.Health.{Time, zero_time}
use xisnove.Application.Records.{EnrollmentTokenRecord, AgentRecord}
use xisnove.Sqlite.Tables.{Engine, Db, update_where}
use xisnove.Sqlite.Tables.Laws.{find-none}
use xisnove.Sqlite.Accounts.{
  is_usable_token, consume_row, returned, consume_enrollment_token, create_agent,
}

module _ (engine : Engine) (hash : List ℕ) where
  -- Whether a token with this hash could be consumed at this time.
  abbrev pub has_usable : Time → List EnrollmentTokenRecord → Bool
  has_usable now tokens = any (is_usable_token engine hash now) tokens

  one_consumed :
      (now later : Time) (t : EnrollmentTokenRecord)
      → eqb_ℤ now zero_time ≡ false
      → engine.julianday now ≤ℤ engine.julianday later
      → is_usable_token engine hash later
          (if is_usable_token engine hash now t then consume_row engine now t else t)
        ≡ false
  unfolding consume_row
  one_consumed now later t z l = ground (arith, z, l)

  consumed_all :
      (now later : Time) (tokens : List EnrollmentTokenRecord)
      → eqb_ℤ now zero_time ≡ false
      → engine.julianday now ≤ℤ engine.julianday later
      → has_usable later
          (update_where (is_usable_token engine hash now) (consume_row engine now) tokens)
        ≡ false
  unfolding update_where
  consumed_all now later [] z l = refl
  consumed_all now later (t ∷ tokens) z l =
      rw (one_consumed now later t z l) (consumed_all now later tokens z l)

  -- After a consumption, no token with the hash is usable, then or later.
  pub consume_enrollment_token-used :
      (now later : Time) (db : Db)
      → eqb_ℤ now zero_time ≡ false
      → engine.julianday now ≤ℤ engine.julianday later
      → has_usable later (consume_enrollment_token engine hash now now db).1.enrollment_tokens
        ≡ false
  unfolding consume_enrollment_token
  consume_enrollment_token-used now later db z l = consumed_all now later db.enrollment_tokens z l

  -- Nothing is consumed when no token is usable.
  pub consume_enrollment_token-unusable :
      (now : Time) (db : Db)
      → has_usable now db.enrollment_tokens ≡ false
      → (consume_enrollment_token engine hash now now db).0 ≡ ok none
  unfolding consume_enrollment_token returned
  consume_enrollment_token-unusable now db h =
      rw (find-none (is_usable_token engine hash now) db.enrollment_tokens h) refl

pub create_agent-spares_tokens :
    (a : AgentRecord) (db : Db) → (create_agent a db).1.enrollment_tokens ≡ db.enrollment_tokens
unfolding create_agent
create_agent-spares_tokens a db = ground arith
