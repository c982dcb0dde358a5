-- ===== src/Application/Results/Known.antt =====
-- `resultExists` of internal/application/results.go, by the answers of its two lookups.
use xisnove.Prelude.{◌≡◌, refl, true, false}
use xisnove.Result.{ok, err, not_found}
use xisnove.Action.{World}
use xisnove.Application.Records.{ProbeResultRecord}
use xisnove.Application.Environment.{Environment}
use xisnove.Application.Results.{ProbeResultCommand, found, result_exists}

module _ {D : Type 0} (env : Environment D) (c : ProbeResultCommand) (w : World D) where
  open env.store.repositories use {results}

  pub known_by_id :
      (r : ProbeResultRecord)
      → results.get_by_id c.id w.db ≡ (ok r, w.db)
      → result_exists env c w ≡ (ok true, w)
  unfolding result_exists found
  known_by_id r h = rw h refl

  pub known_by_run :
      (r : ProbeResultRecord)
      → results.get_by_id c.id w.db ≡ (err not_found, w.db)
      → results.get_by_run c.run_id w.db ≡ (ok r, w.db)
      → result_exists env c w ≡ (ok true, w)
  unfolding result_exists found
  known_by_run r h k = rw (h, k) refl

  pub not_known :
      results.get_by_id c.id w.db ≡ (err not_found, w.db)
      → results.get_by_run c.run_id w.db ≡ (err not_found, w.db)
      → result_exists env c w ≡ (ok false, w)
  unfolding result_exists found
  not_known h k = rw (h, k) refl
