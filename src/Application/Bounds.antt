-- ===== src/Application/Bounds.antt =====
-- The limits that internal/application puts on what its callers ask for.
use xisnove.Prelude.{◌≤◌, ◌≡◌, refl, arith}
use xisnove.Prelude.Int.{ℤ, pos, ◌*ℤ◌, ◌≤ℤ◌}
use xisnove.Domain.Monitor.{Duration}
use xisnove.Application.Leasing.{clamp_wait}
use xisnove.Application.Agents.{enrollment_ttl}
use xisnove.Application.Scheduler.{batch_limit}

-- The wait of a lease request is taken between 0 and 30 seconds, and as it is asked for when it lies
-- between them.
clamp_wait-bounds :
    (wait : Duration)
    → (pos 0 ≤ℤ clamp_wait wait)
      × (clamp_wait wait ≤ℤ pos 30_000_000_000)
      × (pos 0 ≤ℤ wait → wait ≤ℤ pos 30_000_000_000 → clamp_wait wait ≡ wait)
unfolding clamp_wait ◌*ℤ◌
clamp_wait-bounds wait = (ground arith, ground arith, λ l h. ground arith)

-- The life of an enrolment token is between 1 minute and 1 hour, whatever is asked for, 15 minutes when
-- 0 is asked for, and as it is asked for when that lies between 1 minute and 1 hour.
enrollment_ttl-bounds :
    (ttl : Duration)
    → (pos 60_000_000_000 ≤ℤ enrollment_ttl ttl)
      × (enrollment_ttl ttl ≤ℤ pos 3_600_000_000_000)
      × (enrollment_ttl (pos 0) ≡ pos 900_000_000_000)
      × (pos 60_000_000_000 ≤ℤ ttl → ttl ≤ℤ pos 3_600_000_000_000 → enrollment_ttl ttl ≡ ttl)
unfolding enrollment_ttl ◌*ℤ◌
enrollment_ttl-bounds ttl = (ground arith, ground arith, refl, λ l h. ground arith)

-- A batch of the scheduler or of the staleness service has between 1 and 1000 items.
batch_limit-bounds : (limit : ℤ) → (1 ≤ batch_limit limit) × (batch_limit limit ≤ 1000)
unfolding batch_limit
batch_limit-bounds limit = (ground arith, ground arith)
