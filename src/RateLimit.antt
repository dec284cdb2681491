-- ===== src/RateLimit.antt =====
-- The rate limiter of the API (src/api/rate_limit.py): the set of one client's requests in Redis, by
-- their times in microseconds. A request awaits each of its commands, and between two of them those of
-- other requests may run.
pub mod Window
mod Tests
use zenith_voip.Prelude.{ℕ, ◌+◌, ◌*◌, Bool, true, false, List, [], ◌∷◌, leb, length, if◌then◌else◌}

abbrev pub rate_limit_requests : ℕ
rate_limit_requests = 100

abbrev pub rate_limit_window : ℕ
rate_limit_window = 60 * 1_000_000

-- `zremrangebyscore(key, 0, now - RATE_LIMIT_WINDOW)`
unfoldable pub zremrangebyscore : ℕ → List ℕ → List ℕ
zremrangebyscore now [] = []
zremrangebyscore now (t ∷ ts) =
    let rest = zremrangebyscore now ts in if leb (t + rate_limit_window) now then rest else t ∷ rest

-- Where a request stands: before its first command, behind the pruning, behind a count below the
-- limit, and at its end: it goes on or gets the status 429.
pub data Phase : Type 0 where
  arrived pruned admitted passed limited : Phase

-- The next command of a request, of the time `now`, and the set after it.
unfoldable pub rate_limit_middleware : ℕ → Phase → List ℕ → Phase × List ℕ
rate_limit_middleware now arrived set = (pruned, zremrangebyscore now set)
rate_limit_middleware now pruned set =
    (if leb rate_limit_requests (length set) then limited else admitted, set)
rate_limit_middleware now admitted set = (passed, now ∷ set)
rate_limit_middleware now passed set = (passed, set)
rate_limit_middleware now limited set = (limited, set)

-- A command that Redis does not answer: the request goes on, unless it was limited before.
unfoldable pub without_redis : Phase → Phase
without_redis limited = limited
without_redis _ = passed
