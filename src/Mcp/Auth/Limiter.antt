-- ===== src/Mcp/Auth/Limiter.antt =====
-- How many calls the limiter admits.
use lab_remote_go.Common.{ℕ, ◌+◌, ◌-◌, ◌*◌, ◌≤◌, ◌<◌, List, [], ◌∷◌, if◌then◌else◌, arith}
use lab_remote_go.Mcp.Auth.{RateLimiter, minute, allow}

-- the number of calls that are admitted, of those at the given times
unfoldable pub admitted : List ℕ → RateLimiter → ℕ
admitted [] l = 0
admitted (now ∷ times) l =
    let (l', passes) = allow now l in (if passes then 1 else 0) + admitted times l'

abbrev pub Within : ℕ → List ℕ → Type 0
Within a [] = Unit {0}
Within a (now ∷ times) = ((a ≤ now) × (now < a + minute)) × Within a times

-- Once the window has started, it is not started again.
admitted-inside :
    (times : List ℕ) (a : ℕ) (l : RateLimiter)
    → Within a times
    → a ≤ l.window
    → admitted times l ≤ l.limit - l.count
unfolding admitted allow
admitted-inside [] a l h le = omega arith
admitted-inside (now ∷ times) a l h le = ground (
  arith,
  admitted-inside times a l h.1 le,
  admitted-inside times a (record l { count = l.count + 1 }) h.1 le,
)

admitted-before :
    (times : List ℕ) (a : ℕ) (l : RateLimiter)
    → Within a times
    → admitted times l ≤ l.limit - l.count + l.limit
unfolding admitted allow
admitted-before [] a l h = omega arith
admitted-before (now ∷ times) a l h = ground (
  arith,
  admitted-before times a l h.1,
  admitted-before times a (record l { count = l.count + 1 }) h.1,
  admitted-inside times a (record l { window = now; count = 0 }) h.1 h.0.0,
  admitted-inside times a (record l { window = now; count = 1 }) h.1 h.0.0,
)

-- Of the calls within any minute, at most twice the limit is admitted, whatever the limiter has counted
-- before.
pub admitted-bound :
    (times : List ℕ) (a : ℕ) (l : RateLimiter) → Within a times → admitted times l ≤ 2 * l.limit
admitted-bound times a l h = omega (arith, admitted-before times a l h)
