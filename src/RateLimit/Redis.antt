-- ===== src/RateLimit/Redis.antt =====
-- `RedisRateLimiter.allow` of src/core/rate_limit.py.
use qnsc_kb_backend.Prelude.{
  ℕ, suc, ◌+◌, ◌-◌, min, String, ◌≡◌, true, false, none, some, List, [], ◌∷◌, arith, if◌then◌else◌,
  is_some, length, nat_eq, string_eq, option_eq,
}
use qnsc_kb_backend.RateLimit.{
  refused, is_allowed, RedisCalls, redis_decision, RedisRateLimiter, redis_allow,
}

-- While Redis cannot be used, a limiter that fails closed refuses every call outside development,
-- and leaves its state alone.
fail_closed_refuses :
    (limiter : RedisRateLimiter) (calls : RedisCalls) (key : String) (now : ℕ)
    → limiter.fail_closed ≡ true
    → redis_decision limiter.limit calls ≡ none
    → redis_allow limiter false calls key now ≡ (limiter, refused limiter.window_seconds)
unfolding redis_allow
fail_closed_refuses limiter calls key now closed down = simp (down, closed, redis_allow)

-- The replies of one bucket: INCR returns each time one more than before, and nothing fails.
unfoldable pub Counts : ℕ → List RedisCalls → Type 0
Counts before [] = Unit
Counts before (c ∷ rest) =
    (c.incr ≡ some (suc before))
    × (c.expire ≡ true)
    × (is_some c.ttl ≡ true)
    × Counts (suc before) rest

pub redis_granted : ℕ → List RedisCalls → ℕ
redis_granted limit [] = 0
redis_granted limit (c ∷ rest) =
    (elim (redis_decision limit c) [ none ↦ 0 | some d ↦ if is_allowed d then 1 else 0 ])
    + redis_granted limit rest

redis_granted-from :
    (limit before : ℕ) (calls : List RedisCalls)
    → Counts before calls
    → redis_granted limit calls ≡ min (limit - before) (length calls)
unfolding redis_granted Counts redis_decision
redis_granted-from limit before [] s = omega arith
redis_granted-from limit before (c ∷ rest) s =
    ground (arith, redis_granted-from limit (suc before) rest s.3)

-- In one bucket of the fixed window, the first `limit` calls are granted and no others.
pub redis_granted_lem :
    (limit : ℕ) (calls : List RedisCalls)
    → Counts 0 calls
    → redis_granted limit calls ≡ min limit (length calls)
redis_granted_lem limit calls s = omega (arith, redis_granted-from limit 0 calls s)
