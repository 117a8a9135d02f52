-- ===== src/RateLimit.antt =====
-- `InMemoryRateLimiter` and `RedisRateLimiter` of src/core/rate_limit.py. A time is a number of
-- microseconds; `events[0] <= now - window` is written `events[0] + window ≤ now`.
pub mod Window
pub mod Bound
pub mod Redis
mod Examples
use qnsc_kb_backend.Prelude.{
  ℕ, zero, suc, ◌+◌, ◌-◌, ◌*◌, ◌/◌, ◌%◌, ◌^◌, ◌≤◌, ◌<◌, min, max, String, ◌≡◌, refl, sym, ap, ◌∙◌,
  ◌≢◌, ◌↔◌, ◌⊎◌, inl, inr, Bool, true, false, not, ◌&&◌, ◌||◌, Option, none, some, List, [], ◌∷◌,
  ◌++◌, map, Memᴰ, arith, ltb, leb, nat_beq, nat_beq_iff, if◌then◌else◌, ltb→lt, lt→ltb, leb→le,
  le→leb, tests, Bool-cases, Option-cases, &&-eq-true, ||-eq-true, is_some, get_or, length, take,
  length-append, any, all, filter, any-Memᴰ, any_of_Memᴰ, Memᴰ-filter, filter_of_Memᴰ,
  length-filter, Eq, ◌==◌, nat_eq, string_eq, option_eq, List-cases, not-Memᴰ-nil, find, find-Memᴰ,
  find-append, elem, elem-Memᴰ, Memᴰ-elem, lookup, insert, lookup-insert, option_beq_iff, eq_iff,
}

-- What `allow` returns: `(True, 0)`, `(False, retry_after)`, or the IndexError of `events[0]` on an
-- empty deque, which only a limit of 0 reaches.
pub data Decision : Type 0 where
  allowed : Decision
  refused : ℕ → Decision
  index_error : Decision

abbrev second : ℕ
second = 1_000_000

-- while events and events[0] <= cutoff: events.popleft()
pub pop_expired : ℕ → ℕ → List ℕ → List ℕ
pop_expired window now [] = []
pop_expired window now (e ∷ rest) =
    let popped = pop_expired window now rest in if leb (e + window) now then popped else e ∷ rest

pub retry_after : ℕ → ℕ → List ℕ → Decision
retry_after window now [] = index_error
retry_after window now (e ∷ rest) = refused (max 1 ((e + window - now) / second))

-- One call under the lock: the deque of the key afterwards, and the answer.
pub allow_event : ℕ → ℕ → ℕ → List ℕ → List ℕ × Decision
allow_event limit window now events =
    let live = pop_expired window now events in
    if leb limit (length live)
    then (live, retry_after window now live)
    else (live ++ now ∷ [], allowed)

pub record InMemoryRateLimiter : Type 0 where
  pub limit : ℕ
  pub window : ℕ
  pub events : String → List ℕ

pub allow : InMemoryRateLimiter → String → ℕ → InMemoryRateLimiter × Decision
allow limiter key now =
    let (after, decision) = allow_event limiter.limit limiter.window now (limiter.events key) in
    (record limiter { events = λ k. if k == key then after else limiter.events k }, decision)

abbrev pub is_allowed : Decision → Bool
is_allowed allowed = true
is_allowed _ = false

-- The times of the granted calls of one key, newest first, after calls at the given times.
pub grants : ℕ → ℕ → List ℕ → List ℕ → List ℕ → List ℕ
grants limit window events granted [] = granted
grants limit window events granted (now ∷ later) =
    let (after, decision) = allow_event limit window now events in
    grants limit window after (if is_allowed decision then now ∷ granted else granted) later

-- How the Redis calls of one `allow` end: `none` and `false` are exceptions. A negative TTL reply is
-- written 0, since the code takes `max(1, ttl)`.
pub record RedisCalls : Type 0 where
  pub incr : Option ℕ
  pub expire : Bool
  pub ttl : Option ℕ

-- The `try` block; `none` where a call raises.
pub redis_decision : ℕ → RedisCalls → Option Decision
redis_decision limit calls = elim calls.incr [
  | none ↦ none
  | some count ↦
      if nat_beq count 1 && not calls.expire
      then none
      else if ltb limit count
      then elim calls.ttl [ none ↦ none | some ttl ↦ some (refused (max 1 ttl)) ]
      else some allowed
]

pub record RedisRateLimiter : Type 0 where
  pub limit : ℕ
  pub window_seconds : ℕ
  pub fail_closed : Bool
  pub fallback : InMemoryRateLimiter

-- `__init__`: the fallback has the same limit and window.
redis_rate_limiter : ℕ → ℕ → Bool → RedisRateLimiter
redis_rate_limiter limit window_seconds fail_closed = record {
  limit = limit;
  window_seconds = window_seconds;
  fail_closed = fail_closed;
  fallback = record { limit = limit; window = window_seconds * second; events = λ _. [] };
}

-- `development` is `_is_development_environment()`.
pub redis_allow : RedisRateLimiter → Bool → RedisCalls → String → ℕ → RedisRateLimiter × Decision
redis_allow limiter development calls key now = elim (redis_decision limiter.limit calls) [
  | some decision ↦ (limiter, decision)
  | none ↦
      if limiter.fail_closed && not development
      then (limiter, refused limiter.window_seconds)
      else (let (after, decision) = allow limiter.fallback key now in
          (record limiter { fallback = after }, decision))
]
