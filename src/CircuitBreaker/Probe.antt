-- ===== src/CircuitBreaker/Probe.antt =====
-- The half-open probe of the breaker in src/rag/cross_encoder.py.
use qnsc_kb_backend.Prelude.{
  ℕ, ◌+◌, ◌≤◌, ◌<◌, ◌≡◌, Bool, true, false, Option, none, some, arith, nat_eq, string_eq, option_eq,
}
use qnsc_kb_backend.CircuitBreaker.{
  Attempt, CircuitBreaker, is_open, begin, record_timeout, record_success, finish, Outcome,
  conclude, new_breaker, success, timeout, unrecorded,
}

-- After a caller is let through as the probe, nobody else is let through for a cooldown.
pub one_probe :
    (cooldown now later : ℕ) (b : CircuitBreaker) (a : Attempt)
    → (begin cooldown now b).1 ≡ some a
    → a.probe ≡ true
    → later < now + cooldown
    → (begin cooldown later (begin cooldown now b).0).1 ≡ none
unfolding begin
one_probe cooldown now later b a e p h = ground arith

-- A cooldown after the circuit opened, and after the last probe started, a caller is let through:
-- the breaker is never wedged, whatever became of earlier probes.
pub never_wedged :
    (cooldown now opened : ℕ) (b : CircuitBreaker)
    → b.opened_at ≡ some opened
    → opened + cooldown ≤ now
    → b.probe_started + cooldown ≤ now
    → (begin cooldown now b).1 ≡ some (record { probe = true; recorded = false })
unfolding begin
never_wedged cooldown now opened b e h k = ground arith

abbrev pub not_success : Outcome → Bool
not_success success = false
not_success _ = true

-- However a probe ends, once `finish` has run no probe is outstanding; it leaves the circuit open
-- unless it succeeded.
pub probe_accounted :
    (threshold settled finished : ℕ) (outcome : Outcome) (b : CircuitBreaker)
    → is_open b ≡ true
    → b.probing ≡ true
    → let after =
        conclude threshold settled finished outcome
          (some (record { probe = true; recorded = false }))
          b in
      (after.probing ≡ false) × (is_open after ≡ not_success outcome)
unfolding conclude is_open
probe_accounted threshold settled finished success b o p = ground arith
probe_accounted threshold settled finished timeout b o p = ground arith
probe_accounted threshold settled finished unrecorded b o p = ground arith

-- A probe is outstanding only while the circuit is open.
abbrev IsSound : CircuitBreaker → Type 0
IsSound b = b.probing ≡ true → is_open b ≡ true

-- The breaker after any calls, by any callers, in any order.
pub data Reach (cooldown threshold : ℕ) : CircuitBreaker → Type 0 where
  fresh : Reach cooldown threshold new_breaker
  begun :
      (now : ℕ) {b : CircuitBreaker}
      → Reach cooldown threshold b
      → Reach cooldown threshold (begin cooldown now b).0
  timed_out :
      (now : ℕ) (attempt : Option Attempt) {b : CircuitBreaker}
      → Reach cooldown threshold b
      → Reach cooldown threshold (record_timeout threshold now attempt b).0
  succeeded :
      (attempt : Option Attempt) {b : CircuitBreaker}
      → Reach cooldown threshold b
      → Reach cooldown threshold (record_success attempt b).0
  finished :
      (now : ℕ) (attempt : Option Attempt) {b : CircuitBreaker}
      → Reach cooldown threshold b
      → Reach cooldown threshold (finish now attempt b)

begin-IsSound :
    (cooldown now : ℕ) (b : CircuitBreaker) → IsSound b → IsSound (begin cooldown now b).0
unfolding begin is_open
begin-IsSound cooldown now b s = ground arith

record_timeout-IsSound :
    (threshold now : ℕ) (attempt : Option Attempt) (b : CircuitBreaker)
    → IsSound (record_timeout threshold now attempt b).0
unfolding record_timeout is_open
record_timeout-IsSound threshold now attempt b = ground arith

record_success-IsSound :
    (attempt : Option Attempt) (b : CircuitBreaker) → IsSound (record_success attempt b).0
unfolding record_success is_open
record_success-IsSound attempt b = ground arith

finish-IsSound :
    (now : ℕ) (attempt : Option Attempt) (b : CircuitBreaker)
    → IsSound b
    → IsSound (finish now attempt b)
unfolding finish is_open
finish-IsSound now none b s = s
finish-IsSound now (some a) b s = ground arith

-- Whatever the callers do, a probe is outstanding only while the circuit is open.
Reach-IsSound :
    (cooldown threshold : ℕ) {b : CircuitBreaker} → Reach cooldown threshold b → IsSound b
unfolding is_open
Reach-IsSound cooldown threshold fresh = λ p. cc
Reach-IsSound cooldown threshold (begun now {b} r) =
    begin-IsSound cooldown now b (Reach-IsSound cooldown threshold r)
Reach-IsSound cooldown threshold (timed_out now attempt {b} r) =
    record_timeout-IsSound threshold now attempt b
Reach-IsSound cooldown threshold (succeeded attempt {b} r) = record_success-IsSound attempt b
Reach-IsSound cooldown threshold (finished now attempt {b} r) =
    finish-IsSound now attempt b (Reach-IsSound cooldown threshold r)

-- Whatever the callers did so far, the circuit is open while a probe is outstanding.
pub probing-is_open :
    (cooldown threshold : ℕ) (b : CircuitBreaker)
    → Reach cooldown threshold b
    → b.probing ≡ true
    → is_open b ≡ true
probing-is_open cooldown threshold b r = Reach-IsSound cooldown threshold r
