-- ===== src/CircuitBreaker/Threshold.antt =====
-- When the breaker of src/rag/cross_encoder.py opens.
use qnsc_kb_backend.Prelude.{
  ℕ, ◌+◌, ◌<◌, ◌≡◌, refl, ◌∙◌, true, false, Option, none, List, [], ◌∷◌, arith, leb, length, nat_eq,
  string_eq, option_eq,
}
use qnsc_kb_backend.CircuitBreaker.{
  Attempt, CircuitBreaker, is_open, record_timeout, record_success,
}

-- Timeouts one after the other, at the given times.
pub timeouts_at : ℕ → List ℕ → CircuitBreaker → CircuitBreaker
timeouts_at threshold [] b = b
timeouts_at threshold (now ∷ later) b =
    timeouts_at threshold later (record_timeout threshold now none b).0

stays_open :
    (threshold : ℕ) (times : List ℕ) (b : CircuitBreaker)
    → is_open b ≡ true
    → is_open (timeouts_at threshold times b) ≡ true
unfolding timeouts_at is_open record_timeout
stays_open threshold [] b o = o
stays_open threshold (now ∷ later) b o =
    stays_open threshold later (record_timeout threshold now none b).0 (ground arith)

opens-from :
    (threshold : ℕ) (times : List ℕ) (b : CircuitBreaker)
    → is_open b ≡ false
    → b.timeouts < threshold
    → is_open (timeouts_at threshold times b) ≡ leb threshold (b.timeouts + length times)
unfolding timeouts_at is_open record_timeout
opens-from threshold [] b o h = ground arith
opens-from threshold (now ∷ later) b o h = ground (
  arith,
  opens-from threshold later (record_timeout threshold now none b).0,
  stays_open threshold later (record_timeout threshold now none b).0,
)

-- After a success, the circuit is open exactly when at least as many consecutive timeouts as the
-- threshold have followed, for a threshold that is not 0.
pub opens_at_threshold :
    (threshold : ℕ) (times : List ℕ) (attempt : Option Attempt) (b : CircuitBreaker)
    → 0 < threshold
    → is_open (timeouts_at threshold times (record_success attempt b).0)
      ≡ leb threshold (length times)
unfolding record_success is_open
opens_at_threshold threshold times attempt b h =
    opens-from threshold times (record_success attempt b).0 refl h ∙ ground arith
