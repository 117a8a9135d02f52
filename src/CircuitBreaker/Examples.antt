-- ===== src/CircuitBreaker/Examples.antt =====
-- Runs of a breaker that opens after 2 timeouts for 30 seconds: the theorems on `CircuitBreaker` of
-- src/rag/cross_encoder.py.
use qnsc_kb_backend.Prelude.{
  ℕ, ◌≡◌, refl, true, false, some, List, [], ◌∷◌, arith, nat_eq, string_eq, option_eq,
}
use qnsc_kb_backend.CircuitBreaker.{
  Attempt, CircuitBreaker, new_breaker, is_open, begin, record_timeout,
}
use qnsc_kb_backend.CircuitBreaker.Probe.{never_wedged, Reach}

abbrev broken : CircuitBreaker
broken = record { timeouts = 2; opened_at = some 100; probing = false; probe_started = 0 }

abbrev probe : Attempt
probe = record { probe = true; recorded = false }

probe_after_cooldown : (begin 30 140 broken).1 ≡ some probe
unfolding begin
probe_after_cooldown = refl

abbrev abandoned : CircuitBreaker
abandoned = record { timeouts = 2; opened_at = some 100; probing = true; probe_started = 140 }

never_wedged_example : (begin 30 170 abandoned).1 ≡ some probe
never_wedged_example = never_wedged 30 170 100 abandoned refl (omega arith) (omega arith)

abandoned-is_open : is_open abandoned ≡ true
unfolding is_open
abandoned-is_open = refl

abbrev probed : CircuitBreaker
probed =
    (begin 30 140
      (record_timeout 2 100 (some probe) (record_timeout 2 95 (some probe) new_breaker).0).0).0

Reach-probed : Reach 30 2 probed
Reach-probed =
    Reach.begun 140 (Reach.timed_out 100 (some probe) (Reach.timed_out 95 (some probe) Reach.fresh))

probed_is_probing : probed.probing ≡ true
unfolding begin record_timeout
probed_is_probing = refl

abbrev two_times : List ℕ
two_times = 10 ∷ 20 ∷ []
