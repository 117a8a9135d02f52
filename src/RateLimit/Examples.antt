-- ===== src/RateLimit/Examples.antt =====
-- A limit of 2 calls in 60 seconds, and the theorems on src/core/rate_limit.py at it.
use qnsc_kb_backend.Prelude.{
  ℕ, ◌≤◌, ◌≡◌, refl, true, some, List, [], ◌∷◌, arith, nat_eq, string_eq, option_eq,
}
use qnsc_kb_backend.RateLimit.{RedisCalls, grants}
use qnsc_kb_backend.RateLimit.Window.{Ascends, window_grants, grants_refines_window}
use qnsc_kb_backend.RateLimit.Bound.{granted_within, grants-le_limit}
use qnsc_kb_backend.RateLimit.Redis.{Counts}

abbrev calls : List ℕ
calls = 100 ∷ 110 ∷ 120 ∷ 165 ∷ []

calls-Ascends : Ascends 0 calls
calls-Ascends = (omega arith, (omega arith, (omega arith, (omega arith, tt))))

grants_refines_window_example : grants 2 60 [] [] calls ≡ window_grants 2 60 [] calls
grants_refines_window_example = grants_refines_window 2 60 calls calls-Ascends

grants-le_limit_example : granted_within 60 165 (grants 2 60 [] [] calls) ≤ 2
grants-le_limit_example = grants-le_limit 2 60 165 calls calls-Ascends

abbrev replies : List RedisCalls
replies =
    record { incr = some 1; expire = true; ttl = some 60 }
    ∷ record { incr = some 2; expire = true; ttl = some 41 }
    ∷ record { incr = some 3; expire = true; ttl = some 12 }
    ∷ []

replies-Counts : Counts 0 replies
unfolding Counts
replies-Counts = (refl, refl, refl, (refl, refl, refl, (refl, refl, refl, tt)))
