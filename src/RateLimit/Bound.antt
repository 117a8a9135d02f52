-- ===== src/RateLimit/Bound.antt =====
-- How many calls the in-memory limiter of src/core/rate_limit.py lets through in any window.
use qnsc_kb_backend.Prelude.{
  ℕ, ◌+◌, ◌≤◌, ◌<◌, inl, inr, List, [], ◌∷◌, arith, ltb, leb, if◌then◌else◌, ltb→lt, Bool-cases,
  nat_eq, string_eq, option_eq,
}
use qnsc_kb_backend.RateLimit.{grants}
use qnsc_kb_backend.RateLimit.Window.{
  counts_at, in_window, window_grants, Ascends, grants_refines_window,
}

-- The granted calls in the window that ends at `t`: at `x ≤ t` with `t < x + window`.
abbrev pub granted_within : ℕ → ℕ → List ℕ → ℕ
granted_within window t [] = 0
granted_within window t (x ∷ xs) =
    (if leb x t then counts_at window t x else 0) + granted_within window t xs

-- Newest first: each call found room under the limit among the older ones.
abbrev Spaced : ℕ → ℕ → ℕ → List ℕ → Type 0
Spaced limit window newest [] = Unit
Spaced limit window newest (x ∷ xs) =
    (x ≤ newest) × (in_window window x xs < limit) × Spaced limit window x xs

Spaced-weaken :
    (limit window a b : ℕ) (xs : List ℕ)
    → a ≤ b
    → Spaced limit window a xs
    → Spaced limit window b xs
Spaced-weaken limit window a b [] h s = tt
Spaced-weaken limit window a b (x ∷ xs) h s = (omega arith, s.1, s.2)

granted_within-le_in_window :
    (window x t : ℕ) (xs : List ℕ) → x ≤ t → granted_within window t xs ≤ in_window window x xs
granted_within-le_in_window window x t [] h = omega arith
granted_within-le_in_window window x t (y ∷ xs) h =
    ground (arith, granted_within-le_in_window window x t xs h)

granted_within-le_limit :
    (limit window newest t : ℕ) (xs : List ℕ)
    → Spaced limit window newest xs
    → granted_within window t xs ≤ limit
granted_within-le_limit limit window newest t [] s = omega arith
granted_within-le_limit limit window newest t (x ∷ xs) s = ground (
  arith,
  granted_within-le_limit limit window x t xs s.2,
  granted_within-le_in_window window x t xs,
)

window_grants-Spaced :
    (limit window last : ℕ) (granted calls : List ℕ)
    → Spaced limit window last granted
    → Ascends last calls
    → (newest : ℕ) × Spaced limit window newest (window_grants limit window granted calls)
unfolding window_grants
window_grants-Spaced limit window last granted [] g s = (last, g)
window_grants-Spaced limit window last granted (now ∷ calls) g s =
    elim (Bool-cases (ltb (in_window window now granted) limit)) [
      | inr full ↦ rw full (
          window_grants-Spaced limit window now granted calls
            (Spaced-weaken limit window last now granted s.0 g) s.1)
      | inl room ↦ rw room (
          window_grants-Spaced limit window now (now ∷ granted) calls
            (omega arith, ltb→lt _ _ room, Spaced-weaken limit window last now granted s.0 g) s.1)
    ]

-- Of calls at ascending times, at most `limit` are granted in any stretch of the window's length.
pub grants-le_limit :
    (limit window t : ℕ) (calls : List ℕ)
    → Ascends 0 calls
    → granted_within window t (grants limit window [] [] calls) ≤ limit
grants-le_limit limit window t calls s = rw (grants_refines_window limit window calls s) (
    let (newest, g) = window_grants-Spaced limit window 0 [] calls tt s in
    granted_within-le_limit limit window newest t _ g)
