-- ===== src/Governance/Queue/Pages.antt =====
-- The pages of the queue of drafts: src/repositories/governance.py.
use qnsc_kb_backend.Prelude.{
  ℕ, zero, suc, ◌+◌, ◌≡◌, refl, sym, ap, ◌∙◌, some, List, [], ◌∷◌, ◌++◌, arith, take, nat_eq,
  string_eq, option_eq,
}
use qnsc_kb_backend.Governance.Queue.{skip, page}

skip_nil : {A : Type 0} (n : ℕ) → skip {A = A} n [] ≡ []
unfolding skip
skip_nil zero = refl
skip_nil (suc n) = refl

skip-skip : {A : Type 0} (n k : ℕ) (xs : List A) → skip n (skip k xs) ≡ skip (k + n) xs
unfolding skip
skip-skip n zero xs = let start : 0 + n ≡ n = omega arith in rw (start) refl
skip-skip n (suc k) [] = skip_nil n ∙ sym (skip_nil (suc k + n))
skip-skip n (suc k) (x ∷ xs) =
    let step : suc k + n ≡ suc (k + n) = omega arith in rw (step) (skip-skip n k xs)

take_nil : {A : Type 0} (n : ℕ) → take {A = A} n [] ≡ []
take_nil zero = refl
take_nil (suc n) = refl

take-append :
    {A : Type 0} (n m : ℕ) (xs : List A) → take n xs ++ take m (skip n xs) ≡ take (n + m) xs
unfolding skip
take-append zero m xs = let start : 0 + m ≡ m = omega arith in rw (start) refl
take-append (suc n) m [] =
    let step : suc n + m ≡ suc (n + m) = omega arith in rw (step) (take_nil m)
take-append (suc n) m (x ∷ xs) =
    let step : suc n + m ≡ suc (n + m) = omega arith in
    rw (step) (ap (λ ys. x ∷ ys) (take-append n m xs))

-- A page and the page after it, which starts where the first ends, are together one page.
pub page-append :
    {A : Type 0} (n m offset : ℕ) (rows : List A)
    → page (some n) offset rows ++ page (some m) (offset + n) rows ≡ page (some (n + m)) offset rows
unfolding page
page-append n m offset rows = rw (← skip-skip n offset rows) (take-append n m (skip offset rows))
