-- ===== src/Versions/Order.antt =====
-- Ascending lists of version numbers.
use mathlib.Core.Path.{subst}
use qnsc_kb_backend.Prelude.{
  ℕ, ◌≤◌, ◌<◌, ◌≡◌, refl, inl, inr, Option, none, some, List, [], ◌∷◌, Memᴰ, arith, ltb, nat_beq,
  nat_beq_iff, ltb→lt, Bool-cases, Option-cases, Memᴰ-filter, nat_eq, string_eq, option_eq, Each,
  Each-Memᴰ, Memᴰ-Each,
}
use qnsc_kb_backend.Versions.{insert_number, numbers_of, last_number, earlier}

-- `n` is below every number of the list.
Below : ℕ → List ℕ → Type 0
Below n numbers = Each (λ m. n < m) numbers

unfoldable pub IsAscending : List ℕ → Type 0
unfolding Below
IsAscending [] = Unit
IsAscending (n ∷ rest) = Below n rest × IsAscending rest

insert_number-Below :
    (n m : ℕ) (numbers : List ℕ) → m < n → Below m numbers → Below m (insert_number n numbers)
unfolding insert_number Below
insert_number-Below n m [] h _ = (h, tt)
insert_number-Below n m (k ∷ rest) h (p, ps) = elim (Bool-cases (nat_beq k n)) [
  | inl e ↦ rw e (p, ps)
  | inr e ↦ elim (Bool-cases (ltb k n)) [
    | inl l ↦ rw (e, l) (p, insert_number-Below n m rest h ps)
    | inr l ↦ rw (e, l) (h, (p, ps))
  ]
]

Below-trans : (n k : ℕ) (numbers : List ℕ) → n < k → Below k numbers → Below n numbers
unfolding Below
Below-trans n k [] h _ = tt
Below-trans n k (m ∷ rest) h (p, ps) = (omega (arith, h, p), Below-trans n k rest h ps)

insert_number-IsAscending :
    (n : ℕ) (numbers : List ℕ) → IsAscending numbers → IsAscending (insert_number n numbers)
unfolding insert_number IsAscending Below
insert_number-IsAscending n [] _ = (tt, tt)
insert_number-IsAscending n (k ∷ rest) (b, a) = elim (Bool-cases (nat_beq k n)) [
  | inl e ↦ rw e (b, a)
  | inr e ↦ elim (Bool-cases (ltb k n)) [
    | inl l ↦
        rw (e, l)
          (insert_number-Below n k rest (ltb→lt k n l) b, insert_number-IsAscending n rest a)
    | inr l ↦
        let less : n < k = ground (arith, nat_beq_iff k n, e, l) in
        rw (e, l) ((less, Below-trans n k rest less b), (b, a))
  ]
]

pub numbers_of-IsAscending : (versions : List ℕ) → IsAscending (numbers_of versions)
unfolding numbers_of IsAscending
numbers_of-IsAscending [] = tt
numbers_of-IsAscending (n ∷ rest) = insert_number-IsAscending n _ (numbers_of-IsAscending rest)

-- The last number, if there is one, is the greatest of the list.
unfoldable pub IsGreatest : List ℕ → Option ℕ → Type 0
IsGreatest numbers none = numbers ≡ []
IsGreatest numbers (some n) = Memᴰ n numbers × Each (λ m. m ≤ n) numbers

pub last_number-IsGreatest :
    (numbers : List ℕ) → IsAscending numbers → IsGreatest numbers (last_number numbers)
unfolding last_number IsAscending IsGreatest Below
last_number-IsGreatest [] _ = refl
last_number-IsGreatest (m ∷ rest) (b, a) =
    let ih = last_number-IsGreatest rest a in
    elim (Option-cases (last_number rest)) [
      | inl e ↦
          let empty : rest ≡ [] = subst (IsGreatest rest) e ih in
          rw (last_number, e) (Memᴰ.head refl, (omega arith, rw empty tt))
      | inr (n, e) ↦
          let (member, each) = subst (IsGreatest rest) e ih in
          let less = Each-Memᴰ (λ k. m < k) rest b member in
          rw (last_number, e) (Memᴰ.tail member, (omega (arith, less), each))
    ]

pub earlier-IsAscending :
    (n : ℕ) (numbers : List ℕ) → IsAscending numbers → IsAscending (earlier n numbers)
unfolding earlier IsAscending Below
earlier-IsAscending n [] _ = tt
earlier-IsAscending n (m ∷ rest) (b, a) = elim (Bool-cases (ltb m n)) [
  | inr e ↦ rw e (earlier-IsAscending n rest a)
  | inl e ↦ rw e (
    Memᴰ-Each _ _ (λ k member. Each-Memᴰ (λ j. m < j) rest b (Memᴰ-filter _ rest member).0),
    earlier-IsAscending n rest a,
  )
]
