-- ===== src/Prelude/Lists.antt =====
-- Lists measured by native numbers, and Python's `any`, `all` and filtering comprehension.
use Prim.Native.Nat.{ℕ, zero, suc, ◌+◌, ◌≤◌}
use mathlib.Core.Path.{◌≡◌, refl, ap, sym, subst, ◌∙◌}
use mathlib.Core.Logic.{inl, inr}
use mathlib.Core.Bool.{Bool, true, false, ◌&&◌, ◌||◌}
use mathlib.Core.Option.{Option, none, some}
use mathlib.Core.List.{List, [], ◌∷◌, ◌++◌, Memᴰ, map}
use native.Mathlib.Omega.{arith}
use qnsc_kb_backend.Prelude.Tests.{if◌then◌else◌, ||-eq-true, Bool-cases}

module _ {ℓ} {A : Type ℓ} where
  abbrev pub length : List A → ℕ
  length [] = 0
  length (_ ∷ xs) = suc (length xs)

  abbrev pub take : ℕ → List A → List A
  take zero xs = []
  take (suc n) [] = []
  take (suc n) (x ∷ xs) = x ∷ take n xs

  pub not-Memᴰ-nil : {a : A} → ¬ Memᴰ a []
  not-Memᴰ-nil m = elim m [ ]

  pub length-append : (xs ys : List A) → length (xs ++ ys) ≡ length xs + length ys
  length-append [] ys = omega arith
  length-append (x ∷ xs) ys = omega (arith, length-append xs ys)

  pub Memᴰ-take : {a : A} (n : ℕ) (xs : List A) → Memᴰ a (take n xs) → Memᴰ a xs
  Memᴰ-take zero xs m = absurd (not-Memᴰ-nil m)
  Memᴰ-take (suc n) [] m = m
  Memᴰ-take (suc n) (x ∷ xs) (Memᴰ.head e) = Memᴰ.head e
  Memᴰ-take (suc n) (x ∷ xs) (Memᴰ.tail m) = Memᴰ.tail (Memᴰ-take n xs m)

  -- any(p(x) for x in xs)
  abbrev pub any : (A → Bool) → List A → Bool
  any p [] = false
  any p (x ∷ xs) = p x || any p xs

  abbrev pub all : (A → Bool) → List A → Bool
  all p [] = true
  all p (x ∷ xs) = p x && all p xs

  -- [x for x in xs if p(x)]
  abbrev pub filter : (A → Bool) → List A → List A
  filter p [] = []
  filter p (x ∷ xs) = let rest = filter p xs in if p x then x ∷ rest else rest

module _ {ℓ} {A : Type ℓ} (p : A → Bool) where
  pub any-Memᴰ : (xs : List A) → any p xs ≡ true → (x : A) × Memᴰ x xs × (p x ≡ true)
  any-Memᴰ [] h = absurd (cc h)
  any-Memᴰ (x ∷ xs) h = elim (||-eq-true (p x) (any p xs) h) [
    | inl here ↦ (x, Memᴰ.head refl, here)
    | inr later ↦ let (y, m, q) = any-Memᴰ xs later in (y, Memᴰ.tail m, q)
  ]

  pub any_of_Memᴰ : (xs : List A) {x : A} → Memᴰ x xs → p x ≡ true → any p xs ≡ true
  any_of_Memᴰ [] m h = elim m [ ]
  any_of_Memᴰ (y ∷ xs) (Memᴰ.head e) h = let q : p y ≡ true = rw (← e) h in ground arith
  any_of_Memᴰ (y ∷ xs) (Memᴰ.tail m) h = let q = any_of_Memᴰ xs m h in ground arith

  filter_head :
      (y : A) (xs rest : List A) {x : A} (b : Bool)
      → p y ≡ b
      → (Memᴰ x rest → Memᴰ x xs × (p x ≡ true))
      → Memᴰ x (if b then y ∷ rest else rest)
      → Memᴰ x (y ∷ xs) × (p x ≡ true)
  filter_head y xs rest true e ih (Memᴰ.head q) = (Memᴰ.head q, rw q e)
  filter_head y xs rest true e ih (Memᴰ.tail m) = (Memᴰ.tail (ih m).0, (ih m).1)
  filter_head y xs rest false e ih m = (Memᴰ.tail (ih m).0, (ih m).1)

  pub Memᴰ-filter : (xs : List A) {x : A} → Memᴰ x (filter p xs) → Memᴰ x xs × (p x ≡ true)
  Memᴰ-filter [] m = elim m [ ]
  Memᴰ-filter (y ∷ xs) {x} m =
      filter_head y xs (filter p xs) (p y) refl (λ k. Memᴰ-filter xs {x = x} k) m

  filter_tail :
      (y : A) (rest : List A) {x : A} (b : Bool)
      → Memᴰ x rest
      → Memᴰ x (if b then y ∷ rest else rest)
  filter_tail y rest true m = Memᴰ.tail m
  filter_tail y rest false m = m

  pub filter_of_Memᴰ : (xs : List A) {x : A} → Memᴰ x xs → p x ≡ true → Memᴰ x (filter p xs)
  filter_of_Memᴰ [] m h = elim m [ ]
  filter_of_Memᴰ (y ∷ xs) (Memᴰ.head e) h = let q : p y ≡ true = rw (← e) h in rw q (Memᴰ.head e)
  filter_of_Memᴰ (y ∷ xs) (Memᴰ.tail m) h =
      filter_tail y (filter p xs) (p y) (filter_of_Memᴰ xs m h)

  pub length-filter : (xs : List A) → length (filter p xs) ≤ length xs
  length-filter [] = omega arith
  length-filter (x ∷ xs) = ground (arith, length-filter xs)

  pub length-filter-append :
      (xs ys : List A) → length (filter p (xs ++ ys)) ≡ length (filter p xs) + length (filter p ys)
  length-filter-append [] ys = omega arith
  length-filter-append (x ∷ xs) ys = ground (arith, length-filter-append xs ys)

module _ {ℓ} {A : Type ℓ} where
  -- The first element that passes the test.
  abbrev pub find : (A → Bool) → List A → Option A
  find p [] = none
  find p (x ∷ xs) = if p x then some x else find p xs

  pub find-Memᴰ :
      (p : A → Bool) (xs : List A) (x : A) → find p xs ≡ some x → Memᴰ x xs × (p x ≡ true)
  find-Memᴰ p [] x h = absurd (cc h)
  find-Memᴰ p (y ∷ xs) x h = elim (Bool-cases (p y)) [
    | inl e ↦
        let q : some y ≡ some x = rw e at h in let s : x ≡ y = cc q in (Memᴰ.head s, ap p s ∙ e)
    | inr e ↦ let (m, q) = find-Memᴰ p xs x (rw e at h) in (Memᴰ.tail m, q)
  ]

  pub find-append :
      (p : A → Bool) (xs ys : List A) → any p xs ≡ false → find p (xs ++ ys) ≡ find p ys
  find-append p [] ys h = refl
  find-append p (x ∷ xs) ys h = ground (arith, find-append p xs ys)

-- `P` holds of every element.
module _ {ℓ} {A : Type ℓ} (P : A → Type 0) where
  abbrev pub Each : List A → Type 0
  Each [] = Unit
  Each (x ∷ xs) = P x × Each xs

  pub Each-append : (xs ys : List A) → Each xs → Each ys → Each (xs ++ ys)
  Each-append [] ys _ q = q
  Each-append (x ∷ xs) ys (p, ps) q = (p, Each-append xs ys ps q)

  pub Memᴰ-Each : (xs : List A) → ((x : A) → Memᴰ x xs → P x) → Each xs
  Memᴰ-Each [] h = tt
  Memᴰ-Each (x ∷ xs) h = (h x (Memᴰ.head refl), Memᴰ-Each xs (λ y m. h y (Memᴰ.tail m)))

  pub Each-Memᴰ : (xs : List A) {x : A} → Each xs → Memᴰ x xs → P x
  Each-Memᴰ [] _ m = absurd (not-Memᴰ-nil m)
  Each-Memᴰ (y ∷ ys) (p, ps) (Memᴰ.head e) = subst P (sym e) p
  Each-Memᴰ (y ∷ ys) (p, ps) (Memᴰ.tail m) = Each-Memᴰ ys ps m

  pub Each-map {κ} :
      {B : Type κ} (f : B → A) (xs : List B) → ((x : B) → Memᴰ x xs → P (f x)) → Each (map f xs)
  Each-map f [] h = tt
  Each-map f (x ∷ xs) h = (h x (Memᴰ.head refl), Each-map f xs (λ y m. h y (Memᴰ.tail m)))
