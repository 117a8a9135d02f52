-- ===== src/Timeline/Order.antt =====
-- The stable sort of `rank_by_time` in src/domain/temporal.py.
use qnsc_kb_backend.Prelude.{
  ℕ, ◌≤◌, ◌<◌, String, ◌≡◌, refl, ap, ◌∙◌, ◌≢◌, ◌⊎◌, inl, inr, Bool, true, false, ◌&&◌, List, [],
  ◌∷◌, ◌++◌, arith, ltb, leb, nat_beq, Bool-cases, all, filter, nat_eq, string_eq, option_eq,
}
use qnsc_kb_backend.Timeline.{
  Passage, Validity, bucket, insert_sorted, sorted, key_on, rank_by_time, in_force, undated,
  out_of_force,
}

module _ {ℓ} {A : Type ℓ} where
  all-append : (p : A → Bool) (xs ys : List A) → all p (xs ++ ys) ≡ all p xs && all p ys
  all-append p [] ys = refl
  all-append p (x ∷ xs) ys = ground (arith, all-append p xs ys)

  all-filter :
      (p q : A → Bool) (xs : List A)
      → ((x : A) → p x ≡ true → q x ≡ true)
      → all q (filter p xs) ≡ true
  all-filter p q [] h = refl
  all-filter p q (x ∷ xs) h = elim (Bool-cases (p x)) [
    | inl e ↦ let k = h x e in rw (e, k) (all-filter p q xs h)
    | inr e ↦ rw e (all-filter p q xs h)
  ]

module _ (key : Passage → ℕ) where
  insert_sorted-front :
      (x : Passage) (xs : List Passage)
      → all (λ y. leb (key x) (key y)) xs ≡ true
      → insert_sorted key x xs ≡ x ∷ xs
  unfolding insert_sorted
  insert_sorted-front x [] h = refl
  insert_sorted-front x (y ∷ xs) h =
      let late : ltb (key y) (key x) ≡ false = ground arith in rw late refl

  insert_sorted-skip :
      (x : Passage) (xs ys : List Passage)
      → all (λ y. ltb (key y) (key x)) xs ≡ true
      → insert_sorted key x (xs ++ ys) ≡ xs ++ insert_sorted key x ys
  unfolding insert_sorted
  insert_sorted-skip x [] ys h = refl
  insert_sorted-skip x (y ∷ xs) ys h =
      let early : ltb (key y) (key x) ≡ true = ground arith in
      rw early (ap (λ t. y ∷ t) (insert_sorted-skip x xs ys (ground arith)))

  pub at_key : ℕ → List Passage → List Passage
  at_key k xs = filter (λ x. nat_beq (key x) k) xs

  beyond :
      (x : Passage) (k : ℕ) (xs : List Passage)
      → key x ≤ k
      → all (λ y. leb (key x) (key y)) (at_key k xs) ≡ true
  unfolding at_key
  beyond x k xs h =
      all-filter (λ y. nat_beq (key y) k) (λ y. leb (key x) (key y)) xs (λ y e. ground arith)

  before :
      (x : Passage) (k : ℕ) (xs : List Passage)
      → k < key x
      → all (λ y. ltb (key y) (key x)) (at_key k xs) ≡ true
  unfolding at_key
  before x k xs h =
      all-filter (λ y. nat_beq (key y) k) (λ y. ltb (key y) (key x)) xs (λ y e. ground arith)

  at_key-here :
      (x : Passage) (k : ℕ) (xs : List Passage) → key x ≡ k → at_key k (x ∷ xs) ≡ x ∷ at_key k xs
  unfolding at_key
  at_key-here x k xs h = let e : nat_beq (key x) k ≡ true = ground arith in rw e refl

  at_key-other :
      (x : Passage) (k : ℕ) (xs : List Passage) → key x ≢ k → at_key k (x ∷ xs) ≡ at_key k xs
  unfolding at_key
  at_key-other x k xs h = let e : nat_beq (key x) k ≡ false = ground arith in rw e refl

  buckets : List Passage → List Passage
  buckets xs = at_key 0 xs ++ (at_key 1 xs ++ at_key 2 xs)

  insert_sorted-buckets :
      (x : Passage) (xs : List Passage)
      → (key x ≡ 0) ⊎ ((key x ≡ 1) ⊎ (key x ≡ 2))
      → insert_sorted key x (buckets xs) ≡ buckets (x ∷ xs)
  unfolding buckets
  insert_sorted-buckets x xs (inl h) =
      let a = beyond x 0 xs (omega arith) in
      let b = beyond x 1 xs (omega arith) in
      let c = beyond x 2 xs (omega arith) in
      let whole = insert_sorted-front x (at_key 0 xs ++ (at_key 1 xs ++ at_key 2 xs)) (
        rw
          (
            all-append (λ y. leb (key x) (key y)) (at_key 0 xs) (at_key 1 xs ++ at_key 2 xs),
            all-append (λ y. leb (key x) (key y)) (at_key 1 xs) (at_key 2 xs),
            a,
            b,
            c,
          )
          refl) in
      rw
        (at_key-here x 0 xs h, at_key-other x 1 xs (omega arith), at_key-other x 2 xs (omega arith))
        whole
  insert_sorted-buckets x xs (inr (inl h)) =
      let a = before x 0 xs (omega arith) in
      let b = beyond x 1 xs (omega arith) in
      let c = beyond x 2 xs (omega arith) in
      let tail =
        insert_sorted-front x (at_key 1 xs ++ at_key 2 xs)
          (rw (all-append (λ y. leb (key x) (key y)) (at_key 1 xs) (at_key 2 xs), b, c) refl) in
      rw
        (
          at_key-other x 0 xs (omega arith),
          at_key-here x 1 xs h,
          at_key-other x 2 xs (omega arith),
          insert_sorted-skip x (at_key 0 xs) (at_key 1 xs ++ at_key 2 xs) a,
          tail,
        )
        refl
  insert_sorted-buckets x xs (inr (inr h)) =
      let a = before x 0 xs (omega arith) in
      let b = before x 1 xs (omega arith) in
      let tail = insert_sorted-front x (at_key 2 xs) (beyond x 2 xs (omega arith)) in
      rw
        (
          at_key-other x 0 xs (omega arith),
          at_key-other x 1 xs (omega arith),
          at_key-here x 2 xs h,
          insert_sorted-skip x (at_key 0 xs) (at_key 1 xs ++ at_key 2 xs) a,
          insert_sorted-skip x (at_key 1 xs) (at_key 2 xs) b,
          tail,
        )
        refl

  sorted-buckets :
      (xs : List Passage)
      → ((x : Passage) → (key x ≡ 0) ⊎ ((key x ≡ 1) ⊎ (key x ≡ 2)))
      → sorted key xs ≡ buckets xs
  unfolding sorted buckets at_key
  sorted-buckets [] h = refl
  sorted-buckets (x ∷ xs) h =
      ap (insert_sorted key x) (sorted-buckets xs h) ∙ insert_sorted-buckets x xs (h x)

bucket-cases : (v : Validity) (on : ℕ) → (bucket v on ≡ 0) ⊎ ((bucket v on ≡ 1) ⊎ (bucket v on ≡ 2))
unfolding bucket
bucket-cases v on = ground arith

-- The passages come in three groups, first those whose article is in force on the day, then those
-- with nothing to judge by, then those not in force; in each group the passages of that kind stand
-- in the order of the retrieval, and none is dropped.
pub rank_by_time-groups :
    (results : List Passage) (on : ℕ) (validity : List (String × Validity))
    → rank_by_time results on validity
      ≡ at_key (key_on on validity) in_force results
        ++ (at_key (key_on on validity) undated results
            ++ at_key (key_on on validity) out_of_force results)
unfolding rank_by_time key_on buckets
rank_by_time-groups results on validity =
    sorted-buckets (key_on on validity) results (λ x. bucket-cases _ on)
