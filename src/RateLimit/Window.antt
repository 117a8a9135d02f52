-- ===== src/RateLimit/Window.antt =====
-- The in-memory limiter of src/core/rate_limit.py against a sliding window over all granted calls.
use qnsc_kb_backend.Prelude.{
  ℕ, ◌+◌, ◌≤◌, ◌<◌, ◌≡◌, refl, ◌∙◌, inl, inr, true, false, List, [], ◌∷◌, ◌++◌, arith, ltb, leb,
  if◌then◌else◌, Bool-cases, length, nat_eq, string_eq, option_eq,
}
use qnsc_kb_backend.RateLimit.{pop_expired, retry_after, allow_event, grants, is_allowed}

-- A granted call at `x` still counts at `now`.
abbrev pub counts_at : ℕ → ℕ → ℕ → ℕ
counts_at window now x = if leb (x + window) now then 0 else 1

abbrev pub in_window : ℕ → ℕ → List ℕ → ℕ
in_window window now [] = 0
in_window window now (x ∷ xs) = counts_at window now x + in_window window now xs

-- The reference: a call is granted if fewer than `limit` granted calls are in the window.
unfoldable pub window_grants : ℕ → ℕ → List ℕ → List ℕ → List ℕ
window_grants limit window granted [] = granted
window_grants limit window granted (now ∷ later) =
    window_grants limit window
      (if ltb (in_window window now granted) limit then now ∷ granted else granted) later

-- The times ascend from `last` on.
abbrev pub Ascends : ℕ → List ℕ → Type 0
Ascends last [] = Unit
Ascends last (t ∷ ts) = (last ≤ t) × Ascends t ts

Ascends-weaken : (a b : ℕ) (xs : List ℕ) → a ≤ b → Ascends b xs → Ascends a xs
Ascends-weaken a b [] h s = tt
Ascends-weaken a b (x ∷ xs) h s = (omega arith, s.1)

in_window-append :
    (window now : ℕ) (xs ys : List ℕ)
    → in_window window now (xs ++ ys) ≡ in_window window now xs + in_window window now ys
in_window-append window now [] ys = omega arith
in_window-append window now (x ∷ xs) ys = omega (arith, in_window-append window now xs ys)

in_window-all :
    (window now e : ℕ) (rest : List ℕ)
    → Ascends e rest
    → now < e + window
    → in_window window now rest ≡ length rest
in_window-all window now e [] s h = refl
in_window-all window now e (x ∷ rest) s h = ground (arith, in_window-all window now x rest)

module _ (window now : ℕ) where
  length-pop_expired :
      (start : ℕ) (events : List ℕ)
      → Ascends start events
      → length (pop_expired window now events) ≡ in_window window now events
  unfolding pop_expired
  length-pop_expired start [] s = refl
  length-pop_expired start (e ∷ rest) s =
      ground (arith, length-pop_expired e rest, in_window-all window now e rest)

  Ascends-pop_expired :
      (start : ℕ) (events : List ℕ)
      → Ascends start events
      → Ascends start (pop_expired window now events)
  unfolding pop_expired
  Ascends-pop_expired start [] s = tt
  Ascends-pop_expired start (e ∷ rest) s = elim (Bool-cases (leb (e + window) now)) [
    | inl old ↦
        rw old (
          Ascends-weaken start e (pop_expired window now rest) s.0 (Ascends-pop_expired e rest s.1))
    | inr fresh ↦ rw fresh s
  ]

  -- What is popped counts at no later time either.
  in_window-pop_expired :
      (t : ℕ) (events : List ℕ)
      → now ≤ t
      → in_window window t (pop_expired window now events) ≡ in_window window t events
  unfolding pop_expired
  in_window-pop_expired t [] h = refl
  in_window-pop_expired t (e ∷ rest) h = ground (arith, in_window-pop_expired t rest h)

Below : ℕ → List ℕ → Type 0
Below n [] = Unit
Below n (x ∷ xs) = (x ≤ n) × Below n xs

Below-weaken : (a b : ℕ) (xs : List ℕ) → a ≤ b → Below a xs → Below b xs
unfolding Below
Below-weaken a b [] h s = tt
Below-weaken a b (x ∷ xs) h s = (omega arith, Below-weaken a b xs h s.1)

Below-pop_expired :
    (window now n : ℕ) (events : List ℕ) → Below n events → Below n (pop_expired window now events)
unfolding Below pop_expired
Below-pop_expired window now n [] s = tt
Below-pop_expired window now n (e ∷ rest) s = elim (Bool-cases (leb (e + window) now)) [
  | inl old ↦ rw old (Below-pop_expired window now n rest s.1)
  | inr fresh ↦ rw fresh s
]

Below-append : (n x : ℕ) (xs : List ℕ) → Below n xs → x ≤ n → Below n (xs ++ x ∷ [])
unfolding Below
Below-append n x [] s h = (h, tt)
Below-append n x (y ∷ xs) s h = (s.0, Below-append n x xs s.1 h)

Ascends-append :
    (start x : ℕ) (xs : List ℕ)
    → Ascends start xs
    → Below x xs
    → start ≤ x
    → Ascends start (xs ++ x ∷ [])
unfolding Below
Ascends-append start x [] s b h = (h, tt)
Ascends-append start x (y ∷ xs) s b h = (s.0, Ascends-append y x xs s.1 b.1 b.0)

-- What the deque says of the calls granted up to `last`.
record Tracks (window last : ℕ) (events granted : List ℕ) : Type 0 where
  ascending : Ascends 0 events
  past : Below last events
  agree : (t : ℕ) → last ≤ t → in_window window t events ≡ in_window window t granted

module _ (window last now : ℕ) (events granted : List ℕ) (inv : Tracks window last events granted)
    (later : last ≤ now) where
  abbrev live : List ℕ
  live = pop_expired window now events

  length-live : length live ≡ in_window window now granted
  length-live = length-pop_expired window now 0 events inv.ascending ∙ inv.agree now later

  Tracks-refused : Tracks window now live granted
  Tracks-refused = record {
    ascending = Ascends-pop_expired window now 0 events inv.ascending;
    past = Below-pop_expired window now now events (Below-weaken last now events later inv.past);
    agree = λ t h. in_window-pop_expired window now t events h ∙ inv.agree t (omega arith);
  }

  Tracks-allowed : Tracks window now (live ++ now ∷ []) (now ∷ granted)
  Tracks-allowed = record {
    ascending =
        Ascends-append 0 now live Tracks-refused.ascending Tracks-refused.past (omega arith);
    past = Below-append now now live Tracks-refused.past (omega arith);
    agree = λ t h. omega (
      arith,
      in_window-append window t live (now ∷ []),
      in_window-pop_expired window now t events h,
      inv.agree t (omega arith),
    );
  }

retry_after-refuses :
    (window now : ℕ) (live : List ℕ) → is_allowed (retry_after window now live) ≡ false
unfolding retry_after
retry_after-refuses window now [] = refl
retry_after-refuses window now (e ∷ rest) = refl

module _ (limit window now : ℕ) (events granted calls : List ℕ) where
  refuse_step :
      leb limit (length (pop_expired window now events)) ≡ true
      → grants limit window events granted (now ∷ calls)
        ≡ grants limit window (pop_expired window now events) granted calls
  unfolding grants allow_event
  refuse_step full = rw full (rw (retry_after-refuses window now (pop_expired window now events)))

  allow_step :
      leb limit (length (pop_expired window now events)) ≡ false
      → grants limit window events granted (now ∷ calls)
        ≡ grants limit window (pop_expired window now events ++ now ∷ []) (now ∷ granted) calls
  unfolding grants allow_event
  allow_step room = rw room

grants-window_grants :
    (limit window last : ℕ) (events granted calls : List ℕ)
    → Tracks window last events granted
    → Ascends last calls
    → grants limit window events granted calls ≡ window_grants limit window granted calls
unfolding window_grants
grants-window_grants limit window last events granted [] inv s = unfold grants in refl
grants-window_grants limit window last events granted (now ∷ calls) inv s =
    let same = length-live window last now events granted inv s.0 in
    let kept = pop_expired window now events in
    elim (Bool-cases (leb limit (length kept))) [
      | inl full ↦
          let shut : ltb (in_window window now granted) limit ≡ false = ground arith in
          refuse_step limit window now events granted calls full
          ∙ rw shut (
              grants-window_grants limit window now kept granted calls
                (Tracks-refused window last now events granted inv s.0) s.1)
      | inr room ↦
          let open_ : ltb (in_window window now granted) limit ≡ true = ground arith in
          allow_step limit window now events granted calls room
          ∙ rw open_ (
              grants-window_grants limit window now (kept ++ now ∷ []) (now ∷ granted) calls
                (Tracks-allowed window last now events granted inv s.0) s.1)
    ]

-- For calls at ascending times, the deque grants exactly the calls of the sliding window.
pub grants_refines_window :
    (limit window : ℕ) (calls : List ℕ)
    → Ascends 0 calls
    → grants limit window [] [] calls ≡ window_grants limit window [] calls
unfolding Below
grants_refines_window limit window calls s =
    grants-window_grants limit window 0 [] [] calls
      (record { ascending = tt; past = tt; agree = λ t h. refl }) s
