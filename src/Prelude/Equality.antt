-- ===== src/Prelude/Equality.antt =====
-- Python's `==` on identifiers and texts, and `in`, over types with a Boolean equality.
use Prim.Native.Nat.{ℕ}
use Prim.Native.String.{String}
use mathlib.Core.Path.{◌≡◌, refl, sym, subst}
use mathlib.Core.Logic.{◌↔◌, inl, inr}
use mathlib.Core.Bool.{Bool, true, false}
use mathlib.Core.Option.{Option, none, some}
use mathlib.Core.List.{List, [], ◌∷◌, Memᴰ}
use native.Mathlib.Omega.{arith}
use text.Mathlib.Text.{◌==◌ as str_beq}
pub use text.Mathlib.TextEquality.{eq_iff}
use qnsc_kb_backend.Prelude.Tests.{nat_beq, nat_beq_iff, if◌then◌else◌, Bool-cases}
use qnsc_kb_backend.Prelude.Lists.{any, any-Memᴰ, any_of_Memᴰ}

-- A type whose `==` decides equality.
pub record Eq {ℓ} (K : Type ℓ) : Type ℓ where
  pub same : K → K → Bool
  pub same_iff : (x y : K) → (same x y ≡ true) ↔ (x ≡ y)

instance abbrev pub string_eq : Eq String
string_eq = record { same = str_beq; same_iff = eq_iff }

instance abbrev pub nat_eq : Eq ℕ
nat_eq = record { same = nat_beq; same_iff = nat_beq_iff }

infix 50 ◌==◌
abbrev pub ◌==◌ {ℓ} : {K : Type ℓ} ⦃keys : Eq K⦄ → K → K → Bool
◌==◌ ⦃keys⦄ x y = keys.same x y

module _ {ℓ} {A : Type ℓ} ⦃e : Eq A⦄ where
  abbrev option_beq : Option A → Option A → Bool
  option_beq none none = true
  option_beq none (some _) = false
  option_beq (some _) none = false
  option_beq (some a) (some b) = e.same a b

  pub option_beq_iff : (a b : Option A) → (option_beq a b ≡ true) ↔ (a ≡ b)
  option_beq_iff none none = (λ _. refl, λ _. refl)
  option_beq_iff none (some b) = (λ h. cc, λ h. cc)
  option_beq_iff (some a) none = (λ h. cc, λ h. cc)
  option_beq_iff (some a) (some b) =
      (λ h. cc ((e.same_iff a b).0 h), λ h. (e.same_iff a b).1 (cc h))

  instance abbrev pub option_eq : Eq (Option A)
  option_eq = record { same = option_beq; same_iff = option_beq_iff }

  -- `a in xs`
  abbrev pub elem : A → List A → Bool
  elem a xs = any (λ x. e.same x a) xs

  pub elem-Memᴰ : (a : A) (xs : List A) → elem a xs ≡ true → Memᴰ a xs
  elem-Memᴰ a xs h =
      let (x, m, p) = any-Memᴰ (λ x. e.same x a) xs h in rw (← (e.same_iff x a).0 p) m

  pub Memᴰ-elem : (a : A) (xs : List A) → Memᴰ a xs → elem a xs ≡ true
  Memᴰ-elem a xs m = any_of_Memᴰ (λ x. e.same x a) xs m ((e.same_iff a a).1 refl)

-- A dict, as its items in order.
module _ {ℓ κ} {K : Type κ} {V : Type ℓ} ⦃keys : Eq K⦄ where
  abbrev pub lookup : K → List (K × V) → Option V
  lookup key [] = none
  lookup key (item ∷ rest) =
      let later = lookup key rest in if keys.same item.0 key then some item.1 else later

  -- `d[k] = v`: an old key keeps its place.
  abbrev pub insert : K → V → List (K × V) → List (K × V)
  insert key value [] = (key, value) ∷ []
  insert key value (item ∷ rest) =
      let later = insert key value rest in
      if keys.same item.0 key then (item.0, value) ∷ rest else item ∷ later

  pub lookup-insert :
      (key other : K) (value : V) (d : List (K × V))
      → lookup other (insert key value d)
        ≡ (if keys.same key other then some value else lookup other d)
  lookup-insert key other value [] = refl
  lookup-insert key other value (item ∷ rest) =
      let later = lookup-insert key other value rest in
      ground (
        arith,
        later,
        keys.same_iff item.0 other,
        keys.same_iff key other,
        keys.same_iff item.0 key,
      )

  -- `Q` holds of every item of a dict.
  module _ (Q : K → V → Type 0) where
    abbrev pub AllItems : List (K × V) → Type 0
    AllItems [] = Unit
    AllItems (item ∷ rest) = Q item.0 item.1 × AllItems rest

    pub AllItems-insert :
        (key : K) (value : V) (d : List (K × V))
        → Q key value
        → AllItems d
        → AllItems (insert key value d)
    AllItems-insert key value [] q _ = (q, tt)
    AllItems-insert key value (item ∷ rest) q (p, ps) = elim (Bool-cases (keys.same item.0 key)) [
      | inl e ↦ rw e (subst (λ k. Q k value) (sym ((keys.same_iff item.0 key).0 e)) q, ps)
      | inr e ↦ rw e (p, AllItems-insert key value rest q ps)
    ]

    Found : K → Option V → Type 0
    Found key none = Unit
    Found key (some value) = Q key value

    lookup-Found : (key : K) (d : List (K × V)) → AllItems d → Found key (lookup key d)
    unfolding Found
    lookup-Found key [] _ = tt
    lookup-Found key (item ∷ rest) (p, ps) = elim (Bool-cases (keys.same item.0 key)) [
      | inl e ↦ rw e (subst (λ k. Q k item.1) ((keys.same_iff item.0 key).0 e) p)
      | inr e ↦ rw e (lookup-Found key rest ps)
    ]

    pub lookup-AllItems :
        (key : K) (value : V) (d : List (K × V))
        → lookup key d ≡ some value
        → AllItems d
        → Q key value
    unfolding Found
    lookup-AllItems key value d e h = subst (Found key) e (lookup-Found key d h)
