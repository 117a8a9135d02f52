-- ===== src/Text.antt =====
-- Python's operations on texts that the components share. A text is its list of code points.
use Prim.Native.Char.{code}
use mathlib.Core.List.{reverse}
use qnsc_kb_backend.Prelude.{
  ℕ, zero, suc, ◌+◌, ◌/◌, ◌%◌, String, ◌≡◌, refl, ◌↔◌, Bool, true, false, not, ◌&&◌, ◌||◌, Option,
  none, some, List, [], ◌∷◌, ◌++◌, arith, ltb, leb, nat_beq, nat_beq_iff, if◌then◌else◌, &&-eq-true,
  length, Eq, nat_eq, string_eq, option_eq,
}

abbrev pub Text : Type 0
Text = List ℕ

-- The code points of a literal; `String` has its own `[]` and `∷`.
abbrev pub codes : String → Text
codes String.[] = []
codes (String.◌∷◌ c s) = code c ∷ codes s

unfoldable pub text_beq : Text → Text → Bool
text_beq [] [] = true
text_beq [] (_ ∷ _) = false
text_beq (_ ∷ _) [] = false
text_beq (a ∷ s) (b ∷ t) = nat_beq a b && text_beq s t

pub text_beq_iff : (s t : Text) → (text_beq s t ≡ true) ↔ (s ≡ t)
unfolding text_beq
text_beq_iff [] [] = (λ _. refl, λ _. refl)
text_beq_iff [] (_ ∷ _) = (λ h. cc, λ h. cc)
text_beq_iff (_ ∷ _) [] = (λ h. cc, λ h. cc)
text_beq_iff (a ∷ s) (b ∷ t) = (
  λ h.
      let (p, q) = &&-eq-true (nat_beq a b) (text_beq s t) h in
      cc ((nat_beq_iff a b).0 p, (text_beq_iff s t).0 q),
  λ h. ground (arith, nat_beq_iff a b, text_beq_iff s t, h),
)

instance abbrev pub text_eq : Eq Text
text_eq = record { same = text_beq; same_iff = text_beq_iff }

-- `s < t`
unfoldable pub precedes : Text → Text → Bool
precedes [] [] = false
precedes [] (_ ∷ _) = true
precedes (_ ∷ _) [] = false
precedes (a ∷ s) (b ∷ t) = ltb a b || nat_beq a b && precedes s t

unfoldable pub is_blank : Text → Bool
is_blank [] = true
is_blank (_ ∷ _) = false

-- str.isspace, and `\s`
unfoldable pub is_space : ℕ → Bool
is_space c =
    leb 9 c && leb c 13
    || leb 28 c && leb c 32
    || nat_beq c 133
    || nat_beq c 160
    || nat_beq c 5760
    || leb 8192 c && leb c 8202
    || nat_beq c 8232
    || nat_beq c 8233
    || nat_beq c 8239
    || nat_beq c 8287
    || nat_beq c 12288

unfoldable pub drop_while : (ℕ → Bool) → Text → Text
drop_while p [] = []
drop_while p (c ∷ s) = let rest = drop_while p s in if p c then rest else c ∷ s

unfoldable pub drop_while_end : (ℕ → Bool) → Text → Text
unfolding drop_while
drop_while_end p s = reverse (drop_while p (reverse s))

unfoldable pub strip : Text → Text
unfolding is_space drop_while_end
strip s = drop_while_end is_space (drop_while is_space s)

-- The parts between characters that `p` marks, without the empty ones; `cur` is the part so far.
words_from : (ℕ → Bool) → Text → Text → List Text
unfolding is_blank
words_from p cur [] = if is_blank cur then [] else cur ∷ []
words_from p cur (c ∷ s) =
    let rest = words_from p (if p c then [] else cur ++ c ∷ []) s in
    if p c && not (is_blank cur) then cur ∷ rest else rest

-- str.split()
unfoldable pub words : Text → List Text
unfolding words_from is_space
words s = words_from is_space [] s

-- The line boundaries of str.splitlines
is_break : ℕ → Bool
is_break c =
    leb 10 c && leb c 13
    || leb 28 c && leb c 30
    || nat_beq c 133
    || nat_beq c 8232
    || nat_beq c 8233

-- `after_cr`: the character before is a carriage return, which a line feed does not end again.
lines_from : Bool → Text → Text → List Text
unfolding is_blank is_break
lines_from after_cr cur [] = if is_blank cur then [] else cur ∷ []
lines_from after_cr cur (c ∷ s) =
    let rest = lines_from (nat_beq c 13) (if is_break c then [] else cur ++ c ∷ []) s in
    if is_break c && not (after_cr && nat_beq c 10) then cur ∷ rest else rest

unfoldable pub splitlines : Text → List Text
unfolding lines_from
splitlines s = lines_from false [] s

-- sep.join(parts)
unfoldable pub join : Text → List Text → Text
join sep [] = []
join sep (part ∷ []) = part
join sep (part ∷ next ∷ rest) = part ++ (sep ++ join sep (next ∷ rest))

starts_with : Text → Text → Bool
starts_with [] s = true
starts_with (_ ∷ _) [] = false
starts_with (a ∷ part) (b ∷ s) = nat_beq a b && starts_with part s

index_of : Text → Text → Option ℕ
unfolding is_blank starts_with
index_of part [] = if is_blank part then some 0 else none
index_of part (c ∷ s) =
    let rest : Option ℕ = elim (index_of part s) [ none ↦ none | some n ↦ some (suc n) ] in
    if starts_with part (c ∷ s) then some 0 else rest

-- s[n:]
unfoldable pub drop : ℕ → Text → Text
drop zero s = s
drop (suc n) [] = []
drop (suc n) (c ∷ s) = drop n s

-- s.find(part, from), `none` for -1
unfoldable pub find_text : Text → Text → ℕ → Option ℕ
unfolding index_of drop
find_text s part from =
    if ltb (length s) from
    then none
    else elim (index_of part (drop from s)) [ none ↦ none | some n ↦ some (from + n) ]

-- The digits of a number below `10 ^ fuel`.
digits : ℕ → ℕ → Text
digits zero n = []
digits (suc fuel) n =
    let front = digits fuel (n / 10) in
    if ltb n 10 then (48 + n) ∷ [] else front ++ ((48 + n % 10) ∷ [])

-- str(n): a number is below `10 ^ suc n`.
unfoldable pub decimal : ℕ → Text
unfolding digits
decimal n = digits (suc n) n
