-- ===== src/ApprovalAgent/Reply.antt =====
-- `parse_decision` of src/domain/approval_agent.py. A reply is its list of code points.
use mathlib.Core.List.{reverse}
use qnsc_kb_backend.Prelude.{
  ℕ, String, ◌≡◌, inl, inr, Bool, ◌&&◌, ◌||◌, Option, none, some, List, [], ◌∷◌, arith, leb,
  nat_beq, if◌then◌else◌, Option-cases, ◌==◌, nat_eq, string_eq, option_eq, eq_iff,
}
use qnsc_kb_backend.Text.{is_space, drop_while, strip}

pub data Decision : Type 0 where
  approve reject unsure : Decision

-- What `json.loads` gives for an object: its "decision", if that is a text, and its "reason" as
-- text, stripped and cut to 500 characters.
pub record Payload : Type 0 where
  pub decision : Option String
  pub reason : String

-- [a-zA-Z]
is_letter : ℕ → Bool
is_letter c = leb 97 c && leb c 122 || leb 65 c && leb c 90

abbrev backtick : ℕ
backtick = 96

-- What follows three backticks at the start, if they stand there.
after_fence : List ℕ → Option (List ℕ)
after_fence (a ∷ b ∷ c ∷ s) =
    if nat_beq a backtick && nat_beq b backtick && nat_beq c backtick then some s else none
after_fence _ = none

-- re.sub(r"\s*```$", "", text), for a text that has no line break at its end
drop_closing_fence : List ℕ → List ℕ
unfolding after_fence drop_while is_space
drop_closing_fence s = elim (after_fence (reverse s)) [
  | none ↦ s
  | some rest ↦ reverse (drop_while is_space rest)
]

unfoldable pub unfence : List ℕ → List ℕ
unfolding after_fence drop_closing_fence drop_while is_letter is_space
unfence s = elim (after_fence s) [
  | none ↦ s
  | some rest ↦ drop_closing_fence (drop_while is_space (drop_while is_letter rest))
]

-- text[text.find("{"):], if there is a brace
from_brace : List ℕ → Option (List ℕ)
from_brace [] = none
from_brace (c ∷ s) = let rest = from_brace s in if nat_beq c 123 then some (c ∷ s) else rest

-- text[:text.rfind("}") + 1], if there is a brace
to_brace : List ℕ → Option (List ℕ)
to_brace [] = none
to_brace (c ∷ s) = elim (to_brace s) [
  | some t ↦ some (c ∷ t)
  | none ↦ if nat_beq c 125 then some (c ∷ []) else none
]

-- text[start : end + 1]; `none` where `start < 0 or end <= start`
unfoldable pub braced : List ℕ → Option (List ℕ)
unfolding from_brace to_brace
braced s = elim (from_brace s) [ none ↦ none | some t ↦ to_brace t ]

-- decision not in (APPROVE, REJECT, "unsure")
read_decision : Option String → Decision
read_decision none = unsure
read_decision (some d) =
    if d == "approve" then approve else if d == "reject" then reject else unsure

-- `none` is an exception: the text is no JSON, or no object.
unfoldable pub parse_decision : (List ℕ → Option Payload) → List ℕ → Option Decision
unfolding strip unfence braced read_decision
parse_decision loads reply = elim (braced (unfence (strip reply))) [
  | none ↦ some unsure
  | some object ↦ elim (loads object) [
    | none ↦ none
    | some payload ↦ some (read_decision payload.decision)
  ]
]

read_decision-approve : (d : Option String) → read_decision d ≡ approve → d ≡ some "approve"
unfolding read_decision
read_decision-approve none h = absurd (cc h)
read_decision-approve (some d) h = ground (arith, eq_iff d "approve")

-- The agent reads an approval only where the braced part of the reply is an object whose decision
-- is "approve".
pub parse_decision-approve :
    (loads : List ℕ → Option Payload) (reply : List ℕ)
    → parse_decision loads reply ≡ some approve
    → (object : List ℕ) × (payload : Payload) × (braced (unfence (strip reply)) ≡ some object)
      × (loads object ≡ some payload)
      × (payload.decision ≡ some "approve")
unfolding parse_decision
parse_decision-approve loads reply h = elim (Option-cases (braced (unfence (strip reply)))) [
  | inl e ↦ absurd (cc (rw (e, parse_decision) at h))
  | inr p ↦ elim (Option-cases (loads p.0)) [
    | inl e ↦ let k : none ≡ some approve = rw (p.1, e, parse_decision) at h in absurd (cc k)
    | inr q ↦
        let k : some (read_decision q.0.decision) ≡ some approve =
          rw (p.1, q.1, parse_decision) at h in
        (p.0, q.0, p.1, q.1, read_decision-approve q.0.decision (cc k))
  ]
]
