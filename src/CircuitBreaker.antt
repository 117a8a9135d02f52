-- ===== src/CircuitBreaker.antt =====
-- `CircuitBreaker` of src/rag/cross_encoder.py. Each method runs under the lock, so it is one step;
-- the clock's reading is an argument. An attempt that a method marks as recorded is returned.
pub mod Probe
pub mod Threshold
mod Examples
use qnsc_kb_backend.Prelude.{
  ℕ, zero, suc, ◌+◌, ◌-◌, ◌*◌, ◌/◌, ◌%◌, ◌^◌, ◌≤◌, ◌<◌, min, max, String, ◌≡◌, refl, sym, ap, ◌∙◌,
  ◌≢◌, ◌↔◌, ◌⊎◌, inl, inr, Bool, true, false, not, ◌&&◌, ◌||◌, Option, none, some, List, [], ◌∷◌,
  ◌++◌, map, Memᴰ, arith, ltb, leb, nat_beq, nat_beq_iff, if◌then◌else◌, ltb→lt, lt→ltb, leb→le,
  le→leb, tests, Bool-cases, Option-cases, &&-eq-true, ||-eq-true, is_some, get_or, length, take,
  length-append, any, all, filter, any-Memᴰ, any_of_Memᴰ, Memᴰ-filter, filter_of_Memᴰ,
  length-filter, Eq, ◌==◌, nat_eq, string_eq, option_eq, List-cases, not-Memᴰ-nil, find, find-Memᴰ,
  find-append, elem, elem-Memᴰ, Memᴰ-elem, lookup, insert, lookup-insert, option_beq_iff, eq_iff,
}

pub record Attempt : Type 0 where
  pub probe : Bool
  pub recorded : Bool

pub record CircuitBreaker : Type 0 where
  pub timeouts : ℕ
  pub opened_at : Option ℕ
  pub probing : Bool
  pub probe_started : ℕ

abbrev pub new_breaker : CircuitBreaker
new_breaker = record { timeouts = 0; opened_at = none; probing = false; probe_started = 0 }

pub is_open : CircuitBreaker → Bool
is_open b = is_some b.opened_at

-- The first caller after the cooldown, or after a probe that was lost.
half_open : ℕ → CircuitBreaker → CircuitBreaker × Option Attempt
half_open now b = (
  record b { probing = true; probe_started = now },
  some (record { probe = true; recorded = false }),
)

pub begin : ℕ → ℕ → CircuitBreaker → CircuitBreaker × Option Attempt
unfolding half_open
begin cooldown now b = elim b.opened_at [
  | none ↦ (b, some (record { probe = false; recorded = false }))
  | some opened ↦
      if b.probing
      then (if ltb now (b.probe_started + cooldown) then (b, none) else half_open now b)
      else if ltb now (opened + cooldown)
      then (b, none)
      else half_open now b
]

pub record_attempt : Option Attempt → Option Attempt
record_attempt none = none
record_attempt (some a) = some (record a { recorded = true })

pub record_timeout : ℕ → ℕ → Option Attempt → CircuitBreaker → CircuitBreaker × Option Attempt
unfolding is_open record_attempt
record_timeout threshold now attempt b =
    let counted = record b { timeouts = b.timeouts + 1; probing = false } in
    (
      if is_open b || leb threshold (b.timeouts + 1)
          then record counted { opened_at = some now }
          else counted,
      record_attempt attempt,
    )

pub record_success : Option Attempt → CircuitBreaker → CircuitBreaker × Option Attempt
unfolding record_attempt
record_success attempt b =
    (record b { timeouts = 0; opened_at = none; probing = false }, record_attempt attempt)

pub finish : ℕ → Option Attempt → CircuitBreaker → CircuitBreaker
finish now none b = b
finish now (some a) b =
    if not a.probe || a.recorded
    then b
    else if not b.probing
    then b
    else record b { probing = false; opened_at = some now }

-- How a caller's turn ends before `finish`: the scoring call returned, timed out, or ended in any
-- other way.
pub data Outcome : Type 0 where
  success timeout unrecorded : Outcome

pub settle : ℕ → ℕ → Outcome → Option Attempt → CircuitBreaker → CircuitBreaker × Option Attempt
unfolding record_success record_timeout
settle threshold now success attempt b = record_success attempt b
settle threshold now timeout attempt b = record_timeout threshold now attempt b
settle threshold now unrecorded attempt b = (b, attempt)

-- A caller that was let through, from its outcome to the `finally` block.
pub conclude : ℕ → ℕ → ℕ → Outcome → Option Attempt → CircuitBreaker → CircuitBreaker
unfolding settle finish
conclude threshold settled finished outcome attempt b =
    let (after, marked) = settle threshold settled outcome attempt b in finish finished marked after
