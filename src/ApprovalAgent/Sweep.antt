-- ===== src/ApprovalAgent/Sweep.antt =====
-- `run` of src/domain/approval_agent.py: one pass over the pending queue.
use qnsc_kb_backend.Prelude.{
  ◌+◌, ◌≡◌, sym, ap, ◌∙◌, inl, inr, Bool, true, Option, none, some, List, [], ◌∷◌, Memᴰ, arith,
  if◌then◌else◌, Option-cases, length, nat_eq, string_eq, option_eq,
}
use qnsc_kb_backend.ApprovalAgent.Reply.{Decision, approve, reject, unsure}
use qnsc_kb_backend.ApprovalAgent.{
  Draft, Verdict, Services, apply_verdict, Summary, count_action, Entry, sweep,
}

-- Every draft is counted once.
unfoldable pub IsBalanced : Summary → Type 0
IsBalanced s = s.evaluated ≡ s.approved + s.rejected + s.left_for_review

module _ (judge : Draft → Verdict) (services : Services) where
  abbrev carried : Bool → Draft → Option Decision
  carried dry_run draft = if dry_run then none else apply_verdict services draft (judge draft)

  abbrev counted : Bool → Draft → Summary → Summary
  counted dry_run draft s =
      count_action (carried dry_run draft) (record s { evaluated = s.evaluated + 1 })

  counted-evaluated :
      (dry_run : Bool) (draft : Draft) (s : Summary)
      → (counted dry_run draft s).evaluated ≡ s.evaluated + 1
  unfolding count_action
  counted-evaluated dry_run draft s = ground arith

  sweep-evaluated :
      (dry_run : Bool) (drafts : List Draft) (s : Summary)
      → (sweep judge services dry_run drafts s).0.evaluated ≡ s.evaluated + length drafts
  unfolding sweep
  sweep-evaluated dry_run [] s = omega arith
  sweep-evaluated dry_run (draft ∷ rest) s = omega (
    arith,
    counted-evaluated dry_run draft s,
    sweep-evaluated dry_run rest (counted dry_run draft s),
  )

  counted-IsBalanced :
      (dry_run : Bool) (draft : Draft) (s : Summary)
      → IsBalanced s
      → IsBalanced (counted dry_run draft s)
  unfolding count_action IsBalanced
  counted-IsBalanced dry_run draft s h = elim (Option-cases (carried dry_run draft)) [
    | inl e ↦ rw (e, count_action) (omega arith)
    | inr p ↦ rw (p.1, count_action) (settled p.0)
  ]
    where
      settled :
          (d : Decision)
          → IsBalanced (count_action (some d) (record s { evaluated = s.evaluated + 1 }))
      settled approve = omega arith
      settled reject = omega arith
      settled unsure = omega arith

  -- A pass keeps the counters adding up, where they do at its start: each evaluated draft is
  -- approved, rejected or left for review.
  pub sweep-IsBalanced :
      (dry_run : Bool) (drafts : List Draft) (s : Summary)
      → IsBalanced s
      → IsBalanced (sweep judge services dry_run drafts s).0
  unfolding sweep
  sweep-IsBalanced dry_run [] s h = h
  sweep-IsBalanced dry_run (draft ∷ rest) s h =
      sweep-IsBalanced dry_run rest (counted dry_run draft s) (counted-IsBalanced dry_run draft s h)

  -- A dry run carries nothing out, on any draft.
  dry_run-carries_nothing :
      (drafts : List Draft) (s : Summary) (e : Entry)
      → Memᴰ e (sweep judge services true drafts s).1
      → e.applied ≡ none
  unfolding sweep
  dry_run-carries_nothing [] s e m = elim m [ ]
  dry_run-carries_nothing (draft ∷ rest) s e (Memᴰ.head q) = ap (λ (x : Entry). x.applied) q
  dry_run-carries_nothing (draft ∷ rest) s e (Memᴰ.tail m) =
      dry_run-carries_nothing rest (counted true draft s) e m

  -- What stands in the log of a pass is what was judged and carried out on one of the drafts.
  pub sweep-Memᴰ :
      (dry_run : Bool) (drafts : List Draft) (s : Summary) (e : Entry)
      → Memᴰ e (sweep judge services dry_run drafts s).1
      → Memᴰ e.draft drafts × (e.verdict ≡ judge e.draft) × (e.applied ≡ carried dry_run e.draft)
  unfolding sweep
  sweep-Memᴰ dry_run [] s e m = elim m [ ]
  sweep-Memᴰ dry_run (draft ∷ rest) s e (Memᴰ.head q) =
      let d : e.draft ≡ draft = ap (λ (x : Entry). x.draft) q in
      (
        Memᴰ.head d,
        ap (λ (x : Entry). x.verdict) q ∙ ap judge (sym d),
        ap (λ (x : Entry). x.applied) q ∙ ap (carried dry_run) (sym d),
      )
  sweep-Memᴰ dry_run (draft ∷ rest) s e (Memᴰ.tail m) =
      let (i, v, a) = sweep-Memᴰ dry_run rest (counted dry_run draft s) e m in (Memᴰ.tail i, v, a)
