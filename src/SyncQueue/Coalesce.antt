-- ===== src/SyncQueue/Coalesce.antt =====
-- How src/domain/sync_queue.py folds a notification into a waiting request.
use qnsc_kb_backend.Prelude.{
  ℕ, suc, ◌≤◌, String, ◌≡◌, refl, sym, ap, ◌∙◌, ◌≢◌, inl, inr, true, Option, none, List, [], ◌∷◌,
  Memᴰ, arith, Option-cases, length, filter, filter_of_Memᴰ, nat_eq, string_eq, option_eq,
  List-cases, not-Memᴰ-nil, elem,
}
use qnsc_kb_backend.SyncQueue.{
  SyncRequest, coalescible, first_in_order, coalesce, update_request, new_request,
  enqueue_connector_sync,
}

first_in_order-ne-none :
    (r : SyncRequest) (rows : List SyncRequest) → first_in_order (r ∷ rows) ≢ none
unfolding first_in_order
first_in_order-ne-none r rows h = ground arith

length-update_request :
    (id : ℕ) (f : SyncRequest → SyncRequest) (rows : List SyncRequest)
    → length (update_request id f rows) ≡ length rows
unfolding update_request
length-update_request id f [] = refl
length-update_request id f (r ∷ rest) = ap suc (length-update_request id f rest)

-- A notification for a connector and scope that already have a waiting request adds no row.
pub length-enqueue_waiting :
    (id job_id now connector_id : ℕ) (scope_id : Option ℕ) (reason : String) (priority : ℕ)
    (rows : List SyncRequest) (waiting : SyncRequest)
    → Memᴰ waiting rows
    → coalescible connector_id scope_id waiting ≡ true
    → length (enqueue_connector_sync id job_id now connector_id scope_id reason priority rows).0
      ≡ length rows
unfolding enqueue_connector_sync
length-enqueue_waiting id job_id now connector_id scope_id reason priority rows waiting m c =
    elim (Option-cases (first_in_order (filter (coalescible connector_id scope_id) rows))) [
      | inr p ↦ rw (p.1, enqueue_connector_sync) (length-update_request p.0.id _ rows)
      | inl e ↦ elim (List-cases (filter (coalescible connector_id scope_id) rows)) [
        | inl nil ↦
            absurd (
              not-Memᴰ-nil
                (rw nil at (filter_of_Memᴰ (coalescible connector_id scope_id) rows m c)))
        | inr q ↦ absurd (first_in_order-ne-none q.0 q.1 (ap first_in_order (sym q.2) ∙ e))
      ]
    ]

-- Where a person or a provider notification asks, the request that the enqueue answers with is at
-- least as urgent as asked for, and due at once.
pub enqueue_hastens :
    (id job_id now connector_id : ℕ) (scope_id : Option ℕ) (reason : String) (priority : ℕ)
    (rows : List SyncRequest)
    → elem reason ("manual" ∷ "webhook" ∷ []) ≡ true
    → ((enqueue_connector_sync id job_id now connector_id scope_id reason priority rows).1.priority
        ≤ priority)
      × ((enqueue_connector_sync id job_id now connector_id scope_id reason priority
            rows).1.available_at
          ≤ now)
unfolding enqueue_connector_sync coalesce new_request
enqueue_hastens id job_id now connector_id scope_id reason priority rows h = ground arith
