-- ===== src/SyncQueue/Exclusion.antt =====
-- The requests in flight under each operation of src/domain/sync_queue.py.
use qnsc_kb_backend.Prelude.{
  ℕ, ◌≤◌, String, ◌≡◌, refl, ap, ◌∙◌, ◌≢◌, inl, inr, Bool, true, false, Option, some, List, [], ◌∷◌,
  map, arith, if◌then◌else◌, Bool-cases, Option-cases, filter, nat_eq, string_eq, option_eq,
}
use native.Mathlib.Decide.{ℕ_discrete}
use qnsc_kb_backend.SyncQueue.{
  SyncRequest, in_flight, is_queued, find_request, update_request, first_in_order, filter,
  coalescible, coalesce, new_request, enqueue_connector_sync, busy, claimable, dispatch,
  claim_sync_request, start, mark_sync_request_running, settle, finish_sync_request, is_stale,
  requeue, recover_stale_sync_requests,
}
use qnsc_kb_backend.SyncQueue.Rows.{
  IsAbsent, HasKeys, weight, in_flight_count, in_flight_count-append, in_flight_count-update,
  in_flight_count-not_busy, HasKeys-update, HasKeys-append, HasKeys-map, find_request-id,
}

-- Distinct keys, and at most one request of each connector dispatched or running.
pub record IsExclusive (rows : List SyncRequest) : Type 0 where
  pub keys : HasKeys rows
  pub single : (connector : ℕ) → in_flight_count connector rows ≤ 1

in_flight_count-le-update :
    (connector id : ℕ) (f : SyncRequest → SyncRequest) (rows : List SyncRequest)
    → ((r : SyncRequest) → weight connector (f r) ≤ weight connector r)
    → in_flight_count connector (update_request id f rows) ≤ in_flight_count connector rows
unfolding update_request
in_flight_count-le-update connector id f [] h = omega arith
in_flight_count-le-update connector id f (r ∷ rest) h =
    ground (arith, h r, in_flight_count-le-update connector id f rest h)

in_flight_count-le-map :
    (connector : ℕ) (f : SyncRequest → SyncRequest) (rows : List SyncRequest)
    → ((r : SyncRequest) → weight connector (f r) ≤ weight connector r)
    → in_flight_count connector (map f rows) ≤ in_flight_count connector rows
in_flight_count-le-map connector f [] h = omega arith
in_flight_count-le-map connector f (r ∷ rest) h =
    omega (arith, h r, in_flight_count-le-map connector f rest h)

coalesce-id :
    (now : ℕ) (reason : String) (priority : ℕ) (r : SyncRequest)
    → (coalesce now reason priority r).id ≡ r.id
unfolding coalesce
coalesce-id now reason priority r = refl

weight-coalesce :
    (connector now : ℕ) (reason : String) (priority : ℕ) (r : SyncRequest)
    → weight connector (coalesce now reason priority r) ≤ weight connector r
unfolding coalesce weight
weight-coalesce connector now reason priority r = ground arith

settle-id :
    (now : ℕ) (success : Bool) (error : Option String) (retryable : Bool) (r : SyncRequest)
    → (settle now success error retryable r).id ≡ r.id
unfolding settle
settle-id now success error retryable r = ground arith

weight-settle :
    (connector now : ℕ) (success : Bool) (error : Option String) (retryable : Bool)
    (r : SyncRequest)
    → weight connector (settle now success error retryable r) ≤ weight connector r
unfolding settle weight
weight-settle connector now success error retryable r = ground arith

weight-new_request :
    (connector id job_id now connector_id : ℕ) (scope_id : Option ℕ) (reason : String)
    (priority : ℕ)
    → weight connector (new_request id job_id now connector_id scope_id reason priority) ≡ 0
unfolding weight new_request
weight-new_request connector id job_id now connector_id scope_id reason priority = ground arith

weight-queued :
    (connector : ℕ) (r : SyncRequest) → is_queued r.status ≡ true → weight connector r ≡ 0
unfolding weight
weight-queued connector r q = ground arith

weight-dispatch :
    (connector now : ℕ) (r : SyncRequest)
    → (weight connector (dispatch now r) ≤ 1)
      × (r.connector_id ≢ connector → weight connector (dispatch now r) ≡ 0)
unfolding weight dispatch
weight-dispatch connector now r = (ground arith, λ h. ground arith)

dispatch-id : (now : ℕ) (r : SyncRequest) → (dispatch now r).id ≡ r.id
unfolding dispatch
dispatch-id now r = refl

-- A new notification never puts a second request of a connector in flight.
pub enqueue-IsExclusive :
    (id job_id now connector_id : ℕ) (scope_id : Option ℕ) (reason : String) (priority : ℕ)
    (rows : List SyncRequest)
    → IsAbsent id rows
    → IsExclusive rows
    → IsExclusive
        (enqueue_connector_sync id job_id now connector_id scope_id reason priority rows).0
unfolding enqueue_connector_sync
enqueue-IsExclusive id job_id now connector_id scope_id reason priority rows fresh inv =
    elim (Option-cases (first_in_order (filter (coalescible connector_id scope_id) rows))) [
      | inl e ↦
          rw (e, enqueue_connector_sync)
            (record {
              keys = HasKeys-append rows _ inv.keys (unfold new_request in fresh);
              single = λ c. omega (
                arith,
                inv.single c,
                weight-new_request c id job_id now connector_id scope_id reason priority,
                in_flight_count-append c rows
                    (new_request id job_id now connector_id scope_id reason priority ∷ []),
              );
            })
      | inr p ↦
          rw (p.1, enqueue_connector_sync)
            (record {
              keys = HasKeys-update p.0.id _ rows (coalesce-id now reason priority) inv.keys;
              single = λ c. omega (
                arith,
                inv.single c,
                in_flight_count-le-update c p.0.id (coalesce now reason priority) rows
                    (weight-coalesce c now reason priority),
              );
            })
    ]

module _ (now id : ℕ) (rows : List SyncRequest) (inv : IsExclusive rows) where
  taken :
      (request : SyncRequest)
      → find_request id rows ≡ some request
      → is_queued request.status ≡ true
      → busy request rows ≡ false
      → IsExclusive (update_request id (dispatch now) rows)
  taken request e q free = record {
    keys = HasKeys-update id (dispatch now) rows (dispatch-id now) inv.keys;
    single = λ c. elim (ℕ_discrete request.connector_id c) [
      | yes same ↦
          let idle : in_flight_count c rows ≡ 0 = rw (← same) (
            in_flight_count-not_busy request rows inv.keys
              (ap (λ (i : ℕ). find_request i rows) (find_request-id id rows request e) ∙ e) q
              free) in
          omega (
            arith,
            idle,
            (weight-dispatch c now request).0,
            in_flight_count-update c id (dispatch now) rows request inv.keys e,
          )
      | no other ↦ omega (
        arith,
        inv.single c,
        (weight-dispatch c now request).1 other,
        in_flight_count-update c id (dispatch now) rows request inv.keys e,
      )
    ];
  }

-- Neither does a claim, on any of its branches.
pub claim-IsExclusive :
    (now id : ℕ) (rows : List SyncRequest)
    → IsExclusive rows
    → IsExclusive (claim_sync_request now id rows).0
unfolding claim_sync_request claimable
claim-IsExclusive now id rows inv = elim (Option-cases (find_request id rows)) [
  | inl e ↦ rw (e, claim_sync_request) inv
  | inr p ↦ elim (Bool-cases (claimable now p.0)) [
    | inr early ↦ rw (p.1, claim_sync_request) (rw early inv)
    | inl due ↦ elim (Bool-cases (busy p.0 rows)) [
      | inl occupied ↦ rw (p.1, claim_sync_request) (rw (due, occupied) inv)
      | inr free ↦
          rw (p.1, claim_sync_request)
            (rw (due, free) (taken now id rows inv p.0 p.1 (ground arith) free))
    ]
  ]
]

-- Nor the end of a run, however it ends.
pub finish-IsExclusive :
    (now id : ℕ) (success : Bool) (error : Option String) (retryable : Bool)
    (rows : List SyncRequest)
    → IsExclusive rows
    → IsExclusive (finish_sync_request now id success error retryable rows)
unfolding finish_sync_request
finish-IsExclusive now id success error retryable rows inv = record {
  keys = HasKeys-update id _ rows (settle-id now success error retryable) inv.keys;
  single = λ c. omega (
    arith,
    inv.single c,
    in_flight_count-le-update c id (settle now success error retryable) rows
        (weight-settle c now success error retryable),
  );
}

requeue-id :
    (now stale_after running_stale_after : ℕ) (r : SyncRequest)
    → (if is_stale now stale_after running_stale_after r then requeue now r else r).id ≡ r.id
unfolding requeue
requeue-id now stale_after running_stale_after r = ground arith

weight-requeue :
    (connector now stale_after running_stale_after : ℕ) (r : SyncRequest)
    → weight connector (if is_stale now stale_after running_stale_after r then requeue now r else r)
      ≤ weight connector r
unfolding requeue weight
weight-requeue connector now stale_after running_stale_after r = ground arith

-- Nor the recovery of abandoned requests.
pub recover-IsExclusive :
    (now stale_after running_stale_after : ℕ) (rows : List SyncRequest)
    → IsExclusive rows
    → IsExclusive (recover_stale_sync_requests now stale_after running_stale_after rows).0
unfolding recover_stale_sync_requests
recover-IsExclusive now stale_after running_stale_after rows inv = record {
  keys = HasKeys-map _ rows (requeue-id now stale_after running_stale_after) inv.keys;
  single = λ c. omega (
    arith,
    inv.single c,
    in_flight_count-le-map c _ rows (weight-requeue c now stale_after running_stale_after),
  );
}

start-id : (now : ℕ) (r : SyncRequest) → (start now r).id ≡ r.id
unfolding start
start-id now r = refl

weight-start :
    (connector now : ℕ) (r : SyncRequest)
    → in_flight r.status ≡ true
    → weight connector (start now r) ≡ weight connector r
unfolding start weight
weight-start connector now r h = ground arith

-- Nor the start of a run whose request is still in flight.
pub start-IsExclusive :
    (now id : ℕ) (rows : List SyncRequest) (r : SyncRequest)
    → find_request id rows ≡ some r
    → in_flight r.status ≡ true
    → IsExclusive rows
    → IsExclusive (mark_sync_request_running now id rows)
unfolding mark_sync_request_running
start-IsExclusive now id rows r e h inv = record {
  keys = HasKeys-update id (start now) rows (start-id now) inv.keys;
  single = λ c. omega (
    arith,
    inv.single c,
    weight-start c now r h,
    in_flight_count-update c id (start now) rows r inv.keys e,
  );
}
