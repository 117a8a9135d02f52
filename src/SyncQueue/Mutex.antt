-- ===== src/SyncQueue/Mutex.antt =====
-- One provider walk per connector at a time: the purpose of `claim_sync_request` in
-- src/domain/sync_queue.py.
use qnsc_kb_backend.Prelude.{
  ℕ, String, ◌≡◌, Bool, true, Option, some, List, [], arith, nat_eq, string_eq, option_eq,
}
use qnsc_kb_backend.SyncQueue.{
  SyncRequest, in_flight, is_queued, find_request, enqueue_connector_sync, claim_sync_request,
  start, mark_sync_request_running, finish_sync_request, recover_stale_sync_requests,
}
use qnsc_kb_backend.SyncQueue.Rows.{
  IsAbsent, HasKeys, weight, in_flight_count, in_flight_count-update,
}
use qnsc_kb_backend.SyncQueue.Exclusion.{
  IsExclusive, enqueue-IsExclusive, claim-IsExclusive, finish-IsExclusive, recover-IsExclusive,
  start-IsExclusive,
}

weight-late :
    (now : ℕ) (r : SyncRequest)
    → is_queued r.status ≡ true
    → (weight r.connector_id (start now r) ≡ 1) × (weight r.connector_id r ≡ 0)
unfolding start weight
weight-late now r h = (ground arith, ground arith)

-- A run that starts late, after its request went back to the queue, while another request of the
-- connector is in flight, puts a second one in flight.
pub late_start_breaks_exclusion :
    (now id : ℕ) (rows : List SyncRequest) (r : SyncRequest)
    → find_request id rows ≡ some r
    → is_queued r.status ≡ true
    → HasKeys rows
    → in_flight_count r.connector_id rows ≡ 1
    → in_flight_count r.connector_id (mark_sync_request_running now id rows) ≡ 2
unfolding mark_sync_request_running
late_start_breaks_exclusion now id rows r e q k one = omega (
  arith,
  (weight-late now r q).0,
  (weight-late now r q).1,
  in_flight_count-update r.connector_id id (start now) rows r k e,
)

-- The operations of the queue, a run being started only while its request is in flight.
pub data Step : List SyncRequest → List SyncRequest → Type 0 where
  enqueue :
      (id job_id now connector_id : ℕ) (scope_id : Option ℕ) (reason : String) (priority : ℕ)
      (rows : List SyncRequest)
      → IsAbsent id rows
      → Step rows
          (enqueue_connector_sync id job_id now connector_id scope_id reason priority rows).0
  claim : (now id : ℕ) (rows : List SyncRequest) → Step rows (claim_sync_request now id rows).0
  begin :
      (now id : ℕ) (rows : List SyncRequest) (r : SyncRequest)
      → find_request id rows ≡ some r
      → in_flight r.status ≡ true
      → Step rows (mark_sync_request_running now id rows)
  finish :
      (now id : ℕ) (success : Bool) (error : Option String) (retryable : Bool)
      (rows : List SyncRequest)
      → Step rows (finish_sync_request now id success error retryable rows)
  recover :
      (now stale_after running_stale_after : ℕ) (rows : List SyncRequest)
      → Step rows (recover_stale_sync_requests now stale_after running_stale_after rows).0

pub data Reach : List SyncRequest → Type 0 where
  empty : Reach []
  next : {rows rows' : List SyncRequest} → Reach rows → Step rows rows' → Reach rows'

Step-IsExclusive :
    {rows rows' : List SyncRequest} → Step rows rows' → IsExclusive rows → IsExclusive rows'
Step-IsExclusive (enqueue id j now c s reason p rows fresh) inv =
    enqueue-IsExclusive id j now c s reason p rows fresh inv
Step-IsExclusive (claim now id rows) inv = claim-IsExclusive now id rows inv
Step-IsExclusive (begin now id rows r e h) inv = start-IsExclusive now id rows r e h inv
Step-IsExclusive (finish now id ok error retryable rows) inv =
    finish-IsExclusive now id ok error retryable rows inv
Step-IsExclusive (recover now a b rows) inv = recover-IsExclusive now a b rows inv

-- In every state that the operations reach from an empty queue, where new requests have new ids and
-- a run is started only while its request is in flight, each connector has at most one request in
-- flight.
pub Reach-IsExclusive : {rows : List SyncRequest} → Reach rows → IsExclusive rows
Reach-IsExclusive empty = record { keys = tt; single = λ c. omega arith }
Reach-IsExclusive (next r st) = Step-IsExclusive st (Reach-IsExclusive r)
