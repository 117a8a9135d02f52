-- ===== src/SyncQueue.antt =====
-- src/domain/sync_queue.py: the queue of connector synchronisation requests. A time is a number of
-- seconds. A row lock that another transaction holds shows as a claim that finds no row, so it
-- adds no behaviour to the atomic operations below.
pub mod Rows
pub mod Exclusion
pub mod Mutex
pub mod Retry
pub mod Coalesce
mod Examples
use qnsc_kb_backend.Prelude.{
  ℕ, zero, suc, ◌+◌, ◌-◌, ◌*◌, ◌/◌, ◌%◌, ◌^◌, ◌≤◌, ◌<◌, min, max, String, ◌≡◌, refl, sym, ap, ◌∙◌,
  ◌≢◌, ◌↔◌, ◌⊎◌, inl, inr, Bool, true, false, not, ◌&&◌, ◌||◌, Option, none, some, List, [], ◌∷◌,
  ◌++◌, map, Memᴰ, arith, ltb, leb, nat_beq, nat_beq_iff, if◌then◌else◌, ltb→lt, lt→ltb, leb→le,
  le→leb, tests, Bool-cases, Option-cases, &&-eq-true, ||-eq-true, is_some, get_or, length, take,
  length-append, any, all, filter, any-Memᴰ, any_of_Memᴰ, Memᴰ-filter, filter_of_Memᴰ,
  length-filter, Eq, ◌==◌, nat_eq, string_eq, option_eq, List-cases, not-Memᴰ-nil, find, find-Memᴰ,
  find-append, elem, elem-Memᴰ, Memᴰ-elem, lookup, insert, lookup-insert, option_beq_iff, eq_iff,
}

pub data Status : Type 0 where
  queued dispatched running completed failed : Status

pub record SyncRequest : Type 0 where
  pub id : ℕ
  pub connector_id : ℕ
  pub scope_id : Option ℕ
  pub job_id : ℕ
  pub reason : String
  pub priority : ℕ
  pub status : Status
  pub attempts : ℕ
  pub created_at : ℕ
  pub available_at : ℕ
  pub locked_at : Option ℕ
  pub started_at : Option ℕ
  pub completed_at : Option ℕ
  pub last_error : Option String

abbrev pub is_queued : Status → Bool
is_queued queued = true
is_queued _ = false

abbrev is_dispatched : Status → Bool
is_dispatched dispatched = true
is_dispatched _ = false

abbrev is_running : Status → Bool
is_running running = true
is_running _ = false

-- status.in_(("dispatched", "running"))
abbrev pub in_flight : Status → Bool
in_flight s = is_dispatched s || is_running s

pub find_request : ℕ → List SyncRequest → Option SyncRequest
find_request id [] = none
find_request id (r ∷ rest) = if nat_beq r.id id then some r else find_request id rest

-- Assigns to the row with the id.
pub update_request : ℕ → (SyncRequest → SyncRequest) → List SyncRequest → List SyncRequest
update_request id f [] = []
update_request id f (r ∷ rest) = (if nat_beq r.id id then f r else r) ∷ update_request id f rest

-- The rows that an enqueue may fold into: same connector, same scope, not started.
pub coalescible : ℕ → Option ℕ → SyncRequest → Bool
coalescible connector_id scope_id r =
    nat_beq r.connector_id connector_id && r.scope_id == scope_id && is_queued r.status

-- ORDER BY priority, created_at
sorts_before : SyncRequest → SyncRequest → Bool
sorts_before a b =
    ltb a.priority b.priority || nat_beq a.priority b.priority && leb a.created_at b.created_at

-- The first of the given rows in that order.
pub first_in_order : List SyncRequest → Option SyncRequest
first_in_order [] = none
first_in_order (r ∷ rest) = elim (first_in_order rest) [
  | none ↦ some r
  | some best ↦ if sorts_before r best then some r else some best
]

-- The assignments to an existing request.
pub coalesce : ℕ → String → ℕ → SyncRequest → SyncRequest
coalesce now reason priority r =
    let more_urgent = ltb priority r.priority in
    record r {
      priority = if more_urgent then priority else r.priority;
      available_at =
          if more_urgent || elem reason ("manual" ∷ "webhook" ∷ [])
          then min r.available_at now
          else r.available_at;
      reason = if not (reason == "") && r.reason == "polling" then reason else r.reason;
    }

pub new_request : ℕ → ℕ → ℕ → ℕ → Option ℕ → String → ℕ → SyncRequest
new_request id job_id now connector_id scope_id reason priority = record {
  id = id;
  connector_id = connector_id;
  scope_id = scope_id;
  job_id = job_id;
  reason = reason;
  priority = priority;
  status = queued;
  attempts = 0;
  created_at = now;
  available_at = now;
  locked_at = none;
  started_at = none;
  completed_at = none;
  last_error = none;
}

-- `id` and `job_id` are the keys that the database gives a new request and its job.
pub enqueue_connector_sync :
    ℕ → ℕ → ℕ → ℕ → Option ℕ → String → ℕ → List SyncRequest → List SyncRequest × SyncRequest
unfolding coalescible
enqueue_connector_sync id job_id now connector_id scope_id reason priority rows =
    elim (first_in_order (filter (coalescible connector_id scope_id) rows)) [
      | some existing ↦ (
        update_request existing.id (coalesce now reason priority) rows,
        coalesce now reason priority existing,
      )
      | none ↦
          let request = new_request id job_id now connector_id scope_id reason priority in
          (rows ++ request ∷ [], request)
    ]

-- Another request of the connector is dispatched or running.
pub busy : SyncRequest → List SyncRequest → Bool
busy request rows =
    any
      (λ r.
        nat_beq r.connector_id request.connector_id
        && not (nat_beq r.id request.id)
        && in_flight r.status)
      rows

pub claimable : ℕ → SyncRequest → Bool
claimable now r = is_queued r.status && leb r.available_at now

pub dispatch : ℕ → SyncRequest → SyncRequest
dispatch now r = record r { status = dispatched; locked_at = some now; attempts = r.attempts + 1 }

pub claim_sync_request : ℕ → ℕ → List SyncRequest → List SyncRequest × Option SyncRequest
claim_sync_request now id rows = elim (find_request id rows) [
  | none ↦ (rows, none)
  | some request ↦
      if not (claimable now request)
      then (rows, none)
      else if busy request rows
      then (rows, none)
      else (update_request id (dispatch now) rows, some (dispatch now request))
]

pub start : ℕ → SyncRequest → SyncRequest
start now r = record r { status = running; started_at = some (get_or r.started_at now) }

pub mark_sync_request_running : ℕ → ℕ → List SyncRequest → List SyncRequest
mark_sync_request_running now id rows = update_request id (start now) rows

-- min(1800, 2 ** min(attempts, 10))
pub backoff : ℕ → ℕ
backoff attempts = min 1800 (2 ^ min attempts 10)

-- `error` is the first 2000 characters of the error text, if it is not empty.
pub settle : ℕ → Bool → Option String → Bool → SyncRequest → SyncRequest
settle now success error retryable r =
    let noted = record r { locked_at = none; last_error = error } in
    if success
    then record noted { status = completed; completed_at = some now }
    else if retryable && ltb r.attempts 8
    then record noted { status = queued; available_at = now + backoff r.attempts }
    else record noted { status = failed }

pub finish_sync_request : ℕ → ℕ → Bool → Option String → Bool → List SyncRequest → List SyncRequest
finish_sync_request now id success error retryable rows =
    update_request id (settle now success error retryable) rows

-- `moment < now - age`, for a column that may be null
abbrev older_than : ℕ → ℕ → Option ℕ → Bool
older_than now age none = false
older_than now age (some moment) = ltb (moment + age) now

pub is_stale : ℕ → ℕ → ℕ → SyncRequest → Bool
is_stale now stale_after running_stale_after r =
    is_dispatched r.status && (not (is_some r.locked_at) || older_than now stale_after r.locked_at)
    || is_running r.status && older_than now running_stale_after r.started_at

pub requeue : ℕ → SyncRequest → SyncRequest
requeue now r = record r {
  status = queued;
  available_at = now;
  locked_at = none;
  last_error = some "Recovered after worker/process interruption";
}

pub recover_stale_sync_requests : ℕ → ℕ → ℕ → List SyncRequest → List SyncRequest × ℕ
recover_stale_sync_requests now stale_after running_stale_after rows = (
  map (λ r. if is_stale now stale_after running_stale_after r then requeue now r else r) rows,
  length (filter (is_stale now stale_after running_stale_after) rows),
)
