-- ===== src/SyncQueue/Examples.antt =====
-- Small queues, and the theorems on src/domain/sync_queue.py at them.
use qnsc_kb_backend.Prelude.{
  ℕ, ◌≡◌, refl, true, none, some, List, [], ◌∷◌, arith, nat_eq, string_eq, option_eq,
}
use qnsc_kb_backend.SyncQueue.{
  Status, queued, running, SyncRequest, find_request, coalescible, first_in_order, new_request,
  enqueue_connector_sync, claim_sync_request, mark_sync_request_running,
}
use qnsc_kb_backend.SyncQueue.Rows.{IsAbsent, HasKeys, in_flight_count, weight}
use qnsc_kb_backend.SyncQueue.Exclusion.{IsExclusive}
use qnsc_kb_backend.SyncQueue.Mutex.{Step, Reach, Reach-IsExclusive, late_start_breaks_exclusion}

abbrev polled : List SyncRequest
polled = (enqueue_connector_sync 1 101 1000 4 none "polling" 50 []).0

abbrev scoped : List SyncRequest
scoped = (enqueue_connector_sync 2 102 1001 4 (some 8) "webhook" 20 polled).0

abbrev claimed : List SyncRequest
claimed = (claim_sync_request 1002 1 scoped).0

polled-IsAbsent : IsAbsent 2 polled
unfolding enqueue_connector_sync first_in_order new_request
polled-IsAbsent = (λ h. omega (arith, h), tt)

Reach-claimed : Reach claimed
Reach-claimed =
    Reach.next
      (Reach.next (Reach.next Reach.empty (Step.enqueue 1 101 1000 4 none "polling" 50 [] tt))
        (Step.enqueue 2 102 1001 4 (some 8) "webhook" 20 polled polled-IsAbsent))
      (Step.claim 1002 1 scoped)

Reach-IsExclusive_example : IsExclusive claimed
Reach-IsExclusive_example = Reach-IsExclusive Reach-claimed

abbrev request_of : ℕ → Status → SyncRequest
request_of id status = record {
  id = id;
  connector_id = 4;
  scope_id = none;
  job_id = 100;
  reason = "polling";
  priority = 50;
  status = status;
  attempts = 1;
  created_at = 900;
  available_at = 2000;
  locked_at = none;
  started_at = some 950;
  completed_at = none;
  last_error = none;
}

abbrev requeued : List SyncRequest
requeued = request_of 1 queued ∷ request_of 2 running ∷ []

requeued_found : find_request 1 requeued ≡ some (request_of 1 queued)
unfolding find_request
requeued_found = refl

requeued-HasKeys : HasKeys requeued
requeued-HasKeys = ((λ h. omega (arith, h), tt), (tt, tt))

requeued_has_one : in_flight_count 4 requeued ≡ 1
unfolding weight
requeued_has_one = refl

late_start_breaks_exclusion_example :
    in_flight_count 4 (mark_sync_request_running 3000 1 requeued) ≡ 2
late_start_breaks_exclusion_example =
    late_start_breaks_exclusion 3000 1 requeued (request_of 1 queued) requeued_found refl
      requeued-HasKeys requeued_has_one

waiting_is_coalescible : coalescible 4 none (request_of 1 queued) ≡ true
unfolding coalescible
waiting_is_coalescible = refl
