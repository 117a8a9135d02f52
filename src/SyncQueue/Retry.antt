-- ===== src/SyncQueue/Retry.antt =====
-- Retries and recovery of src/domain/sync_queue.py.
use qnsc_kb_backend.Prelude.{
  ℕ, zero, suc, ◌+◌, ◌≤◌, ◌<◌, String, ◌≡◌, ◌⊎◌, Bool, true, false, Option, none, some, arith,
  nat_eq, string_eq, option_eq,
}
use qnsc_kb_backend.SyncQueue.{
  SyncRequest, queued, failed, dispatch, start, settle, is_stale, backoff,
}

backoff_bounds : (attempts : ℕ) → attempts < 8 → (1 ≤ backoff attempts) × (backoff attempts ≤ 128)
unfolding backoff
backoff_bounds zero h = omega arith
backoff_bounds (suc zero) h = omega arith
backoff_bounds (suc (suc zero)) h = omega arith
backoff_bounds (suc (suc (suc zero))) h = omega arith
backoff_bounds (suc (suc (suc (suc zero)))) h = omega arith
backoff_bounds (suc (suc (suc (suc (suc zero))))) h = omega arith
backoff_bounds (suc (suc (suc (suc (suc (suc zero)))))) h = omega arith
backoff_bounds (suc (suc (suc (suc (suc (suc (suc zero))))))) h = omega arith
backoff_bounds (suc (suc (suc (suc (suc (suc (suc (suc n)))))))) h = absurd (omega arith)

-- A failed run that may be retried goes back to the queue while fewer than 8 claims have been
-- made, and is due again after at least 1 and at most 128 seconds.
pub settle_retry :
    (now : ℕ) (error : Option String) (r : SyncRequest)
    → r.attempts < 8
    → ((settle now false error true r).status ≡ queued)
      × (now + 1 ≤ (settle now false error true r).available_at)
      × ((settle now false error true r).available_at ≤ now + 128)
      × ((settle now false error true r).locked_at ≡ none)
unfolding settle
settle_retry now error r h = ground (arith, backoff_bounds r.attempts)

-- After the eighth claim, or for an error that is not retryable, a failed run ends as failed.
settle_gives_up :
    (now : ℕ) (error : Option String) (retryable : Bool) (r : SyncRequest)
    → (retryable ≡ false) ⊎ (8 ≤ r.attempts)
    → (settle now false error retryable r).status ≡ failed
unfolding settle
settle_gives_up now error retryable r h = ground arith

-- A retried run keeps the time of its first start. If that is longer ago than the window for
-- running requests, the run is stale from the moment it starts again, and the next recovery puts
-- its request back into the queue while it works.
pub retried_run_is_stale :
    (failed_at claimed_at started_at stale_after running_stale_after first : ℕ)
    (error : Option String) (r : SyncRequest)
    → r.started_at ≡ some first
    → first + running_stale_after < started_at
    → is_stale started_at stale_after running_stale_after
        (start started_at (dispatch claimed_at (settle failed_at false error true r)))
      ≡ true
unfolding is_stale start dispatch settle
retried_run_is_stale failed_at claimed_at started_at stale_after running_stale_after first error r e
      h =
    ground arith
