-- ===== src/Pipeline/Failure.antt =====
-- `_sync_timed_out_and_failure_reason` of argus/pipeline_models.py.
use argus_review.Prelude.{String, Bool, true, false, Option, none, some, ◌≡◌, ◌⊎◌, arith}
use argus_review.Prelude.Result.{Result, ok, err}

pub data FailureReason : Type 0 where
  timeout worker_crashed turn_budget_exhausted : FailureReason

abbrev pub reason_text : FailureReason → String
reason_text timeout = "timeout"
reason_text worker_crashed = "worker_crashed"
reason_text turn_budget_exhausted = "turn_budget_exhausted"

abbrev pub is_timeout : Option FailureReason → Bool
is_timeout (some timeout) = true
is_timeout _ = false

abbrev pub is_failed : Option FailureReason → Bool
is_failed none = false
is_failed (some r) = true

-- The `ValueError` of a contradictory pair carries the offending reason.
unfoldable pub sync_timed_out :
    Bool → Option FailureReason → Result FailureReason (Bool × Option FailureReason)
sync_timed_out true none = ok (true, some timeout)
sync_timed_out true (some timeout) = ok (true, some timeout)
sync_timed_out true (some r) = err r
sync_timed_out false (some timeout) = ok (true, some timeout)
sync_timed_out false r = ok (false, r)

-- After reconciliation the flag is set exactly for a timeout, no failure is lost, and a second
-- reconciliation changes nothing.
pub sync_timed_out-agrees :
    (t : Bool) (r : Option FailureReason) {t' : Bool} {r' : Option FailureReason}
    → sync_timed_out t r ≡ ok (t', r')
    → (t' ≡ is_timeout r')
      × ((r ≡ none) ⊎ (r' ≡ r))
      × ((t ≡ false) ⊎ (t' ≡ true))
      × (sync_timed_out t' r' ≡ ok (t', r'))
unfolding sync_timed_out
sync_timed_out-agrees true none e = ground arith
sync_timed_out-agrees true (some timeout) e = ground arith
sync_timed_out-agrees true (some worker_crashed) e = cc
sync_timed_out-agrees true (some turn_budget_exhausted) e = cc
sync_timed_out-agrees false none e = ground arith
sync_timed_out-agrees false (some timeout) e = ground arith
sync_timed_out-agrees false (some worker_crashed) e = ground arith
sync_timed_out-agrees false (some turn_budget_exhausted) e = ground arith
