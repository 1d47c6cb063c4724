-- ===== src/Gemini/Session/Outcome.antt =====
-- What a session returns or raises for every end of its attempts.
use Prim.Native.String.{◌++◌ as ◌+++◌}
use argus_review.Prelude.{
  ◌≡◌, refl, ◌⊎◌, inl, inr, true, false, Option, none, some, length, Bool-cases,
}
use argus_review.Prelude.Result.{Result, ok, err}
use argus_review.Prelude.Names.{dedup, sorted}
use argus_review.Pipeline.Failure.{FailureReason, is_timeout, sync_timed_out}
use argus_review.Gemini.{Exc, failure_detail}
use argus_review.Gemini.Turns.{Session, LoopEnd}
use argus_review.Gemini.Session.{
  Attempt, Setting, SessionResult, is_service_error, is_timeout_error, cost_of, build_result_text,
  at_turn, run_turns_with_retry, reported, run_session_gemini,
}
use argus_review.Gemini.Session.Retry.{Once, Twice, run_turns_with_retry_outcome}

module _ (given : Setting) where
  -- Why a result has its failure reason, and the text it then has.
  abbrev pub Reason : Option FailureReason → SessionResult → LoopEnd → Session → Type 0
  Reason none res ending s =
      (ending ≡ LoopEnd.completed)
      × (res.result_text ≡ build_result_text given s.sink s.files_explored)
      × (res.failure_detail ≡ none)
  Reason (some FailureReason.turn_budget_exhausted) res ending s =
      (ending ≡ LoopEnd.exhausted)
      × (res.result_text ≡ build_result_text given s.sink s.files_explored)
      × (res.failure_detail ≡ none)
  Reason (some FailureReason.timeout) res ending s =
      (e : Exc) × (ending ≡ LoopEnd.failed e)
      × (is_timeout_error e ≡ true)
      × (res.result_text ≡ "")
      × (res.failure_detail ≡ none)
  Reason (some FailureReason.worker_crashed) res ending s =
      (e : Exc) × (ending ≡ LoopEnd.failed e)
      × (is_timeout_error e ≡ false)
      × (is_service_error e ≡ true)
      × (res.result_text ≡ "")
      × (res.failure_detail ≡ some (failure_detail e +++ at_turn given s.progress.last_turn))

  -- An exception that is raised is foreign to the service; a result counts all that was used.
  abbrev pub Reported : Result Exc SessionResult → LoopEnd → Session → Type 0
  Reported (err e) ending s =
      (ending ≡ LoopEnd.failed e) × (is_timeout_error e ≡ false) × (is_service_error e ≡ false)
  Reported (ok res) ending s =
      (res.tool_call_count ≡ length s.progress.tool_calls)
      × (res.tool_names ≡ sorted (dedup s.progress.tool_calls))
      × (res.cost ≡ cost_of given s.progress)
      × (res.timed_out ≡ is_timeout res.failure_reason)
      × Reason res.failure_reason res ending s

  reported-Reported : (ending : LoopEnd) (s : Session) → Reported (reported given ending s) ending s
  unfolding reported sync_timed_out
  reported-Reported LoopEnd.completed s = (refl, refl, refl, refl, (refl, refl, refl))
  reported-Reported LoopEnd.exhausted s = (refl, refl, refl, refl, (refl, refl, refl))
  reported-Reported (LoopEnd.failed e) s = elim (Bool-cases (is_timeout_error e)) [
    | inl late ↦ rw late (refl, refl, refl, refl, (e, refl, late, refl, refl))
    | inr early ↦ elim (Bool-cases (is_service_error e)) [
      | inl service ↦
          rw (early, service) (refl, refl, refl, refl, (e, refl, early, service, refl, refl))
      | inr other ↦ rw (early, other) (refl, early, other)
    ]
  ]

  -- A session always ends, after one or two attempts of at most a hundred turns. Only an exception
  -- that is neither a timeout nor an API or HTTP error is raised. Otherwise there is a result: its
  -- failure reason is timeout or worker_crashed exactly for such an error of the last attempt,
  -- turn_budget_exhausted if all turns were used, and none if the loop was left; it has the findings
  -- unless an error lost them, and counts the calls and the cost of the last attempt.
  pub run_session_gemini_outcome :
      (first second : Attempt)
      → (ending : LoopEnd) × (s : Session) × Reported
          (run_session_gemini given first second)
          ending
          s
        × (Once given first ending s ⊎ Twice given first second ending s)
  unfolding run_session_gemini
  run_session_gemini_outcome first second =
      let (ending, s) = run_turns_with_retry given first second in
      (ending, s, reported-Reported ending s, run_turns_with_retry_outcome given first second)
