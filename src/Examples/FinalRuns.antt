-- ===== src/Examples/FinalRuns.antt =====
-- The theorems about the end of a run at concrete final states.
use argus_review.Prelude.{◌≡◌, ◌⊎◌, refl, true, none, some, [], ◌∷◌}
use argus_review.Prelude.Result.{ok}
use argus_review.Models.{ReviewResponse, ReviewHalt, HaltCode, Verdict}
use argus_review.Graph.{ReviewState}
use argus_review.Graph.Finish.{CodeReviewRoundIn, finish, reviewed_sha}
use argus_review.Graph.Finish.Approval.{Finished, Refused, finish_outcome, finish_halt}
use argus_review.Examples.{
  head_sha, receipt, is_read_timeout, fetched, response_with, review_of, both_changes,
}

abbrev clean : ReviewResponse
clean = response_with Verdict.approve []

abbrev ended : ReviewState
ended = record fetched {
  scope = some receipt;
  findings = review_of "core" none ∷ [];
  response = some clean;
}

finish_outcome_example :
    Finished true ended clean (finish is_read_timeout (some "run-1") true ended)
    ⊎ Refused true ended clean (finish is_read_timeout (some "run-1") true ended)
finish_outcome_example = finish_outcome is_read_timeout (some "run-1") true ended clean refl refl

abbrev split_halt : ReviewHalt
split_halt = record {
  code = HaltCode.scope_split;
  detail = "two behaviors";
  head_sha = head_sha;
  split_suggestions = both_changes;
  dispatch_count = none;
  dispatch_budget = none;
}

abbrev halted : ReviewResponse
halted = record (response_with Verdict.blocking []) { halt = some split_halt }

abbrev stopped : ReviewState
stopped = record fetched { response = some halted }

finish_halt_example :
    (row : CodeReviewRoundIn) × (finish is_read_timeout (some "run-1") true stopped
      ≡ ok (record halted { scope = none }, row))
    × (row.verdict ≡ none)
    × (row.sha ≡ reviewed_sha stopped)
finish_halt_example =
    finish_halt is_read_timeout (some "run-1") true stopped halted split_halt refl refl
