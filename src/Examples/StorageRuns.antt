-- ===== src/Examples/StorageRuns.antt =====
-- The theorems of the round table at a table with one earlier round.
use argus_review.Prelude.{
  ◌≤◌, ◌+◌, String, ◌≡◌, refl, Option, none, some, List, [], ◌∷◌, length, arith,
}
use argus_review.Models.{Verdict, RiskLevel, Severity, ReviewResponse}
use argus_review.Graph.Finish.{CodeReviewRoundIn}
use argus_review.Storage.{
  RoundRow, RunningIn, completed_rounds, completed_row, fetch_prior_review, upsert_running_row,
  verdict_text,
}
use argus_review.Storage.Steps.{running, Steps, done, step, Kept, rows_of, Steps-Kept, Steps-rows}
use argus_review.Storage.History.{
  Carried, run_rows, halted_run_leaves_history, completed_run_is_prior,
}
use argus_review.Pipeline.{PriorFinding}
use argus_review.Examples.{head_sha, finding_in, response_with}

abbrev blocked : ReviewResponse
blocked = response_with Verdict.blocking (finding_in "src/parse.py" Severity.blocking ∷ [])

abbrev round_of_run : String → Option Verdict → CodeReviewRoundIn
round_of_run flow verdict = record {
  flow_run_id = some flow;
  repo = "org/app";
  pr_number = 7;
  verdict = verdict;
  risk_level = RiskLevel.high;
  blocking_count = 1;
  suggestion_count = 0;
  review_comment = "one problem";
  result_json = blocked;
  reviewer_version = "v3";
  sha = none;
  base_ref = none;
  current_stage = "completed";
}

abbrev start_of : String → RunningIn
start_of flow = record {
  flow_run_id = flow;
  repo = "org/app";
  pr_number = 7;
  sha = some head_sha;
  base_ref = none;
}

abbrev first_round : RoundRow
first_round = completed_row "row-1" 10 (round_of_run "run-1" (some Verdict.blocking))

abbrev one_round : List RoundRow
one_round = first_round ∷ []

abbrev after_restart : List RoundRow
after_restart = upsert_running_row "row-2" 20 (start_of "run-1") one_round

restart : Steps one_round after_restart
restart =
    step one_round after_restart after_restart (running "row-2" 20 (start_of "run-1") one_round)
      (done after_restart)

Steps-Kept_example : Kept 0 first_round after_restart
Steps-Kept_example = Steps-Kept one_round after_restart 0 first_round restart refl

one_row : rows_of "run-1" one_round ≤ 1
unfolding rows_of
one_row = omega arith

Steps-rows_example : rows_of "run-1" after_restart ≤ 1
Steps-rows_example = Steps-rows "run-1" one_round after_restart restart one_row

halted_run_leaves_history_example :
    fetch_prior_review "org/app" 7
      (run_rows "row-2" 20 (start_of "run-2") "row-3" 30 (round_of_run "run-2" none) one_round)
    ≡ fetch_prior_review "org/app" 7 one_round
halted_run_leaves_history_example =
    halted_run_leaves_history "row-2" 20 (start_of "run-2") "row-3" 30 (round_of_run "run-2" none)
      one_round "org/app" 7 refl (refl, tt) refl

completed_run_is_prior_example :
    (carried : List PriorFinding) × Carried blocked.findings carried
    × (fetch_prior_review "org/app" 7 (
          run_rows "row-2" 20
            (start_of "run-2")
            "row-3"
            30
            (round_of_run "run-2" (some Verdict.blocking))
            one_round)
        ≡ some (record {
          review_id = "row-2";
          reviewed_sha = head_sha;
          findings = carried;
          dismissed_findings = [];
          notes_for_next_round = none;
          round_number = length (completed_rounds "org/app" 7 one_round) + 2;
          prior_verdict = some (verdict_text Verdict.blocking);
        }))
completed_run_is_prior_example =
    completed_run_is_prior "row-2" 20 (start_of "run-2") "row-3" 30
      (round_of_run "run-2" (some Verdict.blocking)) one_round Verdict.blocking head_sha refl
      (refl, tt) (omega arith, tt) refl refl refl refl
