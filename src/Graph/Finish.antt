-- ===== src/Graph/Finish.antt =====
-- `run_review` of argus/graph.py, from the final state of the graph to the stored round: the gates,
-- the receipt that an approval needs, and the row of the round.
pub mod Approval
pub mod Receipt
use argus_review.Prelude.{
  ℕ, String, Bool, true, false, not, ◌&&◌, ◌||◌, Option, none, some, List, [], ◌++◌, is_empty,
  if◌then◌else◌,
}
use argus_review.Prelude.Result.{Result, ok, err, ◌>>=◌, ◌>>◌}
use argus_review.Prelude.Text.{str_empty}
use argus_review.Models.{ReviewResponse, ReviewHalt, Verdict, RiskLevel}
use argus_review.Scope.{require_receipt}
use argus_review.Gates.{is_blocking, apply_precheck_gate_and_surface_degraded_coverage}
use argus_review.Gates.Labels.{ScannerState}
use argus_review.Gates.BenchConfig.{apply_bench_config_change_gate}
use argus_review.Gates.Counts.{compute_persisted_finding_counts}
use argus_review.Graph.{ReviewState}

-- The finalize row, less costs, models and timings.
pub record CodeReviewRoundIn : Type 0 where
  pub flow_run_id : Option String
  pub repo : String
  pub pr_number : ℕ
  pub verdict : Option Verdict
  pub risk_level : RiskLevel
  pub blocking_count : ℕ
  pub suggestion_count : ℕ
  pub review_comment : String
  pub result_json : ReviewResponse
  pub reviewer_version : String
  pub sha : Option String
  pub base_ref : Option String
  pub current_stage : String

abbrev pub is_halted : ReviewResponse → Bool
is_halted r = elim r.halt [ none ↦ false | some halt ↦ true ]

abbrev pub scanners_of : ReviewState → ScannerState
scanners_of state = record {
  failed = state.precheck_scanner_failures;
  missing = state.precheck_missing_scanners;
}

-- `result.get("head_sha") or request.sha`
abbrev pub reviewed_sha : ReviewState → Option String
reviewed_sha state = if str_empty state.head_sha then state.request.sha else some state.head_sha

-- `reviewed_sha or ""`
abbrev pub or_empty : Option String → String
or_empty none = ""
or_empty (some s) = s

unfoldable pub finalize_row : Option String → ReviewState → ReviewResponse → CodeReviewRoundIn
finalize_row flow_run_id state response =
    let counts = compute_persisted_finding_counts response.findings in
    record {
      flow_run_id = flow_run_id;
      repo = state.request.repo;
      pr_number = state.request.pr_number;
      verdict = if is_halted response then none else some response.verdict;
      risk_level = response.risk_level;
      blocking_count = counts.0;
      suggestion_count = counts.1;
      review_comment = response.review_comment;
      result_json = response;
      reviewer_version = if state.is_lite then "v3-lite" else "v3";
      sha = reviewed_sha state;
      base_ref = state.request.base_ref;
      current_stage = "completed";
    }

-- `not halted and response.verdict is Verdict.APPROVE`
unfoldable pub needs_receipt : ReviewResponse → ReviewResponse → Bool
needs_receipt response out = not (is_halted response) && not (is_blocking out.verdict)

-- The canonical failure details, the run's id and the setting that blocks on scanner failures.
module _ (is_canonical : String → Bool) (flow_run_id : Option String)
    (block_on_failure : Bool) where
  -- Both gates, unless the run was halted.
  unfoldable pub gated : ReviewState → ReviewResponse → ReviewResponse
  gated state response =
      let (surfaced, rest) =
        apply_precheck_gate_and_surface_degraded_coverage is_canonical response state.findings
          (scanners_of state) block_on_failure in
      let (final, acted) =
        apply_bench_config_change_gate surfaced state.bench_config_changes
          state.bench_config_unconfirmed in
      if is_halted response then response else final

  unfoldable pub concluded :
      ReviewState → ReviewResponse → Result String (ReviewResponse × CodeReviewRoundIn)
  concluded state response =
      let out = gated state response in
      (if needs_receipt response out
        then require_receipt out.scope (or_empty (reviewed_sha state))
        else ok tt)
      >> ok (out, finalize_row flow_run_id state out)

  unfoldable pub finish_from :
      ReviewState → Option ReviewResponse → Result String (ReviewResponse × CodeReviewRoundIn)
  finish_from state none = err "ReviewResponse: field required"
  finish_from state (some response) = concluded state (record response { scope = state.scope })

  unfoldable pub finish : ReviewState → Result String (ReviewResponse × CodeReviewRoundIn)
  finish state = finish_from state state.response
