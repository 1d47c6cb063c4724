-- ===== src/Graph.antt =====
-- argus/graph.py: the state of one review, the halt update and the pinned override.
-- An empty dictionary in the state is `none`; `agent_runs` and `checks_signal` are telemetry and a
-- prompt input and are left out.
pub mod ScopeGate
pub mod Dispatch
pub mod Coverage
pub mod Validate
pub mod Finish
pub mod Preflight
pub mod Precheck
use argus_review.Prelude.{
  ℕ, String, Bool, true, false, not, ◌&&◌, Option, none, some, List, [], ◌==◌, if◌then◌else◌,
}
use argus_review.Prelude.Text.{str_empty}
use argus_review.Models.{ReviewRequest, ReviewResponse, ScopeReceipt, ScopeBehavior, HaltCode}
use argus_review.Pipeline.{
  ReviewPlan, SystemReviewResult, RawFinding, CoverageResult, FeedbackVerificationItem,
  PriorReviewContext, FindingValidationItem,
}
use argus_review.Scope.{halt_response, HaltArgs}

-- A hit of a verified rule; an absent key is `none`.
pub record VerifiedHit : Type 0 where
  pub rule_id : String
  pub file : Option String
  pub line : Option ℕ
  pub message : Option String

pub record ReviewState : Type 0 where
  pub request : ReviewRequest
  pub diff : String
  pub description : String
  pub head_sha : String
  pub prior_review : Option PriorReviewContext
  pub plan : Option ReviewPlan
  pub findings : List SystemReviewResult
  pub verification : Option (List FeedbackVerificationItem)
  pub coverage : Option CoverageResult
  pub response : Option ReviewResponse
  pub validation : Option (List FindingValidationItem)
  pub scope_base_sha : Option String
  pub scope : Option ScopeReceipt
  pub is_lite : Bool
  pub is_catchup_merge : Bool
  pub precheck_findings : List RawFinding
  pub precheck_fast_fail : List VerifiedHit
  pub precheck_scanner_failures : List String
  pub precheck_missing_scanners : List String
  pub bench_config_changes : List String
  pub bench_config_unconfirmed : Option String

-- The override of the run's configuration.
pub record Config : Type 0 where
  pub review_override_sha : Option String
  pub review_override_reason : Option String

abbrev pub round_of : Option PriorReviewContext → ℕ
round_of none = 1
round_of (some prior) = prior.round_number

abbrev pub prior_id_of : Option PriorReviewContext → Option String
prior_id_of none = none
prior_id_of (some prior) = some prior.review_id

-- The counts of a halt, where there are any.
pub record HaltCounts : Type 0 where
  pub dispatch_count : Option ℕ
  pub dispatch_budget : Option ℕ

abbrev pub no_counts : HaltCounts
no_counts = record { dispatch_count = none; dispatch_budget = none }

unfoldable pub halt_update :
    ReviewState → HaltCode → String → List ScopeBehavior → HaltCounts → ReviewState
halt_update state code detail split counts = record state {
  response = some (
      halt_response code detail state.head_sha (record {
        review_round = round_of state.prior_review;
        prior_review_id = prior_id_of state.prior_review;
        split_suggestions = split;
        dispatch_count = counts.dispatch_count;
        dispatch_budget = counts.dispatch_budget;
      }));
}

-- The reason, if the override is pinned to exactly the head under review.
unfoldable pub override_reason : ReviewState → Config → Option String
override_reason state config = elim config.review_override_sha [
  | none ↦ none
  | some sha ↦
      if not (str_empty sha) && sha == state.head_sha then config.review_override_reason else none
]
