-- ===== src/Models.antt =====
-- Data contracts of argus/models.py: verdicts, findings, the scope receipt, the halt and the response.
-- Costs, durations and token counts are floats that only telemetry reads; they are not modelled.
use argus_review.Prelude.{ℕ, String, Bool, Option, List}

pub data Verdict : Type 0 where
  approve blocking : Verdict

pub data RiskLevel : Type 0 where
  low medium high critical : RiskLevel

pub data Severity : Type 0 where
  blocking suggestion : Severity

pub record Finding : Type 0 where
  pub severity : Severity
  pub category : String
  pub file : Option String
  pub line : Option ℕ
  pub description : String
  pub suggestion : Option String

pub record PriorFeedbackItem : Type 0 where
  pub severity : String
  pub description : String
  pub file : Option String
  pub status : String
  pub rationale : String

pub record DroppedFinding : Type 0 where
  pub finding : Finding
  pub rejection_rationale : String

pub record ScopeBehavior : Type 0 where
  pub title : String
  pub files : List String
  pub depends_on : List String

pub record ScopeReceipt : Type 0 where
  pub base_sha : String
  pub head_sha : String
  pub behaviors : List ScopeBehavior
  pub rationale : String
  pub override_reason : Option String

pub data HaltCode : Type 0 where
  scope_split scope_unverified dispatch_budget_exceeded gap_fill_cap_exceeded : HaltCode

pub record ReviewHalt : Type 0 where
  pub code : HaltCode
  pub detail : String
  pub head_sha : String
  pub split_suggestions : List ScopeBehavior
  pub dispatch_count : Option ℕ
  pub dispatch_budget : Option ℕ

pub record ReviewRequest : Type 0 where
  pub repo : String
  pub pr_number : ℕ
  pub sha : Option String
  pub base_ref : Option String
  pub dismissals : List String

pub record ReviewResponse : Type 0 where
  pub verdict : Verdict
  pub risk_level : RiskLevel
  pub findings : List Finding
  pub dropped_findings : List DroppedFinding
  pub prior_feedback : List PriorFeedbackItem
  pub notes_for_next_round : Option String
  pub review_comment : String
  pub review_round : ℕ
  pub prior_review_id : Option String
  pub lite_mode : Bool
  pub preflight_reason : String
  pub scope : Option ScopeReceipt
  pub halt : Option ReviewHalt
