-- ===== src/Pipeline.antt =====
-- Data contracts of argus/pipeline_models.py, and the reconciliation of the failure fields.
pub mod Failure
use argus_review.Prelude.{ℕ, String, Bool, Option, List}
use argus_review.Pipeline.Failure.{FailureReason}

pub data SpecialistName : Type 0 where
  security sql infra orchestration frontend slackbot deployment llm_patterns observability :
      SpecialistName

pub record FileEntry : Type 0 where
  pub path : String
  pub change_type : String

pub record SystemGroup : Type 0 where
  pub name : String
  pub files : List String
  pub conventions : String
  pub review_focus : String
  pub specialists_needed : List SpecialistName

pub record ReviewPlan : Type 0 where
  pub system_groups : List SystemGroup
  pub cross_cutting_concerns : List String
  pub file_manifest : List FileEntry

-- `line` is a number or a range; it is carried as text and never read.
pub record RawFinding : Type 0 where
  pub file : Option String
  pub line : Option String
  pub description : String
  pub context : Option String

pub record SystemReviewResult : Type 0 where
  pub system_group : String
  pub findings : List RawFinding
  pub files_explored : List String
  pub failure_reason : Option FailureReason
  pub timed_out : Bool
  pub failure_detail : Option String

pub record CoverageGap : Type 0 where
  pub files : List String
  pub reason : String

pub record CoverageResult : Type 0 where
  pub is_covered : Bool
  pub gaps : List CoverageGap

pub data VerificationStatus : Type 0 where
  resolved unresolved regressed : VerificationStatus

pub record PriorFinding : Type 0 where
  pub severity : String
  pub category : String
  pub file : Option String
  pub line : Option ℕ
  pub description : String
  pub suggestion : Option String

pub record FeedbackVerificationItem : Type 0 where
  pub prior_finding : PriorFinding
  pub status : VerificationStatus
  pub rationale : String

pub record DismissedFinding : Type 0 where
  pub file : Option String
  pub description : String
  pub dismissed_by : String
  pub reason : String

pub record PriorReviewContext : Type 0 where
  pub review_id : String
  pub reviewed_sha : String
  pub findings : List PriorFinding
  pub dismissed_findings : List DismissedFinding
  pub notes_for_next_round : Option String
  pub round_number : ℕ
  pub prior_verdict : Option String

pub data ValidationVerdict : Type 0 where
  confirmed rejected : ValidationVerdict

pub record FindingValidationItem : Type 0 where
  pub index : ℕ
  pub verdict : ValidationVerdict
  pub evidence : String
