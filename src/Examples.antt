-- ===== src/Examples.antt =====
-- Concrete runs: the data that the examples of the theorems share, and their modules.
mod ScopeRuns
mod GateRuns
mod GraphRuns
mod FinalRuns
mod PrecheckRuns
mod CoverageRuns
mod PreflightRuns
mod StorageRuns
mod GeminiRuns
mod BenchRuns
mod EngineRuns
mod WorktreeRuns
mod GithubRuns
mod FilesRuns
use argus_review.Prelude.{
  ℕ, String, Bool, true, false, Option, none, some, List, [], ◌∷◌, ◌==◌, if◌then◌else◌,
}
use argus_review.Models.{
  ReviewRequest, ReviewResponse, ScopeBehavior, ScopeReceipt, Finding, Severity, Verdict, RiskLevel,
}
use argus_review.Pipeline.{ReviewPlan, SystemGroup, SpecialistName, SystemReviewResult}
use argus_review.Pipeline.Failure.{FailureReason, timeout}
use argus_review.Graph.{ReviewState, Config}

abbrev pub head_sha : String
head_sha = "89abcdef0123456789abcdef0123456789abcdef"

abbrev pub base_sha : String
base_sha = "0123456789abcdef0123456789abcdef01234567"

abbrev pub parser_change : ScopeBehavior
parser_change = record { title = "parser"; files = "src/parse.py" ∷ []; depends_on = [] }

abbrev pub printer_change : ScopeBehavior
printer_change = record {
  title = "printer";
  files = "src/print.py" ∷ "docs/print.md" ∷ [];
  depends_on = "parser" ∷ [];
}

abbrev pub both_changes : List ScopeBehavior
both_changes = parser_change ∷ printer_change ∷ []

abbrev pub receipt : ScopeReceipt
receipt = record {
  base_sha = base_sha;
  head_sha = head_sha;
  behaviors = parser_change ∷ [];
  rationale = "one behavior";
  override_reason = none;
}

abbrev pub is_read_timeout : String → Bool
is_read_timeout detail = detail == "httpx.ReadTimeout"

abbrev pub finding_in : String → Severity → Finding
finding_in file severity = record {
  severity = severity;
  category = "correctness";
  file = some file;
  line = some 3;
  description = "missing null check";
  suggestion = none;
}

abbrev pub response_with : Verdict → List Finding → ReviewResponse
response_with verdict findings = record {
  verdict = verdict;
  risk_level = RiskLevel.low;
  findings = findings;
  dropped_findings = [];
  prior_feedback = [];
  notes_for_next_round = none;
  review_comment = "## Code Review\n**Verdict**: APPROVE\nFine.";
  review_round = 1;
  prior_review_id = none;
  lite_mode = false;
  preflight_reason = "";
  scope = none;
  halt = none;
}

abbrev pub review_of : String → Option FailureReason → SystemReviewResult
review_of group failure = record {
  system_group = group;
  findings = [];
  files_explored = [];
  failure_reason = failure;
  timed_out = false;
  failure_detail = some "httpx.ReadTimeout";
}

abbrev pub two_reviews : List SystemReviewResult
two_reviews = review_of "core" none ∷ review_of "docs" (some timeout) ∷ []

abbrev pub core_group : SystemGroup
core_group = record {
  name = "core";
  files = "src/parse.py" ∷ [];
  conventions = "";
  review_focus = "parsing";
  specialists_needed = SpecialistName.security ∷ [];
}

abbrev pub small_plan : ReviewPlan
small_plan = record {
  system_groups = core_group ∷ [];
  cross_cutting_concerns = [];
  file_manifest = [];
}

abbrev pub pinned_config : Config
pinned_config = record {
  review_override_sha = some head_sha;
  review_override_reason = some "one release";
}

-- A run of which only the pull request is known.
abbrev pub fetched : ReviewState
fetched = record {
  request = record {
    repo = "org/app";
    pr_number = 7;
    sha = none;
    base_ref = none;
    dismissals = [];
  };
  diff = "diff --git a/src/parse.py b/src/parse.py";
  description = "A faster parser";
  head_sha = head_sha;
  prior_review = none;
  plan = none;
  findings = [];
  verification = none;
  coverage = none;
  response = none;
  validation = none;
  scope_base_sha = some base_sha;
  scope = none;
  is_lite = false;
  is_catchup_merge = false;
  precheck_findings = [];
  precheck_fast_fail = [];
  precheck_scanner_failures = [];
  precheck_missing_scanners = [];
  bench_config_changes = [];
  bench_config_unconfirmed = none;
}
