-- ===== src/Examples/GraphRuns.antt =====
-- The theorems of the graph's nodes at concrete states.
use argus_review.Prelude.{
  String, ◌≡◌, ◌⊎◌, refl, Bool, false, Option, none, some, List, [], ◌∷◌, arith,
}
use argus_review.Prelude.Result.{Result, ok}
use argus_review.Prelude.Text.{strip}
use argus_review.Models.{ReviewResponse, Verdict, Severity, Finding}
use argus_review.Pipeline.{
  ReviewPlan, SystemReviewResult, CoverageResult, ValidationVerdict, FindingValidationItem,
}
use argus_review.Scope.{ScopeAssessment}
use argus_review.Scope.Input.{ChangedFile}
use argus_review.Validator.{
  Json, nat, str, arr, obj, nil, cons, end, field, Raise, parse_validation_result,
}
use argus_review.Validator.Settled.{Whole, parse_validation_result-Whole}
use argus_review.Graph.{ReviewState}
use argus_review.Graph.ScopeGate.{Raised, node_scope_gate}
use argus_review.Graph.ScopeGate.Outcome.{Halted, Receipted, node_scope_gate_outcome}
use argus_review.Graph.Dispatch.{node_plan}
use argus_review.Graph.Dispatch.Bounds.{Refused, Dispatched, node_plan_outcome}
use argus_review.Graph.Coverage.{node_check_coverage}
use argus_review.Graph.Coverage.GapFill.{Capped, Filled, Written, node_check_coverage_outcome}
use argus_review.Graph.Validate.{node_validate_blockings}
use argus_review.Graph.Validate.Survivors.{Kept, Cut, node_validate_blockings_outcome}
use argus_review.Examples.{
  receipt, small_plan, pinned_config, fetched, parser_change, finding_in, response_with,
  two_reviews,
}

abbrev compare_files : String → String → String → Result Raised (List ChangedFile × Bool)
compare_files repo base head = ok (
  record {
    filename = "src/parse.py";
    status = "modified";
    previous_filename = none;
    patch = some "+x";
  }
      ∷ [],
  false,
)

abbrev assess : String → Result Raised ScopeAssessment
assess payload =
    ok (record { indeterminate = false; behaviors = parser_change ∷ []; rationale = "one" })

node_scope_gate_outcome_example :
    Halted fetched (node_scope_gate compare_files assess fetched pinned_config)
    ⊎ Receipted compare_files assess fetched
        (node_scope_gate compare_files assess fetched pinned_config)
node_scope_gate_outcome_example = node_scope_gate_outcome compare_files assess fetched pinned_config

abbrev scoped : ReviewState
scoped = record fetched { scope = some receipt }

abbrev planner : String → String → Result String ReviewPlan
planner diff description = ok small_plan

node_plan_outcome_example :
    (out : ReviewState) × (node_plan 3 planner scoped pinned_config ≡ ok out)
    × (Refused 3 scoped pinned_config small_plan out
        ⊎ Dispatched 3 scoped pinned_config small_plan out)
node_plan_outcome_example =
    node_plan_outcome 3 planner scoped pinned_config small_plan receipt (omega arith) refl refl refl

abbrev one_gap : CoverageResult
one_gap = record {
  is_covered = false;
  gaps = record { files = "src/print.py" ∷ []; reason = "never opened" } ∷ [];
}

abbrev checker : ReviewPlan → List SystemReviewResult → Result String CoverageResult
checker plan results = ok one_gap

abbrev reviewed : ReviewState
reviewed = record scoped { plan = some small_plan; findings = two_reviews }

node_check_coverage_outcome_example :
    (out : ReviewState) × (node_check_coverage checker reviewed ≡ ok out)
    × (Capped one_gap reviewed out ⊎ (Filled one_gap out ⊎ Written one_gap out))
node_check_coverage_outcome_example =
    node_check_coverage_outcome checker reviewed small_plan one_gap refl refl refl

-- Two findings with one description, of which the validator rejects the first.
abbrev twins : ReviewResponse
twins =
    response_with Verdict.blocking (
      finding_in "src/parse.py" Severity.blocking
      ∷ finding_in "src/print.py" Severity.blocking
      ∷ [])

abbrev answer : Json
answer = obj (
    field "items"
      (arr (
        cons
          (obj (
            field "index" (nat 0)
              (field "verdict" (str "rejected") (field "evidence" (str "checked above") end))))
          nil))
      end)

abbrev loads : String → Option Json
loads text = some answer

abbrev parsed_items : List FindingValidationItem
parsed_items =
    record { index = 0; verdict = ValidationVerdict.rejected; evidence = "checked above" }
    ∷ record {
      index = 1;
      verdict = ValidationVerdict.confirmed;
      evidence = "Not mentioned by validator — finding kept by default";
    }
    ∷ []

answer_parsed : parse_validation_result loads "{}" 2 ≡ ok parsed_items
unfolding parse_validation_result strip
answer_parsed = refl

parse_validation_result-Whole_example : Whole 2 1 parsed_items
parse_validation_result-Whole_example =
    parse_validation_result-Whole loads "{}" 2 1 (omega arith) answer_parsed

abbrev written : ReviewState
written = record reviewed { response = some twins }

abbrev session : List Finding → String → Result Raise String
session findings diff = ok "{}"

node_validate_blockings_outcome_example :
    (out : ReviewState) × (node_validate_blockings loads session written ≡ ok out)
    × (Kept written out twins parsed_items ⊎ Cut out twins parsed_items)
node_validate_blockings_outcome_example =
    node_validate_blockings_outcome loads session written twins "{}" parsed_items refl refl
      answer_parsed
