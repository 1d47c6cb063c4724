-- ===== src/Gates/Labels.antt =====
-- argus/helpers.py: the labels of failed reviewers and scanners, and their coverage-gap findings.
pub mod Gap
use Prim.Native.Char.{code}
use Prim.Native.String.{◌++◌ as ◌+++◌}
use argus_review.Prelude.{
  String, Bool, not, ◌&&◌, Option, none, some, List, [], ◌∷◌, ◌++◌, keep, ◌==◌, if◌then◌else◌,
}
use argus_review.Prelude.Text.{str_empty, has_prefix, remove_prefix, str_drop}
use argus_review.Models.{Finding, Severity}
use argus_review.Pipeline.{SystemReviewResult}
use argus_review.Pipeline.Failure.{FailureReason, timeout, reason_text}

-- `(label, reason)`
pub record Label : Type 0 where
  pub label : String
  pub reason : String

-- `f"{label} ({reason})"`
unfoldable pub label_text : Label → String
label_text l = l.label +++ " (" +++ l.reason +++ ")"

-- The two scanner lists of the final graph state.
pub record ScannerState : Type 0 where
  pub failed : List String
  pub missing : List String

abbrev pub not_installed : String
not_installed = "scanner not installed"

-- `failure_reason`, or a timeout where only the old flag is set.
abbrev pub effective_reason : SystemReviewResult → Option FailureReason
effective_reason r = elim r.failure_reason [
  | some reason ↦ some reason
  | none ↦ if r.timed_out then some timeout else none
]

-- `[(f"precheck:{name}", reason) for name in names]`
unfoldable pub scanner_labels : String → List String → List Label
scanner_labels reason [] = []
scanner_labels reason (name ∷ names) =
    record { label = "precheck:" +++ name; reason = reason } ∷ scanner_labels reason names

module _ (is_canonical : String → Bool) where
  pub reason_with_detail : FailureReason → Option String → String
  reason_with_detail reason none = reason_text reason
  reason_with_detail reason (some detail) =
      if not (str_empty detail) && is_canonical detail
      then reason_text reason +++ ": " +++ detail
      else reason_text reason

  add_label : SystemReviewResult → Option FailureReason → List Label → List Label
  add_label r none labels = labels
  add_label r (some reason) labels =
      record { label = r.system_group; reason = reason_with_detail reason r.failure_detail }
      ∷ labels

  unfoldable pub failed_reviewer_labels : List SystemReviewResult → List Label
  unfolding add_label
  failed_reviewer_labels [] = []
  failed_reviewer_labels (r ∷ rs) = add_label r (effective_reason r) (failed_reviewer_labels rs)

  unfoldable pub build_degraded_coverage_labels :
      List SystemReviewResult → ScannerState → List Label
  build_degraded_coverage_labels results scanners =
      failed_reviewer_labels results
      ++ (scanner_labels "scanner did not complete this round" scanners.failed
          ++ scanner_labels not_installed scanners.missing)

abbrev pub is_precheck : Label → Bool
is_precheck l = has_prefix "precheck:" l.label

unfoldable pub reviewer_only_labels : List Label → List Label
reviewer_only_labels labels = keep (λ l. not (is_precheck l)) labels

-- `reason.partition(": ")`: the text before the first separator, and what follows it.
before_colon : String → String
unfolding has_prefix
before_colon String.[] = String.[]
before_colon (String.◌∷◌ c s) =
    let rest = before_colon s in
    if has_prefix ": " (String.◌∷◌ c s) then String.[] else String.◌∷◌ c rest

after_colon : String → String
unfolding has_prefix str_drop
after_colon String.[] = String.[]
after_colon (String.◌∷◌ c s) =
    let rest = after_colon s in
    if has_prefix ": " (String.◌∷◌ c s) then str_drop 2 (String.◌∷◌ c s) else rest

coverage_suggestion : Label → String → String
coverage_suggestion l code =
    if code == not_installed
    then "Install " +++ remove_prefix "precheck:" l.label +++ " to restore this scanner's coverage."
    else if code == "turn_budget_exhausted"
    then "Re-run the review or manually inspect '" +++ l.label
      +++ "' -- it explored this area but ran out of turns before reporting, so its files may be "
      +++ "unreviewed."
    else "Re-run the review or manually inspect the changes in '" +++ l.label
      +++ "' to ensure potential issues were not missed due to " +++ l.reason +++ "."

outcome_text : Label → String → String
outcome_text l code =
    if code == not_installed
    then "is not installed"
    else if code == "timeout"
    then "timed out"
    else if code == "turn_budget_exhausted"
    then "ran out of turns before finishing"
    else "did not complete (" +++ l.reason +++ ")"

subject_text : Label → String
subject_text l = if is_precheck l then "Precheck scanner" else "Reviewer session"

coverage_description : Label → String → String → String
unfolding outcome_text subject_text
coverage_description l code detail =
    if str_empty detail
    then subject_text l
      +++ " '"
      +++ l.label
      +++ "' "
      +++ outcome_text l code
      +++ " and produced no findings. Coverage for this area is degraded."
    else subject_text l
      +++ " "
      +++ outcome_text l code
      +++ ". Area: '"
      +++ l.label
      +++ "'. Coverage is degraded."

pub coverage_gap_finding : Label → Finding
unfolding before_colon after_colon coverage_suggestion coverage_description
coverage_gap_finding l =
    let code = before_colon l.reason in
    record {
      severity = Severity.suggestion;
      category = "coverage-gap";
      file = none;
      line = none;
      description = coverage_description l code (after_colon l.reason);
      suggestion = some (coverage_suggestion l code);
    }

unfoldable pub build_degraded_coverage_findings : List Label → List Finding
unfolding coverage_gap_finding
build_degraded_coverage_findings [] = []
build_degraded_coverage_findings (l ∷ ls) =
    coverage_gap_finding l ∷ build_degraded_coverage_findings ls

unfoldable pub coverage_gap_findings_for_round : List Label → Bool → List Finding
unfolding reviewer_only_labels build_degraded_coverage_findings
coverage_gap_findings_for_round labels gate_added =
    build_degraded_coverage_findings (if gate_added then reviewer_only_labels labels else labels)
