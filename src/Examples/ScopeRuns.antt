-- ===== src/Examples/ScopeRuns.antt =====
-- The theorems of the scope gate's parts at concrete assessments, texts and overrides.
use argus_review.Prelude.{
  String, ◌≡◌, ◌≢◌, ◌↔◌, ◌⊎◌, refl, true, false, Option, none, some, List, [], ◌∷◌,
}
use argus_review.Prelude.Result.{ok}
use argus_review.Prelude.Text.{str_length, strip}
use argus_review.Prelude.Names.{mem, dedup, minus, subset}
use argus_review.Pipeline.Failure.{
  FailureReason, timeout, is_timeout, sync_timed_out, sync_timed_out-agrees,
}
use argus_review.Scope.{ScopeAssessment, validate_assessment}
use argus_review.Scope.Order.{prepare}
use argus_review.Scope.Partition.{Splits, validate_assessment_iff}
use argus_review.Scope.Override.{is_sha40, validate_override}
use argus_review.Examples.{head_sha, both_changes}

abbrev two_slices : ScopeAssessment
two_slices = record { indeterminate = false; behaviors = both_changes; rationale = "two slices" }

abbrev three_files : List String
three_files = "docs/print.md" ∷ "src/parse.py" ∷ "src/print.py" ∷ []

validate_assessment_iff_example : (validate_assessment two_slices three_files ≡ ok tt) ↔ (
    (two_slices.indeterminate ≡ false)
    × (((three_files ≡ []) × (two_slices.behaviors ≡ []))
        ⊎ ((three_files ≢ []) × Splits two_slices.behaviors three_files)))
validate_assessment_iff_example = validate_assessment_iff two_slices three_files

two_slices_accepted : validate_assessment two_slices three_files ≡ ok tt
unfolding validate_assessment strip dedup mem minus subset prepare
two_slices_accepted = refl

accepted_override :
    validate_override (some head_sha) (some "  ship it ") ≡ ok (some (head_sha, "ship it"))
unfolding validate_override is_sha40 str_length strip
accepted_override = refl

reconciled : sync_timed_out false (some timeout) ≡ ok (true, some timeout)
unfolding sync_timed_out
reconciled = refl

sync_timed_out-agrees_example :
    (true ≡ is_timeout (some timeout))
    × ((◌≡◌ {A = Option FailureReason} (some timeout) none)
        ⊎ (◌≡◌ {A = Option FailureReason} (some timeout) (some timeout)))
    × ((false ≡ false) ⊎ (true ≡ true))
    × (sync_timed_out true (some timeout) ≡ ok (true, some timeout))
sync_timed_out-agrees_example = sync_timed_out-agrees false (some timeout) reconciled
