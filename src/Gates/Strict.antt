-- ===== src/Gates/Strict.antt =====
-- What an approval says after the gates for failed scanners and reviewers.
use argus_review.Prelude.{
  ℕ, ◌≤◌, String, ◌≡◌, refl, sym, ◌∙◌, any, Bool, true, false, not, ◌||◌, ◌&&◌, none, List, [], ◌∷◌,
  ◌++◌, length, ltb, is_empty, arith, All, Option-cases, inl, inr,
}
use argus_review.Models.{ReviewResponse}
use argus_review.Pipeline.{SystemReviewResult}
use argus_review.Pipeline.Failure.{is_failed}
use argus_review.Gates.{
  risk_order, is_blocking, apply_precheck_scanner_failure_gate, apply_reviewer_failure_gate,
  surface_labels, apply_precheck_gate_and_surface_degraded_coverage,
}
use argus_review.Gates.Labels.{
  Label, ScannerState, effective_reason, failed_reviewer_labels, build_degraded_coverage_labels,
}

-- The reviewer's session completed.
abbrev pub Completed : SystemReviewResult → Type 0
Completed r = effective_reason r ≡ none

failed_reviewer_labels-eq-nil :
    (canon : String → Bool) (results : List SystemReviewResult)
    → ltb 0 (length (failed_reviewer_labels canon results)) ≡ false
    → All Completed results
unfolding failed_reviewer_labels
failed_reviewer_labels-eq-nil canon [] h = tt
failed_reviewer_labels-eq-nil canon (r ∷ rs) h = elim (Option-cases (effective_reason r)) [
  | inl completed ↦ (completed, failed_reviewer_labels-eq-nil canon rs (rw completed at h))
  | inr (reason, failed) ↦ absurd (ground arith)
]

scanner_gate_lem :
    (r : ReviewResponse) (failures : List String) (block : Bool)
    → let out = apply_precheck_scanner_failure_gate r failures block in
      (is_blocking out.0.verdict ≡ (is_blocking r.verdict || (block && not (is_empty failures))))
      × (risk_order r.risk_level ≤ risk_order out.0.risk_level)
      × (out.0.scope ≡ r.scope)
      × (out.0.halt ≡ r.halt)
unfolding apply_precheck_scanner_failure_gate
scanner_gate_lem r failures block = ground arith

reviewer_gate_lem :
    (r : ReviewResponse) (start n : ℕ)
    → let out = apply_reviewer_failure_gate r start n in
      (is_blocking out.verdict ≡ true)
      × (risk_order r.risk_level ≤ risk_order out.risk_level)
      × (2 ≤ risk_order out.risk_level)
      × (out.scope ≡ r.scope)
      × (out.halt ≡ r.halt)
unfolding apply_reviewer_failure_gate
reviewer_gate_lem r start n = ground arith

-- Some reviewer's session did not complete.
abbrev pub any_failed : List SystemReviewResult → Bool
any_failed results = any (λ r. is_failed (effective_reason r)) results

failed_reviewer_labels-any :
    (canon : String → Bool) (results : List SystemReviewResult)
    → ltb 0 (length (failed_reviewer_labels canon results)) ≡ any_failed results
unfolding failed_reviewer_labels
failed_reviewer_labels-any canon [] = refl
failed_reviewer_labels-any canon (r ∷ rs) = elim (Option-cases (effective_reason r)) [
  | inl completed ↦ rw completed (failed_reviewer_labels-any canon rs)
  | inr (reason, failed) ↦ rw failed (ground arith)
]

is_empty-append {ℓ} :
    {A : Type ℓ} (xs ys : List A) → is_empty (xs ++ ys) ≡ (is_empty xs && is_empty ys)
is_empty-append [] ys = refl
is_empty-append (x ∷ xs) ys = refl

no_labels :
    (canon : String → Bool) (results : List SystemReviewResult) (scanners : ScannerState)
    → is_empty (build_degraded_coverage_labels canon results scanners) ≡ true
    → any_failed results ≡ false
unfolding build_degraded_coverage_labels
no_labels canon results scanners e =
    sym (failed_reviewer_labels-any canon results)
    ∙ none_long (failed_reviewer_labels canon results) (
        let both = sym (is_empty-append (failed_reviewer_labels canon results) _) ∙ e in
        ground arith)
  where
    none_long : (labels : List Label) → is_empty labels ≡ true → ltb 0 (length labels) ≡ false
    none_long [] h = refl
    none_long (l ∷ ls) h = cc

surface_labels_lem :
    (canon : String → Bool) (r : ReviewResponse) (results : List SystemReviewResult)
    (labels : List Label) (gate_added : Bool)
    → let out = surface_labels canon r results labels gate_added in
      (is_blocking out.verdict ≡ (is_blocking r.verdict || any_failed results))
      × (risk_order r.risk_level ≤ risk_order out.risk_level)
      × (out.scope ≡ r.scope)
      × (out.halt ≡ r.halt)
unfolding surface_labels apply_reviewer_failure_gate
surface_labels_lem canon r results labels gate_added =
    ground (arith, failed_reviewer_labels-any canon results)

-- The gates after the writer are strict: the verdict is BLOCKING exactly if it was before, or
-- blocking on scanner failures is on and some scanner failed or is missing, or a reviewer's session
-- did not complete. The risk is not lowered, and the receipt and the halt do not change.
pub gates_strict :
    (canon : String → Bool) (r : ReviewResponse) (results : List SystemReviewResult)
    (scanners : ScannerState) (block : Bool)
    → let out =
        (apply_precheck_gate_and_surface_degraded_coverage canon r results scanners block).0 in
      (is_blocking out.verdict ≡ (
        is_blocking r.verdict
        || (block && not (is_empty (scanners.failed ++ scanners.missing)))
        || any_failed results))
      × (risk_order r.risk_level ≤ risk_order out.risk_level)
      × (out.scope ≡ r.scope)
      × (out.halt ≡ r.halt)
unfolding apply_precheck_gate_and_surface_degraded_coverage
gates_strict canon r results scanners block =
    let (gated, gate_added) =
      apply_precheck_scanner_failure_gate r (scanners.failed ++ scanners.missing) block in
    let labels = build_degraded_coverage_labels canon results scanners in
    ground (
      arith,
      scanner_gate_lem r (scanners.failed ++ scanners.missing) block,
      no_labels canon results scanners,
      surface_labels_lem canon gated results labels gate_added,
    )
