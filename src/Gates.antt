-- ===== src/Gates.antt =====
-- argus/helpers.py: failed reviewers and scanners, the coverage-gap findings, and the gates that
-- force the verdict. A gate mutates the response in place; here it returns the new response. The
-- findings that a gate shares with `response.findings` are positions in that list.
pub mod Header
pub mod Labels
pub mod Strict
pub mod BenchConfig
pub mod Counts
pub mod Degraded
pub mod Reports
use Prim.Native.String.{◌++◌ as ◌+++◌}
use argus_review.Prelude.{
  ℕ, zero, suc, ◌+◌, String, Bool, true, false, not, ◌||◌, ◌&&◌, Option, none, some, List, [], ◌∷◌,
  ◌++◌, map, length, keep, is_empty, ltb, ◌==◌, if◌then◌else◌,
}
use argus_review.Prelude.Text.{join, has_prefix}
use argus_review.Prelude.Names.{sorted}
use argus_review.Models.{ReviewResponse, Finding, Verdict, RiskLevel, Severity}
use argus_review.Pipeline.{SystemReviewResult}
use argus_review.Gates.Header.{rewrite_verdict}
use argus_review.Gates.Labels.{
  Label, ScannerState, failed_reviewer_labels, build_degraded_coverage_labels,
  coverage_gap_findings_for_round, label_text,
}

-- `_RISK_LEVEL_ORDER`
abbrev pub risk_order : RiskLevel → ℕ
risk_order RiskLevel.low = 0
risk_order RiskLevel.medium = 1
risk_order RiskLevel.high = 2
risk_order RiskLevel.critical = 3

abbrev pub risk_text : RiskLevel → String
risk_text RiskLevel.low = "LOW"
risk_text RiskLevel.medium = "MEDIUM"
risk_text RiskLevel.high = "HIGH"
risk_text RiskLevel.critical = "CRITICAL"

abbrev pub is_blocking : Verdict → Bool
is_blocking Verdict.approve = false
is_blocking Verdict.blocking = true

abbrev pub is_blocking_finding : Finding → Bool
is_blocking_finding f = elim f.severity [ Severity.blocking ↦ true | Severity.suggestion ↦ false ]

-- `if order[risk] < order[HIGH]: risk = HIGH`
unfoldable pub raise_risk : RiskLevel → RiskLevel
raise_risk r = if ltb (risk_order r) (risk_order RiskLevel.high) then RiskLevel.high else r

pub blocking_header : RiskLevel → String
blocking_header r = "**Verdict**: 🚫 BLOCKING | **Risk**: " +++ risk_text r

pub forced_section : String → String
forced_section note = "\n\n---\n\n### 🚫 Verdict forced to BLOCKING\n\n" +++ note +++ "\n"

pub scanner_note : List String → String
scanner_note failures =
    "Precheck scanner(s) "
    +++ join ", " (sorted failures)
    +++ " did not complete this round (crashed, timed out, hit an execution error, or is not "
    +++ "installed). ARGUS_PRECHECK_BLOCK_ON_SCANNER_FAILURE is set, so this round cannot be "
    +++ "APPROVE without confirmed coverage from every configured scanner."

pub scanner_finding : List String → Finding
scanner_finding failures = record {
  severity = Severity.blocking;
  category = "deterministic-precheck";
  file = none;
  line = none;
  description = scanner_note failures;
  suggestion = some (
      "Re-run once the underlying scanner failure is resolved -- see this round's logs (or the "
      +++ "degraded-coverage section below) for which scanner(s) failed and why.");
}

-- The response and whether the gate did anything.
unfoldable pub apply_precheck_scanner_failure_gate :
    ReviewResponse → List String → Bool → ReviewResponse × Bool
unfolding raise_risk
apply_precheck_scanner_failure_gate response failures block_on_failure =
    let risk = raise_risk response.risk_level in
    if is_empty failures || is_blocking response.verdict || not block_on_failure
    then (response, false)
    else (
      record response {
        verdict = Verdict.blocking;
        risk_level = risk;
        findings = response.findings ++ scanner_finding failures ∷ [];
        review_comment =
            rewrite_verdict (blocking_header risk) response.review_comment
            +++ forced_section (scanner_note failures);
      },
      true,
    )

-- `for finding in findings[start:start + n]: finding.severity = BLOCKING`
pub promote : ℕ → ℕ → List Finding → List Finding
promote start zero fs = fs
promote start (suc n) [] = []
promote zero (suc n) (f ∷ fs) = record f { severity = Severity.blocking } ∷ promote zero n fs
promote (suc start) (suc n) (f ∷ fs) = f ∷ promote start (suc n) fs

-- The `n` findings from position `start` on are those of the failed reviewers.
unfoldable pub apply_reviewer_failure_gate : ReviewResponse → ℕ → ℕ → ReviewResponse
unfolding raise_risk promote
apply_reviewer_failure_gate response start n =
    let risk = raise_risk response.risk_level in
    record response {
      verdict = Verdict.blocking;
      risk_level = risk;
      findings = promote start n response.findings;
      review_comment = rewrite_verdict (blocking_header risk) response.review_comment;
    }

unfoldable pub append_degraded_coverage_section : String → List Label → String
append_degraded_coverage_section comment labels =
    if is_empty labels
    then comment
    else comment
      +++ "\n\n---\n\n### ⚠ Degraded coverage\n\n"
      +++ "The following did not complete this round and produced no findings as a result, not "
      +++ "because the area was clean. Treat these areas as **not reviewed** this round:\n\n"
      +++ join "\n" (map (λ l. "- " +++ label_text l) labels)
      +++ "\n\n**Suggestion**: Re-run the review or manually inspect the unreviewed areas "
      +++ "above to cover potential gaps.\n"

-- `_CANONICAL_FAILURE_DETAIL_RE.fullmatch` is a parameter: it lists exception names of httpx.
module _ (is_canonical : String → Bool) where
  -- The section and the findings for failed labels, and the promotion of the reviewers' findings.
  unfoldable pub surface_labels :
      ReviewResponse → List SystemReviewResult → List Label → Bool → ReviewResponse
  unfolding append_degraded_coverage_section
  surface_labels response results labels gate_added =
      let new_findings = coverage_gap_findings_for_round labels gate_added in
      let surfaced : ReviewResponse = record response {
        review_comment = append_degraded_coverage_section response.review_comment labels;
        findings = response.findings ++ new_findings;
      } in
      let failures = length (failed_reviewer_labels is_canonical results) in
      if ltb 0 failures
      then apply_reviewer_failure_gate surfaced (length response.findings) failures
      else surfaced

  unfoldable pub apply_precheck_gate_and_surface_degraded_coverage :
      ReviewResponse
      → List SystemReviewResult
      → ScannerState
      → Bool
      → ReviewResponse × (Bool × List Label)
  unfolding surface_labels
  apply_precheck_gate_and_surface_degraded_coverage response results scanners block_on_failure =
      let (gated, gate_added) =
        apply_precheck_scanner_failure_gate response (scanners.failed ++ scanners.missing)
          block_on_failure in
      let labels = build_degraded_coverage_labels is_canonical results scanners in
      if is_empty labels
      then (gated, (gate_added, labels))
      else (surface_labels gated results labels gate_added, (gate_added, labels))
