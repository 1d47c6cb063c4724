-- ===== src/Examples/GateRuns.antt =====
-- The theorems of the gates at a round in which one reviewer timed out and one scanner failed.
use argus_review.Prelude.{
  ◌+◌, ◌≤◌, String, ◌≡◌, ◌⊎◌, refl, true, false, not, ◌&&◌, ◌||◌, none, some, List, [], ◌∷◌, ◌++◌,
  length, is_empty, All, if◌then◌else◌,
}
use argus_review.Prelude.Text.{has_prefix}
use argus_review.Models.{ReviewResponse, Verdict, Severity}
use argus_review.Scope.{is_set}
use argus_review.Gates.{is_blocking, risk_order, apply_precheck_gate_and_surface_degraded_coverage}
use argus_review.Gates.Labels.{ScannerState}
use argus_review.Gates.Strict.{any_failed, gates_strict}
use argus_review.Gates.Counts.{compute_persisted_finding_counts, counts_after_gates}
use argus_review.Models.{Finding}
use argus_review.Gates.Reports.{ReviewerGaps, ScannerGaps}
use argus_review.Gates.Degraded.{PlainName, Forced, findings_after_gates}
use argus_review.Gates.BenchConfig.{
  apply_bench_config_change_gate, apply_bench_config_change_gate_lem,
}
use argus_review.Gates.Header.{marker, rewrite_verdict}
use argus_review.Gates.Header.Laws.{first_header, has_header, has_newline, rewrite_verdict_lem}
use argus_review.Examples.{is_read_timeout, finding_in, response_with, two_reviews}

abbrev approving : ReviewResponse
approving = response_with Verdict.approve (finding_in "src/parse.py" Severity.suggestion ∷ [])

abbrev one_failed : ScannerState
one_failed = record { failed = "semgrep" ∷ []; missing = "ruff" ∷ [] }

gates_strict_example :
    let out =
      (apply_precheck_gate_and_surface_degraded_coverage is_read_timeout approving two_reviews
        one_failed true).0 in
    (is_blocking out.verdict ≡ (
      is_blocking approving.verdict
      || (true && not (is_empty (one_failed.failed ++ one_failed.missing)))
      || any_failed two_reviews))
    × (risk_order approving.risk_level ≤ risk_order out.risk_level)
    × (out.scope ≡ approving.scope)
    × (out.halt ≡ approving.halt)
gates_strict_example = gates_strict is_read_timeout approving two_reviews one_failed true

counts_after_gates_example :
    let out =
      apply_precheck_gate_and_surface_degraded_coverage is_read_timeout approving two_reviews
        one_failed true in
    let final = apply_bench_config_change_gate out.0 (".argus/bench.toml" ∷ []) none in
    let before = compute_persisted_finding_counts approving.findings in
    compute_persisted_finding_counts final.0.findings
    ≡ (before.0 + (if out.1.0 then 1 else 0) + (if final.1 then 1 else 0), before.1)
counts_after_gates_example =
    counts_after_gates is_read_timeout approving two_reviews one_failed true
      (".argus/bench.toml" ∷ []) none

two_reviews-PlainName : All PlainName two_reviews
unfolding has_prefix
two_reviews-PlainName = (refl, (refl, tt))

findings_after_gates_example :
    let out =
      apply_precheck_gate_and_surface_degraded_coverage is_read_timeout approving two_reviews
        one_failed true in
    (forced : List Finding) × (by_reviewer : List Finding) × (by_scanner : List Finding)
    × (out.0.findings ≡ approving.findings ++ (forced ++ (by_reviewer ++ by_scanner)))
    × Forced out.1.0 forced
    × ReviewerGaps two_reviews by_reviewer
    × (if out.1.0
        then by_scanner ≡ []
        else ScannerGaps (one_failed.failed ++ one_failed.missing) by_scanner)
findings_after_gates_example =
    findings_after_gates is_read_timeout approving two_reviews one_failed true two_reviews-PlainName

apply_bench_config_change_gate_lem_example :
    let changes : List String = ".argus/bench.yaml" ∷ [] in
    let out = apply_bench_config_change_gate approving changes none in
    let acts = not (is_empty changes && not (is_set none)) in
    (out.1 ≡ acts)
    × (((acts ≡ true)
          × (out.0.verdict ≡ Verdict.blocking)
          × (2 ≤ risk_order out.0.risk_level)
          × (length out.0.findings ≡ length approving.findings + 1))
        ⊎ ((acts ≡ false) × (out.0 ≡ approving)))
    × (risk_order approving.risk_level ≤ risk_order out.0.risk_level)
    × (out.0.scope ≡ approving.scope)
    × (out.0.halt ≡ approving.halt)
apply_bench_config_change_gate_lem_example =
    apply_bench_config_change_gate_lem approving (".argus/bench.yaml" ∷ []) none

starts : has_prefix marker "**Verdict**: BLOCKING" ≡ true
unfolding has_prefix
starts = refl

one_line : has_newline "**Verdict**: BLOCKING" ≡ false
unfolding has_newline
one_line = refl

has_one : has_header approving.review_comment ≡ true
unfolding first_header has_prefix
has_one = refl

rewrite_verdict_lem_example :
    first_header (rewrite_verdict "**Verdict**: BLOCKING" approving.review_comment)
    ≡ some "**Verdict**: BLOCKING"
rewrite_verdict_lem_example =
    rewrite_verdict_lem "**Verdict**: BLOCKING" approving.review_comment starts one_line has_one
