-- ===== src/Gates/Degraded.antt =====
-- Every failure is reported once: which findings the gates add for reviewers and scanners.
use mathlib.Core.List.{append-nil, append_assoc}
use argus_review.Prelude.{
  ℕ, zero, suc, String, ◌≡◌, refl, sym, ap, ◌∙◌, ◌⊎◌, Bool, true, false, not, ◌||◌, List, [], ◌∷◌,
  ◌++◌, length, keep, ltb, is_empty, arith, All, Bool-cases, inl, inr, if◌then◌else◌, Option-cases,
}
use argus_review.Prelude.Text.{has_prefix, has_prefix-append}
use argus_review.Models.{ReviewResponse, Finding, Severity}
use argus_review.Pipeline.{SystemReviewResult}
use argus_review.Gates.{
  is_blocking, promote, surface_labels, apply_reviewer_failure_gate, scanner_finding,
  apply_precheck_scanner_failure_gate, apply_precheck_gate_and_surface_degraded_coverage,
}
use argus_review.Gates.Counts.{promote-append}
use argus_review.Gates.Reports.{
  ReviewerGaps, ScannerGaps, build-append, promote_front, build_scanners, ScannerGaps-append,
  build_reviewers,
}
use argus_review.Gates.Labels.{
  Label, ScannerState, not_installed, scanner_labels, is_precheck, effective_reason,
  failed_reviewer_labels, build_degraded_coverage_labels, reviewer_only_labels,
  build_degraded_coverage_findings, coverage_gap_findings_for_round,
}

keep-append {ℓ} :
    {A : Type ℓ} (p : A → Bool) (xs ys : List A) → keep p (xs ++ ys) ≡ keep p xs ++ keep p ys
keep-append p [] ys = refl
keep-append p (x ∷ xs) ys = ground (arith, keep-append p xs ys)

-- No reviewer's group is named like a scanner.
abbrev pub PlainName : SystemReviewResult → Type 0
PlainName r = has_prefix "precheck:" r.system_group ≡ false

keep_reviewers :
    (canon : String → Bool) (results : List SystemReviewResult)
    → All PlainName results
    → keep (λ l. not (is_precheck l)) (failed_reviewer_labels canon results)
      ≡ failed_reviewer_labels canon results
unfolding failed_reviewer_labels
keep_reviewers canon [] h = refl
keep_reviewers canon (r ∷ rs) h = elim (Option-cases (effective_reason r)) [
  | inl completed ↦ rw completed (keep_reviewers canon rs h.1)
  | inr (reason, failed) ↦ rw (failed, h.0) (ground (arith, keep_reviewers canon rs h.1))
]

drop_scanners :
    (reason : String) (names : List String)
    → keep (λ l. not (is_precheck l)) (scanner_labels reason names) ≡ []
unfolding scanner_labels
drop_scanners reason [] = refl
drop_scanners reason (n ∷ names) = rw (has_prefix-append "precheck:" n) (drop_scanners reason names)

module _ (canon : String → Bool) where
  only_reviewers :
      (results : List SystemReviewResult) (s : ScannerState)
      → All PlainName results
      → reviewer_only_labels (build_degraded_coverage_labels canon results s)
        ≡ failed_reviewer_labels canon results
  unfolding build_degraded_coverage_labels reviewer_only_labels
  only_reviewers results s plain =
      simp (keep-append, keep_reviewers canon results plain, drop_scanners, append-nil)

  labels_of :
      (results : List SystemReviewResult) (s : ScannerState) (gate : Bool)
      → All PlainName results
      → (shown : List Label) × (coverage_gap_findings_for_round
            (build_degraded_coverage_labels canon results s)
            gate
          ≡ build_degraded_coverage_findings (failed_reviewer_labels canon results ++ shown))
        × (if gate
            then build_degraded_coverage_findings shown ≡ []
            else ScannerGaps (s.failed ++ s.missing) (build_degraded_coverage_findings shown))
  unfolding coverage_gap_findings_for_round build_degraded_coverage_labels
  labels_of results s true plain = (
    [],
    ap build_degraded_coverage_findings
        (only_reviewers results s plain ∙ sym (append-nil (failed_reviewer_labels canon results))),
    unfold build_degraded_coverage_findings in refl,
  )
  labels_of results s false plain =
      let failed = scanner_labels "scanner did not complete this round" s.failed in
      let missing = scanner_labels not_installed s.missing in
      (
        failed ++ missing,
        refl,
        rw (build-append failed missing) (
            ScannerGaps-append s.failed s.missing _ _ (build_scanners _ s.failed)
              (build_scanners _ s.missing)),
      )

  surfaced_findings :
      (r : ReviewResponse) (results : List SystemReviewResult) (labels : List Label) (gate : Bool)
      → (surface_labels canon r results labels gate).findings
        ≡ r.findings
          ++ promote 0
              (length (failed_reviewer_labels canon results))
              (coverage_gap_findings_for_round labels gate)
  unfolding surface_labels apply_reviewer_failure_gate
  surfaced_findings r results labels gate =
      let failures = length (failed_reviewer_labels canon results) in
      elim (Bool-cases (ltb 0 failures)) [
        | inl some_failed ↦ rw some_failed (promote-append failures r.findings _)
        | inr none_failed ↦
            let zero_failures : failures ≡ 0 = ground (arith, none_failed) in
            rw (none_failed, zero_failures) (unfold promote in refl)
      ]

  no_gaps :
      (labels : List Label) (gate : Bool) (n : ℕ)
      → is_empty labels ≡ true
      → promote 0 n (coverage_gap_findings_for_round labels gate) ≡ []
  unfolding coverage_gap_findings_for_round reviewer_only_labels build_degraded_coverage_findings
      promote
  no_gaps [] true zero e = refl
  no_gaps [] true (suc n) e = refl
  no_gaps [] false zero e = refl
  no_gaps [] false (suc n) e = refl
  no_gaps (l ∷ ls) gate n e = cc

  surfaced_cases :
      (r : ReviewResponse) (results : List SystemReviewResult) (s : ScannerState) (block : Bool)
      → let failures = s.failed ++ s.missing in
        let (gated, gate) = apply_precheck_scanner_failure_gate r failures block in
        let labels = build_degraded_coverage_labels canon results s in
        let out = apply_precheck_gate_and_surface_degraded_coverage canon r results s block in
        ((is_empty labels ≡ true) × (out ≡ (gated, (gate, labels))))
        ⊎ (out ≡ (surface_labels canon gated results labels gate, (gate, labels)))
  unfolding apply_precheck_gate_and_surface_degraded_coverage
  surfaced_cases r results s block =
      elim (Bool-cases (is_empty (build_degraded_coverage_labels canon results s))) [
        | inl nothing ↦ inl (nothing, rw nothing refl)
        | inr something ↦ inr (rw something refl)
      ]

  gated_findings :
      (r : ReviewResponse) (results : List SystemReviewResult) (s : ScannerState) (block : Bool)
      → let failures = s.failed ++ s.missing in
        let (gated, gate) = apply_precheck_scanner_failure_gate r failures block in
        let labels = build_degraded_coverage_labels canon results s in
        let out = apply_precheck_gate_and_surface_degraded_coverage canon r results s block in
        (out.1.0 ≡ gate)
        × (out.0.findings
            ≡ gated.findings
              ++ promote 0
                  (length (failed_reviewer_labels canon results))
                  (coverage_gap_findings_for_round labels gate))
  gated_findings r results s block =
      let failures = s.failed ++ s.missing in
      let (gated, gate) = apply_precheck_scanner_failure_gate r failures block in
      let labels = build_degraded_coverage_labels canon results s in
      elim (surfaced_cases r results s block) [
        | inl (nothing, is) ↦ (
          ap (λ out. out.1.0) is,
          ap (λ out. out.0.findings) is
              ∙ sym (append-nil gated.findings)
              ∙ ap (λ t. gated.findings ++ t) (sym (no_gaps labels gate _ nothing)),
        )
        | inr is ↦ (
          ap (λ out. out.1.0) is,
          ap (λ out. out.0.findings) is ∙ surfaced_findings gated results labels gate,
        )
      ]

-- The one BLOCKING finding of the scanner gate, where it acts.
abbrev pub Forced : Bool → List Finding → Type 0
Forced false fs = fs ≡ []
Forced true fs =
    (f : Finding) × (fs ≡ f ∷ [])
    × (f.severity ≡ Severity.blocking)
    × (f.category ≡ "deterministic-precheck")

scanner_gate-Forced :
    (r : ReviewResponse) (failures : List String) (block : Bool)
    → let out = apply_precheck_scanner_failure_gate r failures block in
      (forced : List Finding) × (out.0.findings ≡ r.findings ++ forced) × Forced out.1 forced
unfolding apply_precheck_scanner_failure_gate scanner_finding
scanner_gate-Forced r failures block =
    elim (Bool-cases (is_empty failures || is_blocking r.verdict || not block)) [
      | inl idle ↦ rw idle ([], sym (append-nil r.findings), refl)
      | inr acts ↦
          rw acts
            (scanner_finding failures ∷ [], refl, (scanner_finding failures, refl, refl, refl))
    ]

-- Where no reviewer's group is named like a scanner, the gates keep the findings of the response and
-- add, in this order: the one BLOCKING finding of the scanner gate, if it acts; one BLOCKING
-- coverage-gap finding for each reviewer session with a failure reason or the timeout flag, which
-- mentions its group, and none for another session; and, if the scanner gate does not act, one
-- SUGGESTION for each scanner that failed or is missing, which mentions its name.
pub findings_after_gates :
    (canon : String → Bool) (r : ReviewResponse) (results : List SystemReviewResult)
    (scanners : ScannerState) (block : Bool)
    → All PlainName results
    → let out = apply_precheck_gate_and_surface_degraded_coverage canon r results scanners block in
      (forced : List Finding) × (by_reviewer : List Finding) × (by_scanner : List Finding)
      × (out.0.findings ≡ r.findings ++ (forced ++ (by_reviewer ++ by_scanner)))
      × Forced out.1.0 forced
      × ReviewerGaps results by_reviewer
      × (if out.1.0
          then by_scanner ≡ []
          else ScannerGaps (scanners.failed ++ scanners.missing) by_scanner)
findings_after_gates canon r results scanners block plain =
    let failures = scanners.failed ++ scanners.missing in
    let (gated, gate) = apply_precheck_scanner_failure_gate r failures block in
    let (forced, kept, force) = scanner_gate-Forced r failures block in
    let (flag, is) = gated_findings canon r results scanners block in
    let (shown, round, gaps) = labels_of canon results scanners gate plain in
    let labels = failed_reviewer_labels canon results in
    let own = promote 0 (length labels) (build_degraded_coverage_findings labels) in
    let by_scanner = build_degraded_coverage_findings shown in
    (
      forced,
      own,
      by_scanner,
      is
          ∙ ap (λ t. gated.findings ++ promote 0 (length labels) t)
              (round ∙ build-append labels shown)
          ∙ ap (λ t. gated.findings ++ t) (promote_front labels by_scanner)
          ∙ ap (λ t. t ++ (own ++ by_scanner)) kept
          ∙ append_assoc r.findings forced (own ++ by_scanner),
      rw flag force,
      build_reviewers canon results,
      rw flag gaps,
    )
