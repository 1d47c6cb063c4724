-- ===== src/Gates/Reports.antt =====
-- What the findings of `build_degraded_coverage_findings` report: sessions and scanners that did not
-- complete.
use Prim.Native.String.{◌++◌ as ◌+++◌}
use argus_review.Prelude.{
  String, ◌≡◌, ◌≢◌, refl, sym, ap, ◌∙◌, ◌⊎◌, Bool, true, false, none, some, List, [], ◌∷◌, ◌++◌,
  length, Bool-cases, inl, inr, Option-cases,
}
use argus_review.Models.{Finding, Severity}
use argus_review.Pipeline.{SystemReviewResult}
use argus_review.Pipeline.Failure.{timeout}
use argus_review.Gates.{promote}
use argus_review.Gates.Labels.Gap.{Gap, coverage_gap_finding-Gap}
use argus_review.Gates.Labels.{
  Label, scanner_labels, effective_reason, coverage_gap_finding, failed_reviewer_labels,
  reason_with_detail, build_degraded_coverage_findings,
}

-- The session did not complete: it has a failure reason, or only the old flag.
abbrev pub DidFail : SystemReviewResult → Type 0
DidFail r = (r.failure_reason ≢ none) ⊎ (r.timed_out ≡ true)

-- One BLOCKING finding for each session that did not complete, in order, and no other.
abbrev pub ReviewerGaps : List SystemReviewResult → List Finding → Type 0
ReviewerGaps [] fs = fs ≡ []
ReviewerGaps (r ∷ rs) fs =
    ((r.failure_reason ≡ none) × (r.timed_out ≡ false) × ReviewerGaps rs fs)
    ⊎ (DidFail r
        × (f : Finding) × (rest : List Finding) × (fs ≡ f ∷ rest)
        × Gap Severity.blocking r.system_group f
        × ReviewerGaps rs rest)

-- One SUGGESTION for each scanner, in order, and no other.
abbrev pub ScannerGaps : List String → List Finding → Type 0
ScannerGaps [] fs = fs ≡ []
ScannerGaps (name ∷ names) fs =
    (f : Finding) × (rest : List Finding) × (fs ≡ f ∷ rest)
    × Gap Severity.suggestion ("precheck:" +++ name) f
    × ScannerGaps names rest

pub build-append :
    (xs ys : List Label)
    → build_degraded_coverage_findings (xs ++ ys)
      ≡ build_degraded_coverage_findings xs ++ build_degraded_coverage_findings ys
unfolding build_degraded_coverage_findings
build-append [] ys = refl
build-append (x ∷ xs) ys = ap (λ t. coverage_gap_finding x ∷ t) (build-append xs ys)

pub promote_front :
    (xs : List Label) (ys : List Finding)
    → promote 0 (length xs) (build_degraded_coverage_findings xs ++ ys)
      ≡ promote 0 (length xs) (build_degraded_coverage_findings xs) ++ ys
unfolding promote build_degraded_coverage_findings
promote_front [] ys = refl
promote_front (x ∷ xs) ys =
    ap (λ t. record (coverage_gap_finding x) { severity = Severity.blocking } ∷ t)
      (promote_front xs ys)

pub build_scanners :
    (reason : String) (names : List String)
    → ScannerGaps names (build_degraded_coverage_findings (scanner_labels reason names))
unfolding scanner_labels build_degraded_coverage_findings
build_scanners reason [] = refl
build_scanners reason (name ∷ names) =
    let label : Label = record { label = "precheck:" +++ name; reason = reason } in
    (
      coverage_gap_finding label,
      build_degraded_coverage_findings (scanner_labels reason names),
      refl,
      coverage_gap_finding-Gap label,
      build_scanners reason names,
    )

pub ScannerGaps-append :
    (xs ys : List String) (fs gs : List Finding)
    → ScannerGaps xs fs
    → ScannerGaps ys gs
    → ScannerGaps (xs ++ ys) (fs ++ gs)
ScannerGaps-append [] ys fs gs h k = rw h k
ScannerGaps-append (x ∷ xs) ys fs gs (f, rest, is, gap, later) k =
    (f, rest ++ gs, rw is refl, gap, ScannerGaps-append xs ys rest gs later k)

completed_fields :
    (r : SystemReviewResult)
    → effective_reason r ≡ none
    → (r.failure_reason ≡ none) × (r.timed_out ≡ false)
completed_fields r e = elim (Option-cases r.failure_reason) [
  | inr (reason, failed) ↦ (let apart : some reason ≡ none = rw failed at e in cc)
  | inl unset ↦ elim (Bool-cases r.timed_out) [
    | inr early ↦ (unset, early)
    | inl late ↦ (let apart : some timeout ≡ none = rw (unset, late) at e in cc)
  ]
]

failed_fields : (r : SystemReviewResult) → effective_reason r ≢ none → DidFail r
failed_fields r h = elim (Option-cases r.failure_reason) [
  | inr (reason, failed) ↦ inl (λ e. (let apart : some reason ≡ none = sym failed ∙ e in cc))
  | inl unset ↦ elim (Bool-cases r.timed_out) [
    | inl late ↦ inr late
    | inr early ↦ absurd (h (rw (unset, early) refl))
  ]
]

module _ (canon : String → Bool) where
  pub build_reviewers :
      (results : List SystemReviewResult)
      → let labels = failed_reviewer_labels canon results in
        ReviewerGaps results (promote 0 (length labels) (build_degraded_coverage_findings labels))
  unfolding failed_reviewer_labels promote build_degraded_coverage_findings
  build_reviewers [] = refl
  build_reviewers (r ∷ rs) = elim (Option-cases (effective_reason r)) [
    | inl completed ↦
        let (reason, flag) = completed_fields r completed in
        rw completed (inl (reason, flag, build_reviewers rs))
    | inr (reason, failed) ↦
        let label : Label = record {
          label = r.system_group;
          reason = reason_with_detail canon reason r.failure_detail;
        } in
        let (_, named, mentioned) = coverage_gap_finding-Gap label in
        rw failed (
          inr (
            failed_fields r (λ e. (let apart : none ≡ some reason = sym e ∙ failed in cc)),
            record (coverage_gap_finding label) { severity = Severity.blocking },
            _,
            refl,
            (refl, named, mentioned),
            build_reviewers rs,
          ))
  ]
