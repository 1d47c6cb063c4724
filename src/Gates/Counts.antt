-- ===== src/Gates/Counts.antt =====
-- `compute_persisted_finding_counts` of argus/helpers.py: coverage gaps are not counted.
use argus_review.Prelude.{
  String, All, Bool-cases, inl, inr, ℕ, ◌+◌, ◌≡◌, refl, ap, ◌∙◌, Bool, true, false, not, ◌&&◌, List,
  [], ◌∷◌, ◌++◌, zero, suc, length, arith, ◌==◌, ltb, Option, if◌then◌else◌,
}
use argus_review.Models.{Finding, ReviewResponse}
use argus_review.Pipeline.{SystemReviewResult}
use argus_review.Gates.{
  is_blocking_finding, promote, surface_labels, apply_reviewer_failure_gate, scanner_finding,
  apply_precheck_scanner_failure_gate, apply_precheck_gate_and_surface_degraded_coverage,
}
use argus_review.Gates.BenchConfig.{apply_bench_config_change_gate, Added, bench_gate-Added}
use argus_review.Gates.Labels.{
  Label, ScannerState, build_degraded_coverage_findings, coverage_gap_findings_for_round,
  reviewer_only_labels, failed_reviewer_labels, build_degraded_coverage_labels,
}

abbrev counts_as : Bool → Finding → Bool
counts_as blocking f =
    (if blocking then is_blocking_finding f else not (is_blocking_finding f))
    && not (f.category == "coverage-gap")

count_if : Bool → List Finding → ℕ
count_if blocking [] = 0
count_if blocking (f ∷ fs) = (if counts_as blocking f then 1 else 0) + count_if blocking fs

-- The BLOCKING and the SUGGESTION count.
pub compute_persisted_finding_counts : List Finding → ℕ × ℕ
unfolding count_if
compute_persisted_finding_counts findings = (count_if true findings, count_if false findings)

count_if-append :
    (b : Bool) (xs ys : List Finding) → count_if b (xs ++ ys) ≡ count_if b xs + count_if b ys
unfolding count_if
count_if-append b [] ys = omega arith
count_if-append b (x ∷ xs) ys = omega (arith, count_if-append b xs ys)

abbrev IsGap : Finding → Type 0
IsGap f = (f.category == "coverage-gap") ≡ true

count_if_gaps : (b : Bool) (fs : List Finding) → All IsGap fs → count_if b fs ≡ 0
unfolding count_if
count_if_gaps b [] h = refl
count_if_gaps true (f ∷ fs) h = ground (arith, count_if_gaps true fs h.1)
count_if_gaps false (f ∷ fs) h = ground (arith, count_if_gaps false fs h.1)

build-IsGap : (labels : List Label) → All IsGap (build_degraded_coverage_findings labels)
unfolding build_degraded_coverage_findings
build-IsGap [] = tt
build-IsGap (l ∷ ls) = (refl, build-IsGap ls)

promote-IsGap : (n : ℕ) (fs : List Finding) → All IsGap fs → All IsGap (promote 0 n fs)
unfolding promote
promote-IsGap zero fs h = h
promote-IsGap (suc n) [] h = tt
promote-IsGap (suc n) (f ∷ fs) h = (h.0, promote-IsGap n fs h.1)

pub promote-append :
    (n : ℕ) (xs ys : List Finding) → promote (length xs) n (xs ++ ys) ≡ xs ++ promote 0 n ys
unfolding promote
promote-append zero [] ys = refl
promote-append zero (x ∷ xs) ys = refl
promote-append (suc n) [] ys = refl
promote-append (suc n) (x ∷ xs) ys = ap (λ t. x ∷ t) (promote-append (suc n) xs ys)

count_if-surfaced :
    (b : Bool) (canon : String → Bool) (r : ReviewResponse) (results : List SystemReviewResult)
    (labels : List Label) (gate : Bool)
    → count_if b (surface_labels canon r results labels gate).findings ≡ count_if b r.findings
unfolding surface_labels apply_reviewer_failure_gate coverage_gap_findings_for_round
count_if-surfaced b canon r results labels gate =
    let shown = if gate then reviewer_only_labels labels else labels in
    let gaps = build_degraded_coverage_findings shown in
    let failures = length (failed_reviewer_labels canon results) in
    elim (Bool-cases (ltb 0 failures)) [
      | inl some_failed ↦
          rw (some_failed, promote-append)
            (omega (
              arith,
              count_if-append b r.findings (promote 0 failures gaps),
              count_if_gaps b (promote 0 failures gaps)
                  (promote-IsGap failures gaps (build-IsGap shown)),
            ))
      | inr none_failed ↦ rw none_failed (
          omega
            (arith, count_if-append b r.findings gaps, count_if_gaps b gaps (build-IsGap shown)))
    ]

scanner_gate_count :
    (b : Bool) (r : ReviewResponse) (failures : List String) (block : Bool)
    → let out = apply_precheck_scanner_failure_gate r failures block in
      count_if b out.0.findings ≡ count_if b r.findings + (if b && out.1 then 1 else 0)
unfolding apply_precheck_scanner_failure_gate count_if scanner_finding
scanner_gate_count true r failures block =
    ground (arith, count_if-append true r.findings (scanner_finding failures ∷ []))
scanner_gate_count false r failures block =
    ground (arith, count_if-append false r.findings (scanner_finding failures ∷ []))

one_more_count :
    (b : Bool) (r : ReviewResponse) (out : ReviewResponse × Bool)
    → Added r out
    → count_if b out.0.findings ≡ count_if b r.findings + (if b && out.1 then 1 else 0)
unfolding count_if
one_more_count b r (out, acted) (inr (idle, same)) = rw (idle, same) (ground arith)
one_more_count true r (out, acted) (inl (acts, f, severe, named, is)) =
    rw (acts, is, count_if-append true r.findings (f ∷ []), severe, named) (omega arith)
one_more_count false r (out, acted) (inl (acts, f, severe, named, is)) =
    rw (is, count_if-append false r.findings (f ∷ []), severe) (omega arith)

bench_gate_count :
    (b : Bool) (r : ReviewResponse) (changes : List String) (unconfirmed : Option String)
    → let out = apply_bench_config_change_gate r changes unconfirmed in
      count_if b out.0.findings ≡ count_if b r.findings + (if b && out.1 then 1 else 0)
bench_gate_count b r changes unconfirmed =
    one_more_count b r (apply_bench_config_change_gate r changes unconfirmed)
      (bench_gate-Added r changes unconfirmed)

after_precheck :
    (b : Bool) (canon : String → Bool) (r : ReviewResponse) (results : List SystemReviewResult)
    (scanners : ScannerState) (block : Bool)
    → let out = apply_precheck_gate_and_surface_degraded_coverage canon r results scanners block in
      count_if b out.0.findings ≡ count_if b r.findings + (if b && out.1.0 then 1 else 0)
unfolding apply_precheck_gate_and_surface_degraded_coverage
after_precheck b canon r results scanners block =
    let failures = scanners.failed ++ scanners.missing in
    let (gated, gate) = apply_precheck_scanner_failure_gate r failures block in
    let labels = build_degraded_coverage_labels canon results scanners in
    ground (
      arith,
      scanner_gate_count b r failures block,
      count_if-surfaced b canon gated results labels gate,
    )

after_both :
    (b : Bool) (canon : String → Bool) (r : ReviewResponse) (results : List SystemReviewResult)
    (scanners : ScannerState) (block : Bool) (changes : List String) (unconfirmed : Option String)
    → let out = apply_precheck_gate_and_surface_degraded_coverage canon r results scanners block in
      let final = apply_bench_config_change_gate out.0 changes unconfirmed in
      count_if b final.0.findings
      ≡ count_if b r.findings + (if b && out.1.0 then 1 else 0) + (if b && final.1 then 1 else 0)
after_both b canon r results scanners block changes unconfirmed =
    let out = apply_precheck_gate_and_surface_degraded_coverage canon r results scanners block in
    let acted = (apply_bench_config_change_gate out.0 changes unconfirmed).1 in
    bench_gate_count b out.0 changes unconfirmed
    ∙ ap (λ n. n + (if b && acted then 1 else 0)) (after_precheck b canon r results scanners block)

-- The counts that are stored do not depend on degraded coverage: of all the gates between the writer
-- and the counting, the scanner gate and the gate for the bench configuration add one BLOCKING
-- finding each to the counts, where they act, and nothing else changes them.
pub counts_after_gates :
    (canon : String → Bool) (r : ReviewResponse) (results : List SystemReviewResult)
    (scanners : ScannerState) (block : Bool) (changes : List String) (unconfirmed : Option String)
    → let out = apply_precheck_gate_and_surface_degraded_coverage canon r results scanners block in
      let final = apply_bench_config_change_gate out.0 changes unconfirmed in
      let before = compute_persisted_finding_counts r.findings in
      compute_persisted_finding_counts final.0.findings
      ≡ (before.0 + (if out.1.0 then 1 else 0) + (if final.1 then 1 else 0), before.1)
unfolding compute_persisted_finding_counts
counts_after_gates canon r results scanners block changes unconfirmed =
    let many = after_both true canon r results scanners block changes unconfirmed in
    let few = after_both false canon r results scanners block changes unconfirmed in
    pair many (few ∙ omega arith)
  where
    pair : {a b c d : ℕ} → a ≡ c → b ≡ d → Path (ℕ × ℕ) (a, b) (c, d)
    pair p q = rw (p, q) refl
