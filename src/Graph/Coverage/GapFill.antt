-- ===== src/Graph/Coverage/GapFill.antt =====
-- What follows a coverage answer: the writer, a bounded set of gap reviewers, or a halt.
use argus_review.Prelude.{
  ℕ, suc, ◌+◌, ◌≤◌, ◌<◌, String, ◌≡◌, refl, ap, ◌⊎◌, inl, inr, true, false, not, ◌||◌, ◌&&◌, none,
  some, List, [], ◌∷◌, length, keep, is_empty, ltb, ltb→lt, arith, Bool-cases,
}
use argus_review.Prelude.Result.{Result, ok}
use argus_review.Pipeline.{ReviewPlan, SystemReviewResult, CoverageGap, CoverageResult}
use argus_review.Graph.{ReviewState, halt_update}
use argus_review.Graph.ScopeGate.Outcome.{Halted, halt_update-Halted}
use argus_review.Graph.Dispatch.{end, node, send, ReviewerInput, has_completed, max_reviewer_fanout}
use argus_review.Graph.Coverage.{
  with_coverage, node_check_coverage, edge_coverage_decision, gap_sends, edge_fan_out_gap_fills,
}

-- The files of the groups that are sent, in order.
pub sent_files : List ReviewerInput → List (List String)
sent_files [] = []
sent_files (r ∷ rs) = elim r.group [ none ↦ sent_files rs | some g ↦ g.files ∷ sent_files rs ]

pub gap_files : List CoverageGap → List (List String)
gap_files [] = []
gap_files (gap ∷ gaps) = gap.files ∷ gap_files gaps

length-gap_sends :
    (diff : String) (i : ℕ) (gaps : List CoverageGap) → length (gap_sends diff i gaps) ≡ length gaps
length-gap_sends diff i [] = refl
length-gap_sends diff i (gap ∷ gaps) = ap suc (length-gap_sends diff (i + 1) gaps)

sent_files-gap_sends :
    (diff : String) (i : ℕ) (gaps : List CoverageGap)
    → sent_files (gap_sends diff i gaps) ≡ gap_files gaps
unfolding sent_files gap_files
sent_files-gap_sends diff i [] = refl
sent_files-gap_sends diff i (gap ∷ gaps) =
    ap (λ fs. gap.files ∷ fs) (sent_files-gap_sends diff (i + 1) gaps)

-- The writer is next: the answer says covered, or names no gap.
pub record Written (coverage : CoverageResult) (out : ReviewState) : Type 0 where
  pub nothing_to_fill : (coverage.is_covered || is_empty coverage.gaps) ≡ true
  pub edge : edge_coverage_decision out ≡ ok (node "write_review")

-- One reviewer per gap, for exactly its files, and between one and fifty of them.
pub record Filled (coverage : CoverageResult) (out : ReviewState) : Type 0 where
  pub uncovered : coverage.is_covered ≡ false
  pub edge : edge_coverage_decision out ≡ ok (node "fill_gaps")
  pub sends : List ReviewerInput
  pub fan_out : edge_fan_out_gap_fills out ≡ ok (send sends)
  pub some_gap : 1 ≤ length sends
  pub ceiling : length sends ≤ max_reviewer_fanout
  pub every_gap : sent_files sends ≡ gap_files coverage.gaps

-- An uncovered answer with more gaps than the ceiling: the run ends.
pub record Capped (coverage : CoverageResult) (state out : ReviewState) : Type 0 where
  pub uncovered : coverage.is_covered ≡ false
  pub too_many : max_reviewer_fanout < length coverage.gaps
  pub halted : Halted state out
  pub edge : edge_coverage_decision out ≡ ok end

some_length {ℓ} : {A : Type ℓ} (xs : List A) → is_empty xs ≡ false → 1 ≤ length xs
some_length [] h = cc
some_length (x ∷ xs) h = omega arith

next_step :
    (state : ReviewState) (coverage : CoverageResult)
    → state.response ≡ none
    → Capped coverage state (with_coverage state coverage)
      ⊎ (Filled coverage (with_coverage state coverage)
          ⊎ Written coverage (with_coverage state coverage))
unfolding with_coverage edge_coverage_decision edge_fan_out_gap_fills
next_step state coverage fresh =
    elim (Bool-cases (not coverage.is_covered && ltb max_reviewer_fanout (length coverage.gaps))) [
      | inl many ↦ inl (
          rw many (record {
            uncovered = ground arith;
            too_many = ltb→lt _ _ (ground arith);
            halted =
                let h = halt_update-Halted (record state { coverage = some coverage }) _ _ _ _ in
                record {
                  response = h.response;
                  ends = h.ends;
                  halt = h.halt;
                  no_receipt = h.no_receipt;
                };
            edge = unfold halt_update in refl;
          }))
      | inr few ↦ elim (Bool-cases (coverage.is_covered || is_empty coverage.gaps)) [
        | inl done ↦
            inr (inr (rw few (record { nothing_to_fill = done; edge = rw fresh (ground arith) })))
        | inr open_gaps ↦
            let uncovered : coverage.is_covered ≡ false = ground arith in
            let nonempty : is_empty coverage.gaps ≡ false = ground arith in
            inr (
              inl (
                rw few (record {
                  uncovered = uncovered;
                  edge = rw (fresh, uncovered, nonempty) refl;
                  sends = gap_sends state.diff 1 coverage.gaps;
                  fan_out = refl;
                  some_gap = omega (
                    arith,
                    length-gap_sends state.diff 1 coverage.gaps,
                    some_length coverage.gaps nonempty,
                  );
                  ceiling = ground (arith, length-gap_sends state.diff 1 coverage.gaps);
                  every_gap = sent_files-gap_sends state.diff 1 coverage.gaps;
                })))
      ]
    ]

module _
    (check_coverage : ReviewPlan → List SystemReviewResult → Result String CoverageResult) where
  -- In a run with a plan and no response, whatever the coverage check answers about the sessions
  -- that completed: an answer that says uncovered and has more than 50 gaps halts the run; one that
  -- says uncovered and has 1 to 50 gaps sends one reviewer per gap, with the gaps' files in their
  -- order; an answer that says covered, or has no gap, goes to the writer.
  pub node_check_coverage_outcome :
      (state : ReviewState) (plan : ReviewPlan) (coverage : CoverageResult)
      → state.response ≡ none
      → state.plan ≡ some plan
      → check_coverage plan (keep has_completed state.findings) ≡ ok coverage
      → (out : ReviewState) × (node_check_coverage check_coverage state ≡ ok out)
        × (Capped coverage state out ⊎ (Filled coverage out ⊎ Written coverage out))
  unfolding node_check_coverage
  node_check_coverage_outcome state plan coverage fresh planned answered =
      (with_coverage state coverage, rw (planned, answered) refl, next_step state coverage fresh)
