-- ===== src/Graph/Coverage.antt =====
-- `_node_check_coverage`, `_edge_coverage_decision` and `_edge_fan_out_gap_fills` of argus/graph.py:
-- the gaps that the reviewers left, and the reviewers that fill them.
pub mod GapFill
pub mod Check
pub mod Seen
use Prim.Native.String.{◌++◌ as ◌+++◌}
use argus_review.Prelude.{
  ℕ, ◌+◌, String, Bool, true, false, not, ◌&&◌, Option, none, some, List, [], ◌∷◌, length, keep,
  is_empty, ltb, if◌then◌else◌,
}
use argus_review.Prelude.Result.{Result, ok, err, ◌>>=◌}
use argus_review.Prelude.Text.{show}
use argus_review.Models.{HaltCode}
use argus_review.Pipeline.{ReviewPlan, SystemGroup, SystemReviewResult, CoverageGap, CoverageResult}
use argus_review.Graph.{ReviewState, halt_update}
use argus_review.Graph.Dispatch.{
  Route, end, node, send, ReviewerInput, has_completed, max_reviewer_fanout,
}

-- The answer of `check_coverage` joins the state; more gaps than the ceiling halt the run.
unfoldable pub with_coverage : ReviewState → CoverageResult → ReviewState
with_coverage state coverage =
    let covered : ReviewState = record state { coverage = some coverage } in
    let gaps = length coverage.gaps in
    if not coverage.is_covered && ltb max_reviewer_fanout gaps
    then halt_update covered HaltCode.gap_fill_cap_exceeded
        (show gaps
          +++ " coverage gaps need gap-fill reviewers (hard ceiling "
          +++ show max_reviewer_fanout
          +++ ")")
        [] (record { dispatch_count = some gaps; dispatch_budget = some max_reviewer_fanout })
    else covered

-- The coverage check may ask a model, and may raise. It never sees the marker of a failed session.
module _
    (check_coverage : ReviewPlan → List SystemReviewResult → Result String CoverageResult) where
  unfoldable pub node_check_coverage : ReviewState → Result String ReviewState
  node_check_coverage state = elim state.plan [
    | none ↦ err "ReviewPlan: field required"
    | some plan ↦
        (check_coverage plan (keep has_completed state.findings)
          >>= (λ coverage. ok (with_coverage state coverage)))
  ]

unfoldable pub edge_coverage_decision : ReviewState → Result String Route
edge_coverage_decision state = elim state.response [
  | some response ↦ ok end
  | none ↦ elim state.coverage [
    | none ↦ err "CoverageResult: field required"
    | some coverage ↦
        if coverage.is_covered
        then ok (node "write_review")
        else if is_empty coverage.gaps
        then ok (node "write_review")
        else ok (node "fill_gaps")
  ]
]

abbrev pub gap_group : ℕ → CoverageGap → SystemGroup
gap_group i gap = record {
  name = "gap-fill-" +++ show i;
  files = gap.files;
  conventions = "";
  review_focus = "Targeted review for uncovered files. Reason: " +++ gap.reason;
  specialists_needed = [];
}

-- One system reviewer per gap, numbered from `i`.
abbrev pub gap_sends : String → ℕ → List CoverageGap → List ReviewerInput
gap_sends diff i [] = []
gap_sends diff i (gap ∷ gaps) =
    record {
      reviewer_type = "system";
      group = some (gap_group i gap);
      specialist = none;
      diff = diff;
      plan = none;
    }
    ∷ gap_sends diff (i + 1) gaps

unfoldable pub edge_fan_out_gap_fills : ReviewState → Result String Route
edge_fan_out_gap_fills state = elim state.coverage [
  | none ↦ err "CoverageResult: field required"
  | some coverage ↦ ok (send (gap_sends state.diff 1 coverage.gaps))
]
