-- ===== src/Graph/Finish/Approval.antt =====
-- When a finished run approves, and what a halted run stores.
use argus_review.Prelude.{
  ◌≤◌, String, ◌≡◌, refl, sym, ap, ◌∙◌, ◌⊎◌, inl, inr, Bool, true, false, not, ◌&&◌, ◌||◌, Option,
  none, some, ◌++◌, is_empty, arith, Bool-cases,
}
use argus_review.Prelude.Result.{Result, ok, err}
use argus_review.Models.{ReviewResponse, ReviewHalt}
use argus_review.Scope.{is_set}
use argus_review.Gates.{is_blocking, risk_order, apply_precheck_gate_and_surface_degraded_coverage}
use argus_review.Gates.Strict.{any_failed, gates_strict}
use argus_review.Gates.BenchConfig.{apply_bench_config_change_gate_lem}
use argus_review.Graph.{ReviewState}
use argus_review.Graph.Finish.{
  CodeReviewRoundIn, scanners_of, reviewed_sha, or_empty, finalize_row, gated, needs_receipt,
  concluded, finish_from, finish,
}
use argus_review.Graph.Finish.Receipt.{Covered, require_receipt_cases}

-- The code's reasons to end BLOCKING, read off the writer's response and the final state.
unfoldable pub forced : Bool → ReviewState → ReviewResponse → Bool
forced block state response =
    is_blocking response.verdict
    || (block
        && not (is_empty (state.precheck_scanner_failures ++ state.precheck_missing_scanners)))
    || any_failed state.findings
    || not (is_empty state.bench_config_changes && not (is_set state.bench_config_unconfirmed))

gated_lem :
    (canon : String → Bool) (run : Option String) (block : Bool) (state : ReviewState)
    (r : ReviewResponse)
    → r.halt ≡ none
    → let out = gated canon run block state r in
      (is_blocking out.verdict ≡ forced block state r)
      × (risk_order r.risk_level ≤ risk_order out.risk_level)
      × (out.scope ≡ r.scope)
      × (out.halt ≡ r.halt)
unfolding gated forced
gated_lem canon run block state r fresh = rw fresh (
    let (surfaced, rest) =
      apply_precheck_gate_and_surface_degraded_coverage canon r state.findings (scanners_of state)
        block in
    ground (
      arith,
      gates_strict canon r state.findings (scanners_of state) block,
      apply_bench_config_change_gate_lem surfaced state.bench_config_changes
          state.bench_config_unconfirmed,
    ))

-- The run returns: its verdict is the forced one, an approval is covered by the receipt of the
-- state, and the stored row has the same verdict.
pub record Finished (block : Bool) (state : ReviewState) (r : ReviewResponse)
    (result : Result String (ReviewResponse × CodeReviewRoundIn)) : Type 0 where
  pub out : ReviewResponse
  pub row : CodeReviewRoundIn
  pub returned : result ≡ ok (out, row)
  pub verdict : is_blocking out.verdict ≡ forced block state r
  pub risk : risk_order r.risk_level ≤ risk_order out.risk_level
  pub covered : (forced block state r ≡ true) ⊎ Covered state.scope (or_empty (reviewed_sha state))
  pub receipt : out.scope ≡ state.scope
  pub stored : row.verdict ≡ some out.verdict

-- The run raises: nothing forces BLOCKING, and the receipt of the state does not cover the head.
pub record Refused (block : Bool) (state : ReviewState) (r : ReviewResponse)
    (result : Result String (ReviewResponse × CodeReviewRoundIn)) : Type 0 where
  pub message : String
  pub raised : result ≡ err message
  pub approving : forced block state r ≡ false
  pub uncovered : ¬ Covered state.scope (or_empty (reviewed_sha state))

row_verdict :
    (run : Option String) (state : ReviewState) (r : ReviewResponse)
    → r.halt ≡ none
    → (finalize_row run state r).verdict ≡ some r.verdict
unfolding finalize_row
row_verdict run state r fresh = rw fresh refl

needs_receipt_lem :
    (r out : ReviewResponse) → r.halt ≡ none → needs_receipt r out ≡ not (is_blocking out.verdict)
unfolding needs_receipt
needs_receipt_lem r out fresh = rw fresh refl

concluded_outcome :
    (canon : String → Bool) (run : Option String) (block : Bool) (state : ReviewState)
    (r : ReviewResponse)
    → r.halt ≡ none
    → r.scope ≡ state.scope
    → Finished block state r (concluded canon run block state r)
      ⊎ Refused block state r (concluded canon run block state r)
unfolding concluded
concluded_outcome canon run block state r fresh scoped =
    let out = gated canon run block state r in
    let (verdict, risk, same_scope, same_halt) = gated_lem canon run block state r fresh in
    let scope_eq : out.scope ≡ state.scope = same_scope ∙ scoped in
    let needs : needs_receipt r out ≡ not (is_blocking out.verdict) =
      needs_receipt_lem r out fresh in
    let row_eq = row_verdict run state out (same_halt ∙ fresh) in
    elim (Bool-cases (is_blocking out.verdict)) [
      | inl blocking ↦ inl (record {
        out = out;
        row = finalize_row run state out;
        returned = rw (needs ∙ ap not blocking) refl;
        verdict = verdict;
        risk = risk;
        covered = inl (sym verdict ∙ blocking);
        receipt = scope_eq;
        stored = row_eq;
      })
      | inr approving ↦ elim (require_receipt_cases state.scope (or_empty (reviewed_sha state))) [
        | inl (accepted, covered) ↦ inl (record {
          out = out;
          row = finalize_row run state out;
          returned = rw (needs ∙ ap not approving, scope_eq, accepted) refl;
          verdict = verdict;
          risk = risk;
          covered = inr covered;
          receipt = scope_eq;
          stored = row_eq;
        })
        | inr (message, refused, uncovered) ↦ inr (record {
          message = message;
          raised = rw (needs ∙ ap not approving, scope_eq, refused) refl;
          approving = sym verdict ∙ approving;
          uncovered = uncovered;
        })
      ]
    ]

-- A run whose response is not a halt either returns or raises. It returns BLOCKING exactly if the
-- response was BLOCKING, or scanner failures block and there is one, or a reviewer's session
-- failed, or the bench configuration is changed or unconfirmed; otherwise it returns APPROVE if the
-- receipt is pinned to the reviewed head and has one behavior at most or an override, and raises if
-- it is not. The risk is not lowered, and the row stores the returned verdict.
pub finish_outcome :
    (canon : String → Bool) (run : Option String) (block : Bool) (state : ReviewState)
    (r : ReviewResponse)
    → state.response ≡ some r
    → r.halt ≡ none
    → Finished block state r (finish canon run block state)
      ⊎ Refused block state r (finish canon run block state)
unfolding finish finish_from forced
finish_outcome canon run block state r stored fresh =
    let same : finish_from canon run block state state.response
        ≡ concluded canon run block state (record r { scope = state.scope }) =
      ap (finish_from canon run block state) stored in
    elim (concluded_outcome canon run block state (record r { scope = state.scope }) fresh refl) [
      | inl f ↦ inl (record {
        out = f.out;
        row = f.row;
        returned = same ∙ f.returned;
        verdict = f.verdict;
        risk = f.risk;
        covered = f.covered;
        receipt = f.receipt;
        stored = f.stored;
      })
      | inr f ↦ inr (record {
        message = f.message;
        raised = same ∙ f.raised;
        approving = f.approving;
        uncovered = f.uncovered;
      })
    ]

-- A run whose response is a halt always returns: the response is the halt's, with the receipt of
-- the state; no gate touches it, and the stored row has no verdict.
pub finish_halt :
    (canon : String → Bool) (run : Option String) (block : Bool) (state : ReviewState)
    (r : ReviewResponse) (halt : ReviewHalt)
    → state.response ≡ some r
    → r.halt ≡ some halt
    → (row : CodeReviewRoundIn) × (finish canon run block state
        ≡ ok (record r { scope = state.scope }, row))
      × (row.verdict ≡ none)
      × (row.sha ≡ reviewed_sha state)
unfolding finish finish_from needs_receipt concluded gated finalize_row
finish_halt canon run block state r halt stored halted =
    let out : ReviewResponse = record r { scope = state.scope } in
    (
      finalize_row run state out,
      ap (finish_from canon run block state) stored ∙ rw halted refl,
      rw halted refl,
      refl,
    )
