-- ===== src/Graph/Dispatch/Bounds.antt =====
-- The number of reviewers that one round dispatches.
use argus_review.Prelude.{
  ℕ, suc, ◌≤◌, ◌<◌, String, ◌≡◌, refl, ap, ◌⊎◌, inl, inr, true, false, none, some, List, [], ◌∷◌,
  length, length-append, leb, ltb, ltb→lt, arith, Bool-cases,
}
use argus_review.Prelude.Result.{Result, ok}
use argus_review.Models.{ScopeReceipt}
use argus_review.Pipeline.{ReviewPlan, SystemGroup, SpecialistName}
use argus_review.Scope.{dispatch_count, group_reviewers, is_set}
use argus_review.Graph.{ReviewState, Config, halt_update, override_reason}
use argus_review.Graph.ScopeGate.Outcome.{Halted, halt_update-Halted}
use argus_review.Graph.Dispatch.{
  max_reviewer_fanout, end, send, ReviewerInput, over_budget, with_override, planned, node_plan,
  specialist_sends, group_sends, always_on, reviewer_sends, edge_fan_out_reviewers,
}

length-specialist_sends :
    (diff : String) (g : SystemGroup) (ss : List SpecialistName)
    → length (specialist_sends diff g ss) ≡ length ss
length-specialist_sends diff g [] = refl
length-specialist_sends diff g (s ∷ ss) = ap suc (length-specialist_sends diff g ss)

length-group_sends :
    (diff : String) (gs : List SystemGroup) → length (group_sends diff gs) ≡ group_reviewers gs
length-group_sends diff [] = refl
length-group_sends diff (g ∷ gs) = ground (
  arith,
  length-append (specialist_sends diff g g.specialists_needed) (group_sends diff gs),
  length-specialist_sends diff g g.specialists_needed,
  length-group_sends diff gs,
)

length-reviewer_sends :
    (diff : String) (plan : ReviewPlan) → length (reviewer_sends diff plan) ≡ dispatch_count plan
unfolding dispatch_count
length-reviewer_sends diff plan = ground (
  arith,
  length-append (group_sends diff plan.system_groups)
      (always_on diff plan "cross_cutting" ∷ always_on diff plan "tests_and_docs" ∷ []),
  length-group_sends diff plan.system_groups,
)

-- The run dispatches as many reviewers as the plan was counted for.
pub record Dispatched (budget : ℕ) (state : ReviewState) (config : Config) (plan : ReviewPlan)
    (out : ReviewState) : Type 0 where
  pub sends : List ReviewerInput
  pub edge : edge_fan_out_reviewers out ≡ ok (send sends)
  pub count : length sends ≡ dispatch_count plan
  pub ceiling : length sends ≤ max_reviewer_fanout
  pub allowed :
      (length sends ≤ budget)
      ⊎ ((is_set (override_reason state config) ≡ true)
          × (r : ScopeReceipt) × (out.scope ≡ some r)
          × (r.override_reason ≡ override_reason state config))

edge-Dispatched :
    (budget : ℕ) (state : ReviewState) (config : Config) (plan : ReviewPlan) (out : ReviewState)
    → out.response ≡ none
    → out.plan ≡ some plan
    → dispatch_count plan ≤ max_reviewer_fanout
    → (dispatch_count plan ≤ budget)
      ⊎ ((is_set (override_reason state config) ≡ true)
          × (r : ScopeReceipt) × (out.scope ≡ some r)
          × (r.override_reason ≡ override_reason state config))
    → Dispatched budget state config plan out
unfolding edge_fan_out_reviewers
edge-Dispatched budget state config plan out fresh stored ceiling allowed =
    let counted = length-reviewer_sends out.diff plan in
    record {
      sends = reviewer_sends out.diff plan;
      edge = rw (fresh, stored);
      count = counted;
      ceiling = omega (arith, counted, ceiling);
      allowed = elim allowed [ inl small ↦ inl (omega (arith, counted, small)) | inr o ↦ inr o ];
    }

-- Over the budget without an override, or over the ceiling: the run ends here.
pub record Refused (budget : ℕ) (state : ReviewState) (config : Config) (plan : ReviewPlan)
    (out : ReviewState) : Type 0 where
  pub over : budget < dispatch_count plan
  pub not_allowed :
      (max_reviewer_fanout < dispatch_count plan) ⊎ (is_set (override_reason state config) ≡ false)
  pub halted : Halted state out
  pub edge : edge_fan_out_reviewers out ≡ ok end

module _ (budget : ℕ) (plan_review : String → String → Result String ReviewPlan) where
  -- In a run with a receipt and no response, with a planner that answers and a budget of at most
  -- 50, the plan either ends the run in a halt (it is over the budget, and over 50 or without a
  -- pinned override) and no reviewer is sent, or it dispatches exactly the counted reviewers: at
  -- most 50, and at most the budget unless the pinned override stands, which the receipt records.
  pub node_plan_outcome :
      (state : ReviewState) (config : Config) (plan : ReviewPlan) (receipt : ScopeReceipt)
      → budget ≤ 50
      → state.response ≡ none
      → state.scope ≡ some receipt
      → plan_review state.diff state.description ≡ ok plan
      → (out : ReviewState) × (node_plan budget plan_review state config ≡ ok out)
        × (Refused budget state config plan out ⊎ Dispatched budget state config plan out)
  unfolding node_plan planned
  node_plan_outcome state config plan receipt small fresh scoped answered =
      let count = dispatch_count plan in
      elim (Bool-cases (ltb budget count)) [
        | inr within ↦
            let le : count ≤ budget = ground arith in
            (
              record state { plan = some plan },
              rw (answered, within),
              inr (edge-Dispatched budget state config plan _ fresh refl (omega arith) (inl le)),
            )
        | inl over ↦ elim (Bool-cases (leb count max_reviewer_fanout)) [
          | inr above ↦ (
            over_budget budget state count,
            rw (answered, over, above) refl,
            inl (refuse over (inl (ground arith))),
          )
          | inl below ↦ elim (Bool-cases (is_set (override_reason state config))) [
            | inr unset ↦ (
              over_budget budget state count,
              rw (answered, over, below, unset) refl,
              inl (refuse over (inr unset)),
            )
            | inl set ↦ (
              record state {
                plan = some plan;
                scope = some (record receipt { override_reason = override_reason state config });
              },
              unfold with_override in rw (answered, over, below, set, scoped) refl,
              inr (
                  edge-Dispatched budget state config plan _ fresh refl (ground arith)
                    (inr (set, _, refl, refl))),
            )
          ]
        ]
      ]
    where
      refuse :
          ltb budget (dispatch_count plan) ≡ true
          → (max_reviewer_fanout < dispatch_count plan)
            ⊎ (is_set (override_reason state config) ≡ false)
          → Refused budget state config plan (over_budget budget state (dispatch_count plan))
      refuse over why = record {
        over = ltb→lt _ _ over;
        not_allowed = why;
        halted = unfold over_budget in halt_update-Halted state _ _ _ _;
        edge = unfold edge_fan_out_reviewers over_budget halt_update in refl;
      }
