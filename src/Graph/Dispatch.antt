-- ===== src/Graph/Dispatch.antt =====
-- `_node_plan`, `_edge_fan_out_reviewers` and `_node_collect_findings` of argus/graph.py: the plan,
-- its budget and the dispatch of the reviewers. A validation that raises is an `err`.
pub mod Bounds
use Prim.Native.String.{◌++◌ as ◌+++◌}
use argus_review.Prelude.{
  ℕ, String, Bool, true, false, not, ◌||◌, Option, none, some, List, [], ◌∷◌, ◌++◌, keep, is_empty,
  leb, ltb, if◌then◌else◌,
}
use argus_review.Prelude.Result.{Result, ok, err, ◌>>=◌, reject}
use argus_review.Prelude.Text.{show}
use argus_review.Models.{HaltCode, ScopeReceipt}
use argus_review.Pipeline.{ReviewPlan, SystemGroup, SpecialistName, SystemReviewResult}
use argus_review.Scope.{dispatch_count, is_set}
use argus_review.Graph.{ReviewState, Config, halt_update, override_reason}

abbrev pub max_reviewer_fanout : ℕ
max_reviewer_fanout = 50

-- An empty group, specialist or plan is `none`.
pub record ReviewerInput : Type 0 where
  pub reviewer_type : String
  pub group : Option SystemGroup
  pub specialist : Option SpecialistName
  pub diff : String
  pub plan : Option ReviewPlan

-- What an edge answers: the end of the run, a node, or one input per parallel reviewer.
pub data Route : Type 0 where
  end : Route
  node : String → Route
  send : List ReviewerInput → Route

unfoldable pub with_override :
    Option ScopeReceipt → Option String → Result String (Option ScopeReceipt)
with_override (some scope) reason = ok (some (record scope { override_reason = reason }))
with_override none reason = err "ScopeReceipt: field required"

-- The dispatch budget is a setting, between 3 and 50; the planner may raise.
module _ (budget : ℕ) where
  -- The halt of a plan that needs `count` reviewers.
  unfoldable pub over_budget : ReviewState → ℕ → ReviewState
  over_budget state count =
      halt_update state HaltCode.dispatch_budget_exceeded
        ("plan needs "
          +++ show count
          +++ " reviewers; budget is "
          +++ show budget
          +++ " (hard ceiling "
          +++ show max_reviewer_fanout
          +++ ")")
        [] (record { dispatch_count = some count; dispatch_budget = some budget })

module _ (budget : ℕ) (plan_review : String → String → Result String ReviewPlan) where
  unfoldable pub planned : ReviewState → Config → ReviewPlan → Result String ReviewState
  planned state config plan =
      let count = dispatch_count plan in
      let reason = if leb count max_reviewer_fanout then override_reason state config else none in
      if ltb budget count
      then if not (is_set reason)
        then ok (over_budget budget state count)
        else (with_override state.scope reason
            >>= (λ scope. ok (record state { plan = some plan; scope = scope })))
      else ok (record state { plan = some plan })

  unfoldable pub node_plan : ReviewState → Config → Result String ReviewState
  node_plan state config = plan_review state.diff state.description >>= planned state config

abbrev pub specialist_sends : String → SystemGroup → List SpecialistName → List ReviewerInput
specialist_sends diff group [] = []
specialist_sends diff group (s ∷ specialists) =
    record {
      reviewer_type = "specialist";
      group = some group;
      specialist = some s;
      diff = diff;
      plan = none;
    }
    ∷ specialist_sends diff group specialists

abbrev pub group_sends : String → List SystemGroup → List ReviewerInput
group_sends diff [] = []
group_sends diff (g ∷ groups) =
    record { reviewer_type = "system"; group = some g; specialist = none; diff = diff; plan = none }
      ∷ specialist_sends diff g g.specialists_needed
    ++ group_sends diff groups

abbrev pub always_on : String → ReviewPlan → String → ReviewerInput
always_on diff plan kind = record {
  reviewer_type = kind;
  group = none;
  specialist = none;
  diff = diff;
  plan = some plan;
}

abbrev pub reviewer_sends : String → ReviewPlan → List ReviewerInput
reviewer_sends diff plan =
    group_sends diff plan.system_groups
    ++ always_on diff plan "cross_cutting" ∷ always_on diff plan "tests_and_docs" ∷ []

-- The edge after the plan: nothing is dispatched once the run has a response.
unfoldable pub edge_fan_out_reviewers : ReviewState → Result String Route
edge_fan_out_reviewers state = elim state.response [
  | some response ↦ ok end
  | none ↦ elim state.plan [
    | none ↦ err "ReviewPlan: field required"
    | some plan ↦ ok (send (reviewer_sends state.diff plan))
  ]
]

abbrev pub has_completed : SystemReviewResult → Bool
has_completed r = elim r.failure_reason [ none ↦ true | some reason ↦ false ]

unfoldable pub node_collect_findings : ReviewState → Result String Unit
node_collect_findings state =
    reject (is_empty (keep has_completed state.findings))
      "All reviewers failed -- no findings collected"
