-- ===== src/Scope/Order.antt =====
-- `TopologicalSorter(graph).prepare()` as `validate_assessment` of argus/scope.py calls it: the
-- standard library's sorter raises `CycleError` exactly if the dependencies have a cycle.
pub mod Laws
pub mod Ready
use argus_review.Prelude.{
  ℕ, zero, suc, String, Bool, true, false, Option, none, some, List, [], ◌∷◌, length, if◌then◌else◌,
}
use argus_review.Prelude.Names.{subset}
use argus_review.Models.{ScopeBehavior}

abbrev push_back :
    ScopeBehavior
    → Option (ScopeBehavior × List ScopeBehavior)
    → Option (ScopeBehavior × List ScopeBehavior)
push_back b none = none
push_back b (some (r, rest)) = some (r, b ∷ rest)

-- The first pending behavior whose dependencies are all done, and the others.
pub take_ready : List String → List ScopeBehavior → Option (ScopeBehavior × List ScopeBehavior)
take_ready done [] = none
take_ready done (b ∷ bs) =
    let later = take_ready done bs in
    if subset b.depends_on done then some (b, bs) else push_back b later

-- One behavior is done in each round; `none` means that all pending ones wait for another.
merge_order : ℕ → List String → List ScopeBehavior → Option (List String)
merge_order fuel done [] = some done
merge_order zero done (b ∷ bs) = none
merge_order (suc fuel) done (b ∷ bs) = elim (take_ready done (b ∷ bs)) [
  | none ↦ none
  | some (r, rest) ↦ merge_order fuel (r.title ∷ done) rest
]

abbrev is_found : Option (List String) → Bool
is_found none = false
is_found (some order) = true

-- The sorter accepts the graph; each round takes one of the pending behaviors.
unfoldable pub prepare : List ScopeBehavior → Bool
unfolding take_ready merge_order
prepare behaviors = is_found (merge_order (length behaviors) [] behaviors)
