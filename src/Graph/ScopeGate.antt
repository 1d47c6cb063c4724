-- ===== src/Graph/ScopeGate.antt =====
-- `_node_scope_gate` of argus/graph.py. GitHub's list of changed files and the model's assessment
-- are parameters: either may raise.
pub mod Manifest
pub mod Outcome
use Prim.Native.String.{◌++◌ as ◌+++◌}
use argus_review.Prelude.{
  ℕ, ◌≤◌, ◌<◌, String, ◌≡◌, ◌≢◌, refl, sym, ◌∙◌, ◌⊎◌, inl, inr, Bool, true, false, not, ◌&&◌, ◌||◌,
  Option, none, some, List, [], ◌∷◌, map, length, is_empty, ltb, arith, ◌==◌, if◌then◌else◌,
  Bool-cases, Option-cases,
}
use argus_review.Prelude.Result.{Result, ok, err, ◌>>=◌, ◌>>◌, reject}
use argus_review.Prelude.Text.{strip, str_empty, str_take, show}
use argus_review.Prelude.Names.{dedup}
use argus_review.Models.{ReviewResponse, ScopeReceipt, ScopeBehavior, HaltCode, Verdict, RiskLevel}
use argus_review.Scope.{
  ScopeAssessment, validate_assessment, is_set, require_receipt, halt_response,
}
use argus_review.Scope.Input.{ChangedFile, build_scope_input}
use argus_review.Scope.Override.{is_sha40}
use argus_review.Graph.{ReviewState, Config, halt_update, no_counts, override_reason}

-- An exception: `ScopeUnverified` with its message, or any other with its class name.
pub data Raised : Type 0 where
  scope_unverified : String → Raised
  other : String → Raised

abbrev unverified : {A : Type 0} → Result String A → Result Raised A
unverified r = elim r [ ok a ↦ ok a | err message ↦ err (scope_unverified message) ]

abbrev pub detail_of : Raised → String
detail_of (scope_unverified message) = message
detail_of (other name) = "scope check failed (" +++ name +++ ")"

pub filenames : List ChangedFile → List String
filenames [] = []
filenames (f ∷ fs) = f.filename ∷ filenames fs

pinned_base : Option String → Result Raised String
pinned_base none = err (scope_unverified "could not pin the PR merge base")
pinned_base (some sha) =
    if not (str_empty sha) && is_sha40 sha
    then ok sha
    else err (scope_unverified "could not pin the PR merge base")

whole_listing : List ChangedFile × Bool → Result Raised (List ChangedFile)
whole_listing (files, true) =
    err (scope_unverified "GitHub file list hit the 300-file cap; PR scope cannot be verified")
whole_listing (files, false) = ok files

validated : String → List String → ScopeAssessment → Result Raised (String × ScopeAssessment)
validated base manifest assessment =
    unverified (validate_assessment assessment manifest) >> ok (base, assessment)

decide : ReviewState → Config → String → ScopeAssessment → ReviewState
decide state config base assessment =
    let count = length assessment.behaviors in
    let override = if ltb 1 count then override_reason state config else none in
    if ltb 1 count && not (is_set override)
    then halt_update state HaltCode.scope_split
        ("PR contains "
          +++ show count
          +++ " independently mergeable behaviors; split it into separate PRs")
        assessment.behaviors no_counts
    else record state {
      scope = some (record {
        base_sha = base;
        head_sha = state.head_sha;
        behaviors = assessment.behaviors;
        rationale = str_take 1000 assessment.rationale;
        override_reason = override;
      });
    }

after_check : ReviewState → Config → Result Raised (String × ScopeAssessment) → ReviewState
after_check state config (ok (base, assessment)) = decide state config base assessment
after_check state config (err raised) =
    halt_update state HaltCode.scope_unverified (detail_of raised) [] no_counts

pub fetch_scope_manifest :
    (String → String → String → Result Raised (List ChangedFile × Bool))
    → String
    → String
    → String
    → Result Raised (List ChangedFile)
fetch_scope_manifest compare_files repo base_sha head_sha =
    compare_files repo base_sha head_sha >>= whole_listing

-- The model is asked only about a non-empty manifest.
module _ (assess : String → Result Raised ScopeAssessment) where
  assess_files : List ChangedFile → List String → String → Result Raised ScopeAssessment
  assess_files files manifest description =
      if is_empty manifest
      then ok (record { indeterminate = false; behaviors = []; rationale = "empty PR" })
      else do payload ← unverified (build_scope_input files description); assess payload

  check_files : ReviewState → String → List ChangedFile → Result Raised (String × ScopeAssessment)
  check_files state base files =
      let manifest = dedup (filenames files) in
      reject (is_empty manifest && not (str_empty (strip state.diff)))
        (scope_unverified "GitHub returned no changed files for a non-empty diff")
      >> (assess_files files manifest state.description >>= validated base manifest)

module _ (compare_files : String → String → String → Result Raised (List ChangedFile × Bool))
    (assess : String → Result Raised ScopeAssessment) where
  -- The body of the `try`: the pinned base and an assessment that has been validated.
  checked_scope : ReviewState → Result Raised (String × ScopeAssessment)
  checked_scope state = do
    base ← pinned_base state.scope_base_sha
    files ← fetch_scope_manifest compare_files state.request.repo base state.head_sha
    check_files assess state base files

  pub node_scope_gate : ReviewState → Config → ReviewState
  unfolding after_check decide
  node_scope_gate state config = after_check state config (checked_scope state)
