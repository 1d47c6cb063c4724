-- ===== src/Scope.antt =====
-- argus/scope.py: the checks of the scope gate, the receipt and the halt response.
-- A Python set is a list; `dedup` is `set(xs)`. `ScopeUnverified` is an `err` with its message.
pub mod Order
pub mod Partition
pub mod Checks
pub mod Input
pub mod Override
use Prim.Native.String.{◌++◌ as ◌+++◌}
use argus_review.Prelude.{
  ℕ, suc, ◌+◌, String, Bool, true, false, not, ◌||◌, ◌&&◌, Option, none, some, List, [], ◌∷◌, ◌++◌,
  map, length, take, any, is_empty, ltb, nat_eq, ◌==◌, if◌then◌else◌,
}
use argus_review.Prelude.Result.{Result, ok, err, reject, ◌>>=◌, ◌>>◌}
use Prim.Native.Char.{Char, code}
use argus_review.Prelude.Text.{strip, str_empty, str_take, join, show, is_space}
use argus_review.Prelude.Names.{mem, dedup, minus, subset}
use argus_review.Models.{
  ScopeBehavior, ScopeReceipt, ReviewHalt, ReviewResponse, HaltCode, Verdict, RiskLevel,
}
use argus_review.Pipeline.{ReviewPlan, SystemGroup}
use argus_review.Scope.Order.{prepare}

abbrev pub max_behaviors : ℕ
max_behaviors = 12

abbrev pub max_split_suggestions : ℕ
max_split_suggestions = 8

pub record ScopeAssessment : Type 0 where
  pub indeterminate : Bool
  pub behaviors : List ScopeBehavior
  pub rationale : String

abbrev pub titles_of : List ScopeBehavior → List String
titles_of [] = []
titles_of (b ∷ bs) = b.title ∷ titles_of bs

-- `[d for b in behaviors for d in b.depends_on]`
abbrev pub dependencies : List ScopeBehavior → List String
dependencies [] = []
dependencies (b ∷ bs) = b.depends_on ++ dependencies bs

-- `[f for b in behaviors for f in b.files]`
abbrev pub assigned_files : List ScopeBehavior → List String
assigned_files [] = []
assigned_files (b ∷ bs) = b.files ++ assigned_files bs

-- `t != t.strip() or not t`
abbrev pub untrimmed : String → Bool
untrimmed t = not (t == strip t) || str_empty t

-- The loop that builds the graph: no behavior depends on itself or on an unknown title.
abbrev pub bad_dependency : List String → ScopeBehavior → Bool
bad_dependency titles b =
    let deps = dedup b.depends_on in mem b.title deps || not (subset deps (dedup titles))

-- What follows the early return for an empty manifest.
pub check_partition : List ScopeBehavior → List String → Result String Unit
check_partition behaviors manifest =
    let titles = titles_of behaviors in
    let assigned = assigned_files behaviors in
    let unknown = minus (dedup assigned) manifest in
    let unassigned = minus manifest (dedup assigned) in
    do
      reject (is_empty behaviors) "scope model returned no behaviors for a non-empty PR"
      reject (ltb max_behaviors (length behaviors)) (
          "scope model returned "
          +++ show (length behaviors)
          +++ " behaviors (max "
          +++ show max_behaviors
          +++ ")")
      reject (any untrimmed (titles ++ dependencies behaviors))
          "behavior titles and dependencies must be non-empty and trimmed"
      reject (ltb (length (dedup titles)) (length titles)) "behavior titles must be unique"
      reject (any (λ b. is_empty b.files) behaviors) "a behavior has no files"
      reject (ltb (length (dedup assigned)) (length assigned))
          "a file is assigned to more than one behavior"
      reject (not (is_empty unknown))
          (show (length unknown) +++ " assigned file(s) are not in the PR manifest")
      reject (not (is_empty unassigned))
          (show (length unassigned) +++ " PR file(s) are not assigned to any behavior")
      reject (any (bad_dependency titles) behaviors)
          "behavior depends on itself or on an unknown behavior"
      reject (not (prepare behaviors)) "behavior dependencies are cyclic"

unfoldable pub validate_assessment : ScopeAssessment → List String → Result String Unit
unfolding check_partition
validate_assessment assessment manifest = do
  reject assessment.indeterminate "scope model could not decide (indeterminate)"
  if is_empty manifest
      then reject (not (is_empty assessment.behaviors))
          "scope model returned behaviors for an empty PR"
      else check_partition assessment.behaviors manifest

-- `sum(1 + len(g.specialists_needed) for g in groups)`
abbrev pub group_reviewers : List SystemGroup → ℕ
group_reviewers [] = 0
group_reviewers (g ∷ gs) = 1 + length g.specialists_needed + group_reviewers gs

unfoldable pub dispatch_count : ReviewPlan → ℕ
dispatch_count plan = group_reviewers plan.system_groups + 2

-- Python's truth of an optional text.
abbrev pub is_set : Option String → Bool
is_set none = false
is_set (some s) = not (str_empty s)

unfoldable pub require_receipt : Option ScopeReceipt → String → Result String Unit
require_receipt none head_sha =
    err "refusing APPROVE: scope receipt missing or not pinned to the head"
require_receipt (some scope) head_sha = do
  reject (not (scope.head_sha == head_sha))
      "refusing APPROVE: scope receipt missing or not pinned to the head"
  reject (ltb 1 (length scope.behaviors) && not (is_set scope.override_reason))
      "refusing APPROVE: multi-behavior scope without a human override"

abbrev pub code_text : HaltCode → String
code_text HaltCode.scope_split = "scope_split"
code_text HaltCode.scope_unverified = "scope_unverified"
code_text HaltCode.dispatch_budget_exceeded = "dispatch_budget_exceeded"
code_text HaltCode.gap_fill_cap_exceeded = "gap_fill_cap_exceeded"

-- `str.split()` of a text and `" ".join` of its words, in one pass: a word is preceded by one
-- space if another word stands before it.
join_words : Bool → Bool → String → String
join_words started gap String.[] = String.[]
join_words started gap (String.◌∷◌ c s) =
    let space = is_space (code c) in
    let rest = join_words (started || not space) space s in
    if space
    then rest
    else if started && gap
    then String.◌∷◌ " " (String.◌∷◌ c rest)
    else String.◌∷◌ c rest

-- `.replace("`", "'")`
quote_ticks : String → String
quote_ticks String.[] = String.[]
quote_ticks (String.◌∷◌ c s) =
    let rest = quote_ticks s in
    if nat_eq (code c) 96 then String.◌∷◌ "'" rest else String.◌∷◌ c rest

inline : String → String
unfolding join_words quote_ticks is_space
inline text = "`" +++ quote_ticks (str_take 80 (join_words false false text)) +++ "`"

split_line : ScopeBehavior → String
unfolding inline
split_line b =
    "- "
    +++ inline b.title
    +++ (if is_empty b.depends_on
        then ""
        else " (after: " +++ join ", " (map inline b.depends_on) +++ ")")
    +++ ": "
    +++ show (length b.files)
    +++ " file(s)"

halt_lines : HaltCode → String → String → ℕ → List ScopeBehavior → List String
unfolding split_line
halt_lines code detail head_sha review_round split =
    ("## Code Review — Round " +++ show review_round +++ " — Halted (`" +++ code_text code +++ "`)")
    ∷ ""
    ∷ ("Argus stopped before a full review at `" +++ str_take 12 head_sha +++ "`: " +++ detail)
    ∷ ((if is_empty split
          then []
          else "" ∷ "Suggested independently mergeable slices:" ∷ map split_line split)
        ++ "" ∷ "This is a BLOCKING halt, not a verdict on code quality." ∷ [])

-- The keyword arguments of `halt_response` after the head.
pub record HaltArgs : Type 0 where
  pub review_round : ℕ
  pub prior_review_id : Option String
  pub split_suggestions : List ScopeBehavior
  pub dispatch_count : Option ℕ
  pub dispatch_budget : Option ℕ

unfoldable pub halt_response : HaltCode → String → String → HaltArgs → ReviewResponse
unfolding halt_lines
halt_response code detail head_sha args =
    let split = take max_split_suggestions args.split_suggestions in
    record {
      verdict = Verdict.blocking;
      risk_level = RiskLevel.high;
      findings = [];
      dropped_findings = [];
      prior_feedback = [];
      notes_for_next_round = none;
      review_comment = join "\n" (halt_lines code detail head_sha args.review_round split);
      review_round = args.review_round;
      prior_review_id = args.prior_review_id;
      lite_mode = false;
      preflight_reason = "halt: " +++ code_text code;
      scope = none;
      halt = some (record {
        code = code;
        detail = detail;
        head_sha = head_sha;
        split_suggestions = split;
        dispatch_count = args.dispatch_count;
        dispatch_budget = args.dispatch_budget;
      });
    }
