-- ===== src/Storage.antt =====
-- argus/storage/sqlite.py: the table of rounds, its two upserts and the selection of the latest
-- round, and `_fetch_prior_review` of argus/graph.py, which reads it. The table is a list in the
-- order of its rowids; a fresh id and the time are arguments; costs and models are left out.
pub mod Steps
pub mod History
use argus_review.Prelude.{
  ℕ, suc, ◌+◌, String, Bool, true, false, not, ◌&&◌, Option, none, some, List, [], ◌∷◌, ◌++◌,
  length, keep, any, leb, nat_eq, ◌==◌, if◌then◌else◌,
}
use argus_review.Prelude.Text.{str_empty}
use argus_review.Models.{ReviewResponse, Finding, Verdict, RiskLevel}
use argus_review.Pipeline.{PriorFinding, PriorReviewContext}
use argus_review.Gates.{is_blocking, is_blocking_finding}
use argus_review.Graph.Finish.{CodeReviewRoundIn}

-- A row of `code_reviews`.
pub record RoundRow : Type 0 where
  pub id : String
  pub flow_run_id : Option String
  pub repo : String
  pub pr_number : ℕ
  pub verdict : Option Verdict
  pub risk_level : Option RiskLevel
  pub blocking_count : Option ℕ
  pub suggestion_count : Option ℕ
  pub review_comment : Option String
  pub result_json : Option ReviewResponse
  pub reviewer_version : String
  pub sha : Option String
  pub base_ref : Option String
  pub current_stage : String
  pub created_at : ℕ

-- The arguments of `upsert_running_row`.
pub record RunningIn : Type 0 where
  pub flow_run_id : String
  pub repo : String
  pub pr_number : ℕ
  pub sha : Option String
  pub base_ref : Option String

-- Equality with a text, in which NULL equals nothing.
abbrev pub same_flow : String → RoundRow → Bool
same_flow flow r = elim r.flow_run_id [ none ↦ false | some f ↦ f == flow ]

-- `DO UPDATE`: the row of this flow, or a new row at the end.
unfoldable pub upsert : String → (RoundRow → RoundRow) → RoundRow → List RoundRow → List RoundRow
upsert flow update new [] = new ∷ []
upsert flow update new (r ∷ rs) =
    let rest = upsert flow update new rs in if same_flow flow r then update r ∷ rs else r ∷ rest

abbrev pub rerun : RoundRow → RoundRow
rerun r = record r { current_stage = "running"; verdict = none; result_json = none }

abbrev pub running_row : String → ℕ → RunningIn → RoundRow
running_row id now args = record {
  id = id;
  flow_run_id = some args.flow_run_id;
  repo = args.repo;
  pr_number = args.pr_number;
  verdict = none;
  risk_level = none;
  blocking_count = none;
  suggestion_count = none;
  review_comment = none;
  result_json = none;
  reviewer_version = "v3";
  sha = args.sha;
  base_ref = args.base_ref;
  current_stage = "running";
  created_at = now;
}

unfoldable pub upsert_running_row : String → ℕ → RunningIn → List RoundRow → List RoundRow
upsert_running_row id now args = upsert args.flow_run_id rerun (running_row id now args)

-- `COALESCE(excluded.x, code_reviews.x)`
abbrev pub coalesce : Option String → Option String → Option String
coalesce none old = old
coalesce (some new) old = some new

abbrev pub complete : CodeReviewRoundIn → RoundRow → RoundRow
complete row r = record r {
  verdict = row.verdict;
  risk_level = some row.risk_level;
  blocking_count = some row.blocking_count;
  suggestion_count = some row.suggestion_count;
  review_comment = some row.review_comment;
  result_json = some row.result_json;
  sha = coalesce row.sha r.sha;
  base_ref = coalesce row.base_ref r.base_ref;
  current_stage = row.current_stage;
  reviewer_version = row.reviewer_version;
}

abbrev pub completed_row : String → ℕ → CodeReviewRoundIn → RoundRow
completed_row id now row = record {
  id = id;
  flow_run_id = row.flow_run_id;
  repo = row.repo;
  pr_number = row.pr_number;
  verdict = row.verdict;
  risk_level = some row.risk_level;
  blocking_count = some row.blocking_count;
  suggestion_count = some row.suggestion_count;
  review_comment = some row.review_comment;
  result_json = some row.result_json;
  reviewer_version = row.reviewer_version;
  sha = row.sha;
  base_ref = row.base_ref;
  current_stage = row.current_stage;
  created_at = now;
}

-- A row without a flow conflicts with none.
unfoldable pub store_completed :
    Option String → RoundRow → CodeReviewRoundIn → List RoundRow → List RoundRow
store_completed none new row table = table ++ new ∷ []
store_completed (some flow) new row table = upsert flow (complete row) new table

unfoldable pub upsert_completed_row : String → ℕ → CodeReviewRoundIn → List RoundRow → List RoundRow
upsert_completed_row id now row table =
    store_completed row.flow_run_id (completed_row id now row) row table

-- `WHERE repo = :repo AND pr_number = :pr_number AND verdict IS NOT NULL`
abbrev pub is_completed : String → ℕ → RoundRow → Bool
is_completed repo pr_number r =
    r.repo == repo
    && nat_eq r.pr_number pr_number
    && (elim r.verdict [ none ↦ false | some v ↦ true ])

unfoldable pub completed_rounds : String → ℕ → List RoundRow → List RoundRow
completed_rounds repo pr_number table = keep (is_completed repo pr_number) table

-- `ORDER BY created_at DESC, rowid DESC LIMIT 1`: the last among the newest.
unfoldable pub newest : Option RoundRow → List RoundRow → Option RoundRow
newest best [] = best
newest none (r ∷ rs) = newest (some r) rs
newest (some b) (r ∷ rs) = newest (some (if leb b.created_at r.created_at then r else b)) rs

abbrev pub with_count : ℕ → Option RoundRow → Option (RoundRow × ℕ)
with_count count none = none
with_count count (some r) = some (r, count)

-- The newest of the rounds, and their number.
unfoldable pub latest_of : List RoundRow → Option (RoundRow × ℕ)
latest_of rounds = with_count (length rounds) (newest none rounds)

unfoldable pub select_latest_completed_round : String → ℕ → List RoundRow → Option (RoundRow × ℕ)
select_latest_completed_round repo pr_number table =
    latest_of (completed_rounds repo pr_number table)

unfoldable pub prior_finding : Finding → PriorFinding
prior_finding f = record {
  severity = "BLOCKING";
  category = f.category;
  file = f.file;
  line = f.line;
  description = f.description;
  suggestion = f.suggestion;
}

-- Only BLOCKING findings are carried forward.
unfoldable pub prior_findings : List Finding → List PriorFinding
unfolding prior_finding
prior_findings [] = []
prior_findings (f ∷ fs) =
    let rest = prior_findings fs in if is_blocking_finding f then prior_finding f ∷ rest else rest

abbrev pub verdict_text : Verdict → String
verdict_text v = if is_blocking v then "BLOCKING" else "APPROVE"

unfoldable pub prior_context :
    RoundRow → ℕ → Option String → Option ReviewResponse → Option PriorReviewContext
prior_context row count none result = none
prior_context row count (some sha) result =
    if str_empty sha
    then none
    else some (record {
      review_id = row.id;
      reviewed_sha = sha;
      findings = elim result [ none ↦ [] | some r ↦ prior_findings r.findings ];
      dismissed_findings = [];
      notes_for_next_round = elim result [ none ↦ none | some r ↦ r.notes_for_next_round ];
      round_number = count + 1;
      prior_verdict = elim result [ none ↦ none | some r ↦ some (verdict_text r.verdict) ];
    })

unfoldable pub context_of : Option (RoundRow × ℕ) → Option PriorReviewContext
context_of none = none
context_of (some (row, count)) = prior_context row count row.sha row.result_json

unfoldable pub fetch_prior_review : String → ℕ → List RoundRow → Option PriorReviewContext
fetch_prior_review repo pr_number table =
    if nat_eq pr_number 0
    then none
    else context_of (select_latest_completed_round repo pr_number table)
