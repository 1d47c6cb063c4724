-- ===== src/Storage/History.antt =====
-- What the next round reads: a halted run leaves no trace in the history, and a finished one is the
-- prior round of the next.
use argus_review.Prelude.{
  ℕ, ◌+◌, ◌≤◌, String, ◌≡◌, refl, ap, ◌∙◌, ◌⊎◌, inl, inr, true, false, Option, none, some, List, [],
  ◌∷◌, ◌++◌, length, length-append, leb, nat_eq, nat_eq_iff, All, arith, Bool-cases, eq_refl,
  if◌then◌else◌,
}
use argus_review.Prelude.Text.{str_empty}
use argus_review.Prelude.Membership.{keep-All}
use argus_review.Models.{ReviewResponse, Finding, Severity, Verdict}
use argus_review.Pipeline.{PriorFinding}
use argus_review.Graph.Finish.{CodeReviewRoundIn}
use argus_review.Storage.{
  RoundRow, RunningIn, same_flow, upsert, rerun, running_row, upsert_running_row, coalesce,
  complete, completed_row, store_completed, upsert_completed_row, is_completed, completed_rounds,
  newest, with_count, latest_of, select_latest_completed_round, prior_finding, prior_findings,
  verdict_text, prior_context, context_of, fetch_prior_review,
}

-- No row of the table is of this flow.
abbrev pub Fresh : String → List RoundRow → Type 0
Fresh flow table = All (λ r. same_flow flow r ≡ false) table

upsert_new :
    (flow : String) (update : RoundRow → RoundRow) (new : RoundRow) (table : List RoundRow)
    → Fresh flow table
    → upsert flow update new table ≡ table ++ new ∷ []
unfolding upsert
upsert_new flow update new [] h = refl
upsert_new flow update new (r ∷ rs) h = rw h.0 (ap (λ t. r ∷ t) (upsert_new flow update new rs h.1))

upsert_last :
    (flow : String) (update : RoundRow → RoundRow) (new last : RoundRow) (table : List RoundRow)
    → Fresh flow table
    → same_flow flow last ≡ true
    → upsert flow update new (table ++ last ∷ []) ≡ table ++ update last ∷ []
unfolding upsert
upsert_last flow update new last [] h hit = rw hit refl
upsert_last flow update new last (r ∷ rs) h hit =
    rw h.0 (ap (λ t. r ∷ t) (upsert_last flow update new last rs h.1 hit))

-- The whole life of a run in the table: its progress row, then its finalize row.
unfoldable pub run_rows :
    String → ℕ → RunningIn → String → ℕ → CodeReviewRoundIn → List RoundRow → List RoundRow
run_rows id now args id' now' row table =
    upsert_completed_row id' now' row (upsert_running_row id now args table)

run_rows_lem :
    (id : String) (now : ℕ) (args : RunningIn) (id' : String) (now' : ℕ) (row : CodeReviewRoundIn)
    (table : List RoundRow)
    → row.flow_run_id ≡ some args.flow_run_id
    → Fresh args.flow_run_id table
    → run_rows id now args id' now' row table ≡ table ++ complete row (running_row id now args) ∷ []
unfolding run_rows upsert_completed_row upsert_running_row store_completed
run_rows_lem id now args id' now' row table same fresh =
    ap
      (λ f.
        store_completed f (completed_row id' now' row) row
          (upsert args.flow_run_id rerun (running_row id now args) table))
      same
    ∙ ap (upsert args.flow_run_id (complete row) (completed_row id' now' row))
        (upsert_new args.flow_run_id rerun (running_row id now args) table fresh)
    ∙ upsert_last args.flow_run_id (complete row) (completed_row id' now' row)
        (running_row id now args) table fresh (eq_refl args.flow_run_id)

append-nil {ℓ} : {A : Type ℓ} (xs : List A) → xs ++ [] ≡ xs
append-nil [] = refl
append-nil (x ∷ xs) = ap (λ t. x ∷ t) (append-nil xs)

completed_rounds-append :
    (repo : String) (pr : ℕ) (table : List RoundRow) (r : RoundRow)
    → completed_rounds repo pr (table ++ r ∷ [])
      ≡ completed_rounds repo pr table ++ (if is_completed repo pr r then r ∷ [] else [])
unfolding completed_rounds
completed_rounds-append repo pr [] r = refl
completed_rounds-append repo pr (x ∷ xs) r = ground (arith, completed_rounds-append repo pr xs r)

-- A run of a new flow that ends in a halt, whose row has no verdict, leaves what the next round
-- fetches as its prior review unchanged, for every pull request.
pub halted_run_leaves_history :
    (id : String) (now : ℕ) (args : RunningIn) (id' : String) (now' : ℕ) (row : CodeReviewRoundIn)
    (table : List RoundRow) (repo : String) (pr : ℕ)
    → row.flow_run_id ≡ some args.flow_run_id
    → Fresh args.flow_run_id table
    → row.verdict ≡ none
    → fetch_prior_review repo pr (run_rows id now args id' now' row table)
      ≡ fetch_prior_review repo pr table
unfolding fetch_prior_review select_latest_completed_round
halted_run_leaves_history id now args id' now' row table repo pr same fresh halted =
    let r = complete row (running_row id now args) in
    let hidden : is_completed repo pr r ≡ false = ground arith in
    let rounds : completed_rounds repo pr (run_rows id now args id' now' row table)
        ≡ completed_rounds repo pr table ++ [] =
      ap (completed_rounds repo pr) (run_rows_lem id now args id' now' row table same fresh)
      ∙ completed_rounds-append repo pr table r
      ∙ ap (λ b. completed_rounds repo pr table ++ (if b then r ∷ [] else [])) hidden in
    ap (λ rs. if nat_eq pr 0 then none else context_of (latest_of rs))
      (rounds ∙ append-nil (completed_rounds repo pr table))

newest-last :
    (r : RoundRow) (best : Option RoundRow) (rs : List RoundRow)
    → All (λ x. x.created_at ≤ r.created_at) rs
    → (best ≡ none) ⊎ ((b : RoundRow) × (best ≡ some b) × (b.created_at ≤ r.created_at))
    → newest best (rs ++ r ∷ []) ≡ some r
unfolding newest
newest-last r none [] h k = refl
newest-last r (some b) [] h (inl e) = cc
newest-last r (some b) [] h (inr (b', e, le)) =
    let same : b ≡ b' = cc in
    let below : leb b.created_at r.created_at ≡ true = rw same (ground arith) in rw below refl
newest-last r none (x ∷ xs) h k = newest-last r (some x) xs h.1 (inr (x, refl, h.0))
newest-last r (some b) (x ∷ xs) h (inl e) = cc
newest-last r (some b) (x ∷ xs) h (inr (b', e, le)) =
    let same : b ≡ b' = cc in
    let bounded : b.created_at ≤ r.created_at = rw same le in
    newest-last r (some (if leb b.created_at x.created_at then x else b)) xs h.1 (
      inr (elim (Bool-cases (leb b.created_at x.created_at)) [
        | inl up ↦ rw up (x, refl, h.0)
        | inr stay ↦ rw stay (b, refl, bounded)
      ]))

latest_of-last :
    (rs : List RoundRow) (r : RoundRow)
    → newest none rs ≡ some r
    → latest_of rs ≡ some (r, length rs)
unfolding latest_of
latest_of-last rs r e = ap (with_count (length rs)) e

context_of_full :
    (row : RoundRow) (count n : ℕ) (sha : String) (result : ReviewResponse)
    → row.sha ≡ some sha
    → row.result_json ≡ some result
    → str_empty sha ≡ false
    → count + 1 ≡ n
    → context_of (some (row, count))
      ≡ some (record {
        review_id = row.id;
        reviewed_sha = sha;
        findings = prior_findings result.findings;
        dismissed_findings = [];
        notes_for_next_round = result.notes_for_next_round;
        round_number = n;
        prior_verdict = some (verdict_text result.verdict);
      })
unfolding context_of prior_context
context_of_full row count n sha result bound stored full counted =
    ap (λ s. prior_context row count s row.result_json) bound
    ∙ ap (prior_context row count (some sha)) stored
    ∙ rw (full, counted) refl

-- The carried findings are the BLOCKING ones, in order and with their contents; no other is carried.
abbrev pub Carried : List Finding → List PriorFinding → Type 0
Carried [] carried = carried ≡ []
Carried (f ∷ fs) carried =
    ((f.severity ≡ Severity.suggestion) × Carried fs carried)
    ⊎ ((f.severity ≡ Severity.blocking)
        × (p : PriorFinding) × (rest : List PriorFinding) × (carried ≡ p ∷ rest)
        × (p.category ≡ f.category)
        × (p.file ≡ f.file)
        × (p.line ≡ f.line)
        × (p.description ≡ f.description)
        × (p.suggestion ≡ f.suggestion)
        × Carried fs rest)

severity_cases : (s : Severity) → (s ≡ Severity.blocking) ⊎ (s ≡ Severity.suggestion)
severity_cases Severity.blocking = inl refl
severity_cases Severity.suggestion = inr refl

prior_findings-Carried : (fs : List Finding) → Carried fs (prior_findings fs)
unfolding prior_findings
prior_findings-Carried [] = refl
prior_findings-Carried (f ∷ fs) =
    let later = prior_findings-Carried fs in
    elim (severity_cases f.severity) [
      | inr minor ↦ inl (minor, rw minor later)
      | inl major ↦ inr (
        major,
        prior_finding f,
        prior_findings fs,
        rw major refl,
        refl,
        refl,
        refl,
        refl,
        refl,
        later,
      )
    ]

fetched_run :
    (id : String) (now : ℕ) (args : RunningIn) (id' : String) (now' : ℕ) (row : CodeReviewRoundIn)
    (table : List RoundRow) (v : Verdict) (sha : String)
    → row.flow_run_id ≡ some args.flow_run_id
    → Fresh args.flow_run_id table
    → All (λ x. x.created_at ≤ now) table
    → row.verdict ≡ some v
    → coalesce row.sha args.sha ≡ some sha
    → str_empty sha ≡ false
    → nat_eq args.pr_number 0 ≡ false
    → fetch_prior_review args.repo args.pr_number (run_rows id now args id' now' row table)
      ≡ some (record {
        review_id = id;
        reviewed_sha = sha;
        findings = prior_findings row.result_json.findings;
        dismissed_findings = [];
        notes_for_next_round = row.result_json.notes_for_next_round;
        round_number = length (completed_rounds args.repo args.pr_number table) + 2;
        prior_verdict = some (verdict_text row.result_json.verdict);
      })
unfolding fetch_prior_review select_latest_completed_round
fetched_run id now args id' now' row table v sha same fresh older judged bound full numbered =
    let r = complete row (running_row id now args) in
    let rounds0 = completed_rounds args.repo args.pr_number table in
    let shown : is_completed args.repo args.pr_number r ≡ true =
      ground
        (arith, eq_refl args.repo, (nat_eq_iff args.pr_number args.pr_number).1 refl, judged) in
    let rounds : completed_rounds args.repo args.pr_number (run_rows id now args id' now' row table)
        ≡ rounds0 ++ r ∷ [] =
      ap (completed_rounds args.repo args.pr_number)
        (run_rows_lem id now args id' now' row table same fresh)
      ∙ completed_rounds-append args.repo args.pr_number table r
      ∙ ap (λ b. rounds0 ++ (if b then r ∷ [] else [])) shown in
    let last : newest none (rounds0 ++ r ∷ []) ≡ some r =
      newest-last r none rounds0
        (unfold completed_rounds in
          keep-All (is_completed args.repo args.pr_number) (λ x. x.created_at ≤ now) table older)
        (inl refl) in
    ap
      (λ b.
        if b
        then none
        else context_of (
            latest_of (
              completed_rounds args.repo args.pr_number (run_rows id now args id' now' row table))))
      numbered
    ∙ ap (λ rs. context_of (latest_of rs)) rounds
    ∙ ap context_of (latest_of-last (rounds0 ++ r ∷ []) r last)
    ∙ context_of_full r (length (rounds0 ++ r ∷ [])) (length rounds0 + 2) sha row.result_json bound
        refl full (omega (arith, length-append rounds0 (r ∷ [])))

-- After a run of a new flow that completes with a verdict, if no stored round is newer than the
-- run's start and the pull request has a number and the round a commit, the next round fetches that
-- run as its prior review: its id, its commit, exactly its BLOCKING findings with their contents, in
-- order, its notes, and a round number two above the count of the rounds that were complete before.
pub completed_run_is_prior :
    (id : String) (now : ℕ) (args : RunningIn) (id' : String) (now' : ℕ) (row : CodeReviewRoundIn)
    (table : List RoundRow) (v : Verdict) (sha : String)
    → row.flow_run_id ≡ some args.flow_run_id
    → Fresh args.flow_run_id table
    → All (λ x. x.created_at ≤ now) table
    → row.verdict ≡ some v
    → coalesce row.sha args.sha ≡ some sha
    → str_empty sha ≡ false
    → nat_eq args.pr_number 0 ≡ false
    → (carried : List PriorFinding) × Carried row.result_json.findings carried
      × (fetch_prior_review args.repo args.pr_number (run_rows id now args id' now' row table)
          ≡ some (record {
            review_id = id;
            reviewed_sha = sha;
            findings = carried;
            dismissed_findings = [];
            notes_for_next_round = row.result_json.notes_for_next_round;
            round_number = length (completed_rounds args.repo args.pr_number table) + 2;
            prior_verdict = some (verdict_text row.result_json.verdict);
          }))
completed_run_is_prior id now args id' now' row table v sha same fresh older judged bound full
      numbered =
    (
      prior_findings row.result_json.findings,
      prior_findings-Carried row.result_json.findings,
      fetched_run id now args id' now' row table v sha same fresh older judged bound full numbered,
    )
