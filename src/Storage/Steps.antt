-- ===== src/Storage/Steps.antt =====
-- What no sequence of upserts changes: the identity of a round, and one row per flow.
use argus_review.Prelude.{
  ℕ, zero, suc, ◌+◌, ◌≤◌, String, ◌≡◌, ◌≢◌, refl, ◌∙◌, ◌⊎◌, inl, inr, false, Option, none, some,
  List, [], ◌∷◌, ◌++◌, get_elem?, if◌then◌else◌, arith, Bool-cases, Option-cases, ◌==◌, eq_iff,
}
use argus_review.Graph.Finish.{CodeReviewRoundIn}
use argus_review.Storage.{
  RoundRow, RunningIn, same_flow, upsert, rerun, running_row, upsert_running_row, coalesce,
  complete, completed_row, store_completed, upsert_completed_row,
}

-- One write of the backend.
pub data Step : List RoundRow → List RoundRow → Type 0 where
  running :
      (id : String) (now : ℕ) (args : RunningIn) (table : List RoundRow)
      → Step table (upsert_running_row id now args table)
  completed :
      (id : String) (now : ℕ) (row : CodeReviewRoundIn) (table : List RoundRow)
      → Step table (upsert_completed_row id now row table)

pub data Steps : List RoundRow → List RoundRow → Type 0 where
  done : (table : List RoundRow) → Steps table table
  step : (a b c : List RoundRow) → Step a b → Steps b c → Steps a c

-- The same round: its key columns are unchanged, and a bound commit stays bound.
pub record SameRound (old new : RoundRow) : Type 0 where
  pub id : new.id ≡ old.id
  pub flow : new.flow_run_id ≡ old.flow_run_id
  pub repo : new.repo ≡ old.repo
  pub pr : new.pr_number ≡ old.pr_number
  pub created : new.created_at ≡ old.created_at
  pub bound : (old.sha ≡ none) ⊎ (new.sha ≢ none)

SameRound-refl : (r : RoundRow) → SameRound r r
SameRound-refl r = record {
  id = refl;
  flow = refl;
  repo = refl;
  pr = refl;
  created = refl;
  bound = elim (Option-cases r.sha) [ inl unbound ↦ inl unbound | inr (s, bound) ↦ inr (λ e. cc) ];
}

SameRound-trans : (a b c : RoundRow) → SameRound a b → SameRound b c → SameRound a c
SameRound-trans a b c h k = record {
  id = k.id ∙ h.id;
  flow = k.flow ∙ h.flow;
  repo = k.repo ∙ h.repo;
  pr = k.pr ∙ h.pr;
  created = k.created ∙ h.created;
  bound = elim h.bound [
    | inl unbound ↦ inl unbound
    | inr bound ↦ elim k.bound [ inl lost ↦ absurd (bound lost) | inr kept ↦ inr kept ]
  ];
}

rerun-SameRound : (r : RoundRow) → SameRound r (rerun r)
rerun-SameRound r =
    let same = SameRound-refl r in
    record { id = refl; flow = refl; repo = refl; pr = refl; created = refl; bound = same.bound }

coalesce-bound : (new old : Option String) → (old ≡ none) ⊎ (coalesce new old ≢ none)
coalesce-bound (some s) old = inr (λ e. cc)
coalesce-bound none none = inl refl
coalesce-bound none (some s) = inr (λ e. cc)

complete-SameRound : (row : CodeReviewRoundIn) (r : RoundRow) → SameRound r (complete row r)
complete-SameRound row r = record {
  id = refl;
  flow = refl;
  repo = refl;
  pr = refl;
  created = refl;
  bound = coalesce-bound row.sha r.sha;
}

-- The round at a position is there afterwards, and is the same.
pub Kept : ℕ → RoundRow → List RoundRow → Type 0
Kept i r table = (new : RoundRow) × (get_elem? table i ≡ some new) × SameRound r new

upsert-Kept :
    (flow : String) (update : RoundRow → RoundRow) (fresh : RoundRow)
    → ((r : RoundRow) → SameRound r (update r))
    → (table : List RoundRow) (i : ℕ) (r : RoundRow) → get_elem? table i ≡ some r
    → Kept i r (upsert flow update fresh table)
unfolding upsert Kept
upsert-Kept flow update fresh same [] i r e = cc
upsert-Kept flow update fresh same (x ∷ xs) zero r e =
    let here : x ≡ r = cc in
    elim (Bool-cases (same_flow flow x)) [
      | inl hit ↦ rw hit (update x, refl, rw (← here) (same x))
      | inr miss ↦ rw miss (x, refl, rw (← here) (SameRound-refl x))
    ]
upsert-Kept flow update fresh same (x ∷ xs) (suc i) r e = elim (Bool-cases (same_flow flow x)) [
  | inl hit ↦ rw hit (r, e, SameRound-refl r)
  | inr miss ↦ rw miss (upsert-Kept flow update fresh same xs i r e)
]

append-Kept :
    (table more : List RoundRow) (i : ℕ) (r : RoundRow)
    → get_elem? table i ≡ some r
    → get_elem? (table ++ more) i ≡ some r
append-Kept [] more i r e = cc
append-Kept (x ∷ xs) more zero r e = e
append-Kept (x ∷ xs) more (suc i) r e = append-Kept xs more i r e

store_completed-Kept :
    (flow : Option String) (new : RoundRow) (row : CodeReviewRoundIn) (table : List RoundRow)
    (i : ℕ) (r : RoundRow)
    → get_elem? table i ≡ some r
    → Kept i r (store_completed flow new row table)
unfolding store_completed Kept
store_completed-Kept none new row table i r e =
    (r, append-Kept table (new ∷ []) i r e, SameRound-refl r)
store_completed-Kept (some flow) new row table i r e =
    upsert-Kept flow (complete row) new (complete-SameRound row) table i r e

Step-Kept :
    (a b : List RoundRow) → Step a b → (i : ℕ) (r : RoundRow) → get_elem? a i ≡ some r → Kept i r b
unfolding upsert_running_row upsert_completed_row
Step-Kept a b (running id now args table) i r e =
    upsert-Kept args.flow_run_id rerun (running_row id now args) rerun-SameRound table i r e
Step-Kept a b (completed id now row table) i r e =
    store_completed-Kept row.flow_run_id (completed_row id now row) row table i r e

-- Whatever writes follow, a stored round stays at its rowid with its id, flow, pull request and
-- creation time, and a commit that is bound to it is never cleared.
pub Steps-Kept :
    (a b : List RoundRow) (i : ℕ) (r : RoundRow) → Steps a b → get_elem? a i ≡ some r → Kept i r b
unfolding Kept
Steps-Kept a b i r (done table) e = (r, e, SameRound-refl r)
Steps-Kept a b i r (step a' c' b' first rest) e =
    let (r1, e1, same1) = Step-Kept a c' first i r e in
    let (r2, e2, same2) = Steps-Kept c' b i r1 rest e1 in
    (r2, e2, SameRound-trans r r1 r2 same1 same2)

-- The number of rows of a flow.
unfoldable pub rows_of : String → List RoundRow → ℕ
rows_of flow [] = 0
rows_of flow (r ∷ rs) = (if same_flow flow r then 1 else 0) + rows_of flow rs

same_flow-update :
    (g : String) (r new : RoundRow) → SameRound r new → same_flow g new ≡ same_flow g r
same_flow-update g r new same = rw (same.flow) refl

rows_of-upsert :
    (g flow : String) (update : RoundRow → RoundRow) (new : RoundRow)
    → ((r : RoundRow) → SameRound r (update r))
    → new.flow_run_id ≡ some flow
    → (table : List RoundRow)
    → (rows_of g (upsert flow update new table) ≡ rows_of g table)
      ⊎ ((flow ≡ g) × (rows_of g table ≡ 0) × (rows_of g (upsert flow update new table) ≡ 1))
unfolding rows_of upsert
rows_of-upsert g flow update new same named [] = rw named (elim (Bool-cases (flow == g)) [
  | inl hit ↦ inr ((eq_iff flow g).0 hit, refl, rw hit refl)
  | inr miss ↦ inl (rw miss refl)
])
rows_of-upsert g flow update new same named (x ∷ xs) = elim (Bool-cases (same_flow flow x)) [
  | inl hit ↦ inl (rw (hit, same_flow-update g x (update x) (same x)) refl)
  | inr miss ↦ elim (rows_of-upsert g flow update new same named xs) [
    | inl kept ↦ inl (rw (miss, kept) refl)
    | inr (here, none_yet, one) ↦
        let other : same_flow g x ≡ false = rw (← here) miss in
        inr (here, rw (other, none_yet) refl, rw (miss, other, one) refl)
  ]
]

rows_of-append :
    (g : String) (table : List RoundRow) (new : RoundRow)
    → new.flow_run_id ≡ none
    → rows_of g (table ++ new ∷ []) ≡ rows_of g table
unfolding rows_of
rows_of-append g [] new unnamed = rw unnamed refl
rows_of-append g (x ∷ xs) new unnamed = omega (arith, rows_of-append g xs new unnamed)

store_completed-rows :
    (g : String) (flow : Option String) (new : RoundRow) (row : CodeReviewRoundIn)
    (table : List RoundRow)
    → new.flow_run_id ≡ flow
    → rows_of g table ≤ 1
    → rows_of g (store_completed flow new row table) ≤ 1
unfolding store_completed
store_completed-rows g none new row table unnamed once =
    omega (arith, rows_of-append g table new unnamed)
store_completed-rows g (some flow) new row table named once =
    elim (rows_of-upsert g flow (complete row) new (complete-SameRound row) named table) [
      | inl kept ↦ omega (arith, kept)
      | inr (here, none_yet, one) ↦ omega (arith, one)
    ]

Step-rows : (g : String) (a b : List RoundRow) → Step a b → rows_of g a ≤ 1 → rows_of g b ≤ 1
unfolding upsert_running_row upsert_completed_row
Step-rows g a b (running id now args table) once =
    elim (rows_of-upsert g args.flow_run_id rerun (running_row id now args) rerun-SameRound refl
      table) [ inl kept ↦ omega (arith, kept) | inr (here, none_yet, one) ↦ omega (arith, one) ]
Step-rows g a b (completed id now row table) once =
    store_completed-rows g row.flow_run_id (completed_row id now row) row table refl once

-- If a flow has at most one row, it has at most one row after any further writes.
pub Steps-rows : (g : String) (a b : List RoundRow) → Steps a b → rows_of g a ≤ 1 → rows_of g b ≤ 1
Steps-rows g a b (done table) once = once
Steps-rows g a b (step a' c b' first rest) once =
    Steps-rows g c b' rest (Step-rows g a' c first once)
