-- ===== src/Graph/Coverage/Seen.antt =====
-- Which files `check_coverage` takes for covered, and what it then does: the sessions and findings
-- that count in `collect_reviewed_files`, and the paths that the model is asked about.
use text.Mathlib.TextEquality.{eq_iff}
use argus_review.Prelude.{
  String, ◌≡◌, ◌↔◌, refl, ap, ◌∙◌, ◌⊎◌, inl, inr, Bool, true, false, ◌||◌, Option, none, some, List,
  [], ◌∷◌, ◌++◌, keep, is_empty, ◌==◌, Bool-cases, Option-cases, arith,
}
use argus_review.Prelude.Result.{Result, ok, ◌>>=◌}
use argus_review.Prelude.Text.{str_empty}
use argus_review.Prelude.Names.{
  mem, dedup, sorted, insert_sorted, mem-append, mem-dedup, mem-sorted, mem-minus,
}
use argus_review.Pipeline.{ReviewPlan, FileEntry, RawFinding, SystemReviewResult, CoverageResult}
use argus_review.Graph.{ReviewState}
use argus_review.Graph.Dispatch.{node, has_completed}
use argus_review.Graph.Coverage.{with_coverage, node_check_coverage, edge_coverage_decision}
use argus_review.Graph.Coverage.Check.{
  manifest_paths, add_file, named_files, collect_reviewed_files, uncovered, check_coverage,
}

-- A finding is about the file.
abbrev pub Names : String → List RawFinding → Type 0
Names file [] = ⊥
Names file (f ∷ fs) = ((f.file ≡ some file) × (str_empty file ≡ false)) ⊎ Names file fs

-- A session that completed explored the file, or has a finding about it.
abbrev pub Seen : String → List SystemReviewResult → Type 0
Seen file [] = ⊥
Seen file (r ∷ rs) =
    ((r.failure_reason ≡ none) × ((mem file r.files_explored ≡ true) ⊎ Names file r.findings))
    ⊎ Seen file rs

-- The manifest of the plan has an entry for the file.
abbrev pub Listed : String → List FileEntry → Type 0
Listed file [] = ⊥
Listed file (f ∷ fs) = (f.path ≡ file) ⊎ Listed file fs

listed_cases :
    (file : String) (fs : List FileEntry) → (mem file (manifest_paths fs) ≡ true) ↔ Listed file fs
unfolding mem manifest_paths
listed_cases file [] = (λ e. cc, λ h. absurd h)
listed_cases file (f ∷ fs) =
    let (there, back) = listed_cases file fs in
    let same = eq_iff f.path file in
    (
      λ e. elim (Bool-cases (f.path == file)) [
        | inl hit ↦ inl (same.0 hit)
        | inr other ↦ inr (there (ground arith))
      ],
      λ h. elim h [
        | inl hit ↦ (let found = same.1 hit in ground arith)
        | inr rest ↦ (let found = back rest in ground arith)
      ],
    )

mem-add_file :
    (file : String) (named : Option String) (files : List String)
    → (mem file (add_file named files) ≡ true)
      ↔ (((named ≡ some file) × (str_empty file ≡ false)) ⊎ (mem file files ≡ true))
unfolding add_file mem
mem-add_file file none files = (λ e. inr e, λ h. elim h [ inl (e, full) ↦ cc | inr e ↦ e ])
mem-add_file file (some x) files =
    let same = eq_iff x file in
    elim (Bool-cases (str_empty x)) [
      | inl empty ↦ rw empty (
        λ e. inr e,
        λ h. elim h [
          | inl (e, full) ↦
              (let one : x ≡ file = cc in let no : str_empty x ≡ false = rw one full in cc)
          | inr e ↦ e
        ],
      )
      | inr full ↦ rw full (
        λ e. elim (Bool-cases (x == file)) [
          | inl hit ↦ inl (ap (λ y. some y) (same.0 hit), rw (← same.0 hit) full)
          | inr other ↦ inr (ground arith)
        ],
        λ h. elim h [
          | inl (e, _) ↦ (let one : x ≡ file = cc in let hit = same.1 one in ground arith)
          | inr e ↦ ground arith
        ],
      )
    ]

named_cases :
    (file : String) (fs : List RawFinding) → (mem file (named_files fs) ≡ true) ↔ Names file fs
unfolding named_files mem
named_cases file [] = (λ e. cc, λ h. absurd h)
named_cases file (f ∷ fs) =
    let (there, back) = named_cases file fs in
    let (split, join) = mem-add_file file f.file (named_files fs) in
    (
      λ e. elim (split e) [ inl here ↦ inl here | inr rest ↦ inr (there rest) ],
      λ h. elim h [ inl here ↦ join (inl here) | inr rest ↦ join (inr (back rest)) ],
    )

or_iff : (a b : Bool) → ((a || b) ≡ true) ↔ ((a ≡ true) ⊎ (b ≡ true))
or_iff true b = (λ e. inl refl, λ h. refl)
or_iff false b = (λ e. inr e, λ h. elim h [ inl e ↦ cc | inr e ↦ e ])

or3 : (a b c : Bool) → (((a || b) || c) ≡ true) ↔ ((a ≡ true) ⊎ ((b ≡ true) ⊎ (c ≡ true)))
or3 true b c = (λ e. inl refl, λ h. refl)
or3 false true c = (λ e. inr (inl refl), λ h. refl)
or3 false false c =
    (λ e. inr (inr e), λ h. elim h [ inl e ↦ cc | inr (inl e) ↦ cc | inr (inr e) ↦ e ])

mem-reviewed :
    (file : String) (r : SystemReviewResult) (rs : List SystemReviewResult)
    → mem file (collect_reviewed_files (r ∷ rs)) ≡ (
        (mem file r.files_explored || mem file (named_files r.findings))
        || mem file (collect_reviewed_files rs))
unfolding collect_reviewed_files
mem-reviewed file r rs =
    mem-append file (r.files_explored ++ named_files r.findings) (collect_reviewed_files rs)
    ∙ ap (λ b. b || mem file (collect_reviewed_files rs))
        (mem-append file r.files_explored (named_files r.findings))

reviewed_cases :
    (file : String) (rs : List SystemReviewResult)
    → (mem file (collect_reviewed_files (keep has_completed rs)) ≡ true) ↔ Seen file rs
unfolding mem collect_reviewed_files
reviewed_cases file [] = (λ e. cc, λ h. absurd h)
reviewed_cases file (r ∷ rs) =
    let (there, back) = reviewed_cases file rs in
    elim (Option-cases r.failure_reason) [
      | inr (reason, failed) ↦
          rw failed (λ e. inr (there e), λ h. elim h [ inl (e, _) ↦ cc | inr rest ↦ back rest ])
      | inl completed ↦
          let (named, names) = named_cases file r.findings in
          let (split, join) =
            or3 (mem file r.files_explored) (mem file (named_files r.findings)) _ in
          rw (completed, mem-reviewed file r (keep has_completed rs))
            (
              λ e. elim (split e) [
                | inl explored ↦ inl (refl, inl explored)
                | inr (inl about) ↦ inl (refl, inr (named about))
                | inr (inr rest) ↦ inr (there rest)
              ],
              λ h. elim h [
                | inl (_, inl explored) ↦ join (inl explored)
                | inl (_, inr about) ↦ join (inr (inl (names about)))
                | inr rest ↦ join (inr (inr (back rest)))
              ],
            )
    ]

-- The uncovered files of a run: those of the manifest that no completed session has seen.
pub uncovered_cases :
    (file : String) (plan : ReviewPlan) (rs : List SystemReviewResult)
    → (mem file (sorted (uncovered plan (keep has_completed rs))) ≡ true)
      ↔ (Listed file plan.file_manifest × ¬ Seen file rs)
unfolding uncovered
uncovered_cases file plan rs =
    let (listed, lists) = listed_cases file plan.file_manifest in
    let (seen, sees) = reviewed_cases file rs in
    let is = mem-sorted file (uncovered plan (keep has_completed rs)) in
    let split =
      mem-minus file (dedup (manifest_paths plan.file_manifest))
        (collect_reviewed_files (keep has_completed rs)) in
    let once = mem-dedup file (manifest_paths plan.file_manifest) in
    rw (is, split, once)
      (
        λ e. (listed (ground (arith, e)), λ h. (let found = sees h in ground (arith, e, found))),
        λ (l, unseen).
            elim (Bool-cases (mem file (collect_reviewed_files (keep has_completed rs)))) [
              | inl found ↦ absurd (unseen (seen found))
              | inr out ↦ (let inside = lists l in ground (arith, inside, out))
            ],
      )

insert_some : (x : String) (ys : List String) → is_empty (insert_sorted x ys) ≡ false
unfolding insert_sorted
insert_some x [] = refl
insert_some x (y ∷ ys) = ground arith

sorted_nil : (xs : List String) → is_empty (sorted xs) ≡ is_empty xs
unfolding sorted
sorted_nil [] = refl
sorted_nil (x ∷ xs) = insert_some x (sorted xs)

module _
    (triage : ReviewPlan
      → List SystemReviewResult
      → List String
      → Result String CoverageResult) where
  -- In a run with a plan and no response, there is a list of the uncovered files: its members are
  -- exactly the paths of the manifest that no completed session explored or named in a finding. If
  -- it is empty, the run goes to the writer and the model is not asked; otherwise the next state is
  -- the model's answer about that list, or what the model raises.
  pub check_coverage_outcome :
      (state : ReviewState) (plan : ReviewPlan)
      → state.response ≡ none
      → state.plan ≡ some plan
      → (files : List String) × ((file : String)
          → (mem file files ≡ true) ↔ (Listed file plan.file_manifest × ¬ Seen file state.findings))
        × (((is_empty files ≡ true)
              × (out : ReviewState) × (node_check_coverage (check_coverage triage) state ≡ ok out)
              × (edge_coverage_decision out ≡ ok (node "write_review")))
            ⊎ ((is_empty files ≡ false)
                × (node_check_coverage (check_coverage triage) state ≡ (
                    triage plan (keep has_completed state.findings) files
                    >>= (λ coverage. ok (with_coverage state coverage))))))
  unfolding check_coverage node_check_coverage
  check_coverage_outcome state plan fresh planned =
      let left = uncovered plan (keep has_completed state.findings) in
      (
        sorted left,
        λ file. uncovered_cases file plan state.findings,
        elim (Bool-cases (is_empty left)) [
          | inl nothing ↦ inl (
            sorted_nil left ∙ nothing,
            record state { coverage = some (record { is_covered = true; gaps = [] }) },
            rw (planned, nothing) (unfold with_coverage in refl),
            unfold edge_coverage_decision in rw fresh refl,
          )
          | inr something ↦ inr (sorted_nil left ∙ something, rw (planned, something) refl)
        ],
      )
