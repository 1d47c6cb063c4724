-- ===== src/Engine/Classified.antt =====
-- Which results of the scanners a run reports, and as what.
use argus_review.Prelude.{
  ℕ, zero, suc, ◌≤◌, String, ◌≡◌, ◌↔◌, refl, ap, ◌⊎◌, inl, inr, Bool, true, not, ◌&&◌, Option, none,
  some, List, [], ◌∷◌, ◌++◌, length, take, keep, is_empty, length-take-le, Bool-cases, Option-cases,
  ◌==◌,
}
use argus_review.Prelude.Names.{dedup, sorted}
use argus_review.Prelude.Membership.{In, In-keep}
use argus_review.Prelude.Result.{ok}
use argus_review.Engine.{
  SarifResult, PrecheckResult, Machine, max_results, or_empty, in_scope, status_of, rule_ids_of,
  classify, batch, results_of, named_scans, scoped_results, result_with, scan_all, run_precheck,
}

module _ {A : Type 0} where
  In-append_left : (x : A) (xs ys : List A) → In x xs → In x (xs ++ ys)
  In-append_left x (y ∷ xs) ys (zero, e) = (0, e)
  In-append_left x (y ∷ xs) ys (suc i, e) =
      let (j, found) = In-append_left x xs ys (i, e) in (suc j, found)
  In-append_left x [] ys (i, e) = cc

  In-append_right : (x : A) (xs ys : List A) → In x ys → In x (xs ++ ys)
  In-append_right x [] ys found = found
  In-append_right x (y ∷ xs) ys found = let (j, e) = In-append_right x xs ys found in (suc j, e)

  In-of_append : (x : A) (xs ys : List A) → In x (xs ++ ys) → In x xs ⊎ In x ys
  In-of_append x [] ys found = inr found
  In-of_append x (y ∷ xs) ys (zero, e) = inl (0, e)
  In-of_append x (y ∷ xs) ys (suc i, e) = elim (In-of_append x xs ys (i, e)) [
    | inl (j, left) ↦ inl (suc j, left)
    | inr right ↦ inr right
  ]

  In-of_take : (x : A) (n : ℕ) (xs : List A) → In x (take n xs) → In x xs
  In-of_take x zero xs (i, e) = cc
  In-of_take x (suc n) [] (i, e) = cc
  In-of_take x (suc n) (y ∷ xs) (zero, e) = (0, e)
  In-of_take x (suc n) (y ∷ xs) (suc i, e) =
      let (j, found) = In-of_take x n xs (i, e) in (suc j, found)

  In-take : (x : A) (n : ℕ) (xs : List A) → In x xs → In x (take n xs) ⊎ (length (take n xs) ≡ n)
  In-take x zero xs found = inr refl
  In-take x (suc n) [] (i, e) = cc
  In-take x (suc n) (y ∷ xs) (zero, e) = inl (0, e)
  In-take x (suc n) (y ∷ xs) (suc i, e) = elim (In-take x n xs (i, e)) [
    | inl (j, found) ↦ inl (suc j, found)
    | inr full ↦ inr (ap suc full)
  ]

abbrev pub is_verified : (String → Option String) → SarifResult → Bool
is_verified statuses r =
    not (status_of statuses r == "suspended") && status_of statuses r == "verified"

abbrev pub is_candidate : (String → Option String) → SarifResult → Bool
is_candidate statuses r =
    not (status_of statuses r == "suspended") && not (status_of statuses r == "verified")

classify_lem :
    (statuses : String → Option String) (rs : List SarifResult)
    → classify statuses rs ≡ (keep (is_candidate statuses) rs, keep (is_verified statuses) rs)
unfolding classify
classify_lem statuses [] = refl
classify_lem statuses (r ∷ rs) =
    let rest = classify_lem statuses rs in
    elim (Bool-cases (status_of statuses r == "suspended")) [
      | inl suspended ↦ rw (suspended, rest) refl
      | inr live ↦ elim (Bool-cases (status_of statuses r == "verified")) [
        | inl verified ↦ rw (live, verified, rest) refl
        | inr other ↦ rw (live, other, rest) refl
      ]
    ]

module _ (machine : Machine) where
  -- A result of an installed scanner that completed.
  abbrev pub Reported : List String → SarifResult → Type 0
  Reported names r =
      (name : String) × (found : List SarifResult) × In name names
      × (batch machine name ≡ some found)
      × In r found

  -- A result that the run is about.
  abbrev pub Found : Option (List String) → SarifResult → Type 0
  Found changed_files r =
      Reported (named_scans machine changed_files) r × (in_scope changed_files r ≡ true)

  results_of-Reported :
      (names : List String) (r : SarifResult) → In r (results_of machine names) → Reported names r
  unfolding results_of
  results_of-Reported [] r (i, e) = cc
  results_of-Reported (name ∷ names) r found =
      elim (In-of_append r (or_empty (batch machine name)) (results_of machine names) found) [
        | inl (i, here) ↦ elim (Option-cases (batch machine name)) [
          | inl failed ↦ (let none_here : none ≡ some r = rw failed at here in cc)
          | inr (list, completed) ↦ (name, list, (0, refl), completed, (i, rw completed at here))
        ]
        | inr later ↦
            let (other, list, (i, at_i), completed, there) = results_of-Reported names r later in
            (other, list, (suc i, at_i), completed, there)
      ]

  Reported-results_of :
      (names : List String) (r : SarifResult) → Reported names r → In r (results_of machine names)
  unfolding results_of
  Reported-results_of [] r (name, list, (i, e), completed, found) = cc
  Reported-results_of (first ∷ names) r (name, list, (zero, e), completed, found) =
      let same : first ≡ name = cc in
      let here : batch machine first ≡ some list = rw same completed in
      In-append_left r (or_empty (batch machine first)) (results_of machine names) (rw here found)
  Reported-results_of (first ∷ names) r (name, list, (suc i, e), completed, found) =
      In-append_right r (or_empty (batch machine first)) (results_of machine names)
        (Reported-results_of names r (name, list, (i, e), completed, found))

  Found-scoped :
      (changed_files : Option (List String)) (r : SarifResult)
      → In r (scoped_results machine changed_files) ↔ Found changed_files r
  Found-scoped changed_files r =
      let scans = named_scans machine changed_files in
      let split = In-keep (in_scope changed_files) r (results_of machine scans) in
      (
        λ found.
            let (reported, inside) = split.0 found in
            (results_of-Reported scans r reported, inside),
        λ (reported, inside). split.1 (Reported-results_of scans r reported, inside),
      )

empty_of : {A : Type 0} (xs : List A) → is_empty xs ≡ true → xs ≡ []
empty_of [] h = refl
empty_of (x ∷ xs) h = cc

-- What a run reports, for a table of rule statuses.
pub record Classified (machine : Machine) (changed_files : Option (List String))
    (statuses : String → Option String) (out : PrecheckResult) : Type 0 where
  pub verified :
      (r : SarifResult)
      → In r out.verified_findings
        ↔ (Found machine changed_files r × (is_verified statuses r ≡ true))
  pub candidates :
      (r : SarifResult)
      → In r out.candidate_findings
      → Found machine changed_files r × (is_candidate statuses r ≡ true)
  pub capped : length out.candidate_findings ≤ max_results
  pub complete :
      (r : SarifResult)
      → Found machine changed_files r
      → is_candidate statuses r ≡ true
      → In r out.candidate_findings ⊎ (length out.candidate_findings ≡ max_results)

module _ (machine : Machine) (statuses : String → Option String)
    (answers : (ids : List String) → machine.select_rule_statuses ids ≡ ok statuses) where
  kept-Classified :
      (changed_files : Option (List String))
      → Classified machine changed_files statuses (
          result_with machine changed_files (
            keep (is_candidate statuses) (scoped_results machine changed_files),
            keep (is_verified statuses) (scoped_results machine changed_files),
          ))
  kept-Classified changed_files =
      let results = scoped_results machine changed_files in
      let inside = Found-scoped machine changed_files in
      let candidate = keep (is_candidate statuses) results in
      record {
        verified = λ r.
            let split = In-keep (is_verified statuses) r results in
            (
              λ found. let (here, v) = split.0 found in ((inside r).0 here, v),
              λ (found, v). split.1 ((inside r).1 found, v),
            );
        candidates = λ r found.
            let (here, c) =
              (In-keep (is_candidate statuses) r results).0
                (In-of_take r max_results candidate found) in
            ((inside r).0 here, c);
        capped = length-take-le max_results candidate;
        complete = λ r found c.
            In-take r max_results candidate
              ((In-keep (is_candidate statuses) r results).1 ((inside r).1 found, c));
      }

  scan_all-Classified :
      (changed_files : Option (List String))
      → (out : PrecheckResult) × (scan_all machine changed_files ≡ ok out)
        × Classified machine changed_files statuses out
  unfolding scan_all
  scan_all-Classified changed_files =
      let results = scoped_results machine changed_files in
      let kept = kept-Classified changed_files in
      elim (Bool-cases (is_empty results)) [
        | inl nothing ↦
            let empty = empty_of (scoped_results machine changed_files) nothing in
            (result_with machine changed_files ([], []), rw nothing refl, rw empty at kept)
        | inr something ↦ (
          _,
          rw
              (
                something,
                answers (sorted (dedup (rule_ids_of results))),
                classify_lem statuses results,
              )
              refl,
          kept,
        )
      ]

  -- If the database answers, a run gives a result. An empty list of changed files gives the empty
  -- one. Otherwise the verified findings are exactly the results of installed scanners that
  -- completed, in the changed files (or anywhere, without a list of them), whose rule is verified:
  -- none is dropped. The candidates are at most 50 such results of candidate rules, and all of
  -- them below 50; a result of a suspended rule is in neither list.
  pub run_precheck_outcome :
      (changed_files : Option (List String))
      → (out : PrecheckResult) × (run_precheck machine changed_files ≡ ok out)
        × (((changed_files ≡ some [])
              × (out.verified_findings ≡ [])
              × (out.candidate_findings ≡ []))
            ⊎ Classified machine changed_files statuses out)
  unfolding run_precheck
  run_precheck_outcome none =
      let (out, is, classified) = scan_all-Classified none in (out, is, inr classified)
  run_precheck_outcome (some []) = (_, refl, inl (refl, refl, refl))
  run_precheck_outcome (some (file ∷ files)) =
      let (out, is, classified) = scan_all-Classified (some (file ∷ files)) in
      (out, is, inr classified)
