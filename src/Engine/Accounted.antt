-- ===== src/Engine/Accounted.antt =====
-- Every scanner is accounted for: installed or missing, completed or failed.
use argus_review.Prelude.{
  String, ◌≡◌, ◌≢◌, refl, sym, ◌∙◌, inl, inr, Bool, true, false, not, ◌&&◌, Option, none, some,
  List, [], ◌∷◌, keep, arith, Bool-cases, Option-cases, is_empty, ◌==◌, eq_iff, eq_refl,
}
use argus_review.Prelude.Result.{ok, >>=-eq-ok}
use argus_review.Engine.{
  PrecheckResult, Machine, scanners, batch, is_failed_scan, failed_in, missing_in, scoped_results,
  result_with, classify, rule_ids_of, scan_all, run_precheck,
}
use argus_review.Prelude.Names.{mem, dedup, sorted, mem-sorted}

pub mem-keep :
    (p : String → Bool) (x : String) (xs : List String) → mem x (keep p xs) ≡ (mem x xs && p x)
unfolding mem
mem-keep p x [] = refl
mem-keep p x (y ∷ ys) = elim (Bool-cases (y == x)) [
  | inl this ↦
      let same : y ≡ x = (eq_iff y x).0 this in
      elim (Bool-cases (p x)) [
        | inl good ↦ rw (same, good) rw (eq_refl x) refl
        | inr bad ↦ rw (same, bad) rw (eq_refl x) (mem-keep p x ys ∙ ground (arith, bad))
      ]
  | inr other ↦ elim (Bool-cases (p y)) [
    | inl good ↦ rw (good, other) (mem-keep p x ys)
    | inr bad ↦ rw (bad, other) (mem-keep p x ys)
  ]
]

abbrev pub is_none {ℓ} : {A : Type ℓ} → Option A → Bool
is_none none = true
is_none (some a) = false

module _ (machine : Machine) where
  -- Only a scanner other than semgrep can be seen to fail.
  is_failed_scan_lem :
      (name : String)
      → is_failed_scan machine name ≡ (not (name == "semgrep") && is_none (machine.scan name))
  unfolding batch
  is_failed_scan_lem name = elim (Bool-cases (name == "semgrep")) [
    | inl semgrep ↦ rw (is_failed_scan, batch, semgrep) refl
    | inr other ↦ elim (Option-cases (machine.scan name)) [
      | inl failed ↦ rw (is_failed_scan, batch, other, failed) refl
      | inr (found, completed) ↦ rw (is_failed_scan, batch, other, completed) refl
    ]
  ]

  -- The two lists of a result that was not refused.
  abbrev Named : Option (List String) → PrecheckResult → Type 0
  Named changed_files out =
      (out.missing_scanners ≡ missing_in machine changed_files)
      × (out.failed_scanners ≡ failed_in machine changed_files)

  scan_all-Named :
      (changed_files : Option (List String)) (out : PrecheckResult)
      → scan_all machine changed_files ≡ ok out
      → Named changed_files out
  unfolding scan_all
  scan_all-Named changed_files out returned =
      elim (Bool-cases (is_empty (scoped_results machine changed_files))) [
        | inl nothing ↦
            let same : result_with machine changed_files ([], []) ≡ out =
              (let e : ok (result_with machine changed_files ([], [])) ≡ ok out =
                  rw nothing at returned in
                cc) in
            rw (← same) (refl, refl)
        | inr something ↦
            let (statuses, given, last) =
              >>=-eq-ok
                (machine.select_rule_statuses
                  (sorted (dedup (rule_ids_of (scoped_results machine changed_files)))))
                _ (rw something at returned) in
            let same : result_with machine changed_files
                  (classify statuses (scoped_results machine changed_files))
                ≡ out =
              cc in
            rw (← same) (refl, refl)
      ]

  pub run_precheck-scan_all :
      (changed_files : Option (List String))
      → changed_files ≢ some []
      → run_precheck machine changed_files ≡ scan_all machine changed_files
  unfolding run_precheck
  run_precheck-scan_all none scope = refl
  run_precheck-scan_all (some []) scope = absurd (scope refl)
  run_precheck-scan_all (some (file ∷ files)) scope = refl

  -- In a run with a scope, every scanner of that scope is accounted for: it is reported missing
  -- exactly if it is not installed, and failed exactly if it is installed, gave no result, and is
  -- not semgrep. No other name is reported.
  pub run_precheck-accounts :
      (changed_files : Option (List String)) (out : PrecheckResult) (name : String)
      → changed_files ≢ some []
      → run_precheck machine changed_files ≡ ok out
      → (mem name out.missing_scanners
          ≡ (mem name (scanners changed_files) && not (machine.available name)))
        × (mem name out.failed_scanners ≡ (
            (mem name (scanners changed_files) && machine.available name)
            && (not (name == "semgrep") && is_none (machine.scan name))))
  run_precheck-accounts changed_files out name scope returned =
      let (missing, failed) =
        scan_all-Named changed_files out
          (sym (run_precheck-scan_all changed_files scope) ∙ returned) in
      let installed = keep machine.available (scanners changed_files) in
      (
        rw missing (
            mem-sorted name (keep (λ n. not (machine.available n)) (scanners changed_files))
            ∙ mem-keep (λ n. not (machine.available n)) name (scanners changed_files)),
        rw failed (
            mem-sorted name (keep (is_failed_scan machine) installed)
            ∙ mem-keep (is_failed_scan machine) name installed
            ∙ rw (mem-keep machine.available name (scanners changed_files), is_failed_scan_lem name)
                refl),
      )
