-- ===== src/Engine/Gate.antt =====
-- From the scanners to the route of the run: what ends a review before any model is asked.
use argus_review.Prelude.{
  String, ap, keep, ◌==◌, not, ◌&&◌, arith, Option-cases, ◌≡◌, ◌↔◌, refl, sym, ◌∙◌, inl, inr, true,
  false, Option, some, List, [], ◌∷◌, map, is_empty, Bool-cases, if◌then◌else◌,
}
use mathlib.Core.Path.{subst}
use text.Mathlib.TextEquality.{eq_iff}
use argus_review.Prelude.Membership.{In}
use argus_review.Prelude.Names.{mem, dedup, mem-sorted, mem-dedup}
use argus_review.Graph.Preflight.{path_pair, pairs_in, path_pairs, paths_of}
use argus_review.Prelude.Text.{has_prefix}
use argus_review.Graph.Preflight.Lines.{LinesOf}
use argus_review.Graph.Preflight.Headers.{InHeader, path_pairs_lem}
use argus_review.Prelude.Result.{ok}
use argus_review.Graph.{ReviewState, VerifiedHit}
use argus_review.Graph.Precheck.{precheck_fail, scope_gate, edge_precheck_decision}
use argus_review.Engine.{
  SarifResult, PrecheckResult, Machine, status_of, in_scope, extract_changed_files, as_storage_dict,
  or_old, update_state, node_precheck_rules,
}
use argus_review.Engine.Classified.{Found, Reported, Classified, is_verified, run_precheck_outcome}

abbrev FoundIn : Machine → (String → Option String) → List String → Type 0
FoundIn machine statuses files =
    (r : SarifResult) × Found machine (some files) r × (is_verified statuses r ≡ true)

-- A result from an installed scanner that completed, of a rule that the database has as verified, in
-- a file that is named in a header among the lines.
abbrev pub VerifiedHitIn : Machine → (String → Option String) → List String → Type 0
VerifiedHitIn machine statuses lines =
    (r : SarifResult) × (file : String) × Reported machine
      (keep machine.available
        ("semgrep" ∷ "zizmor" ∷ "trivy" ∷ "squawk" ∷ "checkov" ∷ "actionlint" ∷ "eslint" ∷ []))
      r
    × (r.file ≡ some file)
    × InHeader file lines
    × (statuses r.rule_id ≡ some "verified")

verified_iff :
    (status : String)
    → ((not (status == "suspended") && status == "verified") ≡ true) ↔ (status ≡ "verified")
verified_iff status = (
  λ e. (eq_iff status "verified").0 (ground arith),
  λ e. subst (λ s. (not (s == "suspended") && s == "verified") ≡ true) (sym e) refl,
)

known_status :
    (statuses : String → Option String) (r : SarifResult)
    → status_of statuses r ≡ "verified"
    → statuses r.rule_id ≡ some "verified"
known_status statuses r e = elim (Option-cases (statuses r.rule_id)) [
  | inl unknown ↦ (let is : Path String "candidate" "verified" = rw (status_of, unknown) at e in cc)
  | inr (status, known) ↦
      let is : status ≡ "verified" = rw (status_of, known) at e in known ∙ ap (λ s. some s) is
]

is_verified_iff :
    (statuses : String → Option String) (r : SarifResult)
    → (is_verified statuses r ≡ true) ↔ (statuses r.rule_id ≡ some "verified")
is_verified_iff statuses r =
    let (there, back) = verified_iff (status_of statuses r) in
    (λ e. known_status statuses r (there e), λ e. back (rw (status_of, e) refl))

in_scope_iff :
    (files lines : List String) (r : SarifResult)
    → ((path : String) → (mem path files ≡ true) ↔ InHeader path lines)
    → (in_scope (some files) r ≡ true)
      ↔ ((file : String) × (r.file ≡ some file) × InHeader file lines)
in_scope_iff files lines r headers = elim (Option-cases r.file) [
  | inl nowhere ↦ rw nowhere (λ e. cc, λ (file, is, _). cc)
  | inr (file, there) ↦ rw there (
    λ e. (file, refl, (headers file).0 e),
    λ (other, is, named). (let same : file ≡ other = cc in rw same ((headers other).1 named)),
  )
]

hits_found :
    (machine : Machine) (statuses : String → Option String) (files lines : List String)
    → ((path : String) → (mem path files ≡ true) ↔ InHeader path lines)
    → FoundIn machine statuses files ↔ VerifiedHitIn machine statuses lines
hits_found machine statuses files lines headers = (
  λ (r, (reported, inside), verified).
      (let (file, is, named) = (in_scope_iff files lines r headers).0 inside in
        (r, file, reported, is, named, (is_verified_iff statuses r).0 verified)),
  λ (r, file, reported, is, named, known). (
    r,
    (reported, (in_scope_iff files lines r headers).1 (file, is, named)),
    (is_verified_iff statuses r).1 known,
  ),
)

still_empty :
    (found : List SarifResult) (old : List VerifiedHit)
    → old ≡ []
    → is_empty (or_old (map as_storage_dict found) old) ≡ is_empty found
still_empty [] old fresh = rw fresh refl
still_empty (r ∷ rs) old fresh = refl

-- The files that the node takes for changed are the paths in the headers of the diff.
extract_changed_files_lem :
    (diff : String)
    → (lines : List String) × LinesOf diff lines
      × ((path : String) → (mem path (extract_changed_files diff) ≡ true) ↔ InHeader path lines)
unfolding extract_changed_files paths_of path_pairs pairs_in path_pair has_prefix
extract_changed_files_lem String.[] =
    let (lines, split, headers) = path_pairs_lem "" in (lines, split, headers)
extract_changed_files_lem (String.◌∷◌ c s) =
    let (lines, split, headers) = path_pairs_lem (String.◌∷◌ c s) in
    let paths = paths_of (path_pairs (String.◌∷◌ c s)) in
    (lines, split, λ path. rw (mem-sorted path (dedup paths), mem-dedup path paths) (headers path))

module _ (machine : Machine) (statuses : String → Option String)
    (answers : (ids : List String) → machine.select_rule_statuses ids ≡ ok statuses) where
  route_of :
      (state : ReviewState) (out : PrecheckResult)
      → state.precheck_fast_fail ≡ []
      → edge_precheck_decision (update_state out state)
        ≡ (if is_empty out.verified_findings then scope_gate else precheck_fail)
  unfolding edge_precheck_decision update_state
  route_of state out fresh =
      rw (still_empty out.verified_findings state.precheck_fast_fail fresh) refl

  some_nil : (files : List String) → some files ≡ some [] → files ≡ []
  some_nil files e = cc

  first_of : (found : List SarifResult) → is_empty found ≡ false → (r : SarifResult) × In r found
  first_of [] h = cc
  first_of (r ∷ rs) h = (r, (0, refl))

  nonempty : (found : List SarifResult) (r : SarifResult) → In r found → is_empty found ≡ false
  nonempty [] r (i, e) = cc
  nonempty (x ∷ xs) r found = refl

  routed :
      (files : List String) (state : ReviewState) (out : PrecheckResult)
      → state.precheck_fast_fail ≡ []
      → Classified machine (some files) statuses out
      → (edge_precheck_decision (update_state out state) ≡ precheck_fail)
        ↔ FoundIn machine statuses files
  routed files state out fresh classified = elim (Bool-cases (is_empty out.verified_findings)) [
    | inl none_found ↦ (
      λ ended.
          (let other : scope_gate ≡ precheck_fail =
              sym (route_of state out fresh ∙ rw none_found refl) ∙ ended in
            cc),
      λ (r, found, verified).
          (let other =
              nonempty out.verified_findings r ((classified.verified r).1 (found, verified)) in
            cc),
    )
    | inr some_found ↦
        let (r, inside) = first_of out.verified_findings some_found in
        let (found, verified) = (classified.verified r).0 inside in
        (λ ended. (r, found, verified), λ hit. route_of state out fresh ∙ rw some_found refl)
  ]

  no_files :
      (lines : List String)
      → ((path : String) → (mem path [] ≡ true) ↔ InHeader path lines)
      → VerifiedHitIn machine statuses lines
      → ⊥
  unfolding mem
  no_files lines headers (r, file, reported, is, named, known) =
      (let inside : false ≡ true = (headers file).1 named in cc)

  -- In a run that had no hit yet, whose database answers: the run leaves for the failure node, which
  -- ends it in a BLOCKING response, exactly if an installed scanner that completed has a result, of
  -- a rule that the database has as verified, in a file that a header of the diff names, as the old
  -- or as the new one. The headers are the lines `diff --git a/X b/Y` whose paths have no white
  -- space: a result in a file whose path has a space does not end the run.
  pub node_precheck_rules_gate :
      (state : ReviewState)
      → state.precheck_fast_fail ≡ []
      → (lines : List String) × LinesOf state.diff lines
        × ((edge_precheck_decision (node_precheck_rules machine state) ≡ precheck_fail)
            ↔ VerifiedHitIn machine statuses lines)
  unfolding node_precheck_rules
  node_precheck_rules_gate state fresh =
      let files = extract_changed_files state.diff in
      let (lines, split, headers) = extract_changed_files_lem state.diff in
      let (out, is, what) = run_precheck_outcome machine statuses answers (some files) in
      (
        lines,
        split,
        elim what [
          | inl (no_scope, no_hits, no_candidates) ↦
              let route : edge_precheck_decision (node_precheck_rules machine state) ≡ scope_gate =
                rw (node_precheck_rules, is) (route_of state out fresh ∙ rw no_hits refl) in
              let none_there : files ≡ [] = some_nil files no_scope in
              (
                λ ended. (let apart : scope_gate ≡ precheck_fail = sym route ∙ ended in cc),
                λ hit. absurd (no_files lines (rw none_there at headers) hit),
              )
          | inr classified ↦
              let (there, back) = routed files state out fresh classified in
              let (hits, finds) = hits_found machine statuses files lines headers in
              rw (node_precheck_rules, is) (λ e. hits (there e), λ h. back (finds h))
        ],
      )
