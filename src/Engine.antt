-- ===== src/Engine.antt =====
-- argus/precheck/engine.py: `run_precheck`, and its node `_node_precheck_rules` of argus/graph.py.
-- The scanners and the table of rule statuses are parameters.
pub mod Classified
pub mod Accounted
pub mod Gate
use Prim.Native.String.{◌++◌ as ◌+++◌}
use argus_review.Prelude.{
  ℕ, String, Bool, true, false, not, ◌&&◌, Option, none, some, List, [], ◌∷◌, ◌++◌, map, take, keep,
  is_empty, if◌then◌else◌, ◌==◌,
}
use argus_review.Prelude.Text.{str_empty, show}
use argus_review.Prelude.Names.{mem, dedup, sorted}
use argus_review.Prelude.Result.{Result, ok, err, ◌>>=◌}
use argus_review.Pipeline.{RawFinding}
use argus_review.Graph.{ReviewState, VerifiedHit}
use argus_review.Graph.Preflight.{path_pairs, paths_of}

pub record SarifResult : Type 0 where
  pub rule_id : String
  pub level : String
  pub message : String
  pub file : Option String
  pub line : Option ℕ

pub record PrecheckResult : Type 0 where
  pub candidate_findings : List SarifResult
  pub verified_findings : List SarifResult
  pub failed_scanners : List String
  pub missing_scanners : List String

-- What surrounds a run: which scanner is installed; what it finds, or `None`; and the statuses of
-- rules, which the database may refuse to give.
pub record Machine : Type 0 where
  pub available : String → Bool
  pub scan : String → Option (List SarifResult)
  pub select_rule_statuses : List String → Result String (String → Option String)

abbrev pub max_results : ℕ
max_results = 50

-- The scanners in the order of the source; the last four want a list of changed files.
abbrev pub scanners : Option (List String) → List String
scanners none = "semgrep" ∷ "zizmor" ∷ "trivy" ∷ []
scanners (some files) =
    "semgrep" ∷ "zizmor" ∷ "trivy" ∷ "squawk" ∷ "checkov" ∷ "actionlint" ∷ "eslint" ∷ []

-- `batch or []`
abbrev pub or_empty : Option (List SarifResult) → List SarifResult
or_empty none = []
or_empty (some batch) = batch

abbrev pub in_scope : Option (List String) → SarifResult → Bool
in_scope none r = true
in_scope (some files) r = elim r.file [ none ↦ false | some file ↦ mem file files ]

-- `statuses.get(rule_id, "candidate")`
abbrev pub status_of : (String → Option String) → SarifResult → String
status_of statuses r = elim (statuses r.rule_id) [ none ↦ "candidate" | some status ↦ status ]

abbrev pub rule_ids_of : List SarifResult → List String
rule_ids_of [] = []
rule_ids_of (r ∷ rs) = r.rule_id ∷ rule_ids_of rs

-- The candidates and the verified hits, in order.
unfoldable pub classify :
    (String → Option String) → List SarifResult → List SarifResult × List SarifResult
classify statuses [] = ([], [])
classify statuses (r ∷ rs) =
    let (candidate, verified) = classify statuses rs in
    if status_of statuses r == "suspended"
    then (candidate, verified)
    else if status_of statuses r == "verified"
    then (candidate, r ∷ verified)
    else (r ∷ candidate, verified)

module _ (machine : Machine) where
  -- `_run_semgrep_precheck` turns its failure into no results.
  unfoldable pub batch : String → Option (List SarifResult)
  batch name = if name == "semgrep" then some (or_empty (machine.scan name)) else machine.scan name

  unfoldable pub results_of : List String → List SarifResult
  results_of [] = []
  results_of (name ∷ names) = or_empty (batch name) ++ results_of names

  abbrev pub is_failed_scan : String → Bool
  is_failed_scan name = elim (batch name) [ none ↦ true | some found ↦ false ]

  abbrev pub named_scans : Option (List String) → List String
  named_scans changed_files = keep machine.available (scanners changed_files)

  abbrev pub failed_in : Option (List String) → List String
  failed_in changed_files = sorted (keep is_failed_scan (named_scans changed_files))

  abbrev pub missing_in : Option (List String) → List String
  missing_in changed_files =
      sorted (keep (λ name. not (machine.available name)) (scanners changed_files))

  abbrev pub scoped_results : Option (List String) → List SarifResult
  scoped_results changed_files =
      keep (in_scope changed_files) (results_of (named_scans changed_files))

  abbrev pub result_with :
      Option (List String) → List SarifResult × List SarifResult → PrecheckResult
  result_with changed_files (candidate, verified) = record {
    candidate_findings = take max_results candidate;
    verified_findings = verified;
    failed_scanners = failed_in changed_files;
    missing_scanners = missing_in changed_files;
  }

  unfoldable pub scan_all : Option (List String) → Result String PrecheckResult
  scan_all changed_files =
      let results = scoped_results changed_files in
      if is_empty results
      then ok (result_with changed_files ([], []))
      else machine.select_rule_statuses (sorted (dedup (rule_ids_of results))) >>= λ statuses.
          ok (result_with changed_files (classify statuses results))

  -- An empty list of changed files is no scope: nothing is run.
  unfoldable pub run_precheck : Option (List String) → Result String PrecheckResult
  run_precheck (some []) = ok (record {
    candidate_findings = [];
    verified_findings = [];
    failed_scanners = [];
    missing_scanners = [];
  })
  run_precheck changed_files = scan_all changed_files

-- `helpers.extract_changed_files`
unfoldable pub extract_changed_files : String → List String
extract_changed_files diff =
    if str_empty diff then [] else sorted (dedup (paths_of (path_pairs diff)))

abbrev pub as_finding_dict : SarifResult → RawFinding
as_finding_dict r = record {
  file = r.file;
  line = elim r.line [ none ↦ none | some line ↦ some (show line) ];
  description = r.message;
  context = some ("deterministic precheck rule: " +++ r.rule_id);
}

abbrev pub as_storage_dict : SarifResult → VerifiedHit
as_storage_dict r = record {
  rule_id = r.rule_id;
  file = r.file;
  line = r.line;
  message = some r.message;
}

-- A key of the state is written only if there is something to write.
abbrev pub or_old {ℓ} : {A : Type ℓ} → List A → List A → List A
or_old [] old = old
or_old (x ∷ xs) old = x ∷ xs

unfoldable pub update_state : PrecheckResult → ReviewState → ReviewState
update_state result state = record state {
  precheck_findings =
      or_old (map as_finding_dict result.candidate_findings) state.precheck_findings;
  precheck_fast_fail =
      or_old (map as_storage_dict result.verified_findings) state.precheck_fast_fail;
  precheck_scanner_failures = or_old result.failed_scanners state.precheck_scanner_failures;
  precheck_missing_scanners = or_old result.missing_scanners state.precheck_missing_scanners;
}

-- The node, for a run with a worktree: a failure of the engine changes nothing.
unfoldable pub node_precheck_rules : Machine → ReviewState → ReviewState
node_precheck_rules machine state =
    elim (run_precheck machine (some (extract_changed_files state.diff))) [
      | err raised ↦ state
      | ok result ↦ update_state result state
    ]
