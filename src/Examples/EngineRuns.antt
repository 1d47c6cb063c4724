-- ===== src/Examples/EngineRuns.antt =====
-- Runs of the precheck engine on a machine with three of its scanners.
use argus_review.Prelude.{
  String, ◌≡◌, ◌↔◌, refl, ◌⊎◌, not, ◌&&◌, Option, none, some, List, [], ◌∷◌, ◌==◌, if◌then◌else◌,
}
use argus_review.Prelude.Names.{mem, sorted}
use argus_review.Prelude.Result.{ok}
use argus_review.Graph.Precheck.{precheck_fail, edge_precheck_decision}
use argus_review.Engine.{
  SarifResult, PrecheckResult, Machine, scanners, run_precheck, scan_all, results_of, batch,
  classify, node_precheck_rules,
}
use argus_review.Engine.Classified.{Classified, run_precheck_outcome}
use argus_review.Engine.Accounted.{is_none, run_precheck-accounts}
use argus_review.Graph.Preflight.Lines.{LinesOf}
use argus_review.Engine.Gate.{VerifiedHitIn, node_precheck_rules_gate}
use argus_review.Examples.{fetched}

abbrev hit : SarifResult
hit = record {
  rule_id = "aws-key";
  level = "error";
  message = "a key";
  file = some "src/parse.py";
  line = none;
}

abbrev statuses : String → Option String
statuses rule = if rule == "aws-key" then some "verified" else none

-- Trivy finds a key, zizmor crashes, and eslint is not installed.
abbrev machine : Machine
machine = record {
  available = λ name. not (name == "eslint");
  scan = λ name.
      if name == "trivy" then some (hit ∷ []) else if name == "zizmor" then none else some [];
  select_rule_statuses = λ ids. ok statuses;
}

abbrev changed : Option (List String)
changed = some ("src/parse.py" ∷ [])

abbrev reported : PrecheckResult
reported = record {
  candidate_findings = [];
  verified_findings = hit ∷ [];
  failed_scanners = "zizmor" ∷ [];
  missing_scanners = "eslint" ∷ [];
}

run_test : run_precheck machine changed ≡ ok reported
unfolding run_precheck scan_all results_of batch mem classify sorted
run_test = refl

run_precheck_outcome_example :
    (out : PrecheckResult) × (run_precheck machine changed ≡ ok out)
    × (((changed ≡ some []) × (out.verified_findings ≡ []) × (out.candidate_findings ≡ []))
        ⊎ Classified machine changed statuses out)
run_precheck_outcome_example = run_precheck_outcome machine statuses (λ ids. refl) changed

run_precheck-accounts_example :
    (mem "zizmor" reported.missing_scanners
      ≡ (mem "zizmor" (scanners changed) && not (machine.available "zizmor")))
    × (mem "zizmor" reported.failed_scanners ≡ (
        (mem "zizmor" (scanners changed) && machine.available "zizmor")
        && (not ("zizmor" == "semgrep") && is_none (machine.scan "zizmor"))))
run_precheck-accounts_example =
    run_precheck-accounts machine changed reported "zizmor" (λ e. cc) run_test

node_precheck_rules_gate_example :
    (lines : List String) × LinesOf fetched.diff lines
    × ((edge_precheck_decision (node_precheck_rules machine fetched) ≡ precheck_fail)
        ↔ VerifiedHitIn machine statuses lines)
node_precheck_rules_gate_example =
    node_precheck_rules_gate machine statuses (λ ids. refl) fetched refl
