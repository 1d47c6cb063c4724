-- ===== src/Graph/Precheck.antt =====
-- `_edge_precheck_decision` and `_node_precheck_fail` of argus/graph.py: a hit of a verified rule
-- ends the run before any model is asked.
pub mod FastFail
use Prim.Native.String.{◌++◌ as ◌+++◌}
use argus_review.Prelude.{
  ℕ, ◌-◌, String, Bool, true, false, Option, none, some, List, [], ◌∷◌, ◌++◌, map, length, take,
  is_empty, ltb, if◌then◌else◌,
}
use argus_review.Prelude.Text.{join, show}
use argus_review.Prelude.Names.{dedup, sorted}
use argus_review.Models.{ReviewResponse, Finding, Severity, Verdict, RiskLevel}
use argus_review.Graph.{ReviewState, VerifiedHit, round_of, prior_id_of}

abbrev pub max_displayed_fast_fail_hits : ℕ
max_displayed_fast_fail_hits = 50

pub data PrecheckRoute : Type 0 where
  precheck_fail scope_gate : PrecheckRoute

unfoldable pub edge_precheck_decision : ReviewState → PrecheckRoute
edge_precheck_decision state =
    if is_empty state.precheck_fast_fail then scope_gate else precheck_fail

message_of : Option String → String
message_of none = "Deterministic precheck rule violation"
message_of (some message) = message

unfoldable pub hit_finding : VerifiedHit → Finding
unfolding message_of
hit_finding hit = record {
  severity = Severity.blocking;
  category = "deterministic-precheck";
  file = hit.file;
  line = hit.line;
  description = message_of hit.message;
  suggestion = none;
}

rule_ids : List VerifiedHit → List String
rule_ids [] = []
rule_ids (hit ∷ hits) = hit.rule_id ∷ rule_ids hits

file_text : Option String → String
file_text none = "None"
file_text (some file) = file

line_text : Option ℕ → String
line_text none = "None"
line_text (some line) = show line

finding_line : Finding → String
unfolding file_text line_text
finding_line f =
    "- **" +++ file_text f.file +++ ":" +++ line_text f.line +++ "** — " +++ f.description

comment_lines : List VerifiedHit → List Finding → ℕ → List String
unfolding rule_ids finding_line
comment_lines hits findings omitted =
    "## Code Review — Deterministic Precheck"
    ∷ ""
    ∷ ("Blocked before review by verified rule(s): `"
        +++ join ", " (sorted (dedup (rule_ids hits)))
        +++ "`.")
    ∷ ""
    ∷ (map finding_line findings
        ++ (if ltb 0 omitted
            then ("- ...and " +++ show omitted +++ " more hit(s) (truncated for display)") ∷ []
            else []))

unfoldable pub fail_response : ReviewState → ReviewResponse
unfolding comment_lines
fail_response state =
    let hits = state.precheck_fast_fail in
    let displayed = take max_displayed_fast_fail_hits hits in
    let findings = map hit_finding displayed in
    record {
      verdict = Verdict.blocking;
      risk_level = RiskLevel.high;
      findings = findings;
      dropped_findings = [];
      prior_feedback = [];
      notes_for_next_round = none;
      review_comment = join "\n" (comment_lines hits findings (length hits - length displayed));
      review_round = round_of state.prior_review;
      prior_review_id = prior_id_of state.prior_review;
      lite_mode = false;
      preflight_reason = "deterministic precheck fast-fail (verified rule hit, no LLM spend)";
      scope = none;
      halt = none;
    }

unfoldable pub node_precheck_fail : ReviewState → ReviewState
node_precheck_fail state = record state { response = some (fail_response state) }
