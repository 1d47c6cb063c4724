-- ===== src/Graph/Validate.antt =====
-- `_node_validate_blockings` of argus/graph.py: the BLOCKING findings that the validator rejects
-- leave the response, and the verdict is computed again.
pub mod Survivors
pub mod Dropped
use Prim.Native.String.{◌++◌ as ◌+++◌}
use argus_review.Prelude.{
  ℕ, String, Bool, true, false, not, ◌&&◌, Option, none, some, List, [], ◌∷◌, map, length,
  get_elem?, keep, any, is_empty, if◌then◌else◌,
}
use argus_review.Prelude.Result.{Result, ok, err, ◌>>=◌}
use argus_review.Prelude.Text.{show}
use argus_review.Prelude.Names.{mem}
use argus_review.Models.{ReviewResponse, Finding, DroppedFinding, Verdict, RiskLevel}
use argus_review.Pipeline.{ValidationVerdict, FindingValidationItem}
use argus_review.Gates.{is_blocking, is_blocking_finding, risk_text}
use argus_review.Gates.Header.{rewrite_verdict}
use argus_review.Validator.{Raise, escaped, Json, parse_validation_result}
use argus_review.Graph.{ReviewState}

abbrev pub is_rejected : FindingValidationItem → Bool
is_rejected item = elim item.verdict [
  | ValidationVerdict.confirmed ↦ false
  | ValidationVerdict.rejected ↦ true
]

-- `DroppedFinding(blocking_findings[item.index], item.evidence)` for each rejected item; an index
-- out of range is an `IndexError`.
abbrev pub drop_one :
    Option Finding
    → String
    → Result Raise (List DroppedFinding)
    → Result Raise (List DroppedFinding)
drop_one (some f) evidence (ok rest) =
    ok (record { finding = f; rejection_rationale = evidence } ∷ rest)
drop_one (some f) evidence (err e) = err e
drop_one none evidence rest = err escaped

abbrev pub dropped_of :
    List Finding → List FindingValidationItem → Result Raise (List DroppedFinding)
dropped_of findings [] = ok []
dropped_of findings (item ∷ items) =
    let rest = dropped_of findings items in
    drop_one (get_elem? findings item.index) item.evidence rest

abbrev pub dropped_descriptions : List DroppedFinding → List String
dropped_descriptions [] = []
dropped_descriptions (d ∷ ds) = d.finding.description ∷ dropped_descriptions ds

abbrev pub survives : List String → Finding → Bool
survives rejected f = not (is_blocking_finding f && mem f.description rejected)

drop_lines : List DroppedFinding → String
drop_lines [] = ""
drop_lines (d ∷ ds) =
    "- ~~"
    +++ d.finding.description
    +++ "~~\n  **Rejected:** "
    +++ d.rejection_rationale
    +++ "\n\n"
    +++ drop_lines ds

drop_note : List DroppedFinding → String
unfolding drop_lines
drop_note dropped =
    "\n\n---\n\n<details><summary>🔍 Validator: "
    +++ show (length dropped)
    +++ " finding(s) rejected as false positive</summary>\n\n"
    +++ drop_lines dropped
    +++ "</details>"

approve_header : RiskLevel → String
approve_header risk = "**Verdict**: ✅ APPROVE | **Risk**: " +++ risk_text risk

unfoldable pub without_rejected : ReviewResponse → List DroppedFinding → ReviewResponse
unfolding drop_note approve_header
without_rejected response dropped =
    let surviving = keep (survives (dropped_descriptions dropped)) response.findings in
    let verdict = if any is_blocking_finding surviving then Verdict.blocking else Verdict.approve in
    record response {
      findings = surviving;
      dropped_findings = dropped;
      verdict = verdict;
      review_comment =
          (if is_blocking verdict
            then response.review_comment
            else rewrite_verdict (approve_header response.risk_level) response.review_comment)
          +++ drop_note dropped;
    }

unfoldable pub apply_validation :
    ReviewState → ReviewResponse → List FindingValidationItem → Result Raise ReviewState
apply_validation state response items =
    let rejected = keep is_rejected items in
    if is_empty rejected
    then ok (record state { validation = some items })
    else (dropped_of (keep is_blocking_finding response.findings) rejected >>= (λ dropped.
        ok (record state {
          response = some (without_rejected response dropped);
          validation = some items;
        })))

-- The validator's session, of which the text is used, and the JSON decoder are parameters.
module _ (loads : String → Option Json)
    (session : List Finding → String → Result Raise String) where
  unfoldable pub validated_response : ReviewState → Option ReviewResponse → Result Raise ReviewState
  validated_response state none = err escaped
  validated_response state (some response) =
      let blocking = keep is_blocking_finding response.findings in
      if is_empty blocking
      then ok (record state { validation = none })
      else (session blocking state.diff
          >>= (λ text. parse_validation_result loads text (length blocking))
          >>= apply_validation state response)

  unfoldable pub node_validate_blockings : ReviewState → Result Raise ReviewState
  node_validate_blockings state = validated_response state state.response
