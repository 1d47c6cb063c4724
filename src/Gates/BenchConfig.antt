-- ===== src/Gates/BenchConfig.antt =====
-- `apply_bench_config_change_gate` of argus/helpers.py: a change to the reviewer bench, or a
-- detection that could not be completed, forces the verdict.
use Prim.Native.String.{◌++◌ as ◌+++◌}
use argus_review.Prelude.{
  ◌≤◌, String, ◌≡◌, Bool, true, false, not, ◌&&◌, Option, none, some, List, [], ◌∷◌, ◌++◌, length,
  length-append, ◌+◌, ◌⊎◌, inl, inr, refl, Bool-cases, is_empty, arith, if◌then◌else◌,
}
use argus_review.Prelude.Text.{join, has_prefix}
use argus_review.Prelude.Names.{sorted}
use argus_review.Models.{ReviewResponse, Finding, Verdict, Severity}
use argus_review.Scope.{is_set}
use argus_review.Gates.{is_blocking, raise_risk, risk_order, blocking_header, forced_section}
use argus_review.Gates.Header.{rewrite_verdict}

abbrev changed_suggestion : String
changed_suggestion =
    "If this file was not intentionally part of this PR, remove it and re-run. If intentional, this "
    +++ "cannot be resolved by editing code — it requires explicit human sign-off; escalate rather "
    +++ "than dismiss."

abbrev unconfirmed_suggestion : String
unconfirmed_suggestion =
    "Re-run the review once GitHub API connectivity is restored or file limits are resolved, "
    +++ "or obtain explicit human review and sign-off."

-- The one changed file, unless the only change is an added routing line.
file_target : List String → Option String
file_target (path ∷ []) = if has_prefix "added line" path then none else some path
file_target _ = none

changed_description : List String → String
changed_description changes =
    "PR touches Argus bench configuration or routing ("
    +++ join ", " (sorted changes)
    +++ "). This file selects the LLM platform and model for every future reviewer run in this "
    +++ "repo. Modifying review configuration requires explicit human sign-off."

unconfirmed_description : String → String
unconfirmed_description reason =
    "Unable to verify whether this PR modifies Argus reviewer bench configuration (" +++ reason
    +++ "). Because bench configuration controls LLM platform and model selection for every future "
    +++ "reviewer run in this repo, Argus fails closed and requires confirmation before this PR can "
    +++ "be approved."

reason_or_empty : Option String → String
reason_or_empty none = ""
reason_or_empty (some reason) = reason

bench_finding : List String → Option String → Finding
bench_finding changes unconfirmed = record {
  severity = Severity.blocking;
  category = "argus-self-config";
  file = file_target changes;
  line = none;
  description =
      if is_empty changes
      then unconfirmed_description (reason_or_empty unconfirmed)
      else changed_description changes;
  suggestion = some (if is_empty changes then unconfirmed_suggestion else changed_suggestion);
}

bench_note : List String → Option String → String
bench_note changes unconfirmed =
    if is_empty changes
    then "Verification of Argus bench configuration could not be confirmed ("
      +++ reason_or_empty unconfirmed
      +++ ").\n\nArgus fails closed to ensure unverified bench configuration changes are not "
      +++ "silently approved.\n\n**Suggestion**: "
      +++ unconfirmed_suggestion
    else "PR modifies Argus reviewer bench configuration or routing ("
      +++ join ", " (sorted changes)
      +++ "). This file selects the LLM platform and model for every future reviewer run in this "
      +++ "repo. Modifying review configuration requires explicit human sign-off.\n\n"
      +++ "**Suggestion**: "
      +++ changed_suggestion

pub apply_bench_config_change_gate :
    ReviewResponse → List String → Option String → ReviewResponse × Bool
unfolding raise_risk
apply_bench_config_change_gate response changes unconfirmed =
    let risk = raise_risk response.risk_level in
    let comment =
      if is_blocking response.verdict
      then response.review_comment
      else rewrite_verdict (blocking_header risk) response.review_comment in
    if is_empty changes && not (is_set unconfirmed) then (response, false) else (
      record response {
        verdict = Verdict.blocking;
        risk_level = risk;
        findings = response.findings ++ bench_finding changes unconfirmed ∷ [];
        review_comment = comment +++ forced_section (bench_note changes unconfirmed);
      },
      true,
    )

-- The one finding that the gate adds, where it acts.
abbrev pub Added : ReviewResponse → ReviewResponse × Bool → Type 0
Added r out =
    ((out.1 ≡ true)
      × (f : Finding) × (f.severity ≡ Severity.blocking)
      × (f.category ≡ "argus-self-config")
      × (out.0.findings ≡ r.findings ++ f ∷ []))
    ⊎ ((out.1 ≡ false) × (out.0 ≡ r))

pub bench_gate-Added :
    (r : ReviewResponse) (changes : List String) (unconfirmed : Option String)
    → Added r (apply_bench_config_change_gate r changes unconfirmed)
unfolding apply_bench_config_change_gate bench_finding
bench_gate-Added r changes unconfirmed =
    elim (Bool-cases (is_empty changes && not (is_set unconfirmed))) [
      | inl idle ↦ rw idle (inr (refl, refl))
      | inr acts ↦ rw acts (inl (refl, bench_finding changes unconfirmed, refl, refl, refl))
    ]

-- With a change or an unconfirmed reason the gate acts: the verdict is BLOCKING, the risk at least
-- HIGH, and one finding is added. With neither it does not act and the response is unchanged. In
-- both cases the risk is not lowered, and the scope receipt and the halt stay as they were.
pub apply_bench_config_change_gate_lem :
    (r : ReviewResponse) (changes : List String) (unconfirmed : Option String)
    → let out = apply_bench_config_change_gate r changes unconfirmed in
      let acts = not (is_empty changes && not (is_set unconfirmed)) in
      (out.1 ≡ acts)
      × (((acts ≡ true)
            × (out.0.verdict ≡ Verdict.blocking)
            × (2 ≤ risk_order out.0.risk_level)
            × (length out.0.findings ≡ length r.findings + 1))
          ⊎ ((acts ≡ false) × (out.0 ≡ r)))
      × (risk_order r.risk_level ≤ risk_order out.0.risk_level)
      × (out.0.scope ≡ r.scope)
      × (out.0.halt ≡ r.halt)
unfolding apply_bench_config_change_gate
apply_bench_config_change_gate_lem r changes unconfirmed =
    ground (arith, length-append r.findings (bench_finding changes unconfirmed ∷ []))
