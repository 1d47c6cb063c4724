-- ===== src/Graph/Validate/Survivors.antt =====
-- Which findings survive the validator.
use argus_review.Prelude.{
  ◌<◌, String, ◌≡◌, ◌↔◌, refl, ap, ◌∙◌, ◌⊎◌, inl, inr, Bool, true, false, not, ◌&&◌, Option, none,
  some, List, [], ◌∷◌, length, keep, any, is_empty, arith, Bool-cases,
}
use argus_review.Prelude.Result.{Result, ok}
use argus_review.Prelude.Membership.{In, In-keep, keep-All}
use argus_review.Prelude.Names.{mem}
use argus_review.Models.{ReviewResponse, Finding}
use argus_review.Pipeline.{FindingValidationItem}
use argus_review.Gates.{is_blocking, is_blocking_finding}
use argus_review.Validator.{Raise, Json, parse_validation_result}
use argus_review.Validator.Complete.{InRange}
use argus_review.Validator.Settled.{parse_validation_result-Whole}
use argus_review.Graph.{ReviewState}
use argus_review.Graph.Validate.{
  is_rejected, dropped_descriptions, survives, without_rejected, apply_validation,
  validated_response, node_validate_blockings,
}
use argus_review.Graph.Validate.Dropped.{Names, dropped_of_ok}

-- The response is as it was: there is no BLOCKING finding, or none was rejected.
pub record Kept (state out : ReviewState) (response : ReviewResponse)
    (items : List FindingValidationItem) : Type 0 where
  pub nothing_rejected :
      (any is_blocking_finding response.findings && any is_rejected items) ≡ false
  pub same : out.response ≡ state.response

-- A BLOCKING finding is gone exactly if a rejected item names its description. The verdict follows
-- from the findings that are left.
pub record Cut (out : ReviewState) (response : ReviewResponse) (items : List FindingValidationItem)
    : Type 0 where
  pub cut : ReviewResponse
  pub stored : out.response ≡ some cut
  pub some_rejected : any is_rejected items ≡ true
  pub survivors :
      (f : Finding)
      → In f cut.findings ↔ (
          In f response.findings
          × ((is_blocking_finding f ≡ false)
              ⊎ ¬ Names
                  (keep is_blocking_finding response.findings)
                  (keep is_rejected items)
                  f.description))
  pub dropped : length cut.dropped_findings ≡ length (keep is_rejected items)
  pub verdict : is_blocking cut.verdict ≡ any is_blocking_finding cut.findings
  pub risk : cut.risk_level ≡ response.risk_level

survives_iff :
    (f : Finding) (names : List String) (P : Type 0)
    → (mem f.description names ≡ true) ↔ P
    → (survives names f ≡ true) ↔ ((is_blocking_finding f ≡ false) ⊎ ¬ P)
survives_iff f names P (there, back) = (out, into)
  where
    out : survives names f ≡ true → (is_blocking_finding f ≡ false) ⊎ ¬ P
    out e = elim (Bool-cases (is_blocking_finding f)) [
      | inr minor ↦ inl minor
      | inl major ↦ inr (λ p. (let named = back p in absurd (ground arith)))
    ]

    into : (is_blocking_finding f ≡ false) ⊎ ¬ P → survives names f ≡ true
    into (inl minor) = rw minor refl
    into (inr unnamed) = elim (Bool-cases (mem f.description names)) [
      | inl named ↦ absurd (unnamed (there named))
      | inr absent ↦ ground arith
    ]

is_empty-keep {ℓ} :
    {A : Type ℓ} (p : A → Bool) (xs : List A) → is_empty (keep p xs) ≡ not (any p xs)
is_empty-keep p [] = refl
is_empty-keep p (x ∷ xs) = ground (arith, is_empty-keep p xs)

apply_validation-Cut :
    (state : ReviewState) (response : ReviewResponse) (items : List FindingValidationItem)
    → state.response ≡ some response
    → InRange (length (keep is_blocking_finding response.findings)) items
    → (out : ReviewState) × (apply_validation state response items ≡ ok out)
      × (Kept state out response items ⊎ Cut out response items)
unfolding apply_validation
apply_validation-Cut state response items stored ranged =
    let blocking = keep is_blocking_finding response.findings in
    let rejected = keep is_rejected items in
    elim (Bool-cases (is_empty rejected)) [
      | inl nothing ↦ (
        record state { validation = some items },
        rw nothing refl,
        inl (record {
          nothing_rejected = ground (arith, is_empty-keep is_rejected items);
          same = refl;
        }),
      )
      | inr something ↦
          let d = dropped_of_ok blocking rejected (keep-All is_rejected _ items ranged) in
          (
            record state {
              response = some (without_rejected response d.ds);
              validation = some items;
            },
            rw (something, d.made) refl,
            inr (
                unfold without_rejected in
                (record {
                  cut = without_rejected response d.ds;
                  stored = refl;
                  some_rejected = ground (arith, is_empty-keep is_rejected items);
                  survivors = λ f.
                      let (there, back) =
                        In-keep (survives (dropped_descriptions d.ds)) f response.findings in
                      let (alive, unnamed) =
                        survives_iff f (dropped_descriptions d.ds) _ (d.named f.description) in
                      (
                        λ i. (let (found, good) = there i in (found, alive good)),
                        λ (found, why). back (found, unnamed why),
                      );
                  dropped = d.count;
                  verdict = ground arith;
                  risk = refl;
                })),
          )
    ]

some_blocking : (fs : List Finding) → is_empty fs ≡ false → 0 < length fs
some_blocking [] e = cc
some_blocking (f ∷ fs) e = omega arith

module _ (loads : String → Option Json)
    (session : List Finding → String → Result Raise String) where
  -- In a run with a response, a validator session that answers and a text that is parsed: the node
  -- ends; and either no BLOCKING finding is rejected and the response stays, or the findings left
  -- are exactly the others and those BLOCKING ones whose description no rejected item names, one
  -- finding is dropped per rejected item, and the verdict is BLOCKING exactly if such a finding is
  -- left.
  pub node_validate_blockings_outcome :
      (state : ReviewState) (response : ReviewResponse) (text : String)
      (items : List FindingValidationItem)
      → state.response ≡ some response
      → session (keep is_blocking_finding response.findings) state.diff ≡ ok text
      → parse_validation_result loads text (length (keep is_blocking_finding response.findings))
        ≡ ok items
      → (out : ReviewState) × (node_validate_blockings loads session state ≡ ok out)
        × (Kept state out response items ⊎ Cut out response items)
  unfolding node_validate_blockings validated_response
  node_validate_blockings_outcome state response text items stored answered parsed =
      let blocking = keep is_blocking_finding response.findings in
      elim (Bool-cases (is_empty blocking)) [
        | inl nothing ↦ (
          record state { validation = none },
          ap (validated_response loads session state) stored ∙ rw nothing refl,
          inl (record {
            nothing_rejected = ground (arith, is_empty-keep is_blocking_finding response.findings);
            same = refl;
          }),
        )
        | inr something ↦
            let whole =
              parse_validation_result-Whole loads text (length blocking) 0
                (some_blocking blocking something) parsed in
            let (out, done, outcome) =
              apply_validation-Cut state response items stored whole.in_range in
            (
              out,
              ap (validated_response loads session state) stored
                  ∙ rw (something, answered, parsed) done,
              outcome,
            )
      ]
