-- ===== src/Graph/Precheck/FastFail.antt =====
-- From a verified hit to the end of the run.
use argus_review.Prelude.{
  suc, ◌≤◌, String, ◌≡◌, ◌≢◌, refl, ap, inl, inr, Bool, true, Option, some, List, [], ◌∷◌, map,
  length, take, length-take-le, All, arith,
}
use argus_review.Prelude.Result.{ok}
use argus_review.Models.{ReviewResponse}
use argus_review.Gates.{is_blocking, is_blocking_finding}
use argus_review.Graph.{ReviewState, VerifiedHit}
use argus_review.Graph.Finish.{CodeReviewRoundIn, finish}
use argus_review.Graph.Finish.Approval.{forced, finish_outcome}
use argus_review.Graph.Precheck.{
  max_displayed_fast_fail_hits, precheck_fail, edge_precheck_decision, hit_finding, fail_response,
  node_precheck_fail,
}

length-map {ℓ} : {A B : Type ℓ} (f : A → B) (xs : List A) → length (map f xs) ≡ length xs
length-map f [] = refl
length-map f (x ∷ xs) = ap suc (length-map f xs)

hits-blocking :
    (hits : List VerifiedHit) → All (λ f. is_blocking_finding f ≡ true) (map hit_finding hits)
unfolding hit_finding
hits-blocking [] = tt
hits-blocking (hit ∷ hits) = (refl, hits-blocking hits)

some_shown : (hits : List VerifiedHit) → hits ≢ [] → 1 ≤ length (take 50 hits)
some_shown [] h = absurd (h refl)
some_shown (hit ∷ hits) h = omega arith

-- A run with a hit of a verified rule routes to the failure node, whose response has between 1 and
-- 50 findings, all BLOCKING; and whatever the settings, the run then returns: BLOCKING, with a row
-- that stores this verdict, and without need of a receipt.
pub precheck_fail_blocks :
    (canon : String → Bool) (run : Option String) (block : Bool) (state : ReviewState)
    → state.precheck_fast_fail ≢ []
    → let response = fail_response state in
      (edge_precheck_decision state ≡ precheck_fail)
      × (1 ≤ length response.findings)
      × (length response.findings ≤ max_displayed_fast_fail_hits)
      × All (λ f. is_blocking_finding f ≡ true) response.findings
      × (out : ReviewResponse) × (row : CodeReviewRoundIn) × (finish canon run block
            (node_precheck_fail state)
          ≡ ok (out, row))
      × (is_blocking out.verdict ≡ true)
      × (row.verdict ≡ some out.verdict)
unfolding edge_precheck_decision fail_response node_precheck_fail forced
precheck_fail_blocks canon run block state some_hit =
    let displayed = take max_displayed_fast_fail_hits state.precheck_fast_fail in
    elim (finish_outcome canon run block (node_precheck_fail state) (fail_response state) refl
      refl) [
        | inr refused ↦ absurd (let e = refused.approving in cc)
        | inl f ↦ (
          routed state.precheck_fast_fail some_hit,
          omega (
            arith,
            length-map hit_finding displayed,
            some_shown state.precheck_fast_fail some_hit,
          ),
          omega (
            arith,
            length-map hit_finding displayed,
            length-take-le max_displayed_fast_fail_hits state.precheck_fast_fail,
          ),
          hits-blocking displayed,
          f.out,
          f.row,
          f.returned,
          f.verdict,
          f.stored,
        )
      ]
  where
    routed :
        (hits : List VerifiedHit)
        → hits ≢ []
        → edge_precheck_decision (record state { precheck_fast_fail = hits }) ≡ precheck_fail
    routed [] h = absurd (h refl)
    routed (hit ∷ hits) h = refl
