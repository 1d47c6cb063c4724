-- ===== src/Examples/PrecheckRuns.antt =====
-- The failure node at one hit.
use argus_review.Prelude.{◌≤◌, ◌≡◌, ◌≢◌, true, false, none, some, [], ◌∷◌, length, All}
use argus_review.Prelude.Result.{ok}
use argus_review.Models.{ReviewResponse}
use argus_review.Gates.{is_blocking, is_blocking_finding}
use argus_review.Graph.{ReviewState}
use argus_review.Graph.Finish.{CodeReviewRoundIn, finish}
use argus_review.Graph.Precheck.{
  max_displayed_fast_fail_hits, precheck_fail, edge_precheck_decision, fail_response,
  node_precheck_fail,
}
use argus_review.Graph.Precheck.FastFail.{precheck_fail_blocks}
use argus_review.Examples.{fetched, is_read_timeout}

abbrev hit : ReviewState
hit = record fetched {
  precheck_fast_fail =
      record { rule_id = "no-eval"; file = some "src/parse.py"; line = some 4; message = none }
      ∷ [];
}

one_hit : hit.precheck_fast_fail ≢ []
one_hit e = cc

precheck_fail_blocks_example :
    let response = fail_response hit in
    (edge_precheck_decision hit ≡ precheck_fail)
    × (1 ≤ length response.findings)
    × (length response.findings ≤ max_displayed_fast_fail_hits)
    × All (λ f. is_blocking_finding f ≡ true) response.findings
    × (out : ReviewResponse) × (row : CodeReviewRoundIn) × (finish is_read_timeout none false
          (node_precheck_fail hit)
        ≡ ok (out, row))
    × (is_blocking out.verdict ≡ true)
    × (row.verdict ≡ some out.verdict)
precheck_fail_blocks_example = precheck_fail_blocks is_read_timeout none false hit one_hit
