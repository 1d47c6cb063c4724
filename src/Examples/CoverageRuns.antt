-- ===== src/Examples/CoverageRuns.antt =====
-- The coverage check at a round in which the one file was explored only by a session that failed.
use argus_review.Prelude.{
  String, ◌≡◌, ◌⊎◌, ◌↔◌, refl, true, false, none, some, List, [], ◌∷◌, keep, is_empty,
}
use argus_review.Prelude.Result.{Result, ok, ◌>>=◌}
use argus_review.Prelude.Names.{mem}
use argus_review.Pipeline.{ReviewPlan, SystemReviewResult, CoverageResult}
use argus_review.Pipeline.Failure.{timeout}
use argus_review.Graph.{ReviewState}
use argus_review.Graph.Dispatch.{node, has_completed}
use argus_review.Graph.Coverage.{with_coverage, node_check_coverage, edge_coverage_decision}
use argus_review.Graph.Coverage.Check.{check_coverage}
use argus_review.Graph.Coverage.Seen.{Seen, Listed, check_coverage_outcome}
use argus_review.Examples.{small_plan, fetched, review_of}

abbrev one_file : ReviewPlan
one_file = record small_plan {
  file_manifest = record { path = "src/parse.py"; change_type = "modified" } ∷ [];
}

abbrev timed_out : ReviewState
timed_out = record fetched {
  plan = some one_file;
  findings =
      record (review_of "core" (some timeout)) { files_explored = "src/parse.py" ∷ [] }
      ∷ review_of "docs" none
      ∷ [];
}

abbrev trusting : ReviewPlan → List SystemReviewResult → List String → Result String CoverageResult
trusting plan results files = ok (record { is_covered = true; gaps = [] })

check_coverage_outcome_example :
    (files : List String) × ((file : String)
      → (mem file files ≡ true)
        ↔ (Listed file one_file.file_manifest × ¬ Seen file timed_out.findings))
    × (((is_empty files ≡ true)
          × (out : ReviewState) × (node_check_coverage (check_coverage trusting) timed_out ≡ ok out)
          × (edge_coverage_decision out ≡ ok (node "write_review")))
        ⊎ ((is_empty files ≡ false)
            × (node_check_coverage (check_coverage trusting) timed_out ≡ (
                trusting one_file (keep has_completed timed_out.findings) files
                >>= (λ coverage. ok (with_coverage timed_out coverage))))))
check_coverage_outcome_example = check_coverage_outcome trusting timed_out one_file refl refl
