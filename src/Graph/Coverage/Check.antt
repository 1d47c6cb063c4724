-- ===== src/Graph/Coverage/Check.antt =====
-- `check_coverage` of argus/graph.py and `collect_reviewed_files` of argus/helpers.py: the
-- difference of the manifest and the files that completed sessions explored or named; a model is
-- asked only where it is not empty.
use argus_review.Prelude.{
  String, true, Option, none, some, List, [], ◌∷◌, ◌++◌, is_empty, if◌then◌else◌,
}
use argus_review.Prelude.Result.{Result, ok}
use argus_review.Prelude.Text.{str_empty}
use argus_review.Prelude.Names.{dedup, minus, sorted}
use argus_review.Pipeline.{ReviewPlan, FileEntry, RawFinding, SystemReviewResult, CoverageResult}

unfoldable pub manifest_paths : List FileEntry → List String
manifest_paths [] = []
manifest_paths (f ∷ fs) = f.path ∷ manifest_paths fs

-- `if finding.file: reviewed.add(finding.file)`
unfoldable pub add_file : Option String → List String → List String
add_file none files = files
add_file (some file) files = if str_empty file then files else file ∷ files

unfoldable pub named_files : List RawFinding → List String
named_files [] = []
named_files (f ∷ fs) = add_file f.file (named_files fs)

unfoldable pub collect_reviewed_files : List SystemReviewResult → List String
unfolding named_files add_file
collect_reviewed_files [] = []
collect_reviewed_files (r ∷ rs) =
    r.files_explored ++ named_files r.findings ++ collect_reviewed_files rs

unfoldable pub uncovered : ReviewPlan → List SystemReviewResult → List String
uncovered plan results =
    minus (dedup (manifest_paths plan.file_manifest)) (collect_reviewed_files results)

-- The model's triage of the uncovered files may raise.
module _
    (triage : ReviewPlan
      → List SystemReviewResult
      → List String
      → Result String CoverageResult) where
  unfoldable pub check_coverage :
      ReviewPlan → List SystemReviewResult → Result String CoverageResult
  check_coverage plan results =
      let left = uncovered plan results in
      if is_empty left
      then ok (record { is_covered = true; gaps = [] })
      else triage plan results (sorted left)
