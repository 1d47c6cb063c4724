-- ===== src/Examples/PreflightRuns.antt =====
-- The preflight routing at concrete diffs.
use argus_review.Prelude.{String, ◌≡◌, refl, true, none, some, [], ◌∷◌}
use argus_review.Prelude.Text.{
  str_drop, str_length, lstrip, strip, is_space, has_prefix, has_suffix, contains,
}
use argus_review.Pipeline.{VerificationStatus}
use argus_review.Graph.{ReviewState}
use argus_review.Graph.Preflight.{
  path_pair, path_pairs, pairs_in, paths_of, is_high_blast_radius, is_high_blast_path,
  is_image_tag_bump_only,
}
use argus_review.Examples.{fetched}

abbrev two_files : String
two_files =
    "diff --git a/docs/a.md b/docs/a.md\n+x\ndiff --git a/ops/x.tf b/ops/x.tf\n--- a/ops/x.tf\n+++ b/ops/x.tf\n+y"

abbrev lite_asked : ReviewState
lite_asked = record fetched {
  diff = two_files;
  is_lite = true;
  verification = some (
      record {
        prior_finding = record {
          severity = "BLOCKING";
          category = "correctness";
          file = none;
          line = none;
          description = "leak";
          suggestion = none;
        };
        status = VerificationStatus.resolved;
        rationale = "closed in the new code";
      }
      ∷ []);
}

terraform_found : is_high_blast_radius two_files ≡ some "ops/x.tf"
unfolding is_high_blast_radius path_pairs pairs_in path_pair paths_of is_high_blast_path str_drop
    str_length is_space has_prefix has_suffix contains
terraform_found = refl

-- A path with a space is not seen.
spaced_path_missed :
    is_high_blast_radius "diff --git a/infrastructure/a b.tf b/infrastructure/a b.tf" ≡ none
unfolding is_high_blast_radius path_pairs pairs_in path_pair paths_of is_high_blast_path str_drop
    str_length is_space has_prefix has_suffix contains
spaced_path_missed = refl

tag_bump :
    is_image_tag_bump_only
      "diff --git a/p.tfvars b/p.tfvars\n--- a/p.tfvars\n+++ b/p.tfvars\n-web_image_tag = \"sha-0123456\"\n+web_image_tag = \"sha-89abcde\""
    ≡ true
unfolding is_image_tag_bump_only path_pairs pairs_in path_pair str_drop str_length is_space strip
    lstrip has_prefix has_suffix contains
tag_bump = refl
