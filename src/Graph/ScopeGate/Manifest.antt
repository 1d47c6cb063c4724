-- ===== src/Graph/ScopeGate/Manifest.antt =====
-- The scope gate over GitHub's comparison of two commits: `_fetch_scope_manifest` of argus/graph.py
-- with `get_compare_files` of argus/github_client.py for its parameter.
use argus_review.Prelude.{
  ℕ, ◌≤◌, ◌<◌, String, ◌≡◌, refl, ap, ◌∙◌, ◌⊎◌, ltb→lt, inl, inr, Bool, false, Option, some, List,
  length, take, leb, ltb, arith,
}
use argus_review.Prelude.Result.{Result, ok, err, ◌>>=◌}
use argus_review.Scope.Input.{ChangedFile}
use argus_review.Github.{ClientError, value_error, api_error}
use argus_review.Github.Files.{
  Listed, Shown, shown_files, shown_files-Shown, get_compare_files, cut_cases,
}
use argus_review.Graph.ScopeGate.{
  Raised, scope_unverified, other, whole_listing, fetch_scope_manifest,
}

-- `type(exc).__name__` is all that the gate reports of an exception of the client.
abbrev raised_by : ClientError → Raised
raised_by (value_error message) = other "ValueError"
raised_by (api_error status message) = other "GitHubAPIError"

module _ (request : String → String → String → Result ClientError (Option (List Listed))) where
  abbrev pub compare_with : String → String → String → Result Raised (List ChangedFile × Bool)
  compare_with repo base head = elim (get_compare_files request repo base head) [
    | err raised ↦ err (raised_by raised)
    | ok listing ↦ ok listing
  ]

  compared :
      (repo base head : String) (listed : List Listed)
      → request repo base head ≡ ok (some listed)
      → compare_with repo base head ≡ ok (shown_files listed, leb 300 (length listed))
  unfolding get_compare_files
  compared repo base head listed served = rw (compare_with, get_compare_files, served) refl

ltb-le : (a b : ℕ) → ltb a b ≡ false → b ≤ a
ltb-le a b e = ground arith

-- GitHub's comparison lists the first 300 changed files. With fewer than 300, the manifest of the
-- scope gate has one file for each of them that is an object, in order, with its name, status, patch
-- and previous name, also where there is no patch. With 300 or more the scope is unverified: the
-- gate never goes on with a part of the files.
pub fetch_scope_manifest-whole :
    (request : String → String → String → Result ClientError (Option (List Listed)))
    (repo base head : String) (files : List Listed)
    → request repo base head ≡ ok (some (take 300 files))
    → let manifest = fetch_scope_manifest (compare_with request) repo base head in
      ((length files < 300)
        × (shown : List ChangedFile) × (manifest ≡ ok shown)
        × Shown files shown)
      ⊎ ((300 ≤ length files)
          × (manifest
              ≡ err (
                  scope_unverified
                    "GitHub file list hit the 300-file cap; PR scope cannot be verified")))
unfolding fetch_scope_manifest whole_listing
fetch_scope_manifest-whole request repo base head files served =
    let start =
      ap (λ listing. listing >>= whole_listing)
        (compared request repo base head (take 300 files) served) in
    elim (cut_cases 300 files) [
      | inl (fewer, whole, open_end) ↦ inl (
        ltb→lt _ _ fewer,
        shown_files files,
        start ∙ rw (whole, open_end) refl,
        shown_files-Shown files,
      )
      | inr (cut, capped) ↦ inr (ltb-le (length files) 300 cut, start ∙ rw capped refl)
    ]
