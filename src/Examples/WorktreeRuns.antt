-- ===== src/Examples/WorktreeRuns.antt =====
-- A run of the worktree's context manager whose teardown meets a timeout of git.
use Prim.Native.String.{◌++◌ as ◌+++◌}
use argus_review.Prelude.{ℕ, String, ◌≡◌, refl, ◌⊎◌, true, false}
use argus_review.Prelude.Text.{contains, has_prefix}
use argus_review.Prelude.Result.{Result, ok}
use argus_review.Worktree.{
  GitError, World, exited, timed_out, is_own_path, worktree_path, provisioned_worktree,
}
use argus_review.Worktree.Pinned.{NotRun, Ran, provisioned_worktree_outcome}
use argus_review.Examples.{head_sha}

abbrev slow_cleanup : World
slow_cleanup = record {
  mirror_exists = true;
  mirror_git_dir = exited 0 ".";
  clone = exited 1 "";
  peer_sentinel = false;
  peer_git_dir = exited 128 "";
  fetch = exited 0 "";
  cat_file = exited 0 "";
  tmp_parent = "/tmp/argus-worktree-x1";
  worktree_add = exited 0 "";
  rev_parse_head = exited 0 (head_sha +++ "\n");
  worktree_remove = timed_out;
  worktree_prune = exited 0 "";
  rmtree_leaves = false;
}

abbrev body : String → Result GitError ℕ
body path = ok 7

own : is_own_path (worktree_path slow_cleanup) slow_cleanup.tmp_parent ≡ true
unfolding contains has_prefix
own = refl

provisioned_worktree_outcome_example :
    let out = provisioned_worktree slow_cleanup "org/app" head_sha body in
    NotRun slow_cleanup out ⊎ Ran slow_cleanup "org/app" head_sha body out
provisioned_worktree_outcome_example =
    provisioned_worktree_outcome slow_cleanup own "org/app" head_sha body
