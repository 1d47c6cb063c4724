-- ===== src/Worktree/Pinned.antt =====
-- A body runs in a worktree at the commit that was asked for, and what it leaves behind.
use argus_review.Prelude.{
  ℕ, String, ◌≡◌, refl, ap, ◌⊎◌, inl, inr, Bool, true, false, not, arith, nat_eq, ◌==◌, eq_iff,
}
use argus_review.Prelude.Text.{strip, contains}
use argus_review.Prelude.Result.{Result, ok, err, ◌>>◌, >>=-eq-ok, reject-eq-ok, reject-eq-ok_last}
use argus_review.Scope.Override.{is_sha40}
use argus_review.Worktree.{
  GitError, GitOutcome, World, value_error, runtime_error, run_git, drop_newline, matches_repo,
  validate_repo, validate_sha, is_own_path, ensure_mirror, fetch_sha_into_mirror,
  assert_worktree_sha, remove_worktree, worktree_path, discard, fetched, checked_out,
  provision_worktree, teardown_worktree, provisioned_worktree,
}

result_cases : {E A : Type 0} (r : Result E A) → ((e : E) × (r ≡ err e)) ⊎ ((a : A) × (r ≡ ok a))
result_cases (err e) = inl (e, refl)
result_cases (ok a) = inr (a, refl)

module _ (world : World) where
  -- A cleanup command of git ran into its timeout.
  abbrev pub CleanupTimedOut : Type 0
  CleanupTimedOut =
      (world.worktree_remove ≡ GitOutcome.timed_out) ⊎ (world.worktree_prune ≡ GitOutcome.timed_out)

  -- What is known when a body runs.
  pub record Pinned (repo head_sha : String) : Type 0 where
    pub repo_valid : matches_repo repo ≡ true
    pub no_traversal : contains ".." repo ≡ false
    pub sha_valid : is_sha40 (drop_newline head_sha) ≡ true
    pub status : ℕ
    pub head : String
    pub rev_parse : world.rev_parse_head ≡ GitOutcome.exited status head
    pub at_commit : strip head ≡ head_sha

  run_git-eq-ok :
      (name : String) (outcome : GitOutcome) {answer : ℕ × String}
      → run_git false name outcome ≡ ok answer
      → outcome ≡ GitOutcome.exited answer.0 answer.1
  unfolding run_git
  run_git-eq-ok name GitOutcome.timed_out h = cc
  run_git-eq-ok name (GitOutcome.exited status output) {answer = answer} h =
      (let same : (status, output) ≡ answer = cc in rw (← same) refl)

  run_git-eq-err :
      (name : String) (outcome : GitOutcome) {e : GitError}
      → run_git false name outcome ≡ err e
      → outcome ≡ GitOutcome.timed_out
  unfolding run_git
  run_git-eq-err name GitOutcome.timed_out h = refl
  run_git-eq-err name (GitOutcome.exited status output) h = cc

  remove_worktree-eq-err : (e : GitError) → remove_worktree world ≡ err e → CleanupTimedOut
  unfolding remove_worktree
  remove_worktree-eq-err e failed =
      elim (result_cases (run_git false "worktree remove" world.worktree_remove)) [
        | inl (f, late) ↦ inl (run_git-eq-err "worktree remove" world.worktree_remove late)
        | inr (a, removed) ↦
            elim (result_cases (run_git false "worktree prune" world.worktree_prune)) [
              | inl (f, late) ↦ inr (run_git-eq-err "worktree prune" world.worktree_prune late)
              | inr (b, pruned) ↦
                  (let e' : ok tt ≡ err e = rw (remove_worktree, removed, pruned) at failed in cc)
            ]
      ]

  checked_out-Pinned :
      (repo head_sha : String)
      → fetched world repo head_sha ≡ ok tt
      → checked_out world head_sha ≡ ok tt
      → Pinned repo head_sha
  unfolding fetched checked_out assert_worktree_sha validate_repo validate_sha
  checked_out-Pinned repo head_sha ready done =
      let (first, before_fetch, fetch) =
        >>=-eq-ok (validate_repo repo >> validate_sha head_sha >> ensure_mirror world)
          (λ u. fetch_sha_into_mirror world) ready in
      let (second, before_mirror, mirror) =
        >>=-eq-ok (validate_repo repo >> validate_sha head_sha) (λ u. ensure_mirror world)
          before_fetch in
      let (third, repo_ok, sha_ok) =
        >>=-eq-ok (validate_repo repo) (λ u. validate_sha head_sha) before_mirror in
      let (matched, safe) =
        reject-eq-ok (not (matches_repo repo)) (value_error "Invalid repo format") _ repo_ok in
      let (added, was_added, asserted) =
        >>=-eq-ok (run_git true "worktree add" world.worktree_add)
          (λ a. assert_worktree_sha world head_sha) done in
      let ((status, output), is_head, compared) =
        >>=-eq-ok (run_git false "rev-parse HEAD" world.rev_parse_head) _ asserted in
      let (zero_status, equal) =
        reject-eq-ok (not (nat_eq status 0)) (runtime_error "rev-parse HEAD failed") _ compared in
      record {
        repo_valid = ground (arith, matched);
        no_traversal = reject-eq-ok_last _ _ safe;
        sha_valid =
            (let valid = reject-eq-ok_last (not (is_sha40 (drop_newline head_sha))) _ sha_ok in
              ground (arith, valid));
        status = status;
        head = output;
        rev_parse = run_git-eq-ok "rev-parse HEAD" world.rev_parse_head is_head;
        at_commit =
            (let same = reject-eq-ok_last (not (strip output == head_sha)) _ equal in
              (eq_iff (strip output) head_sha).0 (ground (arith, same)));
      }

  -- The body did not run: what is raised, and what is left.
  abbrev pub NotRun : {A : Type 0} → Result GitError A × Bool → Type 0
  NotRun out =
      (e : GitError) × (out.0 ≡ err e)
      × ((out.1 ≡ false) ⊎ ((out.1 ≡ world.rmtree_leaves) ⊎ CleanupTimedOut))

  -- The body ran: its own result, unless the teardown raised.
  abbrev pub Ran :
      {A : Type 0}
      → String
      → String
      → (String → Result GitError A)
      → Result GitError A × Bool
      → Type 0
  Ran repo head_sha body out =
      Pinned repo head_sha
      × (((out.0 ≡ body (worktree_path world)) × (out.1 ≡ world.rmtree_leaves))
          ⊎ (CleanupTimedOut × (e : GitError) × (out.0 ≡ err e) × (out.1 ≡ true)))

  module _ (own : is_own_path (worktree_path world) world.tmp_parent ≡ true) where
    -- For a private directory with the prefix that was asked for: a body runs only if the repository
    -- and the commit have the right form and HEAD of the worktree is the commit; otherwise an
    -- exception is raised. Either way the directory is gone afterwards, up to what rmtree leaves,
    -- and the result of a body is the result of the statement, unless a cleanup command of git timed
    -- out: then its exception replaces the result and the directory stays.
    pub provisioned_worktree_outcome :
        {A : Type 0} (repo head_sha : String) (body : String → Result GitError A)
        → let out = provisioned_worktree world repo head_sha body in
          NotRun out ⊎ Ran repo head_sha body out
    unfolding provisioned_worktree provision_worktree discard teardown_worktree
    provisioned_worktree_outcome repo head_sha body =
        elim (result_cases (fetched world repo head_sha)) [
          | inl (e, refused) ↦
              let ended : provision_worktree world repo head_sha ≡ (err e, false) =
                rw (provision_worktree, refused) refl in
              inl (rw (provisioned_worktree, ended) (e, refl, inl (ap (λ out. out.1) ended)))
          | inr (u, ready) ↦ elim (result_cases (checked_out world head_sha)) [
            | inl (e, failed) ↦ elim (result_cases (remove_worktree world)) [
              | inl (f, late) ↦
                  let ended : provision_worktree world repo head_sha ≡ (err f, true) =
                    rw (provision_worktree, ready, failed, discard, late) refl in
                  inl (
                    rw (provisioned_worktree, ended)
                      (f, refl, inr (inr (remove_worktree-eq-err f late))))
              | inr (v, cleaned) ↦
                  let ended : provision_worktree world repo head_sha
                      ≡ (err e, world.rmtree_leaves) =
                    rw (provision_worktree, ready, failed, discard, cleaned) refl in
                  inl (
                    rw (provisioned_worktree, ended) (e, refl, inr (inl (ap (λ out. out.1) ended))))
            ]
            | inr (v, done) ↦
                let pinned = checked_out-Pinned repo head_sha ready done in
                let started : provision_worktree world repo head_sha
                    ≡ (ok (worktree_path world), true) =
                  rw (provision_worktree, ready, done) refl in
                elim (result_cases (remove_worktree world)) [
                  | inl (f, late) ↦
                      let torn : teardown_worktree world ≡ (err f, true) =
                        rw (teardown_worktree, own, late) refl in
                      inr (
                        pinned,
                        inr (
                            rw (provisioned_worktree, started, torn)
                              (remove_worktree-eq-err f late, f, refl, refl)),
                      )
                  | inr (w, cleaned) ↦
                      let torn : teardown_worktree world ≡ (ok tt, world.rmtree_leaves) =
                        rw (teardown_worktree, own, cleaned) refl in
                      inr (pinned, inl (rw (provisioned_worktree, started, torn) (refl, refl)))
                ]
          ]
        ]
