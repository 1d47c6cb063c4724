-- ===== src/Worktree.antt =====
-- argus/repo_provision.py: a worktree pinned to a commit, from its validation to its removal. Git
-- and the file system are parameters: what each command answers, in one record for a run. The state
-- is the one resource that a run makes: whether its private directory exists.
pub mod Pinned
use Prim.Native.Char.{code}
use Prim.Native.String.{◌++◌ as ◌+++◌}
use argus_review.Prelude.{
  ℕ, String, Bool, true, false, not, ◌&&◌, ◌||◌, Option, none, some, leb, nat_eq, if◌then◌else◌,
  ◌==◌,
}
use argus_review.Prelude.Text.{strip, contains, str_empty}
use argus_review.Prelude.Result.{Result, ok, err, reject, ◌>>=◌, ◌>>◌}
use argus_review.Scope.Override.{is_sha40}

pub data GitError : Type 0 where
  value_error runtime_error : String → GitError

-- What `_run_git` meets: the exit code with the output, or the timeout.
pub data GitOutcome : Type 0 where
  exited : ℕ → String → GitOutcome
  timed_out : GitOutcome

-- The answers of a run: of the mirror's directory and commands, of a racing peer's clone, of the
-- worktree's commands, and of both cleanups; and whether `rmtree` leaves something behind.
pub record World : Type 0 where
  pub mirror_exists : Bool
  pub mirror_git_dir : GitOutcome
  pub clone : GitOutcome
  pub peer_sentinel : Bool
  pub peer_git_dir : GitOutcome
  pub fetch : GitOutcome
  pub cat_file : GitOutcome
  pub tmp_parent : String
  pub worktree_add : GitOutcome
  pub rev_parse_head : GitOutcome
  pub worktree_remove : GitOutcome
  pub worktree_prune : GitOutcome
  pub rmtree_leaves : Bool

unfoldable pub run_git : Bool → String → GitOutcome → Result GitError (ℕ × String)
run_git check name timed_out = err (GitError.runtime_error (name +++ " timed out"))
run_git check name (exited status output) =
    if check && not (nat_eq status 0)
    then err (GitError.runtime_error (name +++ " failed"))
    else ok (status, output)

-- A regular expression's `$` also matches before a last line break.
abbrev pub drop_newline : String → String
drop_newline String.[] = String.[]
drop_newline (String.◌∷◌ c s) =
    let rest = drop_newline s in
    if str_empty s && nat_eq (code c) 10 then String.[] else String.◌∷◌ c rest

abbrev pub is_word : ℕ → Bool
is_word c =
    (leb 97 c && leb c 122) || (leb 65 c && leb c 90) || (leb 48 c && leb c 57) || nat_eq c 95

abbrev pub every : (ℕ → Bool) → String → Bool
every p String.[] = true
every p (String.◌∷◌ c s) = p (code c) && every p s

-- `[A-Za-z0-9_][…]*`
abbrev pub segment : (ℕ → Bool) → String → Bool
segment p String.[] = false
segment p (String.◌∷◌ c s) = is_word (code c) && every p s

abbrev pub is_owner_char : ℕ → Bool
is_owner_char c = is_word c || nat_eq c 45

abbrev pub is_name_char : ℕ → Bool
is_name_char c = is_owner_char c || nat_eq c 46

abbrev pub before_slash : String → String
before_slash String.[] = String.[]
before_slash (String.◌∷◌ c s) =
    let rest = before_slash s in if nat_eq (code c) 47 then String.[] else String.◌∷◌ c rest

abbrev pub after_slash : String → Option String
after_slash String.[] = none
after_slash (String.◌∷◌ c s) =
    let rest = after_slash s in if nat_eq (code c) 47 then some s else rest

-- The owner has no slash, so the first slash ends it.
unfoldable pub matches_repo : String → Bool
matches_repo repo = elim (after_slash (drop_newline repo)) [
  | none ↦ false
  | some name ↦
      segment is_owner_char (before_slash (drop_newline repo)) && segment is_name_char name
]

unfoldable pub validate_repo : String → Result GitError Unit
validate_repo repo =
    reject (not (matches_repo repo)) (GitError.value_error "Invalid repo format")
    >> reject (contains ".." repo) (GitError.value_error "Invalid repo format (path traversal)")

unfoldable pub validate_sha : String → Result GitError Unit
validate_sha sha =
    reject (not (is_sha40 (drop_newline sha)))
      (GitError.value_error "head_sha must be exactly 40 lowercase hex chars")

-- The last component of a path.
abbrev pub last_component : String → String
last_component String.[] = String.[]
last_component (String.◌∷◌ c s) =
    let rest = last_component s in if contains "/" (String.◌∷◌ c s) then rest else String.◌∷◌ c s

-- The paths that a teardown accepts, with their directory.
abbrev pub is_own_path : String → String → Bool
is_own_path path cleanup_dir =
    last_component path == "wt" && contains "argus-worktree-" (last_component cleanup_dir)

-- The `finally`: an exception of the teardown replaces what the body gave.
abbrev pub after_body : {A : Type 0} → Result GitError A → Result GitError Unit → Result GitError A
after_body given (ok done) = given
after_body given (err raised) = err raised

module _ (world : World) where
  -- A clone that failed is trusted only if a peer completed the mirror.
  unfoldable pub validate_mirror : Bool
  validate_mirror = world.peer_sentinel && (elim (run_git true "rev-parse" world.peer_git_dir) [
    | ok done ↦ true
    | err raised ↦ false
  ])

  unfoldable pub clone_mirror : Result GitError Unit
  clone_mirror = elim (run_git true "clone" world.clone) [
    | ok done ↦ ok tt
    | err raised ↦ if validate_mirror then ok tt else err raised
  ]

  unfoldable pub ensure_mirror : Result GitError Unit
  ensure_mirror =
      if world.mirror_exists
      then elim (run_git true "rev-parse" world.mirror_git_dir) [
        | ok done ↦ ok tt
        | err raised ↦ clone_mirror
      ]
      else clone_mirror

  unfoldable pub fetch_sha_into_mirror : Result GitError Unit
  fetch_sha_into_mirror = run_git false "fetch" world.fetch >>= λ fetched.
      run_git false "cat-file" world.cat_file >>= λ found.
      reject (not (nat_eq found.0 0)) (GitError.runtime_error "SHA not found in mirror")

  unfoldable pub assert_worktree_sha : String → Result GitError Unit
  assert_worktree_sha expected = run_git false "rev-parse HEAD" world.rev_parse_head >>= λ head.
      reject (not (nat_eq head.0 0)) (GitError.runtime_error "rev-parse HEAD failed")
      >> reject (not (strip head.1 == expected)) (GitError.runtime_error "Worktree SHA mismatch")

  unfoldable pub remove_worktree : Result GitError Unit
  remove_worktree = run_git false "worktree remove" world.worktree_remove >>= λ removed.
      run_git false "worktree prune" world.worktree_prune >>= λ pruned. ok tt

  abbrev pub worktree_path : String
  worktree_path = world.tmp_parent +++ "/wt"

  -- The except clause: the removal by git, which may raise itself, and then the directory.
  unfoldable pub discard : GitError → Result GitError String × Bool
  discard raised = elim remove_worktree [
    | err again ↦ (err again, true)
    | ok done ↦ (err raised, world.rmtree_leaves)
  ]

  unfoldable pub fetched : String → String → Result GitError Unit
  fetched repo head_sha =
      validate_repo repo >> validate_sha head_sha >> ensure_mirror >> fetch_sha_into_mirror

  unfoldable pub checked_out : String → Result GitError Unit
  checked_out head_sha =
      run_git true "worktree add" world.worktree_add >>= λ added. assert_worktree_sha head_sha

  -- The path, or an exception; and whether the directory is there afterwards.
  unfoldable pub provision_worktree : String → String → Result GitError String × Bool
  provision_worktree repo head_sha = elim (fetched repo head_sha) [
    | err raised ↦ (err raised, false)
    | ok ready ↦ elim (checked_out head_sha) [
      | err raised ↦ discard raised
      | ok done ↦ (ok worktree_path, true)
    ]
  ]

  unfoldable pub teardown_worktree : Result GitError Unit × Bool
  teardown_worktree =
      if not (is_own_path worktree_path world.tmp_parent)
      then (err (GitError.value_error "Refusing to clean up unexpected worktree path"), true)
      else elim remove_worktree [
        | err raised ↦ (err raised, true)
        | ok done ↦ (ok tt, world.rmtree_leaves)
      ]

  -- The context manager around a body: what its statement gives, and whether the directory is
  -- there afterwards.
  unfoldable pub provisioned_worktree :
      {A : Type 0} → String → String → (String → Result GitError A) → Result GitError A × Bool
  provisioned_worktree repo head_sha body =
      let (path, present) = provision_worktree repo head_sha in
      elim path [
        | err raised ↦ (err raised, present)
        | ok tree ↦
            let (removed, left) = teardown_worktree in (after_body (body tree) removed, left)
      ]
