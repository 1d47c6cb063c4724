-- ===== src/Github.antt =====
-- argus/github_client.py: pagination, the search for Argus's comment, and what is written. The
-- service is an oracle: what a request for a page returns or raises. A `while` loop has fuel, and a
-- run that exhausts it gives `none`.
pub mod Files
pub mod Pages
pub mod Upsert
use Prim.Native.Char.{code}
use Prim.Native.String.{◌++◌ as ◌+++◌}
use argus_review.Prelude.{
  ℕ, zero, suc, ◌+◌, ◌*◌, String, Bool, true, false, not, ◌&&◌, ◌||◌, Option, none, some, List, [],
  ◌∷◌, ◌++◌, length, take, is_empty, leb, ltb, nat_eq, if◌then◌else◌, ◌==◌, any,
}
use argus_review.Prelude.Text.{str_length, str_take, str_empty, show, contains}
use argus_review.Prelude.Result.{Result, ok, err, reject, ◌>>=◌, ◌>>◌}
use argus_review.Worktree.{matches_repo, drop_newline, every}

pub data ClientError : Type 0 where
  value_error : String → ClientError
  api_error : ℕ → String → ClientError

abbrev pub min_of : ℕ → ℕ → ℕ
min_of a b = if leb a b then a else b

module _ {A : Type 0} (request : ℕ → Result ClientError (List A)) where
  -- The loop of `_paginate`, from a page on.
  unfoldable pub paginate_from : ℕ → ℕ → ℕ → ℕ → List A → Option (Result ClientError (List A))
  paginate_from zero per_page max_items page all_items = none
  paginate_from (suc fuel) per_page max_items page all_items =
      elim (ltb (length all_items) max_items) [
        | false ↦ some (ok (take max_items all_items))
        | true ↦ elim (request page) [
          | err raised ↦ some (err raised)
          | ok items ↦ elim (is_empty items) [
            | true ↦ some (ok (take max_items all_items))
            | false ↦ elim (ltb (length items) per_page) [
              | true ↦ some (ok (take max_items (all_items ++ items)))
              | false ↦ paginate_from fuel per_page max_items (page + 1) (all_items ++ items)
            ]
          ]
        ]
      ]

  unfoldable pub paginate : ℕ → ℕ → Option (Result ClientError (List A))
  paginate fuel max_items = paginate_from fuel (min_of 100 max_items) max_items 1 []

pub record Comment : Type 0 where
  pub id : ℕ
  pub body : Option String

abbrev pub marker : String → ℕ → String
marker repo pr = "<!-- argus-review: " +++ repo +++ "#" +++ show pr +++ " -->"

-- `marker in (comment.get("body") or "")`
abbrev pub has_marker : String → Comment → Bool
has_marker tag comment = elim comment.body [ none ↦ false | some body ↦ contains tag body ]

unfoldable pub first_marked : String → List Comment → Option Comment
first_marked tag [] = none
first_marked tag (c ∷ cs) =
    let later = first_marked tag cs in if has_marker tag c then some c else later

abbrev pub comments_per_page : ℕ
comments_per_page = 100

unfoldable pub validate_repo_for_write : String → Result ClientError Unit
validate_repo_for_write repo =
    reject (not (matches_repo repo) || contains ".." repo)
      (ClientError.value_error ("Invalid repo format: " +++ repo))

-- The request that a method writes.
pub data Write : Type 0 where
  patch_comment : ℕ → String → Write
  post_comment : String → Write
  post_status : String → String → String → String → Option String → Write

module _ (request : ℕ → Result ClientError (List Comment)) where
  -- The loop of `find_argus_comment`, from a page on.
  unfoldable pub find_from : ℕ → String → ℕ → Option (Result ClientError (Option Comment))
  find_from zero tag page = none
  find_from (suc fuel) tag page = elim (request page) [
    | err raised ↦ some (err raised)
    | ok items ↦ elim (is_empty items) [
      | true ↦ some (ok none)
      | false ↦ elim (first_marked tag items) [
        | some comment ↦ some (ok (some comment))
        | none ↦ elim (ltb (length items) comments_per_page) [
          | true ↦ some (ok none)
          | false ↦ find_from fuel tag (page + 1)
        ]
      ]
    ]
  ]

  unfoldable pub find_argus_comment : ℕ → String → ℕ → Option (Result ClientError (Option Comment))
  find_argus_comment fuel repo pr = elim (validate_repo_for_write repo) [
    | err raised ↦ some (err raised)
    | ok valid ↦ find_from fuel (marker repo pr) 1
  ]

  -- The write that `upsert_pr_comment` sends.
  unfoldable pub upsert_pr_comment : ℕ → String → ℕ → String → Option (Result ClientError Write)
  upsert_pr_comment fuel repo pr body = elim (find_argus_comment fuel repo pr) [
    | none ↦ none
    | some (err raised) ↦ some (err raised)
    | some (ok found) ↦
        let tagged_body = marker repo pr +++ "\n" +++ body in
        some (
          ok (elim found [
            | some existing ↦ Write.patch_comment existing.id tagged_body
            | none ↦ Write.post_comment tagged_body
          ]))
  ]

abbrev pub is_lower_hex : ℕ → Bool
is_lower_hex c = (leb 48 c && leb c 57) || (leb 97 c && leb c 102)

-- `^[0-9a-f]{4,40}$`
unfoldable pub matches_write_sha : String → Bool
matches_write_sha sha =
    let digits = drop_newline sha in
    every is_lower_hex digits && leb 4 (str_length digits) && leb (str_length digits) 40

-- `if target_url:`
abbrev pub url_or_none : Option String → Option String
url_or_none none = none
url_or_none (some url) = if str_empty url then none else some url

unfoldable pub set_commit_status :
    String → String → String → String → String → Option String → Result ClientError Write
set_commit_status repo sha state description context target_url =
    validate_repo_for_write repo
    >> reject (not (matches_write_sha sha))
        (ClientError.value_error ("Invalid sha format: " +++ sha))
    >> ok (Write.post_status sha state context (str_take 140 description) (url_or_none target_url))
