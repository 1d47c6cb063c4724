-- ===== src/Examples/GithubRuns.antt =====
-- Runs of the pagination and of repeated upserts over lists of comments.
use Prim.Native.String.{◌++◌ as ◌+++◌}
use argus_review.Prelude.{ℕ, ◌+◌, ◌-◌, ◌*◌, ◌≡◌, refl, ap, some, List, [], ◌∷◌, take, drop, arith}
use argus_review.Prelude.Text.{contains, has_prefix, show}
use argus_review.Prelude.Result.{Result, ok}
use argus_review.Worktree.{matches_repo}
use argus_review.Github.{
  ClientError, Comment, patch_comment, paginate, marker, first_marked, validate_repo_for_write,
  upsert_pr_comment,
}
use argus_review.Github.Pages.{Serves, paginate-Serves}
use argus_review.Github.Upsert.{written, target, write_for, upsert_twice}

abbrev serve : {A : Type 0} → ℕ → List A → ℕ → Result ClientError (List A)
serve per_page items page = ok (take per_page (drop (per_page * (page - 1)) items))

serve-Serves :
    {A : Type 0} (per_page : ℕ) (items : List A) → Serves (serve per_page items) per_page items
serve-Serves per_page items page =
    let same : page + 1 - 1 ≡ page = omega arith in
    ap (λ k. ok (take per_page (drop (per_page * k) items))) same

abbrev numbers : List ℕ
numbers = 4 ∷ 5 ∷ 6 ∷ []

paginate-Serves_example : paginate (serve 2 numbers) 9 2 ≡ some (ok (take 2 numbers))
paginate-Serves_example =
    paginate-Serves (serve 2 numbers) numbers 9 2 (serve-Serves 2 numbers) (omega arith)

abbrev remark : Comment
remark = record { id = 3; body = some "looks good" }

valid : validate_repo_for_write "org/app" ≡ ok tt
unfolding validate_repo_for_write matches_repo contains has_prefix
valid = refl

upsert_twice_example :
    let w = write_for "org/app" 7 "round 1" (first_marked (marker "org/app" 7) (remark ∷ [])) in
    (upsert_pr_comment (serve 100 (remark ∷ [])) 9 "org/app" 7 "round 1" ≡ some (ok w))
    × (upsert_pr_comment (serve 100 (written w 8 (remark ∷ []))) 9 "org/app" 7 "round 2"
        ≡ some (ok (patch_comment (target w 8) (marker "org/app" 7 +++ "\n" +++ "round 2"))))
unfolding first_marked contains has_prefix show
upsert_twice_example =
    let w = write_for "org/app" 7 "round 1" (first_marked (marker "org/app" 7) (remark ∷ [])) in
    upsert_twice "org/app" 7 9 valid (serve 100 (remark ∷ []))
      (serve 100 (written w 8 (remark ∷ []))) (remark ∷ []) "round 1" "round 2" 8
      (serve-Serves 100 (remark ∷ [])) (serve-Serves 100 (written w 8 (remark ∷ []))) (omega arith)
      (omega arith)
