-- ===== src/Github/Upsert.antt =====
-- Argus keeps one comment on a pull request: the search over all pages, and repeated upserts.
use Prim.Native.String.{◌++◌ as ◌+++◌}
use argus_review.Prelude.{
  ℕ, zero, suc, ◌+◌, ◌*◌, ◌≤◌, ◌<◌, String, ◌≡◌, refl, sym, ap, ◌∙◌, inl, inr, true, false, Option,
  none, some, List, [], ◌∷◌, ◌++◌, length, take, drop, is_empty, ltb→lt, nat_eq, nat_eq_iff, arith,
  Bool-cases, Option-cases, if◌then◌else◌,
}
use argus_review.Prelude.Text.{contains, has_prefix, has_prefix-append}
use argus_review.Prelude.Result.{Result, ok}
use argus_review.Github.{
  ClientError, Comment, Write, marker, has_marker, first_marked, comments_per_page,
  validate_repo_for_write, find_from, find_argus_comment, upsert_pr_comment,
}
use argus_review.Github.Pages.{Serves, page_cases, step}

abbrev pub or_else : {A : Type 0} → Option A → Option A → Option A
or_else none other = other
or_else (some a) other = some a

first_marked-append :
    (tag : String) (xs ys : List Comment)
    → first_marked tag (xs ++ ys) ≡ or_else (first_marked tag xs) (first_marked tag ys)
unfolding first_marked
first_marked-append tag [] ys = refl
first_marked-append tag (c ∷ cs) ys = elim (Bool-cases (has_marker tag c)) [
  | inl marked ↦ rw marked refl
  | inr other ↦ rw other (first_marked-append tag cs ys)
]

module _ {A : Type 0} where
  drop_nil : (n : ℕ) → drop {A = A} n [] ≡ []
  drop_nil zero = refl
  drop_nil (suc n) = refl

  take-append-drop_same : (n : ℕ) (xs : List A) → take n xs ++ drop n xs ≡ xs
  take-append-drop_same zero xs = refl
  take-append-drop_same (suc n) [] = refl
  take-append-drop_same (suc n) (x ∷ xs) = ap (λ ys. x ∷ ys) (take-append-drop_same n xs)

  drop-drop : (n m : ℕ) (xs : List A) → drop m (drop n xs) ≡ drop (n + m) xs
  drop-drop zero m xs = ap (λ k. drop k xs) (omega arith)
  drop-drop (suc n) m [] = drop_nil m ∙ sym (drop_nil (suc n + m))
  drop-drop (suc n) m (x ∷ xs) =
      let shift : suc (n + m) ≡ suc n + m = omega arith in
      drop-drop n m xs ∙ ap (λ k. drop k (x ∷ xs)) shift

take_short : {A : Type 0} (n : ℕ) (xs : List A) → length (take n xs) < n → take n xs ≡ xs
take_short zero xs less = absurd (omega arith)
take_short (suc n) [] less = refl
take_short (suc n) (x ∷ xs) less = ap (λ ys. x ∷ ys) (take_short n xs (omega arith))

-- The first marked comment from a position on is on the page there, or from the next page on.
marked_step :
    (tag : String) (n : ℕ) (cs : List Comment)
    → first_marked tag (drop n cs)
      ≡ or_else
          (first_marked tag (take comments_per_page (drop n cs)))
          (first_marked tag (drop (n + comments_per_page) cs))
marked_step tag n cs =
    ap (first_marked tag) (sym (take-append-drop_same comments_per_page (drop n cs)))
    ∙ first_marked-append tag (take comments_per_page (drop n cs))
        (drop comments_per_page (drop n cs))
    ∙ rw (drop-drop n comments_per_page cs) refl

prefix_none :
    (tag : String) (cs : List Comment)
    → is_empty (take comments_per_page cs) ≡ true
    → first_marked tag cs ≡ none
unfolding first_marked
prefix_none tag [] h = refl
prefix_none tag (c ∷ cs) h = cc

module _ (request : ℕ → Result ClientError (List Comment)) (tag : String)
    (comments : List Comment) where
  pub find_from-Serves :
      (fuel k : ℕ)
      → Serves request comments_per_page comments
      → comments_per_page * k ≤ length comments
      → length comments < comments_per_page * k + fuel
      → find_from request fuel tag (k + 1)
        ≡ some (ok (first_marked tag (drop (comments_per_page * k) comments)))
  unfolding find_from
  find_from-Serves zero k served begun enough = absurd (omega arith)
  find_from-Serves (suc fuel) k served begun enough =
      let n = comments_per_page * k in
      let page = take comments_per_page (drop n comments) in
      let split = marked_step tag n comments in
      elim (page_cases n comments_per_page comments begun (omega arith)) [
        | inl (nothing, all) ↦
            rw (find_from, served k, nothing, prefix_none tag (drop n comments) nothing) refl
        | inr (something, shape) ↦ elim (Option-cases (first_marked tag page)) [
          | inr (c, marked) ↦ rw (find_from, served k, something, split, marked) refl
          | inl unmarked ↦ elim shape [
            | inl (short, all) ↦
                let last : first_marked tag (drop n comments) ≡ none =
                  ap (first_marked tag)
                    (sym (take_short comments_per_page (drop n comments) (ltb→lt _ _ short)))
                  ∙ unmarked in
                rw (find_from, served k, something, unmarked, short, last) refl
            | inr (full, size) ↦
                let onward : first_marked tag (drop n comments)
                    ≡ first_marked tag (drop (comments_per_page * (k + 1)) comments) =
                  split
                  ∙ rw unmarked (
                      ap (λ j. first_marked tag (drop j comments))
                        (sym (step comments_per_page k))) in
                let later =
                  find_from-Serves fuel (k + 1) served
                    (omega (arith, size, step comments_per_page k))
                    (omega (arith, enough, step comments_per_page k)) in
                rw (find_from, served k, something, unmarked, full, onward) later
          ]
        ]
      ]

-- What a write does to the comments, as the API documents it: a patch replaces the body of the
-- comments with its number, a post adds a comment with a new number; and the number it acts on.
abbrev pub written : Write → ℕ → List Comment → List Comment
written (Write.patch_comment id body) new [] = []
written (Write.patch_comment id body) new (c ∷ cs) =
    let rest = written (Write.patch_comment id body) new cs in
    (if nat_eq c.id id then record c { body = some body } else c) ∷ rest
written (Write.post_comment body) new cs = cs ++ (record { id = new; body = some body }) ∷ []
written _ new cs = cs

abbrev pub target : Write → ℕ → ℕ
target (Write.patch_comment id body) new = id
target _ new = new

contains_prefix : (p t : String) → has_prefix p t ≡ true → contains p t ≡ true
unfolding contains has_prefix
contains_prefix String.[] String.[] h = refl
contains_prefix (String.◌∷◌ p ps) String.[] h = cc
contains_prefix p (String.◌∷◌ c s) h = ground (arith, h)

patched_first :
    (tag body : String) (new : ℕ) (cs : List Comment) (c : Comment)
    → contains tag body ≡ true
    → first_marked tag cs ≡ some c
    → (d : Comment) × (first_marked tag (written (Write.patch_comment c.id body) new cs) ≡ some d)
      × (d.id ≡ c.id)
unfolding first_marked
patched_first tag body new [] c has found = cc
patched_first tag body new (e ∷ es) c has found = elim (Bool-cases (nat_eq e.id c.id)) [
  | inl same ↦ (record e { body = some body }, rw (same, has) refl, (nat_eq_iff e.id c.id).0 same)
  | inr other ↦ elim (Bool-cases (has_marker tag e)) [
    | inl marked ↦
        let one : e ≡ c = (let at_head : some e ≡ some c = rw marked at found in cc) in
        let own : nat_eq c.id c.id ≡ true = (nat_eq_iff c.id c.id).1 refl in
        absurd (let differs : nat_eq c.id c.id ≡ false = rw one at other in cc)
    | inr unmarked ↦
        let (d, later, id) = patched_first tag body new es c has (rw unmarked at found) in
        (d, rw (other, unmarked) later, id)
  ]
]

posted_first :
    (tag body : String) (new : ℕ) (cs : List Comment)
    → contains tag body ≡ true
    → first_marked tag cs ≡ none
    → first_marked tag (written (Write.post_comment body) new cs)
      ≡ some (record { id = new; body = some body })
unfolding first_marked
posted_first tag body new cs has none_marked =
    first_marked-append tag cs ((record { id = new; body = some body }) ∷ [])
    ∙ rw (none_marked, has) refl

-- The write for what the search finds.
abbrev pub write_for : String → ℕ → String → Option Comment → Write
write_for repo pr body none = Write.post_comment (marker repo pr +++ "\n" +++ body)
write_for repo pr body (some c) = Write.patch_comment c.id (marker repo pr +++ "\n" +++ body)

module _ (repo : String) (pr fuel : ℕ) (valid : validate_repo_for_write repo ≡ ok tt) where
  upsert-write_for :
      (request : ℕ → Result ClientError (List Comment)) (comments : List Comment) (body : String)
      → Serves request comments_per_page comments
      → length comments < fuel
      → upsert_pr_comment request fuel repo pr body
        ≡ some (ok (write_for repo pr body (first_marked (marker repo pr) comments)))
  unfolding upsert_pr_comment find_argus_comment
  upsert-write_for request comments body served enough =
      let found : find_from request fuel (marker repo pr) 1
          ≡ some (ok (first_marked (marker repo pr) comments)) =
        find_from-Serves request (marker repo pr) comments fuel 0 served (omega arith)
          (omega (arith, enough)) in
      rw (upsert_pr_comment, find_argus_comment, valid, found) refl

  tagged : (body : String) → contains (marker repo pr) (marker repo pr +++ "\n" +++ body) ≡ true
  tagged body =
      contains_prefix (marker repo pr) _ (has_prefix-append (marker repo pr) ("\n" +++ body))

  -- After a write the first marked comment is the one that was written.
  written_first :
      (comments : List Comment) (body : String) (new : ℕ)
      → let w = write_for repo pr body (first_marked (marker repo pr) comments) in
        (d : Comment) × (first_marked (marker repo pr) (written w new comments) ≡ some d)
        × (d.id ≡ target w new)
  written_first comments body new = elim (Option-cases (first_marked (marker repo pr) comments)) [
    | inl fresh ↦
        rw fresh (_, posted_first (marker repo pr) _ new comments (tagged body) fresh, refl)
    | inr (c, found) ↦
        rw found (patched_first (marker repo pr) _ new comments c (tagged body) found)
  ]

  -- For a repository of the right form, a service that serves the comments page by page, whatever
  -- their number, and documented writes: the first upsert updates the first comment that has the
  -- marker, wherever it stands, or posts one if there is none; an upsert in the next round updates
  -- that same comment, so no second comment of Argus is ever posted.
  pub upsert_twice :
      (first second : ℕ → Result ClientError (List Comment)) (comments : List Comment)
      (body again : String) (new : ℕ)
      → let w = write_for repo pr body (first_marked (marker repo pr) comments) in
        Serves first comments_per_page comments
        → Serves second comments_per_page (written w new comments)
        → length comments < fuel
        → length (written w new comments) < fuel
        → (upsert_pr_comment first fuel repo pr body ≡ some (ok w))
          × (upsert_pr_comment second fuel repo pr again
              ≡ some (ok (Write.patch_comment (target w new) (marker repo pr +++ "\n" +++ again))))
  upsert_twice first second comments body again new served served_again enough enough_again =
      let (d, found, id) = written_first comments body new in
      (
        upsert-write_for first comments body served enough,
        upsert-write_for second _ again served_again enough_again ∙ rw (found, id) refl,
      )
