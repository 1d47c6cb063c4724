-- ===== src/Github/Pages.antt =====
-- Pagination over a service that serves a fixed list page by page.
use argus_review.Prelude.{
  ℕ, zero, suc, ◌+◌, ◌*◌, ◌≤◌, ◌<◌, ◌≡◌, refl, sym, ap, ◌∙◌, ◌⊎◌, inl, inr, true, false, some, List,
  [], ◌∷◌, ◌++◌, length, take, drop, take_all, length-take-le, is_empty, ltb, arith, Bool-cases,
}
use native.Mathlib.Nat.{mul-suc}
use argus_review.Prelude.Result.{Result, ok}
use argus_review.Github.{ClientError, min_of, paginate_from, paginate}

-- Page by page, as the API documents it: pages count from 1, and are as long as was asked.
abbrev pub Serves : {A : Type 0} → (ℕ → Result ClientError (List A)) → ℕ → List A → Type 0
Serves request per_page items =
    (page : ℕ) → request (page + 1) ≡ ok (take per_page (drop (per_page * page) items))

module _ {A : Type 0} where
  take_nil : (n : ℕ) → take {A = A} n [] ≡ []
  take_nil zero = refl
  take_nil (suc n) = refl

  pub take-append_drop : (n m : ℕ) (xs : List A) → take n xs ++ take m (drop n xs) ≡ take (n + m) xs
  take-append_drop zero m xs = ap (λ k. take k xs) (omega arith)
  take-append_drop (suc n) m [] = take_nil m ∙ sym (take_nil (suc n + m))
  take-append_drop (suc n) m (x ∷ xs) =
      let shift : suc (n + m) ≡ suc n + m = omega arith in
      ap (λ ys. x ∷ ys) (take-append_drop n m xs) ∙ ap (λ k. take k (x ∷ xs)) shift

  pub length-take : (n : ℕ) (xs : List A) → length (take n xs) ≡ min_of n (length xs)
  length-take zero xs = ground arith
  length-take (suc n) [] = ground arith
  length-take (suc n) (x ∷ xs) = ground (arith, length-take n xs)

  length-drop : (n : ℕ) (xs : List A) → n ≤ length xs → length xs ≡ n + length (drop n xs)
  length-drop zero xs le = omega arith
  length-drop (suc n) [] le = absurd (omega arith)
  length-drop (suc n) (x ∷ xs) le = omega (arith, length-drop n xs (omega arith))

  take-take : (m n : ℕ) (xs : List A) → m ≤ n → take m (take n xs) ≡ take m xs
  take-take zero n xs le = refl
  take-take (suc m) zero xs le = absurd (omega arith)
  take-take (suc m) (suc n) [] le = refl
  take-take (suc m) (suc n) (x ∷ xs) le = ap (λ ys. x ∷ ys) (take-take m n xs (omega arith))

  empty_length : (xs : List A) → is_empty xs ≡ true → length xs ≡ 0
  empty_length [] h = refl
  empty_length (x ∷ xs) h = cc

  -- What one page tells of the list: it was the last one, or a full one.
  pub page_cases :
      (n per_page : ℕ) (xs : List A)
      → n ≤ length xs
      → 1 ≤ per_page
      → let items = take per_page (drop n xs) in
        ((is_empty items ≡ true) × (take n xs ≡ xs))
        ⊎ ((is_empty items ≡ false)
            × (((ltb (length items) per_page ≡ true) × (take n xs ++ items ≡ xs))
                ⊎ ((ltb (length items) per_page ≡ false) × (n + per_page ≤ length xs))))
  page_cases n per_page xs le positive =
      let items = take per_page (drop n xs) in
      let size = length-drop n xs le in
      let sized = length-take per_page (drop n xs) in
      elim (Bool-cases (is_empty items)) [
        | inl nothing ↦
            let zero_size = empty_length items nothing in
            inl (nothing, take_all n xs (ground (arith, size, sized, zero_size)))
        | inr something ↦ inr (
          something,
          elim (Bool-cases (ltb (length items) per_page)) [
            | inl short ↦ inl (
              short,
              take-append_drop n per_page xs
                  ∙ take_all (n + per_page) xs (ground (arith, size, sized)),
            )
            | inr full ↦ inr (full, ground (arith, size, sized))
          ],
        )
      ]

pub step : (n k : ℕ) → n * (k + 1) ≡ n * k + n
step n k = (let next : k + 1 ≡ suc k = omega arith in ap (λ j. n * j) next ∙ mul-suc n k)

module _ {A : Type 0} (request : ℕ → Result ClientError (List A)) (per_page max_items : ℕ)
    (items : List A) where
  paginate_from-Serves :
      (fuel k : ℕ)
      → Serves request per_page items
      → 1 ≤ per_page
      → per_page * k ≤ length items
      → length items < per_page * k + fuel
      → paginate_from request fuel per_page max_items (k + 1) (take (per_page * k) items)
        ≡ some (ok (take max_items items))
  unfolding paginate_from
  paginate_from-Serves zero k served positive begun enough = absurd (omega arith)
  paginate_from-Serves (suc fuel) k served positive begun enough =
      elim (Bool-cases (ltb (length (take (per_page * k) items)) max_items)) [
        | inr done ↦
            rw (paginate_from, done)
              (ap (λ xs. some (ok xs))
                (take-take max_items (per_page * k) items
                  (ground (arith, done, length-take-le (per_page * k) items))))
        | inl more ↦ elim (page_cases (per_page * k) per_page items begun positive) [
          | inl (nothing, all) ↦ rw (paginate_from, more, served k, nothing, all) refl
          | inr (something, inl (short, all)) ↦
              rw (paginate_from, more, served k, something, short, all) refl
          | inr (something, inr (full, size)) ↦
              let later =
                paginate_from-Serves fuel (k + 1) served positive
                  (omega (arith, size, step per_page k))
                  (omega (arith, enough, positive, step per_page k)) in
              rw
                (
                  paginate_from,
                  more,
                  served k,
                  something,
                  full,
                  take-append_drop (per_page * k) per_page items,
                  ← step per_page k,
                )
                later
        ]
      ]

positive_limit :
    {A : Type 0} (request : ℕ → Result ClientError (List A)) (items : List A) (fuel most : ℕ)
    → Serves request (min_of 100 (suc most)) items
    → length items < fuel
    → paginate request fuel (suc most) ≡ some (ok (take (suc most) items))
unfolding paginate
positive_limit request items fuel most served enough =
    let start : min_of 100 (suc most) * 0 ≡ 0 = omega arith in
    let positive : 1 ≤ min_of 100 (suc most) = ground arith in
    let run =
      paginate_from-Serves request (min_of 100 (suc most)) (suc most) items fuel 0 served positive
        (omega (arith, start)) (omega (arith, start, enough)) in
    rw start at run

-- Over a service that serves a list page by page, with more fuel than the list is long, the
-- pagination ends and returns exactly the first `max_items` of the list, whatever its length.
pub paginate-Serves :
    {A : Type 0} (request : ℕ → Result ClientError (List A)) (items : List A) (fuel max_items : ℕ)
    → Serves request (min_of 100 max_items) items
    → length items < fuel
    → paginate request fuel max_items ≡ some (ok (take max_items items))
unfolding paginate paginate_from
paginate-Serves request items zero max_items served enough = absurd (omega arith)
paginate-Serves request items (suc fuel) zero served enough = refl
paginate-Serves request items (suc fuel) (suc most) served enough =
    positive_limit request items (suc fuel) most served enough
