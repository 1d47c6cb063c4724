-- ===== src/Validator/Settled.antt =====
-- The validator's answer after the missing items are added and all are sorted.
use argus_review.Prelude.{
  ℕ, zero, suc, ◌+◌, ◌≤◌, ◌<◌, String, ◌≡◌, refl, true, ◌||◌, Option, List, [], ◌∷◌, ◌++◌,
  any-append, All, All-append, All-map_of, leb, nat_eq, nat_eq_iff, arith, Bool-cases, inl, inr,
}
use argus_review.Prelude.Result.{Result, ok, err}
use argus_review.Prelude.Text.{strip, str_empty}
use argus_review.Pipeline.{FindingValidationItem}
use argus_review.Validator.{
  Json, Raise, caught, escaped, mentioned, unmentioned, insert_item, sort_items, all_confirmed,
  settle, decoded, parse_validation_result,
}
use argus_review.Validator.Complete.{InRange, document-InRange}

unmentioned-InRange :
    (evidence : String) (items : List FindingValidationItem) (start n bound : ℕ)
    → start + n ≤ bound
    → InRange bound (unmentioned evidence items start n)
unfolding unmentioned
unmentioned-InRange evidence items start zero bound h = tt
unmentioned-InRange evidence items start (suc n) bound h =
    let rest = unmentioned-InRange evidence items (suc start) n bound (omega arith) in
    elim (Bool-cases (mentioned items start)) [
      | inl there ↦ rw there rest
      | inr missing ↦ rw missing (omega arith, rest)
    ]

-- Every index of the range is mentioned before or after.
mentioned-unmentioned :
    (evidence : String) (items : List FindingValidationItem) (start n i : ℕ)
    → start ≤ i
    → i < start + n
    → (mentioned items i || mentioned (unmentioned evidence items start n) i) ≡ true
unfolding unmentioned
mentioned-unmentioned evidence items start zero i h k = absurd (omega arith)
mentioned-unmentioned evidence items start (suc n) i h k = elim (Bool-cases (nat_eq start i)) [
  | inl here ↦
      let same : start ≡ i = (nat_eq_iff start i).0 here in
      elim (Bool-cases (mentioned items start)) [
        | inl there ↦ rw (there, ← same, there) refl
        | inr missing ↦ rw missing (ground (arith))
      ]
  | inr later ↦
      let ih = mentioned-unmentioned evidence items (suc start) n i (ground arith) (omega arith) in
      elim (Bool-cases (mentioned items start)) [
        | inl there ↦ rw there ih
        | inr missing ↦ rw missing (ground arith)
      ]
]

pub IsSorted : List FindingValidationItem → Type 0
IsSorted [] = Unit
IsSorted (x ∷ xs) = All (λ y. x.index ≤ y.index) xs × IsSorted xs

insert_item-All :
    (P : FindingValidationItem → Type 0) (x : FindingValidationItem)
    (xs : List FindingValidationItem)
    → P x
    → All P xs
    → All P (insert_item x xs)
unfolding insert_item
insert_item-All P x [] h k = (h, tt)
insert_item-All P x (y ∷ ys) h k = elim (Bool-cases (leb x.index y.index)) [
  | inl le ↦ rw le (h, k)
  | inr gt ↦ rw gt (k.0, insert_item-All P x ys h k.1)
]

insert_item-IsSorted :
    (x : FindingValidationItem) (xs : List FindingValidationItem)
    → IsSorted xs
    → IsSorted (insert_item x xs)
unfolding insert_item IsSorted
insert_item-IsSorted x [] h = (tt, tt)
insert_item-IsSorted x (y ∷ ys) h = elim (Bool-cases (leb x.index y.index)) [
  | inl le ↦ rw le ((ground arith, All-map_of _ _ ys (λ z k. ground arith) h.0), h)
  | inr gt ↦ rw gt (
    insert_item-All (λ z. y.index ≤ z.index) x ys (ground arith) h.0,
    insert_item-IsSorted x ys h.1,
  )
]

insert_item-mentioned :
    (x : FindingValidationItem) (xs : List FindingValidationItem) (i : ℕ)
    → mentioned (insert_item x xs) i ≡ (nat_eq x.index i || mentioned xs i)
unfolding insert_item
insert_item-mentioned x [] i = refl
insert_item-mentioned x (y ∷ ys) i = ground (arith, insert_item-mentioned x ys i)

sort_items-IsSorted : (xs : List FindingValidationItem) → IsSorted (sort_items xs)
unfolding sort_items IsSorted
sort_items-IsSorted [] = tt
sort_items-IsSorted (x ∷ xs) = insert_item-IsSorted x (sort_items xs) (sort_items-IsSorted xs)

sort_items-All :
    (P : FindingValidationItem → Type 0) (xs : List FindingValidationItem)
    → All P xs
    → All P (sort_items xs)
unfolding sort_items
sort_items-All P [] h = tt
sort_items-All P (x ∷ xs) h = insert_item-All P x (sort_items xs) h.0 (sort_items-All P xs h.1)

sort_items-mentioned :
    (xs : List FindingValidationItem) (i : ℕ) → mentioned (sort_items xs) i ≡ mentioned xs i
unfolding sort_items
sort_items-mentioned [] i = refl
sort_items-mentioned (x ∷ xs) i =
    ground (arith, insert_item-mentioned x (sort_items xs) i, sort_items-mentioned xs i)

unmentioned-IsSorted :
    (evidence : String) (items : List FindingValidationItem) (start n : ℕ)
    → All (λ x. start ≤ x.index) (unmentioned evidence items start n)
      × IsSorted (unmentioned evidence items start n)
unfolding unmentioned IsSorted
unmentioned-IsSorted evidence items start zero = (tt, tt)
unmentioned-IsSorted evidence items start (suc n) =
    let (above, sorted) = unmentioned-IsSorted evidence items (suc start) n in
    let weak =
      All-map_of (λ x. suc start ≤ x.index) (λ x. start ≤ x.index) _ (λ z k. omega arith) above in
    elim (Bool-cases (mentioned items start)) [
      | inl there ↦ rw there (weak, sorted)
      | inr missing ↦ rw missing ((omega arith, weak), (weak, sorted))
    ]

-- What a parsed answer for `n` findings promises at the index `i`.
pub record Whole (n i : ℕ) (items : List FindingValidationItem) : Type 0 where
  pub in_range : InRange n items
  pub covered : mentioned items i ≡ true
  pub ordered : IsSorted items

all_confirmed-Whole : (evidence : String) (n i : ℕ) → i < n → Whole n i (all_confirmed evidence n)
unfolding all_confirmed
all_confirmed-Whole evidence n i below = record {
  in_range = unmentioned-InRange evidence [] 0 n n (omega arith);
  covered = mentioned-unmentioned evidence [] 0 n i (omega arith) (omega arith);
  ordered = (unmentioned-IsSorted evidence [] 0 n).1;
}

settle-Whole :
    (n i : ℕ) (m : Result Raise (List FindingValidationItem)) {out : List FindingValidationItem}
    → i < n
    → ((items : List FindingValidationItem) → m ≡ ok items → InRange n items)
    → settle n m ≡ ok out
    → Whole n i out
unfolding settle
settle-Whole n i (ok items) {out} below ranged e =
    let extra = unmentioned "Not mentioned by validator — finding kept by default" items 0 n in
    let same : sort_items (items ++ extra) ≡ out = ground arith in
    rw (← same) (record {
      in_range = sort_items-All _ _ (
          All-append _ items extra (ranged items refl)
            (unmentioned-InRange _ items 0 n n (omega arith)));
      covered =
          rw (sort_items-mentioned, any-append)
            (mentioned-unmentioned _ items 0 n i (omega arith) (omega arith));
      ordered = sort_items-IsSorted _;
    })
settle-Whole n i (err caught) {out} below ranged e =
    let same : all_confirmed "Validator output could not be parsed — finding kept by default" n
        ≡ out =
      ground arith in
    rw (← same) (all_confirmed-Whole _ n i below)
settle-Whole n i (err escaped) below ranged e = cc

-- If the validator's text for `n` findings is parsed, every item has an index below `n`, the index
-- `i` below `n` has an item, and the items are sorted by index.
pub parse_validation_result-Whole :
    (loads : String → Option Json) (raw_text : String) (n i : ℕ)
    {items : List FindingValidationItem}
    → i < n
    → parse_validation_result loads raw_text n ≡ ok items
    → Whole n i items
unfolding parse_validation_result
parse_validation_result-Whole loads raw_text n i {items} below e =
    elim (Bool-cases (str_empty (strip raw_text))) [
      | inl blank ↦
          let same : all_confirmed "Validator produced no output — finding kept by default" n
              ≡ items =
            (let e' = rw blank at e in ground arith) in
          rw (← same) (all_confirmed-Whole _ n i below)
      | inr text ↦
          settle-Whole n i (decoded n (loads raw_text)) below
            (λ items' h. document-InRange n (loads raw_text) h) (rw text at e)
    ]
