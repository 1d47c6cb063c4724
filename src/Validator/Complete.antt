-- ===== src/Validator/Complete.antt =====
-- The parsed answer has an item for every finding and none for another index.
use argus_review.Prelude.{
  ℕ, ◌<◌, String, ◌≡◌, Option, none, some, List, [], ◌∷◌, ◌++◌, All, All-append, ltb, ltb→lt, arith,
  Bool-cases, inl, inr,
}
use argus_review.Prelude.Result.{ok, >>=-eq-ok}
use argus_review.Pipeline.{FindingValidationItem}
use argus_review.Validator.{
  Json, null, negative, float, bool, nat, str, arr, obj, JsonList, nil, cons, Fields, end, field,
  lookup, index_of, verdict_of, evidence_of, item_at, add_item, parse_item, parse_items, iterate,
  document, decoded,
}

abbrev pub InRange : ℕ → List FindingValidationItem → Type 0
InRange n items = All (λ item. item.index < n) items

item_at-index :
    (i : ℕ) (fields : Fields) {item : FindingValidationItem}
    → item_at i fields ≡ ok item
    → item.index ≡ i
unfolding item_at
item_at-index i fields e =
    let (verdict, _, e1) = >>=-eq-ok (verdict_of (lookup "verdict" fields)) _ e in
    let (evidence, _, e2) = >>=-eq-ok (evidence_of (lookup "evidence" fields)) _ e1 in ground arith

parse_fields-InRange :
    (n : ℕ) (i : Option ℕ) (fields : Fields) (items : List FindingValidationItem)
    {out : List FindingValidationItem}
    → InRange n items
    → add_item n i fields items ≡ ok out
    → InRange n out
unfolding add_item
parse_fields-InRange n none fields items {out} h e =
    let same : items ≡ out = ground arith in rw (← same) h
parse_fields-InRange n (some i) fields items {out} h e = elim (Bool-cases (ltb i n)) [
  | inr outside ↦
      let same : items ≡ out = (let e' = rw outside at e in ground arith) in rw (← same) h
  | inl inside ↦
      let (item, made, added) = >>=-eq-ok (item_at i fields) _ (rw inside at e) in
      let same : (items ++ item ∷ []) ≡ out = ground arith in
      rw (← same) (
        All-append (λ x. x.index < n) items (item ∷ []) h
          (omega (arith, item_at-index i fields made, ltb→lt i n inside), tt))
]

parse_item-InRange :
    (n : ℕ) (j : Json) (items : List FindingValidationItem) {out : List FindingValidationItem}
    → InRange n items
    → parse_item n j items ≡ ok out
    → InRange n out
unfolding parse_item
parse_item-InRange n (obj fields) items h e =
    parse_fields-InRange n (index_of (lookup "index" fields)) fields items h e
parse_item-InRange n null items h e = cc
parse_item-InRange n negative items h e = cc
parse_item-InRange n float items h e = cc
parse_item-InRange n (bool b) items h e = cc
parse_item-InRange n (nat i) items h e = cc
parse_item-InRange n (str s) items h e = cc
parse_item-InRange n (arr js) items h e = cc

parse_items-InRange :
    (n : ℕ) (js : JsonList) (items : List FindingValidationItem) {out : List FindingValidationItem}
    → InRange n items
    → parse_items n js items ≡ ok out
    → InRange n out
unfolding parse_items
parse_items-InRange n nil items {out} h e = let same : items ≡ out = ground arith in rw (← same) h
parse_items-InRange n (cons j js) items h e =
    let (items', one, rest) = >>=-eq-ok (parse_item n j items) _ e in
    parse_items-InRange n js items' (parse_item-InRange n j items h one) rest

iterate-InRange :
    (n : ℕ) (j : Option Json) {out : List FindingValidationItem}
    → iterate n j ≡ ok out
    → InRange n out
unfolding iterate
iterate-InRange n none {out} e = let same : [] ≡ out = ground arith in rw (← same) tt
iterate-InRange n (some (arr js)) e = parse_items-InRange n js [] tt e
iterate-InRange n (some (str String.[])) {out} e =
    let same : [] ≡ out = ground arith in rw (← same) tt
iterate-InRange n (some (str (String.◌∷◌ c s))) e = cc
iterate-InRange n (some (obj end)) {out} e = let same : [] ≡ out = ground arith in rw (← same) tt
iterate-InRange n (some (obj (field k v fields))) e = cc
iterate-InRange n (some null) e = cc
iterate-InRange n (some negative) e = cc
iterate-InRange n (some float) e = cc
iterate-InRange n (some (bool b)) e = cc
iterate-InRange n (some (nat i)) e = cc

pub document-InRange :
    (n : ℕ) (j : Option Json) {out : List FindingValidationItem}
    → decoded n j ≡ ok out
    → InRange n out
unfolding decoded document
document-InRange n none e = cc
document-InRange n (some (obj fields)) e = iterate-InRange n (lookup "items" fields) e
document-InRange n (some null) e = cc
document-InRange n (some negative) e = cc
document-InRange n (some float) e = cc
document-InRange n (some (bool b)) e = cc
document-InRange n (some (nat i)) e = cc
document-InRange n (some (str s)) e = cc
document-InRange n (some (arr js)) e = cc
