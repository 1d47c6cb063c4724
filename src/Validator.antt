-- ===== src/Validator.antt =====
-- `_parse_validation_result` of argus/runners.py: the validator's answer about BLOCKING findings.
-- The search for a fenced JSON block and `json.loads` are one parameter, with `none` for an error.
pub mod Complete
pub mod Settled
use Prim.Native.Char.{code}
use argus_review.Prelude.{
  ℕ, zero, suc, ◌+◌, ◌-◌, ◌≤◌, String, Bool, true, false, not, ◌&&◌, ◌||◌, Option, none, some, List,
  [], ◌∷◌, ◌++◌, any, leb, ltb, nat_eq, ◌==◌, if◌then◌else◌,
}
use argus_review.Prelude.Result.{Result, ok, err, ◌>>=◌}
use argus_review.Prelude.Text.{strip, str_empty}
use argus_review.Pipeline.{ValidationVerdict, FindingValidationItem}

-- A decoded document. `negative` and `float` carry nothing: no test looks at their value. The keys
-- of an object are distinct.
mutual
  pub data Json : Type 0 where
    null negative float : Json
    bool : Bool → Json
    nat : ℕ → Json
    str : String → Json
    arr : JsonList → Json
    obj : Fields → Json

  pub data JsonList : Type 0 where
    nil : JsonList
    cons : Json → JsonList → JsonList

  pub data Fields : Type 0 where
    end : Fields
    field : String → Json → Fields → Fields

-- `caught` is a `TypeError`, which the code handles; `escaped` is an `AttributeError` of `.get` or
-- `.upper`, or a pydantic `ValidationError`, which it does not handle.
pub data Raise : Type 0 where
  caught escaped : Raise

lookup : String → Fields → Option Json
lookup key end = none
lookup key (field k v fields) = let rest = lookup key fields in if k == key then some v else rest

-- `idx`, where it is an `int` that is not negative; a `bool` is an `int`.
index_of : Option Json → Option ℕ
index_of (some (nat i)) = some i
index_of (some (bool b)) = some (if b then 1 else 0)
index_of _ = none

-- `str.upper` on the letters a to z; no other letter has its upper case in the two verdicts.
upper_code : ℕ → ℕ
upper_code c = if leb 97 c && leb c 122 then c - 32 else c

same_upper : String → String → Bool
same_upper String.[] String.[] = true
same_upper (String.◌∷◌ c s) (String.◌∷◌ d t) =
    nat_eq (upper_code (code c)) (code d) && same_upper s t
same_upper _ _ = false

verdict_of : Option Json → Result Raise ValidationVerdict
verdict_of none = ok ValidationVerdict.confirmed
verdict_of (some (str s)) =
    if same_upper s "REJECTED"
    then ok ValidationVerdict.rejected
    else ok ValidationVerdict.confirmed
verdict_of (some _) = err escaped

evidence_of : Option Json → Result Raise String
evidence_of none = ok ""
evidence_of (some (str s)) = ok s
evidence_of (some _) = err escaped

item_at : ℕ → Fields → Result Raise FindingValidationItem
item_at i fields = do
  verdict ← verdict_of (lookup "verdict" fields)
  evidence ← evidence_of (lookup "evidence" fields)
  ok (record { index = i; verdict = verdict; evidence = evidence })

-- An item without an index in range is skipped.
add_item :
    ℕ → Option ℕ → Fields → List FindingValidationItem → Result Raise (List FindingValidationItem)
add_item n none fields items = ok items
add_item n (some i) fields items =
    if ltb i n then (item_at i fields >>= (λ item. ok (items ++ item ∷ []))) else ok items

-- One turn of the loop.
parse_item : ℕ → Json → List FindingValidationItem → Result Raise (List FindingValidationItem)
parse_item n (obj fields) items = add_item n (index_of (lookup "index" fields)) fields items
parse_item n _ items = err escaped

parse_items : ℕ → JsonList → List FindingValidationItem → Result Raise (List FindingValidationItem)
parse_items n nil items = ok items
parse_items n (cons j js) items = parse_item n j items >>= parse_items n js

-- `for item in data.get("items", [])`
iterate : ℕ → Option Json → Result Raise (List FindingValidationItem)
iterate n none = ok []
iterate n (some (arr js)) = parse_items n js []
iterate n (some (str s)) = if str_empty s then ok [] else err escaped
iterate n (some (obj end)) = ok []
iterate n (some (obj (field k v fields))) = err escaped
iterate n (some _) = err caught

document : ℕ → Json → Result Raise (List FindingValidationItem)
document n (obj fields) = iterate n (lookup "items" fields)
document n _ = err escaped

abbrev pub mentioned : List FindingValidationItem → ℕ → Bool
mentioned items i = any (λ item. nat_eq item.index i) items

abbrev confirmed_at : String → ℕ → FindingValidationItem
confirmed_at evidence i = record {
  index = i;
  verdict = ValidationVerdict.confirmed;
  evidence = evidence;
}

-- `[item(i) for i in range(start, start + n)]`, less the indices that `items` mentions.
pub unmentioned : String → List FindingValidationItem → ℕ → ℕ → List FindingValidationItem
unmentioned evidence items start zero = []
unmentioned evidence items start (suc n) =
    let rest = unmentioned evidence items (suc start) n in
    if mentioned items start then rest else confirmed_at evidence start ∷ rest

-- `items.sort(key=lambda x: x.index)`, a stable sort.
insert_item : FindingValidationItem → List FindingValidationItem → List FindingValidationItem
insert_item x [] = x ∷ []
insert_item x (y ∷ ys) =
    let rest = insert_item x ys in if leb x.index y.index then x ∷ y ∷ ys else y ∷ rest

sort_items : List FindingValidationItem → List FindingValidationItem
sort_items [] = []
sort_items (x ∷ xs) = insert_item x (sort_items xs)

pub all_confirmed : String → ℕ → List FindingValidationItem
all_confirmed evidence n = unmentioned evidence [] 0 n

-- The items in order, with those not mentioned, or the `except` clause.
pub settle :
    ℕ → Result Raise (List FindingValidationItem) → Result Raise (List FindingValidationItem)
settle n (ok items) = ok (
    sort_items
      (items ++ unmentioned "Not mentioned by validator — finding kept by default" items 0 n))
settle n (err caught) =
    ok (all_confirmed "Validator output could not be parsed — finding kept by default" n)
settle n (err escaped) = err escaped

pub decoded : ℕ → Option Json → Result Raise (List FindingValidationItem)
decoded n none = err caught
decoded n (some json) = document n json

module _ (loads : String → Option Json) where
  unfoldable pub parse_validation_result : String → ℕ → Result Raise (List FindingValidationItem)
  unfolding lookup index_of upper_code same_upper verdict_of evidence_of item_at add_item parse_item
      parse_items iterate document unmentioned insert_item sort_items all_confirmed settle decoded
  parse_validation_result raw_text expected_count =
      if str_empty (strip raw_text)
      then ok
          (all_confirmed "Validator produced no output — finding kept by default" expected_count)
      else settle expected_count (decoded expected_count (loads raw_text))
