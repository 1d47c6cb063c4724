-- ===== src/Prelude/Names.antt =====
-- Python sets and dictionaries of texts, as lists: membership, `set(xs)`, `sorted`, counting.
use Prim.Native.Nat.{ℕ, ◌+◌, ◌≤◌}
use Prim.Native.String.{String}
use mathlib.Core.Path.{◌≡◌, ◌∙◌, refl}
use mathlib.Core.Bool.{Bool, true, false, ◌||◌, ◌&&◌, not}
use mathlib.Core.List.{List, [], ◌∷◌, ◌++◌}
use native.Mathlib.Omega.{arith}
use text.Mathlib.Text.{◌==◌}
use text.Mathlib.TextEquality.{eq_iff}
use mathlib.Core.Logic.{inl, inr}
use argus_review.Prelude.Tests.{Bool-cases, if◌then◌else◌}
use argus_review.Prelude.Lists.{length}
use argus_review.Prelude.Text.{str_leb}

-- `x in xs`
unfoldable pub mem : String → List String → Bool
mem x [] = false
mem x (y ∷ ys) = y == x || mem x ys

-- `set(xs)`
unfoldable pub dedup : List String → List String
dedup [] = []
dedup (x ∷ xs) = let rest = dedup xs in if mem x xs then rest else x ∷ rest

-- `xs - ys` of sets
unfoldable pub minus : List String → List String → List String
minus [] ys = []
minus (x ∷ xs) ys = let rest = minus xs ys in if mem x ys then rest else x ∷ rest

-- `xs <= ys` of sets
unfoldable pub subset : List String → List String → Bool
subset [] ys = true
subset (x ∷ xs) ys = mem x ys && subset xs ys

unfoldable pub occurrences : String → List String → ℕ
occurrences x [] = 0
occurrences x (y ∷ ys) = (if y == x then 1 else 0) + occurrences x ys

unfoldable pub insert_sorted : String → List String → List String
insert_sorted x [] = x ∷ []
insert_sorted x (y ∷ ys) =
    let rest = insert_sorted x ys in if str_leb x y then x ∷ y ∷ ys else y ∷ rest

unfoldable pub sorted : List String → List String
unfolding insert_sorted
sorted [] = []
sorted (x ∷ xs) = insert_sorted x (sorted xs)

pub occurrences-append :
    (x : String) (xs ys : List String)
    → occurrences x (xs ++ ys) ≡ occurrences x xs + occurrences x ys
unfolding occurrences
occurrences-append x [] ys = omega arith
occurrences-append x (y ∷ xs) ys = omega (arith, occurrences-append x xs ys)

pub occurrences_of_not_mem :
    (x : String) (xs : List String) → mem x xs ≡ false → occurrences x xs ≡ 0
unfolding occurrences mem
occurrences_of_not_mem x [] h = refl
occurrences_of_not_mem x (y ∷ ys) h = ground (arith, occurrences_of_not_mem x ys)

pub occurrences_of_mem : (x : String) (xs : List String) → mem x xs ≡ true → 1 ≤ occurrences x xs
unfolding occurrences mem
occurrences_of_mem x [] h = ground arith
occurrences_of_mem x (y ∷ ys) h = ground (arith, occurrences_of_mem x ys)

pub length-dedup-le : (xs : List String) → length (dedup xs) ≤ length xs
unfolding dedup
length-dedup-le [] = omega arith
length-dedup-le (x ∷ xs) = ground (arith, length-dedup-le xs)

-- `len(xs) == len(set(xs))` exactly when no text occurs twice.
pub occurrences-le-one :
    (xs : List String) (x : String) → length (dedup xs) ≡ length xs → occurrences x xs ≤ 1
unfolding dedup occurrences
occurrences-le-one [] x h = omega arith
occurrences-le-one (y ∷ ys) x h =
    ground
      (arith, length-dedup-le ys, occurrences-le-one ys x, eq_iff y x, occurrences_of_not_mem y ys)

pub length-dedup_of_unique :
    (xs : List String) → ((x : String) → occurrences x xs ≤ 1) → length (dedup xs) ≡ length xs
unfolding dedup occurrences
length-dedup_of_unique [] h = refl
length-dedup_of_unique (y ∷ ys) h = ground (
  arith,
  h y,
  eq_iff y y,
  occurrences_of_mem y ys,
  length-dedup_of_unique ys (λ x. omega (arith, h x)),
)

pub mem-dedup : (x : String) (xs : List String) → mem x (dedup xs) ≡ mem x xs
unfolding mem dedup
mem-dedup x [] = refl
mem-dedup x (y ∷ ys) = ground (arith, mem-dedup x ys, eq_iff y x)

pub mem-append : (x : String) (xs ys : List String) → mem x (xs ++ ys) ≡ (mem x xs || mem x ys)
unfolding mem
mem-append x [] ys = refl
mem-append x (y ∷ xs) ys = ground (arith, mem-append x xs ys)

-- `not (xs - ys)` exactly when `xs <= ys`.
pub mem_of_minus :
    (xs ys : List String) (x : String) → minus xs ys ≡ [] → mem x xs ≡ true → mem x ys ≡ true
unfolding mem minus
mem_of_minus [] ys x e h = cc
mem_of_minus (y ∷ xs) ys x e h = ground (arith, mem_of_minus xs ys x, eq_iff y x)

pub minus_of_mem :
    (xs ys : List String) → ((x : String) → mem x xs ≡ true → mem x ys ≡ true) → minus xs ys ≡ []
unfolding mem minus
minus_of_mem [] ys h = refl
minus_of_mem (y ∷ xs) ys h =
    ground (arith, h y, eq_iff y y, minus_of_mem xs ys (λ x m. h x (ground arith)))

pub subset-eq-true :
    (xs ys : List String) (x : String) → subset xs ys ≡ true → mem x xs ≡ true → mem x ys ≡ true
unfolding mem subset
subset-eq-true [] ys x e h = cc
subset-eq-true (y ∷ xs) ys x e h = ground (arith, subset-eq-true xs ys x, eq_iff y x)

pub subset_of_mem :
    (xs ys : List String) → ((x : String) → mem x xs ≡ true → mem x ys ≡ true) → subset xs ys ≡ true
unfolding mem subset
subset_of_mem [] ys h = refl
subset_of_mem (y ∷ xs) ys h =
    ground (arith, h y, eq_iff y y, subset_of_mem xs ys (λ x m. h x (ground arith)))

-- A set that is not contained in another has a member outside it.
pub subset-eq-false :
    (xs ys : List String)
    → subset xs ys ≡ false
    → (x : String) × (mem x xs ≡ true) × (mem x ys ≡ false)
unfolding mem subset
subset-eq-false [] ys e = cc
subset-eq-false (y ∷ xs) ys e = elim (Bool-cases (mem y ys)) [
  | inr out ↦ (y, ground (arith, eq_iff y y), out)
  | inl inside ↦ let (x, m, out) = subset-eq-false xs ys (ground arith) in (x, ground arith, out)
]

mem-insert_sorted :
    (x y : String) (ys : List String) → mem x (insert_sorted y ys) ≡ (y == x || mem x ys)
unfolding insert_sorted mem
mem-insert_sorted x y [] = refl
mem-insert_sorted x y (z ∷ zs) = ground (arith, mem-insert_sorted x y zs)

-- `sorted` neither adds nor drops a name.
pub mem-sorted : (x : String) (xs : List String) → mem x (sorted xs) ≡ mem x xs
unfolding sorted mem
mem-sorted x [] = refl
mem-sorted x (y ∷ ys) = ground (arith, mem-insert_sorted x y (sorted ys), mem-sorted x ys)

pub mem-minus :
    (x : String) (xs ys : List String) → mem x (minus xs ys) ≡ (mem x xs && not (mem x ys))
unfolding minus mem
mem-minus x [] ys = refl
mem-minus x (z ∷ zs) ys = elim (Bool-cases (z == x)) [
  | inl hit ↦
      let same : z ≡ x = (eq_iff z x).0 hit in
      elim (Bool-cases (mem x ys)) [
        | inl there ↦
            rw (same, there) (mem-minus x zs ys ∙ rw (there, (eq_iff x x).1 refl) ground arith)
        | inr absent ↦ rw (same, absent) (rw ((eq_iff x x).1 refl) refl)
      ]
  | inr other ↦ elim (Bool-cases (mem z ys)) [
    | inl there ↦ rw (there, other) (mem-minus x zs ys)
    | inr absent ↦ rw (absent, other) (mem-minus x zs ys)
  ]
]
