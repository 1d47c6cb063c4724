-- ===== src/Prelude/Membership.antt =====
-- Membership by position, and what `keep` does to it.
use Prim.Native.Nat.{ℕ, zero, suc}
use mathlib.Core.Path.{◌≡◌}
use mathlib.Core.Logic.{◌↔◌, inl, inr}
use mathlib.Core.Bool.{Bool, true}
use mathlib.Core.Option.{some}
use mathlib.Core.List.{List, [], ◌∷◌}
use argus_review.Prelude.Tests.{Bool-cases}
use argus_review.Prelude.Lists.{get_elem?, keep, All}

abbrev pub In {ℓ} : {A : Type ℓ} → A → List A → Type ℓ
In x xs = (i : ℕ) × (get_elem? xs i ≡ some x)

module _ {ℓ} {A : Type ℓ} (p : A → Bool) where
  In-cons : (x y : A) (xs : List A) → In x xs → In x (y ∷ xs)
  In-cons x y xs (i, e) = (suc i, e)

  some-inj : (x y : A) → some x ≡ some y → p x ≡ true → p y ≡ true
  some-inj x y e h = (let same : x ≡ y = cc in rw (← same) h)

  In-of_keep :
      (x : A) (xs : List A) (i : ℕ) → get_elem? (keep p xs) i ≡ some x → In x xs × (p x ≡ true)
  In-of_keep x [] i e = cc
  In-of_keep x (y ∷ ys) i e = elim (Bool-cases (p y)) [
    | inr out ↦ let (found, good) = In-of_keep x ys i (rw out at e) in (In-cons x y ys found, good)
    | inl here ↦
        elim i as (λ i. get_elem? (y ∷ keep p ys) i ≡ some x → In x (y ∷ ys) × (p x ≡ true)) [
          | zero ↦ λ e'. ((0, e'), some-inj y x e' here)
          | suc j ↦ λ e'. let (found, good) = In-of_keep x ys j e' in (In-cons x y ys found, good)
        ]
          (rw here at e)
  ]

  keep_of_In :
      (x : A) (xs : List A) (i : ℕ) → get_elem? xs i ≡ some x → p x ≡ true → In x (keep p xs)
  keep_of_In x [] i e h = cc
  keep_of_In x (y ∷ ys) zero e h =
      let same : y ≡ x = cc in let good : p y ≡ true = rw same h in rw good (0, e)
  keep_of_In x (y ∷ ys) (suc i) e h =
      let (j, found) = keep_of_In x ys i e h in
      elim (Bool-cases (p y)) [ inl good ↦ rw good (suc j, found) | inr out ↦ rw out (j, found) ]

  pub In-keep : (x : A) (xs : List A) → In x (keep p xs) ↔ (In x xs × (p x ≡ true))
  In-keep x xs = (λ (i, e). In-of_keep x xs i e, λ ((i, e), h). keep_of_In x xs i e h)

  pub keep-All {κ} : (P : A → Type κ) (xs : List A) → All P xs → All P (keep p xs)
  keep-All P [] h = tt
  keep-All P (x ∷ xs) h = elim (Bool-cases (p x)) [
    | inl good ↦ rw good (h.0, keep-All P xs h.1)
    | inr out ↦ rw out (keep-All P xs h.1)
  ]
