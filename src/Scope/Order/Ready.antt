-- ===== src/Scope/Order/Ready.antt =====
-- One round of the order: a behavior with no pending dependency is taken, if there is one.
use argus_review.Prelude.{
  ℕ, suc, ◌<◌, String, ◌≡◌, refl, inl, inr, true, false, ◌||◌, none, some, List, [], ◌∷◌, length,
  arith, ◌==◌, Bool-cases, Option-cases, All,
}
use argus_review.Prelude.Names.{mem, subset, occurrences}
use argus_review.Models.{ScopeBehavior}
use argus_review.Scope.Order.{take_ready}

abbrev pub titles : List ScopeBehavior → List String
titles [] = []
titles (b ∷ bs) = b.title ∷ titles bs

-- Every dependency ranks strictly below the behavior that needs it.
abbrev pub Below : (String → ℕ) → ScopeBehavior → Type 0
Below rank b = (d : String) → mem d b.depends_on ≡ true → rank d < rank b.title

-- Every dependency is done or pending.
abbrev pub Closed : List String → List String → ScopeBehavior → Type 0
Closed done pending b =
    (d : String) → mem d b.depends_on ≡ true → (mem d done || mem d pending) ≡ true

pub record Taken (done : List String) (bs : List ScopeBehavior) (r : ScopeBehavior)
    (rest : List ScopeBehavior) : Type 1 where
  pub ready : subset r.depends_on done ≡ true
  pub size : length bs ≡ suc (length rest)
  pub counts : (t : String) → occurrences t (titles bs) ≡ occurrences t (r.title ∷ titles rest)
  pub members : (t : String) → mem t (titles bs) ≡ (r.title == t || mem t (titles rest))
  pub back : (P : ScopeBehavior → Type 0) → P r → All P rest → All P bs
  pub forth : (P : ScopeBehavior → Type 0) → All P bs → P r × All P rest

pub Taken-head :
    (done : List String) (b : ScopeBehavior) (bs : List ScopeBehavior)
    → subset b.depends_on done ≡ true
    → Taken done (b ∷ bs) b bs
unfolding mem
Taken-head done b bs h = record {
  ready = h;
  size = refl;
  counts = λ t. refl;
  members = λ t. refl;
  back = λ P p a. (p, a);
  forth = λ P a. a;
}

pub Taken-tail :
    (done : List String) (b : ScopeBehavior) (bs : List ScopeBehavior) (r : ScopeBehavior)
    (rest : List ScopeBehavior)
    → Taken done bs r rest
    → Taken done (b ∷ bs) r (b ∷ rest)
unfolding mem occurrences
Taken-tail done b bs r rest t = record {
  ready = t.ready;
  size = omega (arith, t.size);
  counts = λ x. omega (arith, t.counts x);
  members = λ x. ground (arith, t.members x);
  back = λ P p a. (a.0, t.back P p a.1);
  forth = λ P a. ((t.forth P a.1).0, (a.0, (t.forth P a.1).1));
}

pub take_ready-Taken :
    (done : List String) (bs : List ScopeBehavior) (r : ScopeBehavior) (rest : List ScopeBehavior)
    → take_ready done bs ≡ some (r, rest)
    → Taken done bs r rest
unfolding take_ready
take_ready-Taken done [] r rest e = cc
take_ready-Taken done (b ∷ bs) r rest e = elim (Bool-cases (subset b.depends_on done)) [
  | inl now ↦
      let same_r : r ≡ b = ground arith in
      let same_rest : rest ≡ bs = ground arith in rw (same_r, same_rest) (Taken-head done b bs now)
  | inr later ↦ elim (Option-cases (take_ready done bs)) [
    | inl missing ↦ absurd (ground arith)
    | inr ((r', rest'), found) ↦
        let same_r : r ≡ r' = ground arith in
        let same_rest : rest ≡ b ∷ rest' = ground arith in
        rw (same_r, same_rest)
          (Taken-tail done b bs r' rest' (take_ready-Taken done bs r' rest' found))
  ]
]

pub take_ready-none :
    (done : List String) (bs : List ScopeBehavior)
    → take_ready done bs ≡ none
    → All (λ b. subset b.depends_on done ≡ false) bs
unfolding take_ready
take_ready-none done [] e = tt
take_ready-none done (b ∷ bs) e = (ground (arith, e), take_ready-none done bs (ground arith))
