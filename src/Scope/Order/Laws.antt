-- ===== src/Scope/Order/Laws.antt =====
-- The sorter accepts exactly the graphs that some ranking orders: each title above its dependencies.
use argus_review.Prelude.{
  ℕ, zero, suc, ◌+◌, ◌≤◌, String, ◌≡◌, refl, sym, ◌≢◌, ◌↔◌, inl, inr, true, false, ◌||◌, none, some,
  List, [], ◌∷◌, length, arith, ◌==◌, eq_iff, eq_refl, Bool-cases, Option-cases, All, All-map_of,
  All-zip, if◌then◌else◌,
}
use argus_review.Prelude.Names.{
  mem, subset, occurrences, subset-eq-true, subset-eq-false, occurrences_of_mem,
}
use argus_review.Models.{ScopeBehavior}
use argus_review.Scope.Order.{take_ready, merge_order, is_found, prepare}
use argus_review.Scope.Order.Ready.{titles, Below, Closed, Taken, take_ready-Taken, take_ready-none}

-- A title's place in the order, the last one done first; 0 if it is missing.
position : String → List String → ℕ
position t [] = 0
position t (x ∷ xs) = if x == t then suc (length xs) else position t xs

position-le-length : (t : String) (xs : List String) → position t xs ≤ length xs
unfolding position
position-le-length t [] = omega arith
position-le-length t (x ∷ xs) = ground (arith, position-le-length t xs)

-- What a completed order says of the behaviors that were pending.
abbrev Ordered : List String → List ScopeBehavior → List String → Type 0
Ordered done bs order =
    All (Below (λ t. position t order)) bs
    × ((t : String) → mem t done ≡ true → position t order ≡ position t done)

Ordered-step :
    (done : List String) (bs : List ScopeBehavior) (r : ScopeBehavior) (rest : List ScopeBehavior)
    (order : List String)
    → Taken done bs r rest
    → mem r.title done ≡ false
    → Ordered (r.title ∷ done) rest order
    → Ordered done bs order
unfolding position mem
Ordered-step done bs r rest order t fresh (ranked, places) =
    let old : (x : String) → mem x done ≡ true → position x order ≡ position x done =
      λ x m. ground (arith, places x, eq_iff r.title x) in
    (
      t.back (Below (λ x. position x order))
          (λ d m.
            let in_done : mem d done ≡ true = subset-eq-true r.depends_on done d t.ready m in
            ground
              (arith, places r.title, eq_refl r.title, old d in_done, position-le-length d done))
          ranked,
      old,
    )

Taken-fresh :
    (done : List String) (bs : List ScopeBehavior) (r : ScopeBehavior) (rest : List ScopeBehavior)
    → Taken done bs r rest
    → occurrences r.title (titles bs) + occurrences r.title done ≤ 1
    → mem r.title done ≡ false
unfolding occurrences
Taken-fresh done bs r rest t unique = elim (Bool-cases (mem r.title done)) [
  | inr fresh ↦ fresh
  | inl old ↦
      absurd
        (ground (arith, t.counts r.title, eq_refl r.title, occurrences_of_mem r.title done old))
]

Closed_step :
    (done : List String) (bs : List ScopeBehavior) (r : ScopeBehavior) (rest : List ScopeBehavior)
    → Taken done bs r rest
    → (d : String) → (mem d done || mem d (titles bs)) ≡ true
    → (mem d (r.title ∷ done) || mem d (titles rest)) ≡ true
unfolding mem
Closed_step done bs r rest t d h = ground (arith, t.members d)

merge_order-Ordered :
    (fuel : ℕ) (done : List String) (bs : List ScopeBehavior) (order : List String)
    → ((t : String) → occurrences t (titles bs) + occurrences t done ≤ 1)
    → merge_order fuel done bs ≡ some order
    → Ordered done bs order
unfolding merge_order
merge_order-Ordered fuel done [] order unique e =
    (tt, λ t m. let same : done ≡ order = ground arith in rw same refl)
merge_order-Ordered zero done (b ∷ bs) order unique e = cc
merge_order-Ordered (suc fuel) done (b ∷ bs) order unique e =
    elim (Option-cases (take_ready done (b ∷ bs))) [
      | inl stuck ↦ absurd (ground arith)
      | inr ((r, rest), found) ↦
          let taken = take_ready-Taken done (b ∷ bs) r rest found in
          let fits : (t : String)
              → occurrences t (titles rest) + occurrences t (r.title ∷ done) ≤ 1 =
            λ t. unfold occurrences in omega (arith, unique t, taken.counts t) in
          Ordered-step done (b ∷ bs) r rest order taken
            (Taken-fresh done (b ∷ bs) r rest taken (unique r.title))
            (merge_order-Ordered fuel (r.title ∷ done) rest order fits (ground arith))
    ]

-- What is stuck at every rank below any bound contradicts the ranking.
abbrev Waits : (String → ℕ) → List String → List String → ScopeBehavior → Type 0
Waits rank done pending b =
    (subset b.depends_on done ≡ false) × (Closed done pending b × Below rank b)

All_of_title :
    (P : String → Type 0) (bs : List ScopeBehavior) (t : String)
    → All (λ b. P b.title) bs
    → mem t (titles bs) ≡ true
    → P t
unfolding mem
All_of_title P [] t a m = absurd (ground arith)
All_of_title P (b ∷ bs) t a m = elim (Bool-cases (b.title == t)) [
  | inl same ↦ rw (sym ((eq_iff b.title t).0 same)) a.0
  | inr other ↦ All_of_title P bs t a.1 (ground arith)
]

Waits-climb :
    (rank : String → ℕ) (done : List String) (bs : List ScopeBehavior)
    → All (Waits rank done (titles bs)) bs
    → (n : ℕ) → All (λ b. n ≤ rank b.title) bs
Waits-climb rank done bs waits zero =
    All-map_of _ (λ b. 0 ≤ rank b.title) bs (λ b w. omega arith) waits
Waits-climb rank done bs waits (suc n) =
    let below = Waits-climb rank done bs waits n in
    All-map_of _ (λ b. suc n ≤ rank b.title) bs
      (λ b w.
        let (d, needed, missing) = subset-eq-false b.depends_on done w.0 in
        let pending : mem d (titles bs) ≡ true = ground (arith, w.1.0 d needed) in
        omega (arith, All_of_title (λ t. n ≤ rank t) bs d below pending, w.1.1 d needed))
      waits

take_ready_progress :
    (rank : String → ℕ) (done : List String) (b : ScopeBehavior) (bs : List ScopeBehavior)
    → All (Closed done (titles (b ∷ bs))) (b ∷ bs)
    → All (Below rank) (b ∷ bs)
    → take_ready done (b ∷ bs) ≢ none
take_ready_progress rank done b bs closed ranked e =
    let waits =
      All-zip _ _ (b ∷ bs) (take_ready-none done (b ∷ bs) e) (All-zip _ _ (b ∷ bs) closed ranked) in
    let high = (Waits-climb rank done (b ∷ bs) waits (suc (rank b.title))).0 in absurd (omega arith)

merge_order_total :
    (rank : String → ℕ) (fuel : ℕ) (done : List String) (bs : List ScopeBehavior)
    → length bs ≤ fuel
    → All (Closed done (titles bs)) bs
    → All (Below rank) bs
    → is_found (merge_order fuel done bs) ≡ true
unfolding merge_order
merge_order_total rank fuel done [] fits closed ranked = refl
merge_order_total rank zero done (b ∷ bs) fits closed ranked = absurd (omega arith)
merge_order_total rank (suc fuel) done (b ∷ bs) fits closed ranked =
    elim (Option-cases (take_ready done (b ∷ bs))) [
      | inl stuck ↦ absurd (take_ready_progress rank done b bs closed ranked stuck)
      | inr ((r, rest), found) ↦
          let taken = take_ready-Taken done (b ∷ bs) r rest found in
          rw (found, merge_order)
            (merge_order_total rank fuel (r.title ∷ done) rest (omega (arith, taken.size))
              (All-map_of _ (Closed (r.title ∷ done) (titles rest)) rest
                (λ c k d m. Closed_step done (b ∷ bs) r rest taken d (k d m))
                (taken.forth (Closed done (titles (b ∷ bs))) closed).1)
              (taken.forth (Below rank) ranked).1)
    ]

abbrev pub Unique : List String → Type 0
Unique xs = (t : String) → occurrences t xs ≤ 1

-- Every dependency is the title of some behavior.
abbrev pub Known : List String → ScopeBehavior → Type 0
Known names b = (d : String) → mem d b.depends_on ≡ true → mem d names ≡ true

-- The sorter accepts a graph over unique, known titles exactly if some ranking puts every
-- dependency strictly below the behaviors that need it: exactly if there is no cycle.
pub prepare_iff :
    (bs : List ScopeBehavior)
    → Unique (titles bs)
    → All (Known (titles bs)) bs
    → (prepare bs ≡ true) ↔ ((rank : String → ℕ) × All (Below rank) bs)
unfolding prepare
prepare_iff bs unique known = (
  λ accepted. elim (Option-cases (merge_order (length bs) [] bs)) [
    | inl failed ↦ absurd (ground arith)
    | inr (order, e) ↦ (
      λ t. position t order,
      (merge_order-Ordered (length bs) [] bs order
          (λ t. unfold occurrences in omega (arith, unique t)) e).0,
    )
  ],
  λ (rank, ranked).
      merge_order_total rank (length bs) [] bs (omega arith)
        (All-map_of (Known (titles bs)) (Closed [] (titles bs)) bs
          (λ b k d m. unfold mem in ground (arith, k d m)) known)
        ranked,
)
