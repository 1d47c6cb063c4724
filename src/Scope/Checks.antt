-- ===== src/Scope/Checks.antt =====
-- The tests of `check_partition`, one by one.
use argus_review.Prelude.{
  String, ◌≡◌, refl, sym, ◌∙◌, ◌↔◌, ◌≢◌, Bool, true, false, not, List, [], ◌∷◌, ◌++◌, length, arith,
  All, any, is_empty, ltb,
}
use argus_review.Prelude.Result.{ok, reject-eq-ok, reject-eq-ok_last}
use argus_review.Prelude.Names.{mem, dedup, minus, subset, subset-eq-true, subset_of_mem, mem-dedup}
use argus_review.Models.{ScopeBehavior}
use argus_review.Scope.{
  max_behaviors, titles_of, dependencies, assigned_files, untrimmed, bad_dependency,
  check_partition,
}
use argus_review.Scope.Order.{prepare}
use argus_review.Scope.Order.Ready.{titles}
use argus_review.Scope.Order.Laws.{Known}

-- Non-empty, with no space at either end.
abbrev pub Trimmed : String → Type 0
Trimmed t = untrimmed t ≡ false

pub any-eq-false {ℓ} :
    {A : Type ℓ} (p : A → Bool) (xs : List A) → any p xs ≡ false → All (λ x. p x ≡ false) xs
any-eq-false p [] h = tt
any-eq-false p (x ∷ xs) h = (ground arith, any-eq-false p xs (ground arith))

pub any_none {ℓ} :
    {A : Type ℓ} (p : A → Bool) (xs : List A) → All (λ x. p x ≡ false) xs → any p xs ≡ false
any_none p [] h = refl
any_none p (x ∷ xs) h = ground (arith, any_none p xs h.1)

pub titles_of-eq-titles : (bs : List ScopeBehavior) → titles_of bs ≡ titles bs
titles_of-eq-titles [] = refl
titles_of-eq-titles (b ∷ bs) = rw (titles_of-eq-titles bs)

abbrev pub WellLinked : List String → ScopeBehavior → Type 0
WellLinked names b = (mem b.title b.depends_on ≡ false) × Known names b

pub bad_dependency-eq-false :
    (names : List String) (b : ScopeBehavior) → bad_dependency names b ≡ false → WellLinked names b
bad_dependency-eq-false names b h = (
  ground (arith, mem-dedup b.title b.depends_on),
  λ d m. ground (
    arith,
    mem-dedup d names,
    mem-dedup d b.depends_on,
    subset-eq-true (dedup b.depends_on) (dedup names) d,
  ),
)

pub WellLinked-bad_dependency :
    (names : List String) (b : ScopeBehavior) → WellLinked names b → bad_dependency names b ≡ false
WellLinked-bad_dependency names b (not_self, known) =
    let inside : subset (dedup b.depends_on) (dedup names) ≡ true =
      subset_of_mem (dedup b.depends_on) (dedup names)
        (λ x m. mem-dedup x names ∙ known x (sym (mem-dedup x b.depends_on) ∙ m)) in
    ground (arith, mem-dedup b.title b.depends_on)

pub is_empty-eq-true {ℓ} : {A : Type ℓ} (xs : List A) → not (is_empty xs) ≡ false → xs ≡ []
is_empty-eq-true [] h = refl
is_empty-eq-true (x ∷ xs) h = cc

pub is_empty-eq-false {ℓ} : {A : Type ℓ} (xs : List A) → (is_empty xs ≡ false) ↔ (xs ≢ [])
is_empty-eq-false [] = (λ e. cc, λ n. absurd (n refl))
is_empty-eq-false (x ∷ xs) = (λ e p. cc, λ n. refl)

-- The outcome of each test of `check_partition`.
pub record Passed (behaviors : List ScopeBehavior) (manifest : List String) : Type 0 where
  pub inhabited_list : is_empty behaviors ≡ false
  pub few : ltb max_behaviors (length behaviors) ≡ false
  pub trimmed : any untrimmed (titles_of behaviors ++ dependencies behaviors) ≡ false
  pub unique : ltb (length (dedup (titles_of behaviors))) (length (titles_of behaviors)) ≡ false
  pub inhabited : any (λ b. is_empty b.files) behaviors ≡ false
  pub once :
      ltb (length (dedup (assigned_files behaviors))) (length (assigned_files behaviors)) ≡ false
  pub inside : not (is_empty (minus (dedup (assigned_files behaviors)) manifest)) ≡ false
  pub covered : not (is_empty (minus manifest (dedup (assigned_files behaviors)))) ≡ false
  pub linked : any (bad_dependency (titles_of behaviors)) behaviors ≡ false
  pub ordered : not (prepare behaviors) ≡ false

pub check_partition-Passed :
    (bs : List ScopeBehavior) (m : List String) → check_partition bs m ≡ ok tt → Passed bs m
unfolding check_partition
check_partition-Passed bs m e0 =
    let (h0, e1) = reject-eq-ok _ _ _ e0 in
    let (h1, e2) = reject-eq-ok _ _ _ e1 in
    let (h2, e3) = reject-eq-ok _ _ _ e2 in
    let (h3, e4) = reject-eq-ok _ _ _ e3 in
    let (h4, e5) = reject-eq-ok _ _ _ e4 in
    let (h5, e6) = reject-eq-ok _ _ _ e5 in
    let (h6, e7) = reject-eq-ok _ _ _ e6 in
    let (h7, e8) = reject-eq-ok _ _ _ e7 in
    let (h8, e9) = reject-eq-ok _ _ _ e8 in
    record {
      inhabited_list = h0;
      few = h1;
      trimmed = h2;
      unique = h3;
      inhabited = h4;
      once = h5;
      inside = h6;
      covered = h7;
      linked = h8;
      ordered = reject-eq-ok_last _ _ e9;
    }

pub Passed-check_partition :
    (bs : List ScopeBehavior) (m : List String) → Passed bs m → check_partition bs m ≡ ok tt
unfolding check_partition
Passed-check_partition bs m p = rw (
  p.inhabited_list, p.few, p.trimmed, p.unique, p.inhabited, p.once, p.inside, p.covered, p.linked,
  p.ordered,
)
