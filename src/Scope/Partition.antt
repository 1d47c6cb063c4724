-- ===== src/Scope/Partition.antt =====
-- `validate_assessment` of argus/scope.py accepts exactly the partitions of the manifest.
use argus_review.Prelude.{
  ℕ, ◌≤◌, String, ◌≡◌, refl, sym, ◌∙◌, ◌↔◌, ◌≢◌, inl, inr, false, List, [], ◌∷◌, ◌++◌, length,
  arith, Bool-cases, All, All-map_of, All-zip, ◌⊎◌, any, is_empty, if◌then◌else◌, ltb,
}
use argus_review.Prelude.Result.{ok, reject-eq-ok, reject-eq-ok_last}
use argus_review.Prelude.Names.{
  mem, dedup, minus, occurrences, occurrences_of_mem, occurrences_of_not_mem, occurrences-le-one,
  length-dedup_of_unique, length-dedup-le, mem-dedup, mem_of_minus, minus_of_mem,
}
use argus_review.Models.{ScopeBehavior}
use argus_review.Scope.{
  ScopeAssessment, max_behaviors, titles_of, dependencies, assigned_files, untrimmed,
  bad_dependency, validate_assessment,
}
use argus_review.Scope.Order.Ready.{Below}
use argus_review.Scope.Order.Laws.{Unique, Known, prepare_iff}
use argus_review.Scope.Checks.{
  any-eq-false, any_none, titles_of-eq-titles, bad_dependency-eq-false, WellLinked-bad_dependency,
  is_empty-eq-true, is_empty-eq-false, Passed, check_partition-Passed, Passed-check_partition,
}

-- The behaviors split the manifest: every listed file is in exactly one of them, once, and no
-- other file is in any; their dependencies name other behaviors and have no cycle.
pub record Splits (behaviors : List ScopeBehavior) (manifest : List String) : Type 0 where
  pub some_behavior : behaviors ≢ []
  pub few : length behaviors ≤ max_behaviors
  pub trimmed : any untrimmed (titles_of behaviors ++ dependencies behaviors) ≡ false
  pub unique : Unique (titles_of behaviors)
  pub inhabited : any (λ b. is_empty b.files) behaviors ≡ false
  pub partition :
      (f : String) → occurrences f (assigned_files behaviors) ≡ (if mem f manifest then 1 else 0)
  pub known : All (Known (titles_of behaviors)) behaviors
  pub mergeable : (rank : String → ℕ) × All (Below rank) behaviors

-- With no duplicate, and the same members, each member occurs once.
occurrences_of_set :
    (xs manifest : List String)
    → length (dedup xs) ≡ length xs
    → minus (dedup xs) manifest ≡ []
    → minus manifest (dedup xs) ≡ []
    → (f : String) → occurrences f xs ≡ (if mem f manifest then 1 else 0)
occurrences_of_set xs manifest once inside covered f = elim (Bool-cases (mem f manifest)) [
  | inl listed ↦
      let found = mem_of_minus manifest (dedup xs) f covered listed in
      rw listed (
        omega (
          arith,
          occurrences-le-one xs f once,
          occurrences_of_mem f xs (sym (mem-dedup f xs) ∙ found),
        ))
  | inr other ↦ elim (Bool-cases (mem f xs)) [
    | inl present ↦
        absurd
          (ground (arith, mem_of_minus (dedup xs) manifest f inside (mem-dedup f xs ∙ present)))
    | inr absent ↦ rw other (occurrences_of_not_mem f xs absent)
  ]
]

mem_of_occurrences :
    (xs manifest : List String) (f : String)
    → occurrences f xs ≡ (if mem f manifest then 1 else 0)
    → mem f xs ≡ mem f manifest
mem_of_occurrences xs manifest f h =
    ground (arith, occurrences_of_mem f xs, occurrences_of_not_mem f xs)

not_less :
    (xs : List String) → ltb (length (dedup xs)) (length xs) ≡ false → length (dedup xs) ≡ length xs
not_less xs h = ground (arith, length-dedup-le xs)

Unique-not_less : (xs : List String) → Unique xs → ltb (length (dedup xs)) (length xs) ≡ false
Unique-not_less xs u = ground (arith, length-dedup_of_unique xs u)

Passed-Splits : (bs : List ScopeBehavior) (m : List String) → Passed bs m → Splits bs m
Passed-Splits bs m p =
    let unique : Unique (titles_of bs) =
      λ t. occurrences-le-one (titles_of bs) t (not_less _ p.unique) in
    let linked = any-eq-false (bad_dependency (titles_of bs)) bs p.linked in
    let known : All (Known (titles_of bs)) bs =
      All-map_of (λ b. bad_dependency (titles_of bs) b ≡ false) (Known (titles_of bs)) bs
        (λ b h. (bad_dependency-eq-false (titles_of bs) b h).1) linked in
    let same = titles_of-eq-titles bs in
    record {
      some_behavior = (is_empty-eq-false bs).0 p.inhabited_list;
      few = let few = p.few in ground arith;
      trimmed = p.trimmed;
      unique = unique;
      inhabited = p.inhabited;
      partition =
          occurrences_of_set (assigned_files bs) m (not_less _ p.once) (is_empty-eq-true _ p.inside)
            (is_empty-eq-true _ p.covered);
      known = known;
      mergeable =
          (prepare_iff bs (rw same at unique) (rw same at known)).0
            (let ordered = p.ordered in ground arith);
    }

Below-not_self :
    (rank : String → ℕ) (b : ScopeBehavior) → Below rank b → mem b.title b.depends_on ≡ false
Below-not_self rank b below = elim (Bool-cases (mem b.title b.depends_on)) [
  | inl self ↦ absurd (omega (arith, below b.title self))
  | inr other ↦ other
]

Splits-Passed : (bs : List ScopeBehavior) (m : List String) → Splits bs m → Passed bs m
Splits-Passed bs m s =
    let same = titles_of-eq-titles bs in
    let unique = s.unique in
    let known = s.known in
    let files : (f : String) → mem f (dedup (assigned_files bs)) ≡ mem f m = λ f.
      mem-dedup f (assigned_files bs)
      ∙ mem_of_occurrences (assigned_files bs) m f (s.partition f) in
    let (rank, ranked) = s.mergeable in
    record {
      inhabited_list = (is_empty-eq-false bs).1 s.some_behavior;
      few = let few = s.few in ground arith;
      trimmed = s.trimmed;
      unique = Unique-not_less (titles_of bs) unique;
      inhabited = s.inhabited;
      once = Unique-not_less (assigned_files bs) (λ f. let part = s.partition f in ground arith);
      inside = rw (minus_of_mem (dedup (assigned_files bs)) m (λ f h. sym (files f) ∙ h));
      covered = rw (minus_of_mem m (dedup (assigned_files bs)) (λ f h. files f ∙ h));
      linked = any_none (bad_dependency (titles_of bs)) bs (
          All-map_of (λ b. Known (titles_of bs) b × Below rank b)
            (λ b. bad_dependency (titles_of bs) b ≡ false) bs
            (λ b h. WellLinked-bad_dependency (titles_of bs) b (Below-not_self rank b h.1, h.0))
            (All-zip (Known (titles_of bs)) (Below rank) bs known ranked));
      ordered = rw ((prepare_iff bs (rw same at unique) (rw same at known)).1 s.mergeable);
    }

-- An assessment is accepted exactly if the model was certain and, for an empty manifest, named no
-- behavior, or else its behaviors split the manifest: at most 12 behaviors with unique trimmed
-- titles and some file each, every file of the manifest in exactly one of them and no other file
-- in any, every dependency a listed title, and no cycle among the dependencies.
pub validate_assessment_iff :
    (a : ScopeAssessment) (manifest : List String)
    → (validate_assessment a manifest ≡ ok tt) ↔ (
        (a.indeterminate ≡ false)
        × (((manifest ≡ []) × (a.behaviors ≡ []))
            ⊎ ((manifest ≢ []) × Splits a.behaviors manifest)))
unfolding validate_assessment
validate_assessment_iff a [] = (
  λ e.
      let (sure, rest) = reject-eq-ok _ _ _ e in
      (sure, inl (refl, is_empty-eq-true _ (reject-eq-ok_last _ _ rest))),
  λ (sure, cases). elim cases [
    | inl (none_listed, none_named) ↦ rw (sure, none_named)
    | inr (listed, splits) ↦ absurd (listed refl)
  ],
)
validate_assessment_iff a (f ∷ manifest) = (
  λ e.
      let (sure, rest) = reject-eq-ok _ _ _ e in
      (
        sure,
        inr (
          λ p. cc,
          Passed-Splits a.behaviors (f ∷ manifest)
              (check_partition-Passed a.behaviors (f ∷ manifest) rest),
        ),
      ),
  λ (sure, cases). elim cases [
    | inl (none_listed, none_named) ↦ absurd (cc)
    | inr (listed, splits) ↦ rw sure (
        Passed-check_partition a.behaviors (f ∷ manifest)
          (Splits-Passed a.behaviors (f ∷ manifest) splits))
  ],
)
