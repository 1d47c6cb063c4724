-- ===== src/Graph/Validate/Dropped.antt =====
-- The dropped findings, and the descriptions that rejected items name.
use argus_review.Prelude.{
  ℕ, zero, suc, ◌<◌, String, ◌≡◌, ◌↔◌, refl, sym, ap, ◌∙◌, ◌⊎◌, inl, inr, true, some, List, [], ◌∷◌,
  length, get_elem?, get_elem?-some, All, arith, Bool-cases, ◌==◌, eq_iff,
}
use argus_review.Prelude.Result.{ok}
use argus_review.Prelude.Membership.{In}
use argus_review.Prelude.Names.{mem}
use argus_review.Models.{Finding, DroppedFinding}
use argus_review.Pipeline.{FindingValidationItem}
use argus_review.Graph.Validate.{dropped_of, dropped_descriptions}

-- Some of the items points at a finding with this description.
pub record Names (fs : List Finding) (items : List FindingValidationItem) (d : String)
    : Type 0 where
  pub item : FindingValidationItem
  pub listed : In item items
  pub finding : Finding
  pub pointed : get_elem? fs item.index ≡ some finding
  pub described : finding.description ≡ d

pub Names-later :
    (fs : List Finding) (x : FindingValidationItem) (items : List FindingValidationItem)
    (d : String)
    → Names fs items d
    → Names fs (x ∷ items) d
Names-later fs x items d n = record {
  item = n.item;
  listed = (suc n.listed.0, n.listed.1);
  finding = n.finding;
  pointed = n.pointed;
  described = n.described;
}

pub Names-at :
    (fs : List Finding) (x : FindingValidationItem) (items : List FindingValidationItem)
    (d : String) (f : Finding)
    → get_elem? fs x.index ≡ some f
    → (n : Names fs (x ∷ items) d) (i : ℕ) → get_elem? (x ∷ items) i ≡ some n.item
    → (f.description ≡ d) ⊎ Names fs items d
Names-at fs x items d f found n zero e =
    let same : x ≡ n.item = cc in
    let same_f : get_elem? fs x.index ≡ some n.finding = rw same n.pointed in
    let here : f ≡ n.finding = (let e2 = sym found ∙ same_f in cc) in inl (rw here n.described)
Names-at fs x items d f found n (suc i) e = inr (record {
  item = n.item;
  listed = (i, e);
  finding = n.finding;
  pointed = n.pointed;
  described = n.described;
})

pub Names-first :
    (fs : List Finding) (x : FindingValidationItem) (items : List FindingValidationItem)
    (d : String) (f : Finding)
    → get_elem? fs x.index ≡ some f
    → Names fs (x ∷ items) d
    → (f.description ≡ d) ⊎ Names fs items d
Names-first fs x items d f found n = Names-at fs x items d f found n n.listed.0 n.listed.1

-- The dropped findings of items in range: one per item, with the descriptions that they name.
pub record DroppedFor (fs : List Finding) (items : List FindingValidationItem) : Type 0 where
  pub ds : List DroppedFinding
  pub made : dropped_of fs items ≡ ok ds
  pub count : length ds ≡ length items
  pub named : (d : String) → (mem d (dropped_descriptions ds) ≡ true) ↔ Names fs items d

pub not_named : (fs : List Finding) (d : String) → Names fs [] d → ⊥
not_named fs d n = (let e = n.listed.1 in cc)

pub dropped_of_ok :
    (fs : List Finding) (items : List FindingValidationItem)
    → All (λ item. item.index < length fs) items
    → DroppedFor fs items
unfolding mem
dropped_of_ok fs [] h = record {
  ds = [];
  made = refl;
  count = refl;
  named = λ d. (λ e. cc, λ n. absurd (not_named fs d n));
}
dropped_of_ok fs (item ∷ items) h =
    let (f, found) = get_elem?-some fs item.index h.0 in
    let rest = dropped_of_ok fs items h.1 in
    record {
      ds = record { finding = f; rejection_rationale = item.evidence } ∷ rest.ds;
      made = rw (found, rest.made) refl;
      count = ap suc rest.count;
      named = λ d. (
        λ e. elim (Bool-cases (f.description == d)) [
          | inl here ↦ record {
            item = item;
            listed = (0, refl);
            finding = f;
            pointed = found;
            described = (eq_iff f.description d).0 here;
          }
          | inr later ↦ Names-later fs item items d ((rest.named d).0 (ground arith))
        ],
        λ n. elim (Names-first fs item items d f found n) [
          | inl here ↦ ground (arith, (eq_iff f.description d).1 here)
          | inr later ↦ ground (arith, (rest.named d).1 later)
        ],
      );
    }
