-- ===== src/Gates/Labels/Gap.antt =====
-- The finding of one label, and what each label of `build_degraded_coverage_labels` becomes.
use Prim.Native.String.{◌++◌ as ◌+++◌}
use text.Mathlib.TextLemmas.{append_assoc}
use argus_review.Prelude.{String, ◌≡◌, refl, sym, ◌∙◌, inl, inr, Bool-cases}
use argus_review.Prelude.Text.{str_empty}
use argus_review.Models.{Finding, Severity}
use argus_review.Gates.Labels.{
  Label, before_colon, after_colon, subject_text, outcome_text, coverage_description,
  coverage_gap_finding,
}

-- The name stands in the text.
abbrev pub Mentions : String → String → Type 0
Mentions name text = (front : String) × (back : String) × (text ≡ front +++ (name +++ back))

-- A finding that reports a gap in coverage and mentions what it is about.
abbrev pub Gap : Severity → String → Finding → Type 0
Gap severity name f =
    (f.severity ≡ severity) × (f.category ≡ "coverage-gap") × Mentions name f.description

description-Mentions :
    (l : Label) (code detail : String) → Mentions l.label (coverage_description l code detail)
unfolding coverage_description
description-Mentions l code detail = elim (Bool-cases (str_empty detail)) [
  | inl bare ↦ rw bare (subject_text l +++ " '", _, sym (append_assoc (subject_text l) " '" _))
  | inr more ↦ rw more (
    ((subject_text l +++ " ") +++ outcome_text l code) +++ ". Area: '",
    _,
    sym (
        append_assoc ((subject_text l +++ " ") +++ outcome_text l code) ". Area: '" _
        ∙ append_assoc (subject_text l +++ " ") (outcome_text l code) _
        ∙ append_assoc (subject_text l) " " _),
  )
]

pub coverage_gap_finding-Gap :
    (l : Label) → Gap Severity.suggestion l.label (coverage_gap_finding l)
unfolding coverage_gap_finding
coverage_gap_finding-Gap l =
    (refl, refl, description-Mentions l (before_colon l.reason) (after_colon l.reason))
