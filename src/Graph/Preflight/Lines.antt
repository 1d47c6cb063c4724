-- ===== src/Graph/Preflight/Lines.antt =====
-- The lines of a diff, and what splits it into them.
use Prim.Native.Char.{Char, code}
use Prim.Native.String.append
use Prim.Native.String.{◌++◌ as ◌+++◌}
use text.Mathlib.TextEquality.{Char-path}
use argus_review.Prelude.{
  ℕ, String, ◌≡◌, refl, ap, ◌∙◌, inl, inr, Bool, false, List, [], ◌∷◌, nat_eq, nat_eq_iff, All,
  Bool-cases, is_empty,
}
use argus_review.Prelude.Text.{join}
use argus_review.Graph.Preflight.{add_to_first, split_at}

-- No line break in the text.
abbrev pub OneLine : String → Type 0
OneLine String.[] = Unit
OneLine (String.◌∷◌ c s) = (nat_eq (code c) 10 ≡ false) × OneLine s

abbrev pub breaks : ℕ → Bool
breaks c = nat_eq c 10

-- The lines of a text: none has a line break, and joined by line breaks they are the text.
pub record LinesOf (text : String) (lines : List String) : Type 0 where
  pub each : All OneLine lines
  pub joined : join "\n" lines ≡ text

join-add_to_first :
    (c : Char) (lines : List String)
    → is_empty lines ≡ false
    → join "\n" (add_to_first c lines) ≡ String.◌∷◌ c (join "\n" lines)
unfolding join add_to_first
join-add_to_first c [] some_line = cc
join-add_to_first c (line ∷ []) some_line = refl
join-add_to_first c (line ∷ next ∷ lines) some_line = append.cons c line _

added_some : (c : Char) (lines : List String) → is_empty (add_to_first c lines) ≡ false
unfolding add_to_first
added_some c [] = refl
added_some c (line ∷ lines) = refl

split_some : (p : ℕ → Bool) (text : String) → is_empty (split_at p text) ≡ false
unfolding split_at add_to_first
split_some p String.[] = refl
split_some p (String.◌∷◌ c s) = elim (Bool-cases (p (code c))) [
  | inl stop ↦ rw stop refl
  | inr more ↦ rw more (added_some c (split_at p s))
]

join_break :
    (lines : List String)
    → is_empty lines ≡ false
    → join "\n" ("" ∷ lines) ≡ String.◌∷◌ "\n" (join "\n" lines)
unfolding join
join_break [] some_line = cc
join_break (line ∷ lines) some_line =
    let rest = join "\n" (line ∷ lines) in
    append.nil ("\n" +++ rest)
    ∙ append.cons "\n" "" rest
    ∙ ap (λ t. String.◌∷◌ "\n" t) (append.nil rest)

added_each :
    (c : Char) (lines : List String)
    → nat_eq (code c) 10 ≡ false
    → All OneLine lines
    → All OneLine (add_to_first c lines)
unfolding add_to_first
added_each c [] plain h = ((plain, tt), tt)
added_each c (line ∷ lines) plain h = ((plain, h.0), h.1)

pub split_lines : (text : String) → LinesOf text (split_at breaks text)
unfolding split_at join
split_lines String.[] = record { each = (tt, tt); joined = refl }
split_lines (String.◌∷◌ c s) =
    let later = split_lines s in
    elim (Bool-cases (breaks (code c))) [
      | inl stop ↦
          let newline : c ≡ "\n" = Char-path c "\n" ((nat_eq_iff (code c) 10).0 stop) in
          rw (stop, newline)
            (record {
              each = (tt, later.each);
              joined =
                  join_break (split_at breaks s) (split_some breaks s)
                  ∙ ap (λ t. String.◌∷◌ "\n" t) later.joined;
            })
      | inr more ↦ rw more (record {
        each = added_each c (split_at breaks s) more later.each;
        joined =
            join-add_to_first c (split_at breaks s) (split_some breaks s)
            ∙ ap (λ t. String.◌∷◌ c t) later.joined;
      })
    ]
