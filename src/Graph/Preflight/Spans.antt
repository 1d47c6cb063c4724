-- ===== src/Graph/Preflight/Spans.antt =====
-- The pieces of a header line: the runs of characters that are no white space, and the fixed texts
-- between them.
use Prim.Native.Char.{code}
use Prim.Native.String.append
use Prim.Native.String.{◌++◌ as ◌+++◌}
use text.Mathlib.TextEquality.{Char-path}
use argus_review.Prelude.{
  ℕ, String, ◌≡◌, refl, sym, ap, inl, inr, Bool, true, false, not, nat_eq_iff, arith, Bool-cases,
}
use argus_review.Prelude.Text.{str_empty, str_length, str_drop, is_space, has_prefix}
use argus_review.Graph.Preflight.{span}

-- No white space in the text, and at least one character.
abbrev pub NoSpace : String → Type 0
NoSpace String.[] = Unit
NoSpace (String.◌∷◌ c s) = (is_space (code c) ≡ false) × NoSpace s

abbrev pub Word : String → Type 0
Word s = (str_empty s ≡ false) × NoSpace s

-- What follows a path: nothing, or white space.
abbrev pub Stops : String → Type 0
Stops String.[] = Unit
Stops (String.◌∷◌ c s) = is_space (code c) ≡ true

abbrev pub solid : ℕ → Bool
solid c = not (is_space c)

pub span-parts :
    (s : String)
    → let (word, rest) = span solid s in (word +++ rest ≡ s) × NoSpace word × Stops rest
unfolding span
span-parts String.[] = (refl, tt, tt)
span-parts (String.◌∷◌ c s) =
    let (whole, free, stops) = span-parts s in
    elim (Bool-cases (is_space (code c))) [
      | inl space ↦ rw space (append.nil _, tt, space)
      | inr other ↦ rw other (rw append.cons (ap (λ t. String.◌∷◌ c t) whole), (other, free), stops)
    ]

pub span-word :
    (word rest : String) → NoSpace word → Stops rest → span solid (word +++ rest) ≡ (word, rest)
unfolding span
span-word String.[] String.[] free stops = rw (append.nil "") refl
span-word String.[] (String.◌∷◌ c s) free stops = rw (append.nil (String.◌∷◌ c s)) (rw stops refl)
span-word (String.◌∷◌ c s) rest free stops =
    rw append.cons (rw (free.0, span-word s rest free.1 stops) refl)

pub prefix_drop : (p s : String) → has_prefix p s ≡ true → s ≡ p +++ str_drop (str_length p) s
unfolding has_prefix str_drop str_length
prefix_drop String.[] s h = sym (append.nil s)
prefix_drop (String.◌∷◌ p ps) String.[] h = cc
prefix_drop (String.◌∷◌ p ps) (String.◌∷◌ c s) h =
    let same : p ≡ c = Char-path p c ((nat_eq_iff (code p) (code c)).0 (ground arith)) in
    let later = prefix_drop ps s (ground arith) in
    rw same (rw append.cons (ap (λ t. String.◌∷◌ c t) later))

pub drop_prefix : (p s : String) → str_drop (str_length p) (p +++ s) ≡ s
unfolding str_drop str_length
drop_prefix String.[] s = append.nil s
drop_prefix (String.◌∷◌ c p) s = rw append.cons (drop_prefix p s)

pub drop_13 : (s : String) → str_drop 13 ("diff --git a/" +++ s) ≡ s
unfolding str_length
drop_13 s = drop_prefix "diff --git a/" s

pub drop_3 : (s : String) → str_drop 3 (" b/" +++ s) ≡ s
unfolding str_length
drop_3 s = drop_prefix " b/" s

pub head_13 :
    (s : String) → has_prefix "diff --git a/" s ≡ true → s ≡ "diff --git a/" +++ str_drop 13 s
unfolding str_length
head_13 s h = prefix_drop "diff --git a/" s h

pub head_3 : (s : String) → has_prefix " b/" s ≡ true → s ≡ " b/" +++ str_drop 3 s
unfolding str_length
head_3 s h = prefix_drop " b/" s h

pub separated : (rest : String) → Stops (" b/" +++ rest)
unfolding is_space
separated rest = rw append.cons refl
