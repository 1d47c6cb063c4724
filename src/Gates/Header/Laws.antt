-- ===== src/Gates/Header/Laws.antt =====
-- The header that `rewrite_verdict` writes is the first one that a reader of the comment meets.
use Prim.Native.Char.{Char, code}
use Prim.Native.String.append
use Prim.Native.String.{◌++◌ as ◌+++◌}
use argus_review.Prelude.{
  ◌≤◌, String, ◌≡◌, refl, sym, ◌∙◌, ap, Bool, true, false, ◌&&◌, Option, none, some, arith, nat_eq,
  Bool-cases, inl, inr, if◌then◌else◌,
}
use argus_review.Prelude.Text.{has_prefix, str_length}
use argus_review.Gates.Header.{marker, from_newline, rewrite_verdict}

-- The text up to the first newline.
pub line_of : String → String
line_of String.[] = String.[]
line_of (String.◌∷◌ c s) =
    let rest = line_of s in if nat_eq (code c) 10 then String.[] else String.◌∷◌ c rest

unfoldable pub has_newline : String → Bool
has_newline String.[] = false
has_newline (String.◌∷◌ c s) = if nat_eq (code c) 10 then true else has_newline s

-- The first verdict header of a comment, without its newline.
unfoldable pub first_header : String → Option String
first_header String.[] = none
first_header (String.◌∷◌ c s) =
    let later = first_header s in
    if has_prefix marker (String.◌∷◌ c s) then some (line_of (String.◌∷◌ c s)) else later

abbrev pub has_header : String → Bool
has_header s = elim (first_header s) [ none ↦ false | some h ↦ true ]

has_prefix_append_right : (p h t : String) → has_prefix p h ≡ true → has_prefix p (h +++ t) ≡ true
unfolding has_prefix
has_prefix_append_right String.[] h t e = refl
has_prefix_append_right (String.◌∷◌ a p) String.[] t e = cc
has_prefix_append_right (String.◌∷◌ a p) (String.◌∷◌ c h) t e =
    rw append.cons (ground (arith, has_prefix_append_right p h t))

-- Two texts that begin with the same marker agree on every prefix no longer than it.
has_prefix_within :
    (p m x : String)
    → has_prefix m x ≡ true
    → str_length p ≤ str_length m
    → has_prefix p x ≡ has_prefix p m
unfolding has_prefix str_length
has_prefix_within String.[] m x e fits = refl
has_prefix_within (String.◌∷◌ a p) String.[] x e fits = absurd (omega arith)
has_prefix_within (String.◌∷◌ a p) (String.◌∷◌ b m) String.[] e fits = cc
has_prefix_within (String.◌∷◌ a p) (String.◌∷◌ b m) (String.◌∷◌ c x) e fits =
    ground (arith, has_prefix_within p m x)

line_of-append : (h t : String) → has_newline h ≡ false → line_of t ≡ "" → line_of (h +++ t) ≡ h
unfolding line_of has_newline
line_of-append String.[] t plain e = rw append.nil e
line_of-append (String.◌∷◌ c h) t plain e = rw append.cons (ground (arith, line_of-append h t))

line_of-from_newline : (s : String) → line_of (from_newline s) ≡ ""
unfolding line_of from_newline
line_of-from_newline String.[] = refl
line_of-from_newline (String.◌∷◌ c s) = ground (arith, line_of-from_newline s)

first_header_at : (s : String) → has_prefix marker s ≡ true → first_header s ≡ some (line_of s)
unfolding first_header has_prefix
first_header_at String.[] e = cc
first_header_at (String.◌∷◌ c s) e = rw e

rewrite_here :
    (header : String) (c : Char) (s : String)
    → has_prefix marker (String.◌∷◌ c s) ≡ true
    → rewrite_verdict header (String.◌∷◌ c s) ≡ header +++ from_newline (String.◌∷◌ c s)
unfolding rewrite_verdict
rewrite_here header c s e = rw e

rewrite_later :
    (header : String) (c : Char) (s : String)
    → has_prefix marker (String.◌∷◌ c s) ≡ false
    → rewrite_verdict header (String.◌∷◌ c s) ≡ String.◌∷◌ c (rewrite_verdict header s)
unfolding rewrite_verdict
rewrite_later header c s e = rw e

has_prefix_cons :
    (p : String) (c : Char) (s t : String)
    → ((q : String) → str_length q ≤ str_length marker → has_prefix q s ≡ has_prefix q t)
    → str_length p ≤ str_length marker
    → has_prefix p (String.◌∷◌ c s) ≡ has_prefix p (String.◌∷◌ c t)
unfolding has_prefix str_length
has_prefix_cons String.[] c s t agree fits = refl
has_prefix_cons (String.◌∷◌ a p) c s t agree fits =
    ap (λ b. nat_eq (code a) (code c) && b) (agree p (omega arith))

first_header_after :
    (c : Char) (s : String)
    → has_prefix marker (String.◌∷◌ c s) ≡ false
    → first_header (String.◌∷◌ c s) ≡ first_header s
unfolding first_header
first_header_after c s e = rw e

has_header_later :
    (c : Char) (s : String)
    → has_prefix marker (String.◌∷◌ c s) ≡ false
    → has_header (String.◌∷◌ c s) ≡ true
    → has_header s ≡ true
has_header_later c s e h = rw (first_header_after c s e, has_header) at h

module _ (header : String) (starts : has_prefix marker header ≡ true) where
  here_prefix : (s : String) → has_prefix marker (header +++ s) ≡ true
  here_prefix s = has_prefix_append_right marker header s starts

  -- Rewriting changes no prefix that is not longer than the marker.
  rewritten_prefix :
      (p s : String)
      → str_length p ≤ str_length marker
      → has_prefix p (rewrite_verdict header s) ≡ has_prefix p s
  rewritten_prefix p String.[] fits = unfold rewrite_verdict in refl
  rewritten_prefix p (String.◌∷◌ c s) fits =
      elim (Bool-cases (has_prefix marker (String.◌∷◌ c s))) [
        | inl here ↦ rw (rewrite_here header c s here) (
            has_prefix_within p marker _ (here_prefix _) fits
            ∙ sym (has_prefix_within p marker (String.◌∷◌ c s) here fits))
        | inr not_here ↦
            rw (rewrite_later header c s not_here)
              (has_prefix_cons p c _ s (λ q k. rewritten_prefix q s k) fits)
      ]

  -- After a rewrite the first header of the comment is the new one, where the comment had one.
  first_header_rewritten :
      has_newline header ≡ false
      → (s : String) → has_header s ≡ true
      → first_header (rewrite_verdict header s) ≡ some header
  first_header_rewritten plain String.[] found = unfold first_header in cc
  first_header_rewritten plain (String.◌∷◌ c s) found =
      elim (Bool-cases (has_prefix marker (String.◌∷◌ c s))) [
        | inl here ↦ rw (rewrite_here header c s here) (
            first_header_at _ (here_prefix _)
            ∙ ap some (
                line_of-append header (from_newline (String.◌∷◌ c s)) plain
                  (line_of-from_newline (String.◌∷◌ c s))))
        | inr not_here ↦ rw (rewrite_later header c s not_here) (
            first_header_after c _ (
              has_prefix_cons marker c _ s (λ q k. rewritten_prefix q s k) (omega arith) ∙ not_here)
            ∙ first_header_rewritten plain s (has_header_later c s not_here found))
      ]

-- After `rewrite_verdict` with a one-line verdict header, the first verdict header of the comment
-- is the given one, if the comment had a verdict header at all.
pub rewrite_verdict_lem :
    (header comment : String)
    → has_prefix marker header ≡ true
    → has_newline header ≡ false
    → has_header comment ≡ true
    → first_header (rewrite_verdict header comment) ≡ some header
rewrite_verdict_lem header comment starts plain found =
    first_header_rewritten header starts plain comment found
