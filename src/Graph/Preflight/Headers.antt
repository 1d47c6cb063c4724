-- ===== src/Graph/Preflight/Headers.antt =====
-- The file headers of a diff, described without the scan that `_is_high_blast_radius` and
-- `extract_changed_files` make: lines of the form `diff --git a/X b/Y`, whose paths have no space.

use Prim.Native.String.{◌++◌ as ◌+++◌}
use text.Mathlib.TextEquality.{eq_iff}
use argus_review.Prelude.{
  String, ◌≡◌, ◌↔◌, refl, sym, ap, ◌∙◌, ◌⊎◌, inl, inr, Bool, true, false, not, ◌&&◌, ◌||◌, Option,
  none, some, List, [], ◌∷◌, ◌==◌, arith, Bool-cases, Option-cases,
}
use argus_review.Prelude.Text.{str_empty, str_drop, has_prefix, has_prefix-append, join}
use argus_review.Prelude.Names.{mem}
use argus_review.Graph.Preflight.Lines.{LinesOf, breaks, split_lines}
use argus_review.Graph.Preflight.Spans.{
  Word, Stops, solid, span-parts, span-word, drop_13, drop_3, head_13, head_3, separated,
}
use argus_review.Graph.Preflight.{split_at, span, path_pair, pairs_in, path_pairs, paths_of}

-- The line is a file header with these two paths.
pub record Header (a_path b_path line : String) : Type 0 where
  pub rest : String
  pub written : line ≡ "diff --git a/" +++ (a_path +++ (" b/" +++ (b_path +++ rest)))
  pub old : Word a_path
  pub new : Word b_path
  pub ends : Stops rest

-- The path stands on one of the two sides of a header among the lines.
abbrev pub InHeader : String → List String → Type 0
InHeader path [] = ⊥
InHeader path (line ∷ lines) =
    ((a_path : String) × (b_path : String) × Header a_path b_path line
      × ((a_path ≡ path) ⊎ (b_path ≡ path)))
    ⊎ InHeader path lines

path_pair-Header :
    (a_path b_path line : String)
    → Header a_path b_path line
    → path_pair line ≡ some (a_path, b_path)
unfolding path_pair
path_pair-Header a_path b_path line h =
    let tail = " b/" +++ (b_path +++ h.rest) in
    let head : has_prefix "diff --git a/" line ≡ true =
      rw h.written (has_prefix-append "diff --git a/" (a_path +++ tail)) in
    let old : span solid (str_drop 13 line) ≡ (a_path, tail) = rw h.written (
      ap (span solid) (drop_13 (a_path +++ tail))
      ∙ span-word a_path tail h.old.1 (separated (b_path +++ h.rest))) in
    let new : span solid (str_drop 3 tail) ≡ (b_path, h.rest) =
      ap (span solid) (drop_3 (b_path +++ h.rest)) ∙ span-word b_path h.rest h.new.1 h.ends in
    rw (path_pair, old, new, head, has_prefix-append " b/" (b_path +++ h.rest), h.old.0, h.new.0)
      refl

pair_injective :
    {a b c d : String}
    → Path (Option (String × String)) (some (a, b)) (some (c, d))
    → (a ≡ c) × (b ≡ d)
pair_injective e = (cc, cc)

Header-path_pair :
    (a_path b_path line : String)
    → path_pair line ≡ some (a_path, b_path)
    → Header a_path b_path line
unfolding path_pair
Header-path_pair a_path b_path line e =
    let old : String = (span solid (str_drop 13 line)).0 in
    let more : String = (span solid (str_drop 13 line)).1 in
    let new : String = (span solid (str_drop 3 more)).0 in
    let rest : String = (span solid (str_drop 3 more)).1 in
    let (old_whole, old_free, old_ends) = span-parts (str_drop 13 line) in
    let (new_whole, new_free, new_ends) = span-parts (str_drop 3 more) in
    elim (Bool-cases (
      has_prefix "diff --git a/" line
      && not (str_empty old)
      && has_prefix " b/" more
      && not (str_empty new))) [
        | inr other ↦
            (let none_there : Path (Option (String × String)) none (some (a_path, b_path)) =
                rw other at e in
              cc)
        | inl passed ↦
            let both : Path (Option (String × String)) (some (old, new)) (some (a_path, b_path)) =
              rw passed at e in
            let (same_old, same_new) = pair_injective both in
            let head : line ≡ "diff --git a/" +++ str_drop 13 line = head_13 line (ground arith) in
            let middle : more ≡ " b/" +++ str_drop 3 more = head_3 more (ground arith) in
            rw (← same_old, ← same_new)
              (record {
                rest = rest;
                written =
                    head
                    ∙ ap (λ t. "diff --git a/" +++ t)
                        (sym old_whole
                          ∙ ap (λ t. old +++ t) (middle ∙ ap (λ t. " b/" +++ t) (sym new_whole)));
                old = (ground arith, old_free);
                new = (ground arith, new_free);
                ends = new_ends;
              })
      ]

pairs_in-nil : pairs_in [] ≡ []
unfolding pairs_in
pairs_in-nil = refl

pairs_in-none :
    (line : String) (lines : List String)
    → path_pair line ≡ none
    → pairs_in (line ∷ lines) ≡ pairs_in lines
unfolding pairs_in
pairs_in-none line lines e = rw (pairs_in, e) refl

pairs_in-some :
    (line : String) (lines : List String) (pair : String × String)
    → path_pair line ≡ some pair
    → pairs_in (line ∷ lines) ≡ pair ∷ pairs_in lines
unfolding pairs_in
pairs_in-some line lines pair e = rw (pairs_in, e) refl

or_three : (a b c : Bool) → ((a || (b || c)) ≡ true) ↔ ((a ≡ true) ⊎ ((b ≡ true) ⊎ (c ≡ true)))
or_three true b c = (λ e. inl refl, λ h. refl)
or_three false true c = (λ e. inr (inl refl), λ h. refl)
or_three false false c =
    (λ e. inr (inr e), λ h. elim h [ inl e ↦ cc | inr (inl e) ↦ cc | inr (inr e) ↦ e ])

-- A path stands in a header of the lines exactly if the scan of the lines finds it.
headers_found :
    (path : String) (lines : List String)
    → (mem path (paths_of (pairs_in lines)) ≡ true) ↔ InHeader path lines
unfolding paths_of mem
headers_found path [] = rw pairs_in-nil (λ e. cc, λ h. absurd h)
headers_found path (line ∷ lines) =
    let (there, back) = headers_found path lines in
    elim (Option-cases (path_pair line)) [
      | inl other ↦ rw (pairs_in-none line lines other) (
        λ e. inr (there e),
        λ h. elim h [
          | inl (a_path, b_path, header, _) ↦
              (let found = path_pair-Header a_path b_path line header in cc)
          | inr rest ↦ back rest
        ],
      )
      | inr ((a_path, b_path), found) ↦
          let header = Header-path_pair a_path b_path line found in
          let old = eq_iff a_path path in
          let new = eq_iff b_path path in
          let (split, join) = or_three (a_path == path) (b_path == path) _ in
          rw (pairs_in-some line lines (a_path, b_path) found) (
            λ e. elim (split e) [
              | inl hit ↦ inl (a_path, b_path, header, inl (old.0 hit))
              | inr (inl hit) ↦ inl (a_path, b_path, header, inr (new.0 hit))
              | inr (inr rest) ↦ inr (there rest)
            ],
            λ h. elim h [
              | inr rest ↦ join (inr (inr (back rest)))
              | inl (a', b', other, which) ↦
                  let (same_old, same_new) =
                    pair_injective (sym found ∙ path_pair-Header a' b' line other) in
                  elim which [
                    | inl hit ↦ join (inl (old.1 (same_old ∙ hit)))
                    | inr hit ↦ join (inr (inl (new.1 (same_new ∙ hit))))
                  ]
            ],
          )
    ]

-- The scan of a diff reads its lines and finds exactly the paths of their headers.
pub path_pairs_lem :
    (diff : String)
    → (lines : List String) × LinesOf diff lines
      × ((path : String) → (mem path (paths_of (path_pairs diff)) ≡ true) ↔ InHeader path lines)
unfolding path_pairs
path_pairs_lem diff =
    (split_at breaks diff, split_lines diff, λ path. headers_found path (split_at breaks diff))
