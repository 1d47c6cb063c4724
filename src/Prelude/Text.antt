-- ===== src/Prelude/Text.antt =====
-- Python's `str` as the native text: length and slices count characters.
use Prim.Native.Nat.{ℕ, zero, suc, ◌/◌, ◌%◌, ◌≤◌}
use Prim.Native.Char.{code}
use Prim.Native.String.append
use Prim.Native.String.{String, [], ◌∷◌, ◌++◌, compare}
use Prim.Native.Nat.{Ordering}
use mathlib.Core.Path.{◌≡◌, refl}
use mathlib.Core.Bool.{Bool, true, false, ◌&&◌, ◌||◌}
use mathlib.Core.List.{List}
use native.Mathlib.Omega.{arith}
use text.Mathlib.Text.{◌==◌}
use argus_review.Prelude.Tests.{leb, nat_eq, if◌then◌else◌}

unfoldable pub str_length : String → ℕ
str_length [] = 0
str_length (c ∷ s) = suc (str_length s)

-- `s[:n]`
unfoldable pub str_take : ℕ → String → String
str_take zero s = []
str_take (suc n) [] = []
str_take (suc n) (c ∷ s) = c ∷ str_take n s

abbrev pub str_empty : String → Bool
str_empty [] = true
str_empty (c ∷ s) = false

-- `str.isspace` of one character
unfoldable pub is_space : ℕ → Bool
is_space c =
    (leb 9 c && leb c 13)
    || (leb 28 c && leb c 32)
    || nat_eq c 0x85
    || nat_eq c 0xa0
    || nat_eq c 0x1680
    || (leb 0x2000 c && leb c 0x200a)
    || (leb 0x2028 c && leb c 0x2029)
    || nat_eq c 0x202f
    || nat_eq c 0x205f
    || nat_eq c 0x3000

unfoldable pub lstrip : String → String
lstrip [] = []
lstrip (c ∷ s) = let rest = lstrip s in if is_space (code c) then rest else c ∷ s

pub rstrip : String → String
rstrip [] = []
rstrip (c ∷ s) = let rest = rstrip s in if str_empty rest && is_space (code c) then [] else c ∷ rest

-- `s.strip()`
unfoldable pub strip : String → String
unfolding lstrip rstrip is_space
strip s = rstrip (lstrip s)

-- `sep.join(parts)`
unfoldable pub join : String → List String → String
join sep List.[] = []
join sep (List.◌∷◌ s List.[]) = s
join sep (List.◌∷◌ s (List.◌∷◌ t rest)) = s ++ sep ++ join sep (List.◌∷◌ t rest)

-- `a <= b` of texts, by code points
abbrev pub str_leb : String → String → Bool
str_leb a b = elim (compare a b) [ Ordering.gt ↦ false | _ ↦ true ]

abbrev digit : ℕ → String
digit zero = "0"
digit (suc zero) = "1"
digit (suc (suc zero)) = "2"
digit (suc (suc (suc zero))) = "3"
digit (suc (suc (suc (suc zero)))) = "4"
digit (suc (suc (suc (suc (suc zero))))) = "5"
digit (suc (suc (suc (suc (suc (suc zero)))))) = "6"
digit (suc (suc (suc (suc (suc (suc (suc zero))))))) = "7"
digit (suc (suc (suc (suc (suc (suc (suc (suc zero)))))))) = "8"
digit _ = "9"

show_digits : ℕ → ℕ → String
show_digits zero n = digit (n % 10)
show_digits (suc fuel) n =
    let front = show_digits fuel (n / 10) in if leb n 9 then digit n else front ++ digit (n % 10)

-- `str(n)`; a number has fewer digits than its value, so the fuel suffices
unfoldable pub show : ℕ → String
unfolding show_digits
show n = show_digits n n

pub str_length-take-le : (n : ℕ) (s : String) → str_length (str_take n s) ≤ n
unfolding str_length str_take
str_length-take-le zero s = omega arith
str_length-take-le (suc n) [] = omega arith
str_length-take-le (suc n) (c ∷ s) = omega (arith, str_length-take-le n s)

strip_test : strip "  a b\n" ≡ "a b"
unfolding strip
strip_test = refl

show_test : show 1204 ≡ "1204"
unfolding show
show_test = refl

-- `s.startswith(prefix)`
unfoldable pub has_prefix : String → String → Bool
has_prefix [] s = true
has_prefix (p ∷ ps) [] = false
has_prefix (p ∷ ps) (c ∷ s) = nat_eq (code p) (code c) && has_prefix ps s

-- `s.endswith(suffix)`
unfoldable pub has_suffix : String → String → Bool
has_suffix suffix [] = str_empty suffix
has_suffix suffix (c ∷ s) = suffix == (c ∷ s) || has_suffix suffix s

-- `part in s`
unfoldable pub contains : String → String → Bool
unfolding has_prefix
contains part [] = str_empty part
contains part (c ∷ s) = has_prefix part (c ∷ s) || contains part s

-- `s[n:]`
unfoldable pub str_drop : ℕ → String → String
str_drop zero s = s
str_drop (suc n) [] = []
str_drop (suc n) (c ∷ s) = str_drop n s

-- `s.removeprefix(prefix)`
unfoldable pub remove_prefix : String → String → String
unfolding has_prefix str_drop str_length
remove_prefix prefix s = if has_prefix prefix s then str_drop (str_length prefix) s else s

pub has_prefix-append : (p s : String) → has_prefix p (p ++ s) ≡ true
unfolding has_prefix
has_prefix-append [] s = refl
has_prefix-append (c ∷ p) s = rw append.cons (ground (arith, has_prefix-append p s))
