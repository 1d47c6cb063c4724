-- ===== src/Prelude/Case.antt =====
-- Upper and lower case, as far as the words that the program compares can be reached.
use Prim.Native.Nat.{ℕ, ◌+◌, ◌-◌}
use Prim.Native.Char.{code}
use Prim.Native.String.{String, [], ◌∷◌}
use mathlib.Core.Path.{◌≡◌, refl}
use mathlib.Core.Bool.{Bool, true, false, ◌&&◌, ◌||◌}
use argus_review.Prelude.Tests.{leb, nat_eq, if◌then◌else◌}

is_lower : ℕ → Bool
is_lower c = leb 97 c && leb c 122

is_upper : ℕ → Bool
is_upper c = leb 65 c && leb c 90

-- The code of a letter's upper case: a to z, the dotless i and the long s.
upper_code : ℕ → ℕ
upper_code c =
    if is_lower c then c - 32 else if nat_eq c 0x131 then 73 else if nat_eq c 0x17f then 83 else c

lower_code : ℕ → ℕ
lower_code c = if is_upper c then c + 32 else c

-- `s.upper() == word`, for a word of ASCII capitals that holds no ligature but ST.
unfoldable pub upper_is : String → String → Bool
unfolding is_lower upper_code
upper_is [] [] = true
upper_is (c ∷ s) (d ∷ []) = nat_eq (upper_code (code c)) (code d) && upper_is s []
upper_is (c ∷ s) (d ∷ e ∷ t) =
    let single = upper_is s (e ∷ t) in
    let ligature = upper_is s t in
    (nat_eq (upper_code (code c)) (code d) && single)
    || (leb 0xfb05 (code c)
        && leb (code c) 0xfb06
        && nat_eq (code d) 83
        && nat_eq (code e) 84
        && ligature)
upper_is _ _ = false

-- Does the text, in lower case, begin with the given lower-case word?
unfoldable pub lower_prefix : String → String → Bool
unfolding is_upper lower_code
lower_prefix [] s = true
lower_prefix (p ∷ ps) [] = false
lower_prefix (p ∷ ps) (c ∷ s) = nat_eq (code p) (lower_code (code c)) && lower_prefix ps s

-- `word in s.lower()`
unfoldable pub lower_contains : String → String → Bool
unfolding lower_prefix
lower_contains word [] = lower_prefix word []
lower_contains word (c ∷ s) = lower_prefix word (c ∷ s) || lower_contains word s

upper_test : upper_is "resource_exhausted" "RESOURCE_EXHAUSTED" ≡ true
unfolding upper_is
upper_test = refl
