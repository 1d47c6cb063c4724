-- ===== src/Scope/Override.antt =====
-- `validate_expect_head_sha` and `validate_override` of argus/scope.py.
use Prim.Native.Char.{code}
use argus_review.Prelude.{
  ℕ, String, Bool, true, not, ◌&&◌, ◌||◌, Option, none, some, leb, nat_eq, if◌then◌else◌,
}
use argus_review.Prelude.Result.{Result, ok, err, ◌>>◌, reject}
use argus_review.Prelude.Text.{strip, str_length}

abbrev pub override_reason_max : ℕ
override_reason_max = 500

all_hex : String → Bool
all_hex String.[] = true
all_hex (String.◌∷◌ c s) =
    ((leb 48 (code c) && leb (code c) 57) || (leb 97 (code c) && leb (code c) 102)) && all_hex s

-- `SHA40.fullmatch(sha)`
unfoldable pub is_sha40 : String → Bool
unfolding all_hex
is_sha40 sha = all_hex sha && nat_eq (str_length sha) 40

pub validate_expect_head_sha : Option String → Result String (Option String)
validate_expect_head_sha none = ok none
validate_expect_head_sha (some sha) =
    if is_sha40 sha
    then ok (some sha)
    else err "expect_head_sha must be a 40-character lowercase hex SHA"

check_override : String → String → Result String (Option (String × String))
check_override sha reason = do
  reject (not (is_sha40 sha)) "--review-override-sha must be a 40-character lowercase hex SHA"
  reject (not (leb 1 (str_length reason) && leb (str_length reason) override_reason_max))
      "--review-override-reason must be 1-500 characters after stripping"
  ok (some (sha, reason))

unfoldable pub validate_override :
    Option String → Option String → Result String (Option (String × String))
unfolding check_override
validate_override none none = ok none
validate_override (some sha) (some reason) = check_override sha (strip reason)
validate_override _ _ =
    err "--review-override-sha and --review-override-reason must be set together"
