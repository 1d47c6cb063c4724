-- ===== src/Scope/Input.antt =====
-- `build_scope_input` of argus/scope.py: the manifest as one JSON text, as `json.dumps` with
-- `ensure_ascii=False` prints it.
use Prim.Native.Char.{Char, code}
use Prim.Native.String.{◌++◌ as ◌+++◌}
use argus_review.Prelude.{
  ℕ, zero, suc, ◌-◌, String, Option, none, some, List, map, length, ltb, nat_eq, if◌then◌else◌,
}
use argus_review.Prelude.Result.{Result, ok, err}
use argus_review.Prelude.Text.{str_length, str_take, str_empty, join, show}

abbrev pub patch_chars : ℕ
patch_chars = 6000

abbrev pub input_chars : ℕ
input_chars = 150000

abbrev pub description_chars : ℕ
description_chars = 4000

-- One entry of GitHub's list of changed files.
pub record ChangedFile : Type 0 where
  pub filename : String
  pub status : String
  pub previous_filename : Option String
  pub patch : Option String

-- The character at a position, or the default behind the end.
abbrev pub char_or : ℕ → String → Char → Char
char_or n String.[] d = d
char_or zero (String.◌∷◌ c s) d = c
char_or (suc n) (String.◌∷◌ c s) d = char_or n s d

abbrev pub hex_digits : String
hex_digits = "0123456789abcdef"

-- The second hexadecimal digit of a control character; the first is 0 or 1.
pub hex_digit : ℕ → Char
hex_digit n = char_or n hex_digits "f"

pub control : ℕ → String → String
control n rest = String.◌∷◌ "\\" (
    String.◌∷◌ "u" (
      String.◌∷◌ "0" (
        String.◌∷◌ "0" (
          if ltb n 16
          then String.◌∷◌ "0" (String.◌∷◌ (hex_digit n) rest)
          else String.◌∷◌ "1" (String.◌∷◌ (hex_digit (n - 16)) rest)))))

pub escaped : Char → String → String
escaped c rest = String.◌∷◌ "\\" (String.◌∷◌ c rest)

-- The short escapes: the letter behind the backslash.
pub short_escape : ℕ → Option Char
short_escape n =
    if nat_eq n 34
    then some "\""
    else if nat_eq n 92
    then some "\\"
    else if nat_eq n 10
    then some "n"
    else if nat_eq n 13
    then some "r"
    else if nat_eq n 9
    then some "t"
    else if nat_eq n 12
    then some "f"
    else if nat_eq n 8
    then some "b"
    else none

-- One character inside a JSON string, in front of the rest.
pub escape_char : Char → Option Char → String → String
escape_char c (some letter) rest = escaped letter rest
escape_char c none rest = if ltb (code c) 32 then control (code c) rest else String.◌∷◌ c rest

-- The inside of a JSON string.
unfoldable pub escape : String → String
escape String.[] = String.[]
escape (String.◌∷◌ c s) = escape_char c (short_escape (code c)) (escape s)

unfoldable pub quoted : String → String
quoted s = "\"" +++ escape s +++ "\""

pub quoted_or_null : Option String → String
unfolding quoted
quoted_or_null none = "null"
quoted_or_null (some s) = if str_empty s then "null" else quoted s

pub patch_of : Option String → String
patch_of none = ""
patch_of (some p) = p

-- The patch that is sent: cut at the cap.
pub capped : String → String
capped patch = if ltb patch_chars (str_length patch) then str_take patch_chars patch else patch

pub patch_note : String → String
patch_note patch =
    if str_empty patch
    then "no patch available (binary, oversized, or rename/mode-only): treat as changed"
    else if ltb patch_chars (str_length patch)
    then "patch truncated"
    else ""

pub entry : ChangedFile → String
unfolding quoted quoted_or_null patch_of capped patch_note
entry f =
    let patch = patch_of f.patch in
    "{\"filename\": "
    +++ quoted f.filename
    +++ ", \"status\": "
    +++ quoted f.status
    +++ ", \"previous_filename\": "
    +++ quoted_or_null f.previous_filename
    +++ ", \"patch\": "
    +++ quoted (capped patch)
    +++ ", \"patch_note\": "
    +++ quoted (patch_note patch)
    +++ "}"

pub payload : List ChangedFile → String → String
unfolding entry
payload files description =
    "{\"pr_description\": "
    +++ quoted (str_take description_chars description)
    +++ ", \"files\": ["
    +++ join ", " (map entry files)
    +++ "]}"

unfoldable pub build_scope_input : List ChangedFile → String → Result String String
unfolding payload
build_scope_input files description =
    let text = payload files description in
    if ltb input_chars (str_length text)
    then err (
        "PR is too large to scope-check ("
        +++ show (length files)
        +++ " files, "
        +++ show (str_length text)
        +++ " input chars)")
    else ok text
