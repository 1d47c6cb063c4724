-- ===== src/Gates/Header.antt =====
-- `re.subn(r"\*\*Verdict\*\*:.*?(?=\n|$)", header, comment, count=1)` of argus/helpers.py and
-- argus/graph.py: the first verdict header, up to the end of its line, is replaced.
pub mod Laws
use Prim.Native.Char.{code}
use Prim.Native.String.{◌++◌ as ◌+++◌}
use argus_review.Prelude.{String, Bool, ◌&&◌, nat_eq, if◌then◌else◌}
use argus_review.Prelude.Text.{has_prefix}

abbrev pub marker : String
marker = "**Verdict**:"

-- What follows the current line, its newline included.
pub from_newline : String → String
from_newline String.[] = String.[]
from_newline (String.◌∷◌ c s) =
    let rest = from_newline s in if nat_eq (code c) 10 then String.◌∷◌ c s else rest

unfoldable pub rewrite_verdict : String → String → String
rewrite_verdict header String.[] = String.[]
rewrite_verdict header (String.◌∷◌ c s) =
    let rest = rewrite_verdict header s in
    if has_prefix marker (String.◌∷◌ c s)
    then header +++ from_newline (String.◌∷◌ c s)
    else String.◌∷◌ c rest
