-- ===== src/Graph/Preflight.antt =====
-- `_is_high_blast_radius`, `_is_image_tag_bump_only` and `_edge_preflight_decision` of
-- argus/graph.py: when a round may take the lite path. The regular expressions are written out as
-- scans; `_is_bench_config_path` stands without its optional settings, as it is called here.
pub mod Headers
pub mod Lines
pub mod Lite
pub mod Spans
use Prim.Native.Char.{Char, code}
use argus_review.Prelude.{
  ℕ, String, Bool, true, false, not, ◌&&◌, ◌||◌, Option, none, some, List, [], ◌∷◌, ◌++◌, all, any,
  keep, is_empty, leb, nat_eq, ltb, ◌==◌, if◌then◌else◌,
}
use argus_review.Prelude.Text.{
  str_empty, str_length, str_drop, is_space, lstrip, strip, has_prefix, has_suffix, contains,
}
use argus_review.Pipeline.{FeedbackVerificationItem, VerificationStatus, PriorReviewContext}
use argus_review.Scope.{is_set}
use argus_review.Graph.{ReviewState}

add_to_first : Char → List String → List String
add_to_first c [] = String.◌∷◌ c String.[] ∷ []
add_to_first c (line ∷ lines) = String.◌∷◌ c line ∷ lines

-- The text between breaks; two breaks in a row leave an empty line, which no caller counts.
pub split_at : (ℕ → Bool) → String → List String
split_at is_break String.[] = String.[] ∷ []
split_at is_break (String.◌∷◌ c s) =
    let rest = split_at is_break s in
    if is_break (code c) then String.[] ∷ rest else add_to_first c rest

-- What `str.splitlines` breaks at.
is_line_break : ℕ → Bool
is_line_break c =
    (leb 10 c && leb c 13)
    || (leb 28 c && leb c 30)
    || nat_eq c 0x85
    || (leb 0x2028 c && leb c 0x2029)

-- The longest beginning of characters that pass, and what follows it.
pub span : (ℕ → Bool) → String → String × String
span p String.[] = (String.[], String.[])
span p (String.◌∷◌ c s) =
    let rest = span p s in
    if p (code c) then (String.◌∷◌ c rest.0, rest.1) else (String.[], String.◌∷◌ c s)

-- `^diff --git a/(\S+) b/(\S+)` at the start of a line.
unfoldable pub path_pair : String → Option (String × String)
unfolding span
path_pair line =
    let (a_path, more) = span (λ c. not (is_space c)) (str_drop 13 line) in
    let (b_path, rest) = span (λ c. not (is_space c)) (str_drop 3 more) in
    if has_prefix "diff --git a/" line
      && not (str_empty a_path)
      && has_prefix " b/" more
      && not (str_empty b_path)
    then some (a_path, b_path)
    else none

unfoldable pub pairs_in : List String → List (String × String)
pairs_in [] = []
pairs_in (line ∷ lines) =
    let rest = pairs_in lines in elim (path_pair line) [ none ↦ rest | some pair ↦ pair ∷ rest ]

unfoldable pub path_pairs : String → List (String × String)
unfolding split_at add_to_first
path_pairs diff = pairs_in (split_at (λ c. nat_eq c 10) diff)

-- Both sides of every pair, in order.
unfoldable pub paths_of : List (String × String) → List String
paths_of [] = []
paths_of ((a_path, b_path) ∷ pairs) = a_path ∷ b_path ∷ paths_of pairs

is_bench_config_path : String → Bool
is_bench_config_path path =
    path == ".argus/bench.toml"
    || has_suffix "/.argus/bench.toml" path
    || path == "argus/bench_default.toml"
    || has_suffix "/argus/bench_default.toml" path

-- `path.rsplit("/", 1)[-1]`
basename : String → String
basename String.[] = String.[]
basename (String.◌∷◌ c s) =
    let rest = basename s in if contains "/" (String.◌∷◌ c s) then rest else String.◌∷◌ c s

unfoldable pub is_high_blast_path : String → Bool
unfolding is_bench_config_path basename
is_high_blast_path path =
    is_bench_config_path path
    || has_prefix "shared/lib/" path
    || has_prefix "infrastructure/" path
    || has_prefix ".argus/bench.toml" path
    || contains "/migrations/" path
    || contains "/alembic/" path
    || contains "/.github/workflows/" path
    || contains "/.argus/bench.toml" path
    || has_suffix ".tf" path
    || has_suffix ".tf.json" path
    || has_suffix "/serverless.yml" path
    || has_suffix "/Dockerfile" path
    || has_suffix "argus/bench_default.toml" path
    || basename path == "Dockerfile"
    || basename path == "serverless.yml"

pub first_high : List String → Option String
first_high [] = none
first_high (path ∷ paths) =
    let rest = first_high paths in if is_high_blast_path path then some path else rest

unfoldable pub is_high_blast_radius : String → Option String
unfolding first_high
is_high_blast_radius diff = first_high (paths_of (path_pairs diff))

is_name_char : ℕ → Bool
is_name_char c = (leb 97 c && leb c 122) || (leb 48 c && leb c 57) || nat_eq c 95

is_hex : ℕ → Bool
is_hex c = (leb 48 c && leb c 57) || (leb 97 c && leb c 102)

starts_lower : String → Bool
starts_lower String.[] = false
starts_lower (String.◌∷◌ c s) = leb 97 (code c) && leb (code c) 122

-- `\s*"sha-[0-9a-f]{7,40}"\s*$`
is_sha_value : String → Bool
unfolding span
is_sha_value text =
    let (digits, after) = span is_hex (str_drop 5 (lstrip text)) in
    has_prefix "\"sha-" (lstrip text)
    && leb 7 (str_length digits)
    && leb (str_length digits) 40
    && has_prefix "\"" after
    && str_empty (strip (str_drop 1 after))

-- `_IMAGE_TAG_BUMP_LINE_RE.match`
is_bump_line : String → Bool
unfolding span
is_bump_line line =
    let (name, after) = span is_name_char (lstrip line) in
    starts_lower name
    && has_suffix "_image_tag" name
    && ltb 10 (str_length name)
    && has_prefix "=" (lstrip after)
    && is_sha_value (str_drop 1 (lstrip after))

is_content_line : String → Bool
is_content_line line =
    ltb 1 (str_length line)
    && (has_prefix "+" line || has_prefix "-" line)
    && not (has_prefix "+++" line)
    && not (has_prefix "---" line)

is_tfvars_pair : String × String → Bool
is_tfvars_pair (a_path, b_path) = has_suffix ".tfvars" a_path && has_suffix ".tfvars" b_path

unfoldable pub is_image_tag_bump_only : String → Bool
unfolding is_line_break split_at add_to_first is_content_line is_tfvars_pair is_bump_line
    is_sha_value is_name_char is_hex starts_lower
is_image_tag_bump_only diff =
    let pairs = path_pairs diff in
    let content = keep is_content_line (split_at is_line_break diff) in
    not (is_empty pairs)
    && all is_tfvars_pair pairs
    && not (is_empty content)
    && any (has_prefix "-") content
    && any (has_prefix "+") content
    && all (λ line. is_bump_line (str_drop 1 line)) content

-- An unresolved or regressed BLOCKING finding of the prior round.
unfoldable pub is_open : FeedbackVerificationItem → Bool
is_open item = item.prior_finding.severity == "BLOCKING" && (elim item.status [
  | VerificationStatus.resolved ↦ false
  | VerificationStatus.unresolved ↦ true
  | VerificationStatus.regressed ↦ true
])

abbrev pub has_prior : Option PriorReviewContext → Bool
has_prior none = false
has_prior (some prior) = true

abbrev pub items_of : Option (List FeedbackVerificationItem) → List FeedbackVerificationItem
items_of none = []
items_of (some items) = items

pub data PreflightRoute : Type 0 where
  plan lite_review : PreflightRoute

-- A high-blast-radius path without an exemption.
unfoldable pub is_gated : ReviewState → Bool
is_gated state =
    is_set (is_high_blast_radius state.diff)
    && not (
        is_image_tag_bump_only state.diff
        || (state.is_catchup_merge && has_prior state.prior_review))

unfoldable pub edge_preflight_decision : ReviewState → PreflightRoute
edge_preflight_decision state =
    if not (is_empty state.bench_config_changes) || is_set state.bench_config_unconfirmed
    then plan
    else if is_gated state
    then plan
    else if any is_open (items_of state.verification)
    then plan
    else if state.is_lite
    then lite_review
    else plan
