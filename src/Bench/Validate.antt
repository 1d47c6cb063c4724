-- ===== src/Bench/Validate.antt =====
-- argus/bench.py: `_validate_raw_bench`. An error names what the source's message names; the names
-- of the packaged prompt files are a parameter.
use argus_review.Prelude.{
  String, Bool, true, false, not, Option, none, some, List, [], ◌∷◌, map, is_empty, ◌==◌,
}
use Prim.Native.String.{◌++◌ as ◌+++◌}
use argus_review.Prelude.Text.{str_empty}
use argus_review.Prelude.Names.{mem, minus, sorted}
use argus_review.Prelude.Result.{Result, ok, err, reject, ◌>>◌}
use argus_review.Bench.{Toml, Table, value_of, infer_platform_for_model}

pub data BenchError : Type 0 where
  no_such_file undecodable : String → BenchError
  not_assignable : BenchError
  unknown_keys : String → List String → BenchError
  missing_key : String → String → BenchError
  not_a_table : String → BenchError
  bad_platform bad_caching bad_model bad_prompt : String → BenchError
  unknown_model unknown_prompt : String → String → BenchError
  incompatible : String → String → String → BenchError
  unknown_role : String → List String → BenchError

abbrev pub valid_platforms : List String
valid_platforms = "claude-sdk" ∷ "gemini" ∷ "openai-responses" ∷ []

abbrev pub valid_caching : List String
valid_caching = "auto" ∷ "off" ∷ "on" ∷ []

abbrev pub valid_model_aliases : List String
valid_model_aliases =
    "gpt-frontier" ∷ "gpt-mini" ∷ "claude-frontier" ∷ "claude-opus" ∷ "claude-default"
    ∷ "claude-mini" ∷ "gemini-frontier" ∷ "gemini-mini" ∷ []

abbrev specialists : List String
specialists =
    "security" ∷ "sql" ∷ "infra" ∷ "orchestration" ∷ "frontend" ∷ "slackbot" ∷ "deployment"
    ∷ "llm-patterns" ∷ "observability" ∷ []

abbrev pub Assignments : Type 0
Assignments = List (String × String)

-- `BULK_ROLE_PROMPTS`
abbrev pub bulk_role_prompts : Assignments
bulk_role_prompts =
    ("system-generalist", "pr-review-subagent")
    ∷ ("tests-and-docs", "pr-review-tests-and-docs")
    ∷ map (λ name. ("specialist-" +++ name, "pr-review-specialist-" +++ name)) specialists

abbrev pub keys_of : Table → List String
keys_of Table.no_entries = []
keys_of (Table.entry k v rest) = k ∷ keys_of rest

-- `isinstance(value, str) and value in names`
abbrev pub is_text_in : List String → Option Toml → Bool
is_text_in names (some (Toml.text s)) = mem s names
is_text_in names _ = false

abbrev pub text_of : Option Toml → String
text_of (some (Toml.text s)) = s
text_of _ = ""

abbrev pub has_key : String → Table → Bool
has_key key t = elim (value_of key t) [ none ↦ false | some v ↦ true ]

unfoldable pub check_known : String → List String → Table → Result BenchError Unit
check_known place allowed t =
    let unknown = minus (keys_of t) allowed in
    reject (not (is_empty unknown)) (BenchError.unknown_keys place (sorted unknown))

unfoldable pub check_required : String → List String → Table → Result BenchError Unit
check_required place [] t = ok tt
check_required place (key ∷ rest) t =
    reject (not (has_key key t)) (BenchError.missing_key place key) >> check_required place rest t

unfoldable pub validate_platform : String → Option Toml → Result BenchError Unit
validate_platform place v =
    reject (not (is_text_in valid_platforms v)) (BenchError.bad_platform place)

-- The caching of a table that has none is `"auto"`.
unfoldable pub validate_caching : String → Option Toml → Result BenchError Unit
validate_caching place none = ok tt
validate_caching place (some v) =
    reject (not (is_text_in valid_caching (some v))) (BenchError.bad_caching place)

unfoldable pub validate_model : String → Option Toml → Result BenchError Unit
validate_model place v =
    reject (str_empty (text_of v)) (BenchError.bad_model place)
    >> reject (not (is_text_in valid_model_aliases v)) (BenchError.unknown_model place (text_of v))

unfoldable pub is_compatible : String → String → Bool
is_compatible platform model = elim (infer_platform_for_model model) [
  | none ↦ true
  | some expected ↦ expected == platform
]

unfoldable pub validate_model_platform_compatibility :
    String → String → String → Result BenchError Unit
validate_model_platform_compatibility place platform model =
    reject (not (is_compatible platform model)) (BenchError.incompatible place platform model)

module _ (known_prompts : List String) where
  unfoldable pub validate_prompt_name : String → Option Toml → Result BenchError Unit
  validate_prompt_name place v =
      reject (str_empty (text_of v)) (BenchError.bad_prompt place)
      >> reject (not (mem (text_of v) known_prompts)) (BenchError.unknown_prompt place (text_of v))

  unfoldable pub validate_bulk : Option Toml → Result BenchError Unit
  validate_bulk none = err (BenchError.missing_key "bench config" "bulk_reviewer")
  validate_bulk (some (Toml.table bulk)) =
      check_known "[bulk_reviewer]" ("platform" ∷ "model" ∷ "caching" ∷ []) bulk
      >> check_required "[bulk_reviewer]" ("platform" ∷ "model" ∷ []) bulk
      >> validate_platform "[bulk_reviewer]" (value_of "platform" bulk)
      >> validate_model "[bulk_reviewer]" (value_of "model" bulk)
      >> validate_caching "[bulk_reviewer]" (value_of "caching" bulk)
      >> validate_model_platform_compatibility "[bulk_reviewer]"
          (text_of (value_of "platform" bulk)) (text_of (value_of "model" bulk))
  validate_bulk (some v) = err (BenchError.not_a_table "[bulk_reviewer]")

  unfoldable pub validate_role : String → Toml → Result BenchError Unit
  validate_role place (Toml.table t) =
      check_known place ("platform" ∷ "model" ∷ "prompt_name" ∷ "caching" ∷ []) t
      >> check_required place ("platform" ∷ "model" ∷ "prompt_name" ∷ []) t
      >> validate_platform place (value_of "platform" t)
      >> validate_model place (value_of "model" t)
      >> validate_caching place (value_of "caching" t)
      >> validate_prompt_name place (value_of "prompt_name" t)
      >> validate_model_platform_compatibility place (text_of (value_of "platform" t))
          (text_of (value_of "model" t))
  validate_role place v = err (BenchError.not_a_table place)

  unfoldable pub validate_roles : Table → Result BenchError Unit
  validate_roles Table.no_entries = ok tt
  validate_roles (Table.entry name v rest) =
      validate_role ("[roles." +++ name +++ "]") v >> validate_roles rest

  abbrev pub validate_roles_of : Option Toml → Result BenchError Unit
  validate_roles_of none = ok tt
  validate_roles_of (some (Toml.table roles)) = validate_roles roles
  validate_roles_of (some v) = err (BenchError.not_a_table "[roles]")

  unfoldable pub validate_bulk_prompts : Assignments → Result BenchError Unit
  validate_bulk_prompts [] = ok tt
  validate_bulk_prompts ((role, prompt) ∷ rest) =
      validate_prompt_name ("[bulk_reviewer] (role='" +++ role +++ "')") (some (Toml.text prompt))
      >> validate_bulk_prompts rest

  unfoldable pub validate_raw_bench : Table → Result BenchError Unit
  validate_raw_bench raw =
      check_known "bench config" ("bulk_reviewer" ∷ "roles" ∷ []) raw
      >> validate_bulk (value_of "bulk_reviewer" raw)
      >> validate_roles_of (value_of "roles" raw)
      >> validate_bulk_prompts bulk_role_prompts
