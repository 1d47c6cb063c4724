-- ===== src/Bench/Resolve.antt =====
-- argus/bench.py: `_overlay_layers`, `_load_bench_cached` and `resolve`. The packaged default, the
-- layers' files (absent, undecodable or a table) and the packaged prompts are parameters.
pub mod Tables
pub mod Valid
use argus_review.Prelude.{
  String, Bool, true, false, not, ◌||◌, Option, none, some, List, [], ◌∷◌, ◌++◌, map, if◌then◌else◌,
  ◌==◌,
}
use argus_review.Prelude.Text.{str_empty}
use argus_review.Prelude.Names.{mem, dedup, sorted}
use argus_review.Prelude.Result.{Result, ok, err, ◌>>=◌}
use argus_review.Bench.{Toml, Table, value_of, assign, deep_merge, infer_platforms_for_overlay}
use argus_review.Bench.Validate.{
  BenchError, Assignments, not_assignable, missing_key, not_a_table, no_such_file, unknown_role,
  bulk_role_prompts, keys_of, text_of, validate_raw_bench,
}

pub record BenchEntry : Type 0 where
  pub role : String
  pub platform : String
  pub model : String
  pub prompt_name : String
  pub caching : String

-- What a path leads to: nothing, or a file that may not decode.
abbrev pub File : Type 0
File = Option (Result BenchError Table)

pub record Place : Type 0 where
  pub packaged : Table
  pub known_prompts : List String
  pub user_global : File
  pub repo_local : File
  pub read : String → File

-- `(no_bench_overrides, bench_file, specialist_model)`
pub record BenchSettings : Type 0 where
  pub no_bench_overrides : Bool
  pub bench_file : Option String
  pub specialist_model : Option String

abbrev present : File → List (Result BenchError Table)
present none = []
present (some t) = t ∷ []

-- The standard files are skipped if they are absent; a file that was asked for may not be.
unfoldable pub overlay_layers :
    Place → Option String → Result BenchError (List (Result BenchError Table))
overlay_layers place none = ok (present place.user_global ++ present place.repo_local)
overlay_layers place (some path) =
    if str_empty path
    then ok (present place.user_global ++ present place.repo_local)
    else elim (place.read path) [
      | none ↦ err (BenchError.no_such_file path)
      | some t ↦ ok (present place.user_global ++ present place.repo_local ++ t ∷ [])
    ]

unfoldable pub merge_layers : Table → List (Result BenchError Table) → Result BenchError Table
merge_layers merged [] = ok merged
merge_layers merged (layer ∷ layers) = layer >>= λ overlay.
    merge_layers (deep_merge merged (infer_platforms_for_overlay overlay)) layers

-- `merged["bulk_reviewer"]["platform"] = …`: what is no table cannot be assigned to.
unfoldable pub force_specialist : Option String → Table → Result BenchError Table
force_specialist none merged = ok merged
force_specialist (some model) merged =
    if str_empty model then ok merged else elim (value_of "bulk_reviewer" merged) [
      | none ↦ err (BenchError.missing_key "bench config" "bulk_reviewer")
      | some (Toml.table bulk) ↦ ok (
          assign "bulk_reviewer"
            (Toml.table (
              assign "model" (Toml.text "claude-default")
                (assign "platform" (Toml.text "claude-sdk") bulk)))
            merged)
      | some v ↦ err BenchError.not_assignable
    ]

unfoldable pub merged_bench : Place → BenchSettings → Result BenchError Table
merged_bench place given =
    if given.no_bench_overrides
    then force_specialist given.specialist_model place.packaged
    else overlay_layers place given.bench_file >>= λ layers.
        merge_layers place.packaged layers >>= force_specialist given.specialist_model

unfoldable pub load_bench : Place → BenchSettings → Result BenchError Table
load_bench place given = merged_bench place given >>= λ merged.
    validate_raw_bench place.known_prompts merged >>= λ valid. ok merged

-- `d[key]`, which raises a `KeyError`; the value has been checked to be a text.
abbrev pub setting : String → String → Table → Result BenchError String
setting place key t = elim (value_of key t) [
  | none ↦ err (BenchError.missing_key place key)
  | some v ↦ ok (text_of (some v))
]

abbrev pub caching_or_auto : Option Toml → String
caching_or_auto none = "auto"
caching_or_auto (some v) = text_of (some v)

unfoldable pub prompt_of : String → Assignments → Option String
prompt_of role [] = none
prompt_of role ((name, prompt) ∷ rest) =
    let found = prompt_of role rest in if name == role then some prompt else found

unfoldable pub bench_entry :
    String → Result BenchError String → Table → Result BenchError BenchEntry
bench_entry role prompt t = setting role "platform" t >>= λ platform.
    setting role "model" t >>= λ model. prompt >>= λ prompt_name. ok (record {
      role = role;
      platform = platform;
      model = model;
      prompt_name = prompt_name;
      caching = caching_or_auto (value_of "caching" t);
    })

-- `raw.get("roles", {})`
abbrev pub roles_in : Option Toml → Option Table
roles_in none = some Table.no_entries
roles_in (some (Toml.table roles)) = some roles
roles_in (some v) = none

abbrev pub known_roles : Table → List String
known_roles roles = sorted (dedup (map (λ pair. pair.0) bulk_role_prompts ++ keys_of roles))

-- A role of `[roles]`, or the error that names the known roles.
unfoldable pub resolve_role : String → Table → Result BenchError BenchEntry
resolve_role role raw = elim (roles_in (value_of "roles" raw)) [
  | none ↦ err (BenchError.not_a_table "[roles]")
  | some roles ↦ elim (value_of role roles) [
    | none ↦ err (BenchError.unknown_role role (known_roles roles))
    | some (Toml.table t) ↦ bench_entry role (setting role "prompt_name" t) t
    | some v ↦ err (BenchError.not_a_table role)
  ]
]

unfoldable pub resolve_bulk : String → String → Table → Result BenchError BenchEntry
resolve_bulk role prompt raw = elim (value_of "bulk_reviewer" raw) [
  | some (Toml.table bulk) ↦ bench_entry role (ok prompt) bulk
  | _ ↦ err (BenchError.not_a_table "[bulk_reviewer]")
]

unfoldable pub resolve_in : String → Table → Result BenchError BenchEntry
resolve_in role raw = elim (prompt_of role bulk_role_prompts) [
  | some prompt ↦ resolve_bulk role prompt raw
  | none ↦ resolve_role role raw
]

unfoldable pub resolve : Place → BenchSettings → String → Result BenchError BenchEntry
resolve place given role = load_bench place given >>= resolve_in role
