-- ===== src/Bench.antt =====
-- argus/bench.py: the table of a bench configuration, its layers, and their merge.
pub mod Merge
pub mod Infer
pub mod Validate
pub mod Resolve
use Prim.Native.String.{String}
use argus_review.Prelude.{
  ℕ, Bool, true, false, not, ◌&&◌, ◌||◌, Option, none, some, List, [], ◌∷◌, if◌then◌else◌, ◌==◌,
}
use argus_review.Prelude.Text.{str_length, str_drop, str_empty, has_prefix}
use argus_review.Prelude.Case.{lower_prefix}

-- A TOML value, as far as this module tells values apart: a text, a table, anything else.
mutual
  pub data Toml : Type 0 where
    text : String → Toml
    table : Table → Toml
    other : Toml

  pub data Table : Type 0 where
    no_entries : Table
    entry : String → Toml → Table → Table

-- `d.get(key)`
unfoldable pub value_of : String → Table → Option Toml
value_of key Table.no_entries = none
value_of key (Table.entry k v rest) =
    let found = value_of key rest in if k == key then some v else found

-- `d[key] = value`: a key keeps its place, a new one comes last.
unfoldable pub assign : String → Toml → Table → Table
assign key v Table.no_entries = Table.entry key v Table.no_entries
assign key v (Table.entry k w rest) =
    let later = assign key v rest in
    if k == key then Table.entry k v rest else Table.entry k w later

abbrev pub table_of : Option Toml → Option Table
table_of (some (Toml.table t)) = some t
table_of _ = none

-- `_deep_merge`, by the overlay's entries
unfoldable mutual
  pub deep_merge : Table → Table → Table
  deep_merge base Table.no_entries = base
  deep_merge base (Table.entry key v rest) =
      deep_merge (assign key (merged_value (value_of key base) v) base) rest

  pub merged_value : Option Toml → Toml → Toml
  merged_value (some (Toml.table base)) (Toml.table over) = Toml.table (deep_merge base over)
  merged_value _ v = v

-- `model.lower().split("-", 1)[0] == family`
unfoldable pub is_family : String → String → Bool
is_family family model =
    let rest = str_drop (str_length family) model in
    lower_prefix family model && (str_empty rest || has_prefix "-" rest)

unfoldable pub infer_platform_for_model : String → Option String
infer_platform_for_model model =
    if is_family "claude" model
    then some "claude-sdk"
    else if is_family "gemini" model
    then some "gemini"
    else if is_family "gpt" model
    then some "openai-responses"
    else none

-- A table that has a model and no platform gets the model's platform.
unfoldable pub with_platform : Table → Table
with_platform t = elim (value_of "platform" t) [
  | some p ↦ t
  | none ↦ elim (value_of "model" t) [
    | some (Toml.text model) ↦ elim (infer_platform_for_model model) [
      | some platform ↦ assign "platform" (Toml.text platform) t
      | none ↦ t
    ]
    | _ ↦ t
  ]
]

abbrev pub with_platform_in : Toml → Toml
with_platform_in (Toml.table t) = Toml.table (with_platform t)
with_platform_in v = v

unfoldable pub with_platforms : Table → Table
with_platforms Table.no_entries = Table.no_entries
with_platforms (Table.entry k v rest) = Table.entry k (with_platform_in v) (with_platforms rest)

-- One of the two tables of an overlay, if it is a table.
abbrev pub change_table : String → (Table → Table) → Table → Table
change_table key change t = elim (value_of key t) [
  | some (Toml.table inner) ↦ assign key (Toml.table (change inner)) t
  | _ ↦ t
]

unfoldable pub infer_platforms_for_overlay : Table → Table
infer_platforms_for_overlay overlay =
    change_table "roles" with_platforms (change_table "bulk_reviewer" with_platform overlay)
