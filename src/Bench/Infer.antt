-- ===== src/Bench/Infer.antt =====
-- A layer that names only a model gets the platform that runs it.
use argus_review.Prelude.{
  String, ◌≡◌, refl, ap, ◌∙◌, inl, inr, false, Option, none, some, Option-cases, ◌==◌, eq_refl,
}
use argus_review.Bench.{
  Toml, Table, value_of, assign, deep_merge, with_platform, with_platforms, change_table,
  infer_platform_for_model, infer_platforms_for_overlay,
}
use argus_review.Bench.Merge.{
  Unique, value_of-assign, value_of-deep_merge, merged_value-table, assign-Unique,
}

change_table-Unique :
    (key : String) (change : Table → Table) (t : Table)
    → Unique t
    → Unique (change_table key change t)
change_table-Unique key change t unique = elim (Option-cases (value_of key t)) [
  | inl absent ↦ rw (change_table, absent) unique
  | inr (Toml.text s, found) ↦ rw (change_table, found) unique
  | inr (Toml.other, found) ↦ rw (change_table, found) unique
  | inr (Toml.table inner, found) ↦
      rw (change_table, found) (assign-Unique key (Toml.table (change inner)) t unique)
]

-- A change of one table leaves the values of the other keys.
change_table-elsewhere :
    (key other : String) (change : Table → Table) (t : Table)
    → (key == other) ≡ false
    → value_of other (change_table key change t) ≡ value_of other t
change_table-elsewhere key other change t apart = elim (Option-cases (value_of key t)) [
  | inl absent ↦ rw (change_table, absent) refl
  | inr (Toml.text s, found) ↦ rw (change_table, found) refl
  | inr (Toml.other, found) ↦ rw (change_table, found) refl
  | inr (Toml.table inner, found) ↦
      rw (change_table, found, value_of-assign other key (Toml.table (change inner)) t, apart) refl
]

change_table-here :
    (key : String) (change : Table → Table) (t inner : Table)
    → value_of key t ≡ some (Toml.table inner)
    → value_of key (change_table key change t) ≡ some (Toml.table (change inner))
change_table-here key change t inner found =
    rw (change_table, found, value_of-assign key key (Toml.table (change inner)) t, eq_refl key)
      refl

-- Any two layers: what the merged configuration says of the bulk reviewers.
abbrev pub layered : Table → Table → Option Toml
layered base overlay =
    value_of "bulk_reviewer" (deep_merge base (infer_platforms_for_overlay overlay))

-- A layer whose `[bulk_reviewer]` names a model of a known family and no platform decides both in
-- the merged configuration: the model is its own, and the platform is the one that runs it,
-- whatever the layers below say.
pub model_only_layer :
    (base overlay bulk : Table) (model platform : String)
    → Unique overlay
    → Unique bulk
    → value_of "bulk_reviewer" overlay ≡ some (Toml.table bulk)
    → value_of "model" bulk ≡ some (Toml.text model)
    → value_of "platform" bulk ≡ none
    → infer_platform_for_model model ≡ some platform
    → (merged : Table) × (layered base overlay ≡ some (Toml.table merged))
      × (value_of "model" merged ≡ some (Toml.text model))
      × (value_of "platform" merged ≡ some (Toml.text platform))
unfolding infer_platforms_for_overlay with_platform
model_only_layer base overlay bulk model platform u v has_bulk has_model unset inferred =
    let changed = change_table "bulk_reviewer" with_platform overlay in
    let layer = change_table "roles" with_platforms changed in
    let filled : with_platform bulk ≡ assign "platform" (Toml.text platform) bulk =
      rw (with_platform, unset, has_model, inferred) refl in
    let has_layer : value_of "bulk_reviewer" layer ≡ some (Toml.table (with_platform bulk)) =
      change_table-elsewhere "roles" "bulk_reviewer" with_platforms changed refl
      ∙ change_table-here "bulk_reviewer" with_platform overlay bulk has_bulk in
    let unique_layer =
      change_table-Unique "roles" with_platforms changed
        (change_table-Unique "bulk_reviewer" with_platform overlay u) in
    let unique_bulk : Unique (with_platform bulk) =
      rw filled (assign-Unique "platform" (Toml.text platform) bulk v) in
    let (merged, is_merged, keeps) =
      merged_value-table (value_of "bulk_reviewer" base) (with_platform bulk) unique_bulk in
    (
      merged,
      value_of-deep_merge "bulk_reviewer" base layer unique_layer
          ∙ rw has_layer (ap some is_merged),
      keeps "model" model
          (rw (filled, value_of-assign "model" "platform" (Toml.text platform) bulk) has_model),
      keeps "platform" platform
          (rw (filled, value_of-assign "platform" "platform" (Toml.text platform) bulk) refl),
    )
