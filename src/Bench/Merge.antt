-- ===== src/Bench/Merge.antt =====
-- What `_deep_merge` leaves under each key.
use argus_review.Prelude.{
  String, ◌≡◌, refl, sym, ap, ◌∙◌, inl, inr, true, false, Option, none, some, Bool-cases,
  if◌then◌else◌, ◌==◌, eq_iff,
}
use argus_review.Bench.{Toml, Table, value_of, assign, deep_merge, merged_value}

-- A table has each key once.
abbrev pub Unique : Table → Type 0
Unique Table.no_entries = Unit
Unique (Table.entry k v rest) = (value_of k rest ≡ none) × Unique rest

pub value_of-assign :
    (key k : String) (v : Toml) (t : Table)
    → value_of key (assign k v t) ≡ (if k == key then some v else value_of key t)
unfolding value_of assign
value_of-assign key k v Table.no_entries = refl
value_of-assign key k v (Table.entry j w rest) = elim (Bool-cases (j == k)) [
  | inl here ↦
      let same : j ≡ k = (eq_iff j k).0 here in
      elim (Bool-cases (k == key)) [
        | inl this ↦ rw (here, same, this) refl
        | inr other ↦ rw (here, same, other) refl
      ]
  | inr elsewhere ↦
      let later = value_of-assign key k v rest in
      elim (Bool-cases (j == key)) [
        | inl this ↦
            let same : j ≡ key = (eq_iff j key).0 this in
            let apart : (k == key) ≡ false = elim (Bool-cases (k == key)) [
              | inr unequal ↦ unequal
              | inl equal ↦
                  let both : (j == k) ≡ true =
                    (eq_iff j k).1 (same ∙ sym ((eq_iff k key).0 equal)) in
                  cc
            ] in
            rw (elsewhere, this, apart) refl
        | inr other ↦ rw (elsewhere, other) later
      ]
]

-- An overlay decides the keys it has; any other keeps its value.
abbrev pub laid_over : Option Toml → Option Toml → Option Toml
laid_over old none = old
laid_over old (some v) = some (merged_value old v)

-- After a merge every key has the overlay's value, merged into the base's if both are tables, and
-- the base's value if the overlay does not have the key.
pub value_of-deep_merge :
    (key : String) (base overlay : Table)
    → Unique overlay
    → value_of key (deep_merge base overlay) ≡ laid_over (value_of key base) (value_of key overlay)
unfolding deep_merge value_of
value_of-deep_merge key base Table.no_entries unique = refl
value_of-deep_merge key base (Table.entry k v rest) (fresh, unique) =
    let later =
      value_of-deep_merge key (assign k (merged_value (value_of k base) v) base) rest unique in
    let at_key = value_of-assign key k (merged_value (value_of k base) v) base in
    elim (Bool-cases (k == key)) [
      | inl this ↦
          let same : k ≡ key = (eq_iff k key).0 this in
          let gone : value_of key rest ≡ none = rw same at fresh in
          later ∙ rw (at_key, this, gone, same) refl
      | inr other ↦ later ∙ rw (at_key, other) refl
    ]

merged_value-text : (old : Option Toml) (s : String) → merged_value old (Toml.text s) ≡ Toml.text s
unfolding merged_value
merged_value-text none s = refl
merged_value-text (some (Toml.text o)) s = refl
merged_value-text (some (Toml.table t)) s = refl
merged_value-text (some Toml.other) s = refl

-- A text of the overlay replaces what was there.
pub deep_merge-text :
    (key : String) (base overlay : Table) (s : String)
    → Unique overlay
    → value_of key overlay ≡ some (Toml.text s)
    → value_of key (deep_merge base overlay) ≡ some (Toml.text s)
deep_merge-text key base overlay s unique has =
    value_of-deep_merge key base overlay unique
    ∙ rw has (ap some (merged_value-text (value_of key base) s))

-- A table of the overlay keeps its texts, whatever it is merged into.
pub merged_value-table :
    (old : Option Toml) (overlay : Table)
    → Unique overlay
    → (t : Table) × (merged_value old (Toml.table overlay) ≡ Toml.table t)
      × ((key s : String)
          → value_of key overlay ≡ some (Toml.text s)
          → value_of key t ≡ some (Toml.text s))
unfolding merged_value
merged_value-table none overlay unique = (overlay, refl, λ key s has. has)
merged_value-table (some (Toml.text o)) overlay unique = (overlay, refl, λ key s has. has)
merged_value-table (some (Toml.table base)) overlay unique =
    (deep_merge base overlay, refl, λ key s has. deep_merge-text key base overlay s unique has)
merged_value-table (some Toml.other) overlay unique = (overlay, refl, λ key s has. has)

differ : (j k : String) → (j == k) ≡ false → (k == j) ≡ false
differ j k h = elim (Bool-cases (k == j)) [
  | inr unequal ↦ unequal
  | inl equal ↦ let both : (j == k) ≡ true = (eq_iff j k).1 (sym ((eq_iff k j).0 equal)) in cc
]

pub assign-Unique : (k : String) (v : Toml) (t : Table) → Unique t → Unique (assign k v t)
unfolding assign value_of
assign-Unique k v Table.no_entries unique = (refl, tt)
assign-Unique k v (Table.entry j w rest) (fresh, unique) = elim (Bool-cases (j == k)) [
  | inl here ↦ rw here (fresh, unique)
  | inr elsewhere ↦
      rw elsewhere
        (rw (value_of-assign j k v rest, differ j k elsewhere) fresh, assign-Unique k v rest unique)
]
