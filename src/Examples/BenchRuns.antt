-- ===== src/Examples/BenchRuns.antt =====
-- Runs of the bench configuration on concrete layers.
use argus_review.Prelude.{◌≡◌, refl, false, none, some, ◌∷◌, map}
use argus_review.Prelude.Result.{ok}
use argus_review.Bench.{
  Toml, Table, text, table, no_entries, entry, value_of, deep_merge, infer_platform_for_model,
  is_family,
}
use argus_review.Bench.Merge.{laid_over, value_of-deep_merge}
use argus_review.Bench.Infer.{layered, model_only_layer}
use argus_review.Bench.Validate.{bulk_role_prompts}
use argus_review.Prelude.Text.{str_length, str_drop, has_prefix}
use argus_review.Prelude.Case.{lower_prefix}
use argus_review.Bench.Resolve.{Place, BenchSettings}

abbrev gemini_bulk : Table
gemini_bulk = entry "platform" (text "gemini") (entry "model" (text "gemini-mini") no_entries)

abbrev claude_bulk : Table
claude_bulk = entry "model" (text "claude-mini") no_entries

abbrev packaged : Table
packaged = entry "bulk_reviewer" (table gemini_bulk) (
    entry "roles"
      (table (
        entry "cross-cutting"
          (table (
            entry "platform" (text "claude-sdk") (
              entry "model" (text "claude-opus")
                (entry "prompt_name" (text "pr-review-cross-cutting") no_entries))))
          no_entries))
      no_entries)

abbrev overlay : Table
overlay = entry "bulk_reviewer" (table claude_bulk) no_entries

abbrev place : Place
place = record {
  packaged = packaged;
  known_prompts = "pr-review-cross-cutting" ∷ map (λ pair. pair.1) bulk_role_prompts;
  user_global = none;
  repo_local = some (ok overlay);
  read = λ path. none;
}

abbrev given : BenchSettings
given = record { no_bench_overrides = false; bench_file = none; specialist_model = none }

abbrev merged : Table
merged =
    entry "bulk_reviewer"
      (table (entry "platform" (text "claude-sdk") (entry "model" (text "claude-mini") no_entries)))
      (entry "roles"
        (table (
          entry "cross-cutting"
            (table (
              entry "platform" (text "claude-sdk") (
                entry "model" (text "claude-opus")
                  (entry "prompt_name" (text "pr-review-cross-cutting") no_entries))))
            no_entries))
        no_entries)

value_of-deep_merge_example :
    value_of "bulk_reviewer" (deep_merge packaged overlay)
    ≡ laid_over (value_of "bulk_reviewer" packaged) (value_of "bulk_reviewer" overlay)
unfolding value_of
value_of-deep_merge_example = value_of-deep_merge "bulk_reviewer" packaged overlay (refl, tt)

model_only_layer_example :
    (merged : Table) × (layered packaged overlay ≡ some (Toml.table merged))
    × (value_of "model" merged ≡ some (Toml.text "claude-mini"))
    × (value_of "platform" merged ≡ some (Toml.text "claude-sdk"))
unfolding value_of infer_platform_for_model is_family lower_prefix str_length str_drop has_prefix
model_only_layer_example =
    model_only_layer packaged overlay claude_bulk "claude-mini" "claude-sdk" (refl, tt) (refl, tt)
      refl refl refl refl
