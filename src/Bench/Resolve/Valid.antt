-- ===== src/Bench/Resolve/Valid.antt =====
-- A configuration that loads gives every known role a usable entry.
use argus_review.Prelude.{String, ◌≡◌, true, none, some, List}
use Prim.Native.String.{◌++◌ as ◌+++◌}
use argus_review.Prelude.Names.{mem}
use argus_review.Prelude.Result.{Result, ok, err}
use argus_review.Bench.{Table, value_of}
use argus_review.Bench.Validate.{
  BenchError, valid_platforms, valid_caching, valid_model_aliases, bulk_role_prompts, is_compatible,
}
use argus_review.Bench.Resolve.{BenchEntry, prompt_of, roles_in, known_roles}

-- An entry that the program can act on.
pub record Usable (known : List String) (e : BenchEntry) : Type 0 where
  pub platform : mem e.platform valid_platforms ≡ true
  pub model : mem e.model valid_model_aliases ≡ true
  pub caching : mem e.caching valid_caching ≡ true
  pub prompt : mem e.prompt_name known ≡ true
  pub compatible : is_compatible e.platform e.model ≡ true

module _ (known : List String) where
  -- The answer for a role that no table and no bulk prompt knows.
  abbrev pub Unknown : String → Table → Result BenchError BenchEntry → Type 0
  Unknown role raw answer =
      (roles : Table) × (roles_in (value_of "roles" raw) ≡ some roles)
      × (prompt_of role bulk_role_prompts ≡ none)
      × (value_of role roles ≡ none)
      × (answer ≡ err (BenchError.unknown_role role (known_roles roles)))

  abbrev pub Known : String → Result BenchError BenchEntry → Type 0
  Known role answer = (e : BenchEntry) × (answer ≡ ok e) × (e.role ≡ role) × Usable known e
