-- ===== src/Bench/Resolve/Tables.antt =====
-- What the checks of one table give.
use argus_review.Prelude.{
  String, ◌≡◌, refl, Bool, true, false, not, Option, none, some, List, [], ◌∷◌, arith,
}
use argus_review.Prelude.Names.{mem}
use argus_review.Prelude.Text.{str_empty}
use argus_review.Prelude.Result.{Result, ok, err, ◌>>◌, reject-eq-ok, reject-eq-ok_last}
use argus_review.Bench.{Toml, Table, value_of}
use argus_review.Bench.Validate.{
  bad_caching, bad_platform, bad_model, unknown_model, bad_prompt, unknown_prompt, valid_platforms,
  valid_caching, valid_model_aliases, is_text_in, text_of, is_compatible, check_known,
  check_required, validate_platform, validate_caching, validate_model,
  validate_model_platform_compatibility, validate_prompt_name, validate_bulk, validate_role,
}
use argus_review.Bench.Resolve.{caching_or_auto}

-- Both steps of a chain that succeeds succeed.
pub both :
    {E B : Type 0} (first : Result E Unit) (rest : Result E B) {v : B}
    → (first >> rest) ≡ ok v
    → (first ≡ ok tt) × (rest ≡ ok v)
both (err e) rest h = cc
both (ok u) rest h = (refl, h)

-- A table whose settings are known to the program.
pub record Good (t : Table) : Type 0 where
  pub platform : String
  pub has_platform : value_of "platform" t ≡ some (Toml.text platform)
  pub known_platform : mem platform valid_platforms ≡ true
  pub model : String
  pub has_model : value_of "model" t ≡ some (Toml.text model)
  pub known_model : mem model valid_model_aliases ≡ true
  pub caching : mem (caching_or_auto (value_of "caching" t)) valid_caching ≡ true
  pub compatible : is_compatible platform model ≡ true

not_eq_false : (b : Bool) → not b ≡ false → b ≡ true
not_eq_false b h = ground arith

is_text_in-eq-true :
    (names : List String) (v : Option Toml)
    → is_text_in names v ≡ true
    → (s : String) × (v ≡ some (Toml.text s)) × (mem s names ≡ true)
is_text_in-eq-true names none h = cc
is_text_in-eq-true names (some (Toml.text s)) h = (s, refl, h)
is_text_in-eq-true names (some (Toml.table t)) h = cc
is_text_in-eq-true names (some Toml.other) h = cc

auto_known : mem "auto" valid_caching ≡ true
unfolding mem
auto_known = refl

caching-Known :
    (place : String) (v : Option Toml)
    → validate_caching place v ≡ ok tt
    → mem (caching_or_auto v) valid_caching ≡ true
unfolding validate_caching
caching-Known place none h = auto_known
caching-Known place (some (Toml.text s)) h =
    not_eq_false _ (reject-eq-ok_last (not (mem s valid_caching)) (bad_caching place) h)
caching-Known place (some (Toml.table t)) h = cc
caching-Known place (some Toml.other) h = cc

-- What the five checks that both kinds of tables share give.
table-Good :
    (place : String) (t : Table)
    → validate_platform place (value_of "platform" t) ≡ ok tt
    → validate_model place (value_of "model" t) ≡ ok tt
    → validate_caching place (value_of "caching" t) ≡ ok tt
    → validate_model_platform_compatibility place
        (text_of (value_of "platform" t))
        (text_of (value_of "model" t))
      ≡ ok tt
    → Good t
unfolding validate_platform validate_model validate_model_platform_compatibility
table-Good place t checked_platform checked_model checked_caching checked_pair =
    let (p, has_p, known_p) =
      is_text_in-eq-true valid_platforms (value_of "platform" t)
        (not_eq_false _ (reject-eq-ok_last _ (bad_platform place) checked_platform)) in
    let (m, has_m, known_m) = is_text_in-eq-true valid_model_aliases (value_of "model" t) (
      not_eq_false _ (
        reject-eq-ok_last _ (unknown_model place (text_of (value_of "model" t)))
          (reject-eq-ok (str_empty (text_of (value_of "model" t))) (bad_model place) _
            checked_model).1)) in
    record {
      platform = p;
      has_platform = has_p;
      known_platform = known_p;
      model = m;
      has_model = has_m;
      known_model = known_m;
      caching = caching-Known place (value_of "caching" t) checked_caching;
      compatible = rw (has_p, has_m) at (not_eq_false _ (reject-eq-ok_last _ _ checked_pair));
    }

-- The last four steps of a chain that succeeds.
last_steps :
    {E : Type 0} (start : Result E Unit) {c d e : Result E Unit} (last : Result E Unit)
    → (start >> c >> d >> e >> last) ≡ ok tt
    → (c ≡ ok tt) × (d ≡ ok tt) × (e ≡ ok tt) × (last ≡ ok tt)
last_steps start {c} {d} {e} last h =
    let (before_last, at_last) = both (start >> c >> d >> e) last h in
    let (before_e, at_e) = both (start >> c >> d) e before_last in
    let (before_d, at_d) = both (start >> c) d before_e in
    let (before_c, at_c) = both start c before_d in (at_c, at_d, at_e, at_last)

pub bulk-Good :
    (known : List String) (v : Option Toml)
    → validate_bulk known v ≡ ok tt
    → (t : Table) × (v ≡ some (Toml.table t)) × Good t
unfolding validate_bulk
bulk-Good known none h = cc
bulk-Good known (some (Toml.table t)) h =
    let (p, m, c, pair) =
      last_steps
        (check_known "[bulk_reviewer]" ("platform" ∷ "model" ∷ "caching" ∷ []) t
          >> check_required "[bulk_reviewer]" ("platform" ∷ "model" ∷ []) t)
        _ h in
    (t, refl, table-Good "[bulk_reviewer]" t p m c pair)
bulk-Good known (some (Toml.text s)) h = cc
bulk-Good known (some Toml.other) h = cc

-- A role's table also names a packaged prompt.
pub record GoodRole (known : List String) (t : Table) : Type 0 where
  pub settings : Good t
  pub prompt : String
  pub has_prompt : value_of "prompt_name" t ≡ some (Toml.text prompt)
  pub packaged : mem prompt known ≡ true

pub prompt-Known :
    (known : List String) (place : String) (v : Option Toml)
    → validate_prompt_name known place v ≡ ok tt
    → (s : String) × (v ≡ some (Toml.text s)) × (mem s known ≡ true)
unfolding validate_prompt_name
prompt-Known known place none h = cc
prompt-Known known place (some (Toml.text s)) h = (
  s,
  refl,
  not_eq_false _ (
      reject-eq-ok_last _ (unknown_prompt place s)
        (reject-eq-ok (str_empty s) (bad_prompt place) _ h).1),
)
prompt-Known known place (some (Toml.table t)) h = cc
prompt-Known known place (some Toml.other) h = cc

pub role-Good :
    (known : List String) (place : String) (v : Toml)
    → validate_role known place v ≡ ok tt
    → (t : Table) × (v ≡ Toml.table t) × GoodRole known t
unfolding validate_role
role-Good known place (Toml.table t) h =
    let (rest, pair) =
      both _
        (validate_model_platform_compatibility place (text_of (value_of "platform" t))
          (text_of (value_of "model" t)))
        h in
    let (p, m, c, named) =
      last_steps
        (check_known place ("platform" ∷ "model" ∷ "prompt_name" ∷ "caching" ∷ []) t
          >> check_required place ("platform" ∷ "model" ∷ "prompt_name" ∷ []) t)
        _ rest in
    let (prompt, has_prompt, packaged) =
      prompt-Known known place (value_of "prompt_name" t) named in
    (
      t,
      refl,
      record {
        settings = table-Good place t p m c pair;
        prompt = prompt;
        has_prompt = has_prompt;
        packaged = packaged;
      },
    )
role-Good known place (Toml.text s) h = cc
role-Good known place Toml.other h = cc
