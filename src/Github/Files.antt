-- ===== src/Github/Files.antt =====
-- The changed files of argus/github_client.py, `get_compare_files` and `get_pr_files`, and the
-- routing signal of `get_checks_signal`. An answer of the API is a parameter, decoded from JSON.
use argus_review.Prelude.{
  ℕ, ◌<◌, String, ◌≡◌, refl, ◌⊎◌, inl, inr, Bool, true, false, not, ◌||◌, Option, none, some, List,
  [], ◌∷◌, length, take, take_all, is_empty, any, leb, ltb, arith, Bool-cases, ◌==◌, if◌then◌else◌,
}
use argus_review.Prelude.Result.{Result, ok, err}
use argus_review.Github.{ClientError, value_error, api_error, min_of, paginate}
use argus_review.Github.Pages.{Serves, length-take, paginate-Serves}
use argus_review.Scope.Input.{ChangedFile}

-- A key of a JSON object: missing, null, or a text.
pub data Field : Type 0 where
  missing : Field
  null : Field
  text : String → Field

-- One element of the list that the API returns.
pub data Listed : Type 0 where
  not_object : Listed
  object : (filename status : Option String) (patch previous_filename : Field) → Listed

-- `f.get(key, default)`
abbrev get_or : String → Option String → String
get_or default none = default
get_or default (some value) = value

abbrev field_or : String → Field → Option String
field_or default missing = some default
field_or default null = none
field_or default (text value) = some value

-- The loop over the files that both methods end with.
unfoldable pub shown_files : List Listed → List ChangedFile
shown_files [] = []
shown_files (not_object ∷ fs) = shown_files fs
shown_files (object filename status patch previous ∷ fs) =
    (record {
      filename = get_or "" filename;
      status = get_or "modified" status;
      previous_filename = field_or "" previous;
      patch = field_or "" patch;
    })
    ∷ shown_files fs

-- `data.get("files") or []`
abbrev files_or_empty : Option (List Listed) → List Listed
files_or_empty none = []
files_or_empty (some fs) = fs

unfoldable pub get_compare_files :
    (String → String → String → Result ClientError (Option (List Listed)))
    → String
    → String
    → String
    → Result ClientError (List ChangedFile × Bool)
get_compare_files request repo base head = elim (request repo base head) [
  | err raised ↦ err raised
  | ok data_files ↦
      let files_data = files_or_empty data_files in
      ok (shown_files files_data, leb 300 (length files_data))
]

unfoldable pub get_pr_files :
    (ℕ → Result ClientError (List Listed))
    → ℕ
    → ℕ
    → Option (Result ClientError (List ChangedFile × Bool))
get_pr_files request fuel max_files = elim (paginate request fuel max_files) [
  | none ↦ none
  | some (err raised) ↦ some (err raised)
  | some (ok raw_files) ↦ some (ok (shown_files raw_files, leb max_files (length raw_files)))
]

pub record CheckRun : Type 0 where
  pub status : Option String
  pub conclusion : Option String

abbrev is_text : String → Option String → Bool
is_text value none = false
is_text value (some other) = value == other

abbrev is_failing : CheckRun → Bool
is_failing run =
    is_text "failure" run.conclusion
    || is_text "timed_out" run.conclusion
    || is_text "action_required" run.conclusion
    || is_text "cancelled" run.conclusion

-- A request that raises `GitHubAPIError` gives "unknown", any other exception leaves the method.
unfoldable pub get_checks_signal : Result ClientError (List CheckRun) → Result ClientError String
get_checks_signal (err (api_error status message)) = ok "unknown"
get_checks_signal (err (value_error message)) = err (value_error message)
get_checks_signal (ok runs) = ok (
    if is_empty runs
    then "unknown"
    else if any (λ run. not (is_text "completed" run.status)) runs
    then "pending"
    else if any is_failing runs
    then "failing"
    else "passing")

-- What a text of the answer is in the listing: the text, or the default for a missing key.
abbrev pub Reads : String → Option String → String → Type 0
Reads default none value = value ≡ default
Reads default (some given) value = value ≡ given

abbrev pub Holds : Field → Option String → Type 0
Holds missing value = value ≡ some ""
Holds null value = value ≡ none
Holds (text given) value = value ≡ some given

-- The listing has one file for every object of the answer, in order: the one with its name, status,
-- patch (none for a null one) and previous name.
abbrev pub Shown : List Listed → List ChangedFile → Type 0
Shown [] files = files ≡ []
Shown (not_object ∷ fs) files = Shown fs files
Shown (object filename status patch previous ∷ fs) files =
    (f : ChangedFile) × (rest : List ChangedFile) × (files ≡ f ∷ rest)
    × Reads "" filename f.filename
    × Reads "modified" status f.status
    × Holds patch f.patch
    × Holds previous f.previous_filename
    × Shown fs rest

get_or-Reads : (default : String) (o : Option String) → Reads default o (get_or default o)
get_or-Reads default none = refl
get_or-Reads default (some given) = refl

field_or-Holds : (field : Field) → Holds field (field_or "" field)
field_or-Holds missing = refl
field_or-Holds null = refl
field_or-Holds (text given) = refl

pub shown_files-Shown : (fs : List Listed) → Shown fs (shown_files fs)
unfolding shown_files
shown_files-Shown [] = refl
shown_files-Shown (not_object ∷ fs) = shown_files-Shown fs
shown_files-Shown (object filename status patch previous ∷ fs) = (
  record {
    filename = get_or "" filename;
    status = get_or "modified" status;
    previous_filename = field_or "" previous;
    patch = field_or "" patch;
  },
  shown_files fs,
  refl,
  get_or-Reads "" filename,
  get_or-Reads "modified" status,
  field_or-Holds patch,
  field_or-Holds previous,
  shown_files-Shown fs,
)

-- A list that is shorter than a limit is whole and below it; another one reaches it when it is cut.
pub cut_cases :
    {A : Type 0} (n : ℕ) (xs : List A)
    → ((ltb (length xs) n ≡ true) × (take n xs ≡ xs) × (leb n (length xs) ≡ false))
      ⊎ ((ltb (length xs) n ≡ false) × (leb n (length (take n xs)) ≡ true))
cut_cases n xs =
    let sized = length-take n xs in
    elim (Bool-cases (ltb (length xs) n)) [
      | inl fewer ↦ inl (fewer, take_all n xs (ground (arith, fewer)), ground (arith, fewer))
      | inr cut ↦ inr (cut, ground (arith, cut, sized))
    ]

module _ (request : ℕ → Result ClientError (List Listed)) (files : List Listed)
    (fuel max_files : ℕ) where
  -- Over a service that serves the changed files of a pull request page by page, and with more
  -- fuel than there are files, `get_pr_files` ends: with fewer files than the limit it returns all
  -- of them and says so, and otherwise it returns the first ones and reports the list as cut.
  pub get_pr_files-Serves :
      Serves request (min_of 100 max_files) files
      → length files < fuel
      → get_pr_files request fuel max_files
        ≡ some (
            ok (
              if ltb (length files) max_files
              then (shown_files files, false)
              else (shown_files (take max_files files), true)))
  unfolding get_pr_files
  get_pr_files-Serves served enough =
      let run = paginate-Serves request files fuel max_files served enough in
      elim (cut_cases max_files files) [
        | inl (fewer, whole, open_end) ↦ rw (get_pr_files, run, fewer, whole, open_end) refl
        | inr (cut, capped) ↦ rw (get_pr_files, run, cut, capped) refl
      ]
