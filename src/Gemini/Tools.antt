-- ===== src/Gemini/Tools.antt =====
-- argus/gemini_runner.py and argus/review_tools.py: the tools that a session offers to its model,
-- and the recovery of findings that the model wrote as text.
use Prim.Native.String.{◌++◌ as ◌+++◌}
use argus_review.Prelude.{
  ℕ, zero, suc, String, Bool, true, false, ◌&&◌, ◌||◌, Option, none, some, List, [], ◌∷◌, ◌++◌,
  length, if◌then◌else◌, ◌==◌,
}
use argus_review.Prelude.Text.{str_length, str_take, str_empty, strip, show}

-- A decoded JSON value: `None`, a bool, a number, a text, a list or a dict.
mutual
  pub data Json : Type 0 where
    null : Json
    flag : Bool → Json
    number : String → Json
    text : String → Json
    array : Items → Json
    object : Members → Json

  pub data Items : Type 0 where
    nil : Items
    item : Json → Items → Items

  pub data Members : Type 0 where
    no_members : Members
    member : String → Json → Members → Members

-- `d.get(key)`
unfoldable pub get : String → Members → Option Json
get key Members.no_members = none
get key (Members.member k v rest) = let found = get key rest in if k == key then some v else found

-- `d.get(key)`, where None stands for a missing key
abbrev pub or_null : Option Json → Json
or_null none = Json.null
or_null (some v) = v

abbrev pub keys : Members → List String
keys Members.no_members = []
keys (Members.member k v rest) = k ∷ keys rest

abbrev pub items_of : Items → List Json
items_of Items.nil = []
items_of (Items.item v rest) = v ∷ items_of rest

abbrev pub texts : List String → List Json
texts [] = []
texts (s ∷ ss) = Json.text s ∷ texts ss

abbrev pub letters : String → List Json
letters String.[] = []
letters (String.◌∷◌ c s) = Json.text (String.◌∷◌ c String.[]) ∷ letters s

abbrev pub first_items : ℕ → Items → Items
first_items zero vs = Items.nil
first_items (suc n) Items.nil = Items.nil
first_items (suc n) (Items.item v rest) = Items.item v (first_items n rest)

-- One entry of the findings sink, whose fields are what the model sent.
pub record ToolFinding : Type 0 where
  pub file : Json
  pub line : Json
  pub description : Json
  pub context : Json

pub record Call : Type 0 where
  pub name : String
  pub args : Members

-- What Python, the json and re modules and the three tools that read files answer: `str`, `repr`,
-- the text of a call that raised, `str(fn(**args))` of a file tool (none if it raised), the text
-- in a fence, and `json.loads` (none if it raised).
pub record Host : Type 0 where
  pub str : Json → String
  pub repr : String → String
  pub error_text : Call → String
  pub file_tool : Call → Option String
  pub fenced : String → Option String
  pub loads : String → Option Json

abbrev has_key : String → List String → Bool
has_key key [] = false
has_key key (k ∷ ks) = k == key || has_key key ks

abbrev within : List String → List String → Bool
within [] ks = true
within (x ∷ xs) ks = has_key x ks && within xs ks

-- `fn(**args)` finds every required parameter and no unknown one.
abbrev pub binds : List String → List String → Members → Bool
binds required optional args =
    within required (keys args) && within (keys args) (required ++ optional)

-- `len(v)`, which raises for a value without a length
abbrev pub len : Json → Option ℕ
len (Json.text s) = some (str_length s)
len (Json.array vs) = some (length (items_of vs))
len (Json.object d) = some (length (keys d))
len _ = none

-- `list(v or [])`
abbrev pub listing : Json → List Json
listing (Json.text s) = letters s
listing (Json.array vs) = items_of vs
listing (Json.object d) = texts (keys d)
listing _ = []

-- A call's answer (its text, and whether it is an error) and the sink.
pub record Executed : Type 0 where
  pub output : String
  pub is_error : Bool
  pub sink : List ToolFinding

module _ (host : Host) where
  -- `description[:80]`, which raises for a value that has no slices
  abbrev pub sliced : Json → Option String
  sliced (Json.text s) = some (str_take 80 s)
  sliced (Json.array vs) = some (host.str (Json.array (first_items 80 vs)))
  sliced _ = none

  abbrev recorded : Json → Json → ℕ → String → String
  recorded file line n description =
      "Recorded finding #"
      +++ show n
      +++ ": "
      +++ host.str file
      +++ ":"
      +++ host.str line
      +++ " -- "
      +++ description

  -- `review_tools.report_finding`: the finding is in the sink before its answer is formatted.
  unfoldable pub report_finding :
      Json → Json → Json → Json → List ToolFinding → Option String × List ToolFinding
  report_finding file line description context sink =
      let grown =
        sink
        ++ (record { file = file; line = line; description = description; context = context })
          ∷ [] in
      (
        elim (sliced description) [
          | none ↦ none
          | some short ↦ some (recorded file line (length grown) short)
        ],
        grown,
      )

  -- `review_tools.finish_review`
  unfoldable pub finish_review : Json → List ToolFinding → Option String
  finish_review files sink = elim (len files) [
    | none ↦ none
    | some n ↦ some (
        "Review finished: "
        +++ show (length sink)
        +++ " finding(s) reported across "
        +++ show n
        +++ " file(s) explored.")
  ]

  -- `str(fn(**args)), False`, or the text of the exception
  abbrev pub answered : Call → Option String × List ToolFinding → Executed
  answered call (none, sink) = record {
    output = host.error_text call;
    is_error = true;
    sink = sink;
  }
  answered call (some output, sink) = record { output = output; is_error = false; sink = sink }

  unfoldable pub execute_tool_call : Call → List ToolFinding → Executed
  execute_tool_call call sink =
      if call.name == "report_finding"
      then answered call (
          if binds ("file" ∷ "line" ∷ "description" ∷ []) ("context" ∷ []) call.args
          then report_finding (or_null (get "file" call.args)) (or_null (get "line" call.args))
              (or_null (get "description" call.args)) (or_null (get "context" call.args)) sink
          else (none, sink))
      else if call.name == "finish_review"
      then answered call (
          if binds ("files_explored" ∷ []) [] call.args
          then (finish_review (or_null (get "files_explored" call.args)) sink, sink)
          else (none, sink))
      else if call.name == "read_file" || call.name == "glob_files" || call.name == "grep"
      then answered call (host.file_tool call, sink)
      else record {
        output = "Error: unknown tool " +++ host.repr call.name;
        is_error = true;
        sink = sink;
      }

  -- `[f for f in raw_findings if isinstance(f, dict)]`
  abbrev pub dicts : Items → List Members
  dicts Items.nil = []
  dicts (Items.item (Json.object d) rest) = d ∷ dicts rest
  dicts (Items.item _ rest) = dicts rest

  -- `[str(f) for f in raw_files]`
  abbrev pub strs : Items → List Json
  strs Items.nil = []
  strs (Items.item v rest) = Json.text (host.str v) ∷ strs rest

  abbrev pub files_of : Option Json → List Json
  files_of (some (Json.array vs)) = strs vs
  files_of _ = []

  abbrev pub findings_of : Json → Option (List Members × List Json)
  findings_of (Json.object d) = elim (get "findings" d) [
    | some (Json.array vs) ↦ some (dicts vs, files_of (get "files_explored" d))
    | _ ↦ none
  ]
  findings_of _ = none

  unfoldable pub parse_text_findings : String → Option (List Members × List Json)
  parse_text_findings s =
      if str_empty s
      then none
      else elim (host.loads (elim (host.fenced s) [ some inner ↦ inner | none ↦ strip s ])) [
        | none ↦ none
        | some decoded ↦ findings_of decoded
      ]

  abbrev described : Option Json → Json
  described none = Json.text ""
  described (some v) = Json.text (host.str v)

  -- The recovered findings are reported one by one.
  unfoldable pub report_all : List Members → List ToolFinding → List ToolFinding
  report_all [] sink = sink
  report_all (d ∷ ds) sink =
      report_all ds
        (report_finding (or_null (get "file" d)) (or_null (get "line" d))
          (described (get "description" d)) (or_null (get "context" d)) sink).1
