-- ===== src/Gemini/Turns.antt =====
-- argus/gemini_runner.py: `_run_turns`, the loop of requests and tool calls. A state is kept on
-- every exit, since the failure handler reads the progress. The service is an oracle: its answer
-- to the n-th request, from the number of requests before it, the use of the cache, and the
-- conversation, which stands newest first. A cancellation is an answer of the service.
pub mod Request
pub mod Account
pub mod Protocol
pub mod Turn
pub mod Outcome
use argus_review.Prelude.{
  ℕ, zero, suc, ◌+◌, ◌-◌, ◌*◌, ◌/◌, String, Bool, true, false, not, ◌&&◌, ◌||◌, Option, none, some,
  List, [], ◌∷◌, ◌++◌, is_empty, leb, nat_eq, if◌then◌else◌, ◌==◌,
}
use argus_review.Prelude.Result.{Result, ok, err}
use argus_review.Gemini.{Exc, cancelled, is_cache_invalid_error, is_invalid_argument}
use argus_review.Gemini.Tools.{
  Json, Call, Host, ToolFinding, get, or_null, listing, execute_tool_call, parse_text_findings,
  report_all,
}

pub data Part : Type 0 where
  text_part : String → Part
  call_part : Call → Part
  function_response : String → String → Part

-- A turn of the user or of the model.
pub record Content : Type 0 where
  pub from_model : Bool
  pub parts : Option (List Part)

pub record Usage : Type 0 where
  pub prompt : Option ℕ
  pub cached : Option ℕ
  pub candidates : Option ℕ
  pub thoughts : Option ℕ
  pub tool_use_prompt : Option ℕ

-- An answer: `function_calls`, `text`, and the content of the first candidate.
pub record Response : Type 0 where
  pub function_calls : List Call
  pub text : String
  pub content : Content
  pub usage : Option Usage

-- `_Progress`
pub record Progress : Type 0 where
  pub responses : ℕ
  pub last_turn : Option ℕ
  pub retried : Bool
  pub retry_wait : ℕ
  pub prompt_tokens : ℕ
  pub cached_tokens : ℕ
  pub candidates_tokens : ℕ
  pub thoughts_tokens : ℕ
  pub tool_use_prompt_tokens : ℕ
  pub tool_calls : List String

-- The loop's variables; `requests` counts the requests that were sent.
pub record Session : Type 0 where
  pub contents : List Content
  pub cached : Bool
  pub requests : ℕ
  pub sink : List ToolFinding
  pub files_explored : List Json
  pub progress : Progress

abbrev pub max_turns : ℕ
max_turns = 100

abbrev pub nudge_turns_before_budget : ℕ
nudge_turns_before_budget = 3

-- `int(max_turns * 0.75)`, unless the other nudge comes first
abbrev pub mid_budget_nudge_turn : ℕ → Option ℕ
mid_budget_nudge_turn turns =
    if leb (turns - nudge_turns_before_budget) (turns * 3 / 4) then none else some (turns * 3 / 4)

abbrev pub due : Option ℕ → ℕ → Bool
due none turn = false
due (some t) turn = nat_eq turn t

abbrev pub with_part : String → Content → Content
with_part s c = elim c.parts [
  | none ↦ c
  | some parts ↦ record c { parts = some (parts ++ Part.text_part s ∷ []) }
]

abbrev pub on_last : (Content → Content) → List Content → List Content
on_last f [] = []
on_last f (c ∷ cs) = f c ∷ cs

-- `x or 0`
abbrev pub or_zero : Option ℕ → ℕ
or_zero none = 0
or_zero (some n) = n

abbrev pub count_usage : Option Usage → Progress → Progress
count_usage none p = p
count_usage (some u) p = record p {
  prompt_tokens = p.prompt_tokens + or_zero u.prompt;
  cached_tokens = p.cached_tokens + or_zero u.cached;
  candidates_tokens = p.candidates_tokens + or_zero u.candidates;
  thoughts_tokens = p.thoughts_tokens + or_zero u.thoughts;
  tool_use_prompt_tokens = p.tool_use_prompt_tokens + or_zero u.tool_use_prompt;
}

abbrev pub received : Response → Session → Session
received r s = record s {
  progress = count_usage r.usage (record s.progress { responses = s.progress.responses + 1 });
}

abbrev pub nudged : Bool → String → Session → Session
nudged b text s = if b then record s { contents = on_last (with_part text) s.contents } else s

-- How a turn ends: an exception, the end of the loop by `break`, or the next turn.
pub data TurnEnd : Type 0 where
  raised : Exc → TurnEnd
  finished next : TurnEnd

-- How the loop ends: an exception, a break, or the `else` of the `for`.
pub data LoopEnd : Type 0 where
  failed : Exc → LoopEnd
  completed exhausted : LoopEnd

abbrev pub Service : Type 0
Service = ℕ → Bool → List Content → Result Exc Response

-- `isinstance(exc, Exception)`: a cancellation is not one.
abbrev pub is_exception : Exc → Bool
is_exception e = elim e.kind [ cancelled ↦ false | _ ↦ true ]

module _ (host : Host) (generate : Service) (turn_budget_nudge mid_budget_nudge : String) where
  abbrev pub send : Session → Result Exc Response × Session
  send s = (generate s.requests s.cached s.contents, record s { requests = s.requests + 1 })

  -- What follows a failed first request: the error, or its one repetition, without the cache if
  -- the cache was at fault.
  abbrev pub after_failure : Exc → Session → Result Exc Response × Session
  after_failure e s =
      if not (is_exception e)
      then (err e, s)
      else if not s.cached || not (is_cache_invalid_error e)
      then if not (is_invalid_argument e) then (err e, s) else send s
      else send (record s { cached = false })

  unfoldable pub request : Session → Result Exc Response × Session
  request s =
      let (outcome, s') = send s in elim outcome [ ok r ↦ (ok r, s') | err e ↦ after_failure e s' ]

  -- One call: its name is counted, it is executed, and answered; a successful `finish_review` ends
  -- the session.
  unfoldable pub run_call : Call → Session → (Part × Bool) × Session
  run_call call s =
      let done = execute_tool_call host call s.sink in
      let finish = call.name == "finish_review" && not done.is_error in
      (
        (Part.function_response call.name done.output, finish),
        record s {
          sink = done.sink;
          files_explored =
              if finish
              then listing (or_null (get "files_explored" call.args))
              else s.files_explored;
          progress = record s.progress { tool_calls = s.progress.tool_calls ++ call.name ∷ [] };
        },
      )

  unfoldable pub run_calls : List Call → Session → (List Part × Bool) × Session
  run_calls [] s = (([], false), s)
  run_calls (call ∷ calls) s =
      let ((part, finish), s') = run_call call s in
      let ((parts, later), s'') = run_calls calls s' in ((part ∷ parts, finish || later), s'')

  -- No function call: the findings are recovered from the text, and the loop ends.
  unfoldable pub recover : Response → Session → Session
  recover r s = elim (parse_text_findings host r.text) [
    | none ↦ s
    | some (findings, files) ↦ record s {
      sink = report_all host findings s.sink;
      files_explored = if is_empty files then s.files_explored else files;
    }
  ]

  -- The model's turn is appended as it came, and one turn of the user answers all its calls.
  unfoldable pub answer : Response → Session → TurnEnd × Session
  answer r s = elim r.function_calls [
    | [] ↦ (TurnEnd.finished, recover r s)
    | call ∷ calls ↦
        let ((parts, finish), s') =
          run_calls (call ∷ calls) (record s { contents = r.content ∷ s.contents }) in
        (
          if finish then TurnEnd.finished else TurnEnd.next,
          record s' { contents = record { from_model = false; parts = some parts } ∷ s'.contents },
        )
  ]

  abbrev pub prepared : ℕ → Session → Session
  prepared turn s = nudged (due (mid_budget_nudge_turn max_turns) turn) mid_budget_nudge (
      nudged (nat_eq turn (max_turns - nudge_turns_before_budget)) turn_budget_nudge
        (record s { progress = record s.progress { last_turn = some turn } }))

  unfoldable pub run_turn : ℕ → Session → TurnEnd × Session
  run_turn turn s =
      let (outcome, s') = request (prepared turn s) in
      elim outcome [ err e ↦ (TurnEnd.raised e, s') | ok r ↦ answer r (received r s') ]

  -- The loop, from a turn on, over the turns that remain.
  unfoldable pub turns : ℕ → ℕ → Session → LoopEnd × Session
  turns zero turn s = (LoopEnd.exhausted, s)
  turns (suc remaining) turn s =
      let (ending, s') = run_turn turn s in
      elim ending [
        | TurnEnd.raised e ↦ (LoopEnd.failed e, s')
        | TurnEnd.finished ↦ (LoopEnd.completed, s')
        | TurnEnd.next ↦ turns remaining (turn + 1) s'
      ]

  abbrev pub opening : String → Bool → Progress → Session
  opening user_message cached progress = record {
    contents = record { from_model = false; parts = some (Part.text_part user_message ∷ []) } ∷ [];
    cached = cached;
    requests = 0;
    sink = [];
    files_explored = [];
    progress = progress;
  }

  unfoldable pub run_turns : String → Bool → Progress → LoopEnd × Session
  run_turns user_message cached progress = turns max_turns 0 (opening user_message cached progress)
