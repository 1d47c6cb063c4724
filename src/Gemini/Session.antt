-- ===== src/Gemini/Session.antt =====
-- argus/gemini_runner.py: `_run_turns_with_retry` and `run_session_gemini`, which turn every end of
-- the loop into a result or an exception. Rendering, prices and clocks are parameters.
pub mod Retry
pub mod Outcome
use Prim.Native.String.{◌++◌ as ◌+++◌}
use argus_review.Prelude.{
  ℕ, ◌+◌, ◌-◌, ◌*◌, String, Bool, true, false, not, ◌||◌, Option, none, some, List, [], length, leb,
  ltb, nat_eq, if◌then◌else◌,
}
use argus_review.Prelude.Result.{Result, ok, err}
use argus_review.Prelude.Names.{dedup, sorted}
use argus_review.Prelude.Text.{show}
use argus_review.Pipeline.Failure.{FailureReason, reason_text, sync_timed_out}
use argus_review.Gemini.{
  Exc, RetryKind, foreign, RetryLimits, cancelled, transport_timeout, is_api_error, is_http_error,
  retry_decision, failure_detail,
}
use argus_review.Gemini.Tools.{Host, Json, ToolFinding}
use argus_review.Gemini.Turns.{
  Progress, Session, Service, LoopEnd, failed, completed, exhausted, run_turns,
}

abbrev pub fresh : Progress
fresh = record {
  responses = 0;
  last_turn = none;
  retried = false;
  retry_wait = 0;
  prompt_tokens = 0;
  cached_tokens = 0;
  candidates_tokens = 0;
  thoughts_tokens = 0;
  tool_use_prompt_tokens = 0;
  tool_calls = [];
}

-- What an attempt meets: the service, and whether a cache could be activated.
pub record Attempt : Type 0 where
  pub generate : Service
  pub cached : Bool

-- What a session is given, and what surrounds it: `json.dumps` of the result, the price of input,
-- output and cached tokens, the jitter, and the milliseconds the first attempt takes.
pub record Setting : Type 0 where
  pub host : Host
  pub turn_budget_nudge : String
  pub mid_budget_nudge : String
  pub user_message : String
  pub limits : RetryLimits
  pub uniform : ℕ → ℕ → ℕ
  pub timeout : ℕ
  pub elapsed : ℕ
  pub dumps : List ToolFinding → List Json → String
  pub estimate_cost : ℕ → ℕ → ℕ → ℕ

-- `SessionResult`, without its clock readings
pub record SessionResult : Type 0 where
  pub result_text : String
  pub cost : ℕ
  pub tool_call_count : ℕ
  pub tool_names : List String
  pub failure_reason : Option FailureReason
  pub timed_out : Bool
  pub failure_detail : Option String

-- `except (genai_errors.APIError, httpx.HTTPError)`
abbrev pub is_service_error : Exc → Bool
is_service_error e = is_api_error e.kind || is_http_error e.kind

-- `except (TimeoutError, httpx.TimeoutException)`: `wait_for` raises the first for its cancellation.
abbrev pub is_timeout_error : Exc → Bool
is_timeout_error e = elim e.kind [ cancelled ↦ true | transport_timeout ↦ true | _ ↦ false ]

-- The `ValueError` of `__post_init__`.
abbrev pub contradiction : FailureReason → Exc
contradiction r = record {
  kind = foreign;
  type_name = "ValueError";
  code = none;
  status = none;
  message =
      "Contradictory failure state: timed_out=True but failure_reason='"
      +++ reason_text r
      +++ "' (expected 'timeout' or unset)";
  retry_after = none;
}

abbrev pub input_tokens : Progress → ℕ
input_tokens p = (p.prompt_tokens - p.cached_tokens) + p.tool_use_prompt_tokens

abbrev pub output_tokens : Progress → ℕ
output_tokens p = p.candidates_tokens + p.thoughts_tokens

module _ (given : Setting) where
  abbrev pub attempt : Attempt → Progress → LoopEnd × Session
  attempt a p =
      run_turns given.host a.generate given.turn_budget_nudge given.mid_budget_nudge
        given.user_message a.cached p

  abbrev pub remaining : ℕ
  remaining = given.timeout - given.elapsed

  -- The wait before the second attempt, if there is one.
  unfoldable pub granted_wait : Exc → Progress → Option ℕ
  granted_wait e p =
      if not (is_service_error e)
      then none
      else elim (if nat_eq p.responses 0
          then retry_decision given.limits given.uniform e
          else none) [
            | none ↦ none
            | some (kind, wait) ↦
                if ltb (4 * remaining) given.timeout || leb remaining wait then none else some wait
          ]

  unfoldable pub run_turns_with_retry : Attempt → Attempt → LoopEnd × Session
  run_turns_with_retry first second =
      let (ending, s) = attempt first fresh in
      elim ending [
        | LoopEnd.completed ↦ (LoopEnd.completed, s)
        | LoopEnd.exhausted ↦ (LoopEnd.exhausted, s)
        | LoopEnd.failed e ↦ elim (granted_wait e s.progress) [
          | none ↦ (LoopEnd.failed e, s)
          | some wait ↦ attempt second (record s.progress { retried = true; retry_wait = wait })
        ]
      ]

  -- `_Progress.cost_usd`
  abbrev pub cost_of : Progress → ℕ
  cost_of p =
      if nat_eq p.responses 0
      then 0
      else given.estimate_cost (input_tokens p) (output_tokens p) p.cached_tokens

  abbrev pub build_result_text : List ToolFinding → List Json → String
  build_result_text findings files = "```json\n" +++ given.dumps findings files +++ "\n```"

  -- `__post_init__` reconciles the two failure fields, or raises.
  abbrev pub session_result :
      String → Option FailureReason → Option String → Progress → Result Exc SessionResult
  session_result text reason detail p = elim (sync_timed_out false reason) [
    | err r ↦ err (contradiction r)
    | ok (timed_out, failure_reason) ↦ ok (record {
      result_text = text;
      cost = cost_of p;
      tool_call_count = length p.tool_calls;
      tool_names = sorted (dedup p.tool_calls);
      failure_reason = failure_reason;
      timed_out = timed_out;
      failure_detail = detail;
    })
  ]

  abbrev pub at_turn : Option ℕ → String
  at_turn none = ""
  at_turn (some turn) = ", turn " +++ show turn

  -- The `return` of `_run_turns`, and the except clauses of `run_session_gemini`.
  unfoldable pub reported : LoopEnd → Session → Result Exc SessionResult
  reported LoopEnd.completed s =
      session_result (build_result_text s.sink s.files_explored) none none s.progress
  reported LoopEnd.exhausted s =
      session_result (build_result_text s.sink s.files_explored)
        (some FailureReason.turn_budget_exhausted) none s.progress
  reported (LoopEnd.failed e) s =
      if is_timeout_error e
      then session_result "" (some FailureReason.timeout) none s.progress
      else if is_service_error e
      then session_result "" (some FailureReason.worker_crashed)
          (some (failure_detail e +++ at_turn s.progress.last_turn)) s.progress
      else err e

  unfoldable pub run_session_gemini : Attempt → Attempt → Result Exc SessionResult
  run_session_gemini first second =
      let (ending, s) = run_turns_with_retry first second in reported ending s
