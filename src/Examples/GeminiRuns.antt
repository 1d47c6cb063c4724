-- ===== src/Examples/GeminiRuns.antt =====
-- Runs of the Gemini session on concrete services.
use argus_review.Prelude.{
  ◌+◌, ◌⊎◌, true, false, none, some, List, [], ◌∷◌, leb, if◌then◌else◌, arith,
}
use argus_review.Prelude.Result.{ok, err}
use argus_review.Gemini.{Exc, client_error, default_limits, retry_decision}
use argus_review.Gemini.Decision.{Denied, Granted, retry_decision_outcome}
use argus_review.Gemini.Tools.{Host, Call, text, array, nil, item, member, no_members}
use argus_review.Gemini.Turns.{
  Response, Session, LoopEnd, Service, max_turns, request, run_turns, opening,
}
use argus_review.Gemini.Turns.Request.{Requested, request-Requested}
use argus_review.Gemini.Turns.Outcome.{Left, run_turns-Left}
use argus_review.Gemini.Session.{Attempt, Setting, fresh, run_turns_with_retry, run_session_gemini}
use argus_review.Gemini.Session.Retry.{Once, Twice, run_turns_with_retry_outcome}
use argus_review.Gemini.Session.Outcome.{Reported, run_session_gemini_outcome}

abbrev host : Host
host = record {
  str = λ v. "value";
  repr = λ s. s;
  error_text = λ call. "error";
  file_tool = λ call. some "contents";
  fenced = λ s. none;
  loads = λ s. none;
}

abbrev finding_call : Call
finding_call = record {
  name = "report_finding";
  args =
      member "file" (text "a.py")
        (member "line" (text "3") (member "description" (text "a bug") no_members));
}

abbrev finish_call : Call
finish_call = record {
  name = "finish_review";
  args = member "files_explored" (array (item (text "a.py") nil)) no_members;
}

abbrev reply : List Call → Response
reply calls = record {
  function_calls = calls;
  text = "";
  content = record { from_model = true; parts = some [] };
  usage = some (record {
    prompt = some 10;
    cached = some 4;
    candidates = some 3;
    thoughts = none;
    tool_use_prompt = none;
  });
}

abbrev limited : Exc
limited = record {
  kind = client_error;
  type_name = "ClientError";
  code = some 429;
  status = some "RESOURCE_EXHAUSTED";
  message = "slow down";
  retry_after = none;
}

abbrev stale_cache : Exc
stale_cache = record {
  kind = client_error;
  type_name = "ClientError";
  code = some 404;
  status = some "NOT_FOUND";
  message = "CachedContent not found";
  retry_after = none;
}

-- Rejects the cache, then reports a finding, then finishes.
abbrev service : Service
service n cached contents =
    if cached
    then err stale_cache
    else if leb n 1
    then ok (reply (finding_call ∷ []))
    else ok (reply (finish_call ∷ []))

abbrev overloaded : Service
overloaded n cached contents = err limited

abbrev given : Setting
given = record {
  host = host;
  turn_budget_nudge = "finish";
  mid_budget_nudge = "halfway";
  user_message = "review";
  limits = default_limits;
  uniform = λ lo hi. lo;
  timeout = 600000;
  elapsed = 1000;
  dumps = λ findings files. "{}";
  estimate_cost = λ input output cached. input + output;
}

abbrev first : Attempt
first = record { generate = overloaded; cached = false }

abbrev second : Attempt
second = record { generate = service; cached = true }

retry_decision_outcome_example :
    Denied limited (retry_decision default_limits (λ lo hi. lo) limited)
    ⊎ Granted default_limits limited (retry_decision default_limits (λ lo hi. lo) limited)
retry_decision_outcome_example =
    retry_decision_outcome default_limits (λ lo hi. lo) (λ lo hi h. omega arith) limited

request-Requested_example :
    let s = opening host service "finish" "halfway" "review" true fresh in
    let (outcome, s') = request host service "finish" "halfway" s in Requested service s outcome s'
request-Requested_example =
    request-Requested host service "finish" "halfway"
      (opening host service "finish" "halfway" "review" true fresh)

run_turns-Left_example :
    let (ending, s) = run_turns host service "finish" "halfway" "review" true fresh in
    Left max_turns service "review" fresh ending s
run_turns-Left_example = run_turns-Left host service "finish" "halfway" "review" fresh true

run_turns_with_retry_outcome_example :
    let (ending, s) = run_turns_with_retry given first second in
    Once given first ending s ⊎ Twice given first second ending s
run_turns_with_retry_outcome_example = run_turns_with_retry_outcome given first second

run_session_gemini_outcome_example :
    (ending : LoopEnd) × (s : Session) × Reported given
      (run_session_gemini given first second)
      ending
      s
    × (Once given first ending s ⊎ Twice given first second ending s)
run_session_gemini_outcome_example = run_session_gemini_outcome given first second
