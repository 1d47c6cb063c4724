-- ===== src/Gemini.antt =====
-- argus/gemini_runner.py: the exceptions of the SDK and the transport, and the decision to retry.
-- Seconds are whole milliseconds; the server's delay, which is read from headers, and the jitter
-- are parameters, and so are the limits that the environment may set.
pub mod Tools
pub mod Decision
pub mod Turns
pub mod Session
use Prim.Native.Char.{code}
use Prim.Native.String.{◌++◌ as ◌+++◌}
use argus_review.Prelude.{
  ℕ, ◌+◌, ◌≤◌, ◌<◌, String, Bool, true, false, not, ◌&&◌, ◌||◌, Option, none, some, List, [], ◌∷◌,
  any, leb, ltb, nat_eq, if◌then◌else◌,
}
use argus_review.Prelude.Text.{str_empty, str_drop, lstrip, show}
use argus_review.Prelude.Case.{upper_is, lower_prefix, lower_contains}

-- `genai_errors.ClientError`, `ServerError` and their base, `httpx.HTTPStatusError`, the transport
-- errors that are retried, any other `httpx.HTTPError`, a cancellation by `asyncio.wait_for`, and
-- any other exception.
pub data ErrorKind : Type 0 where
  client_error server_error api_error http_status : ErrorKind
  transport_timeout connect_error read_error remote_protocol_error other_http : ErrorKind
  cancelled foreign : ErrorKind

pub record Exc : Type 0 where
  pub kind : ErrorKind
  pub type_name : String
  pub code : Option ℕ
  pub status : Option String
  pub message : String
  pub retry_after : Option ℕ

abbrev pub is_api_error : ErrorKind → Bool
is_api_error ErrorKind.client_error = true
is_api_error ErrorKind.server_error = true
is_api_error ErrorKind.api_error = true
is_api_error _ = false

abbrev pub is_http_error : ErrorKind → Bool
is_http_error ErrorKind.http_status = true
is_http_error ErrorKind.transport_timeout = true
is_http_error ErrorKind.connect_error = true
is_http_error ErrorKind.read_error = true
is_http_error ErrorKind.remote_protocol_error = true
is_http_error ErrorKind.other_http = true
is_http_error _ = false

abbrev is_transient_transport : ErrorKind → Bool
is_transient_transport ErrorKind.transport_timeout = true
is_transient_transport ErrorKind.connect_error = true
is_transient_transport ErrorKind.read_error = true
is_transient_transport ErrorKind.remote_protocol_error = true
is_transient_transport _ = false

-- `_error_code_status`
abbrev pub error_code : Exc → Option ℕ
error_code e = elim e.kind [
  | ErrorKind.http_status ↦ e.code
  | _ ↦ if is_api_error e.kind then e.code else none
]

abbrev pub error_status : Exc → Option String
error_status e = if is_api_error e.kind then e.status else none

abbrev pub code_is : Option ℕ → ℕ → Bool
code_is none n = false
code_is (some c) n = nat_eq c n

-- `(status or "").upper() == word`
abbrev pub status_is : Option String → String → Bool
status_is none word = false
status_is (some s) word = upper_is s word

abbrev pub is_server_code : Option ℕ → Bool
is_server_code code = code_is code 500 || code_is code 502 || code_is code 503 || code_is code 504

unfoldable pub is_transient_error : Exc → Bool
is_transient_error e =
    let code = error_code e in
    let status = error_status e in
    if code_is code 429
      || is_server_code code
      || status_is status "RESOURCE_EXHAUSTED"
      || status_is status "UNAVAILABLE"
      || status_is status "DEADLINE_EXCEEDED"
      || status_is status "INTERNAL"
    then true
    else is_transient_transport e.kind

-- `re.search(r"per\s*day|perday", text, re.IGNORECASE)`
unfoldable pub mentions_per_day : String → Bool
unfolding lower_prefix
mentions_per_day String.[] = false
mentions_per_day (String.◌∷◌ c s) =
    (lower_prefix "per" (String.◌∷◌ c s)
      && lower_prefix "day" (lstrip (str_drop 3 (String.◌∷◌ c s))))
    || mentions_per_day s

abbrev pub retry_giveup_delay : ℕ
retry_giveup_delay = 120000

abbrev pub retry_after_min : ℕ
retry_after_min = 5000

abbrev above : Option ℕ → ℕ → Bool
above none limit = false
above (some delay) limit = ltb limit delay

unfoldable pub is_daily_quota : Exc → Bool
is_daily_quota e = above e.retry_after retry_giveup_delay || mentions_per_day e.message

abbrev pub is_rate_limit : Exc → Bool
is_rate_limit e = code_is (error_code e) 429 || status_is (error_status e) "RESOURCE_EXHAUSTED"

pub data RetryKind : Type 0 where
  rate_limit server network : RetryKind

-- The five limits, in the order of the constants: rate-limit jitter, short jitter, the cap.
pub record RetryLimits : Type 0 where
  pub rate_limit_min : ℕ
  pub rate_limit_max : ℕ
  pub short_min : ℕ
  pub short_max : ℕ
  pub max_wait : ℕ

abbrev pub default_limits : RetryLimits
default_limits = record {
  rate_limit_min = 45000;
  rate_limit_max = 60000;
  short_min = 5000;
  short_max = 10000;
  max_wait = 60000;
}

abbrev pub min_of : ℕ → ℕ → ℕ
min_of a b = if leb a b then a else b

abbrev pub max_of : ℕ → ℕ → ℕ
max_of a b = if leb a b then b else a

-- The server's delay replaces the jitter from five seconds on.
abbrev pub chosen_wait : Option ℕ → ℕ → ℕ
chosen_wait none jitter = jitter
chosen_wait (some delay) jitter = if leb retry_after_min delay then delay else jitter

abbrev pub has_answer : Exc → Bool
has_answer e =
    (elim (error_code e) [ none ↦ false | some c ↦ true ])
    || (elim (error_status e) [ none ↦ false | some s ↦ not (str_empty s) ])

-- `isinstance(exc, ServerError) and code in _HTTP_RETRY_STATUS_CODES`
abbrev pub retried_by_sdk : Exc → Bool
retried_by_sdk e = elim e.kind [ ErrorKind.server_error ↦ is_server_code e.code | _ ↦ false ]

module _ (limits : RetryLimits) (uniform : ℕ → ℕ → ℕ) where
  abbrev pub capped_wait : Exc → ℕ → ℕ → ℕ
  capped_wait e lo hi =
      min_of (chosen_wait e.retry_after (uniform lo (max_of lo hi))) limits.max_wait

  unfoldable pub retry_decision : Exc → Option (RetryKind × ℕ)
  retry_decision e =
      if not (is_transient_error e) || retried_by_sdk e
      then none
      else if is_rate_limit e
      then if is_daily_quota e
        then none
        else some (RetryKind.rate_limit, capped_wait e limits.rate_limit_min limits.rate_limit_max)
      else some (
        if has_answer e then RetryKind.server else RetryKind.network,
        capped_wait e limits.short_min limits.short_max,
      )

code_text : Option ℕ → String
code_text none = ""
code_text (some c) = show c

status_text : Option String → String
status_text none = ""
status_text (some s) = s

-- `detail or type(exc).__name__`, with the mark of a daily quota
unfoldable pub failure_detail : Exc → String
unfolding code_text status_text
failure_detail e =
    let code = code_text (error_code e) in
    let status = status_text (error_status e) in
    let answer =
      if str_empty code
      then status
      else if str_empty status
      then code
      else code +++ " " +++ status in
    (if str_empty answer then e.type_name else answer)
    +++ (if is_rate_limit e && is_daily_quota e then " (daily quota)" else "")

-- `400 INVALID_ARGUMENT`
unfoldable pub is_invalid_argument : Exc → Bool
is_invalid_argument e = code_is (error_code e) 400 && status_is (error_status e) "INVALID_ARGUMENT"

-- A 4xx answer that speaks of the cache; an exception's text is its message.
unfoldable pub is_cache_invalid_error : Exc → Bool
is_cache_invalid_error e = elim e.kind [
  | ErrorKind.client_error ↦
      lower_contains "cache" e.message
      && (status_is e.status "NOT_FOUND"
          || status_is e.status "FAILED_PRECONDITION"
          || code_is e.code 404)
  | _ ↦ false
]
