-- ===== src/Gemini/Turns/Account.antt =====
-- What a turn's calls do to a session: each is counted and answered under its name, and the
-- progress counts what the answers of the service report.
use argus_review.Prelude.{
  ℕ, ◌+◌, String, ◌≡◌, refl, sym, ap, ◌∙◌, inl, inr, Bool, true, false, not, ◌&&◌, Option, none,
  some, List, [], ◌∷◌, ◌++◌, length, any, arith, Bool-cases, Option-cases, ◌==◌, eq_iff,
}
use mathlib.Core.List.{append_assoc, append-nil}
use argus_review.Gemini.Tools.{
  Json, Call, Host, ToolFinding, get, or_null, len, binds, finish_review, execute_tool_call,
  answered,
}
use argus_review.Gemini.Turns.{
  Part, Usage, Response, Progress, Session, Service, or_zero, received, run_call, run_calls,
}

abbrev pub is_some {ℓ} : {A : Type ℓ} → Option A → Bool
is_some none = false
is_some (some a) = true

-- A call that ends the session: `finish_review` with its one argument, which has a length.
abbrev pub finishes : Call → Bool
finishes call =
    call.name == "finish_review"
    && (binds ("files_explored" ∷ []) [] call.args
        && is_some (len (or_null (get "files_explored" call.args))))

module _ (host : Host) where
  finish_text :
      (files : Json) (sink : List ToolFinding)
      → is_some (finish_review host files sink) ≡ is_some (len files)
  unfolding finish_review
  finish_text Json.null sink = refl
  finish_text (Json.flag b) sink = refl
  finish_text (Json.number n) sink = refl
  finish_text (Json.text t) sink = refl
  finish_text (Json.array vs) sink = refl
  finish_text (Json.object d) sink = refl

  answered-is_error :
      (call : Call) (o : Option String) (sink : List ToolFinding)
      → not ((answered host call (o, sink)).is_error) ≡ is_some o
  answered-is_error call none sink = refl
  answered-is_error call (some s) sink = refl

  execute_finish :
      (call : Call) (sink : List ToolFinding)
      → (call.name == "finish_review" && not ((execute_tool_call host call sink).is_error))
        ≡ finishes call
  unfolding execute_tool_call
  execute_finish call sink = elim (Bool-cases (call.name == "finish_review")) [
    | inr other ↦ rw other refl
    | inl finish ↦
        let named : call.name ≡ "finish_review" = (eq_iff call.name "finish_review").0 finish in
        elim (Bool-cases (binds ("files_explored" ∷ []) [] call.args)) [
          | inl bound ↦
              rw (named, bound)
                (answered-is_error (record { name = "finish_review"; args = call.args })
                    (finish_review host (or_null (get "files_explored" call.args)) sink) sink
                  ∙ finish_text (or_null (get "files_explored" call.args)) sink)
          | inr unbound ↦ rw (named, unbound) refl
        ]
  ]

abbrev pub total : (Usage → Option ℕ) → List Response → ℕ
total count [] = 0
total count (r ∷ rs) = (elim r.usage [ none ↦ 0 | some u ↦ or_zero (count u) ]) + total count rs

abbrev pub call_names : List Call → List String
call_names [] = []
call_names (call ∷ calls) = call.name ∷ call_names calls

-- The names of the calls of some responses, newest first.
abbrev pub all_calls : List Response → List String
all_calls [] = []
all_calls (r ∷ rs) = all_calls rs ++ call_names r.function_calls

-- The progress after some responses, the newest first, from an earlier progress on.
pub record Accounted (before : Progress) (rs : List Response) (p : Progress) : Type 0 where
  pub responses : p.responses ≡ before.responses + length rs
  pub retried : p.retried ≡ before.retried
  pub retry_wait : p.retry_wait ≡ before.retry_wait
  pub prompt : p.prompt_tokens ≡ before.prompt_tokens + total (λ u. u.prompt) rs
  pub cached : p.cached_tokens ≡ before.cached_tokens + total (λ u. u.cached) rs
  pub candidates : p.candidates_tokens ≡ before.candidates_tokens + total (λ u. u.candidates) rs
  pub thoughts : p.thoughts_tokens ≡ before.thoughts_tokens + total (λ u. u.thoughts) rs
  pub tool_use :
      p.tool_use_prompt_tokens ≡ before.tool_use_prompt_tokens + total (λ u. u.tool_use_prompt) rs

-- Every call under its name, in order.
abbrev pub Counted : Progress → List Response → Progress → Type 0
Counted before rs p = p.tool_calls ≡ before.tool_calls ++ all_calls rs

pub received-Accounted :
    (before : Progress) (rs : List Response) (r : Response) (s : Session)
    → Accounted before rs s.progress
    → Accounted before (r ∷ rs) ((received r s).progress)
received-Accounted before rs r s h = elim (Option-cases r.usage) [
  | inl unreported ↦ rw unreported (record {
    responses = omega (arith, h.responses);
    retried = h.retried;
    retry_wait = h.retry_wait;
    prompt = omega (arith, h.prompt);
    cached = omega (arith, h.cached);
    candidates = omega (arith, h.candidates);
    thoughts = omega (arith, h.thoughts);
    tool_use = omega (arith, h.tool_use);
  })
  | inr (u, reported) ↦ rw reported (record {
    responses = omega (arith, h.responses);
    retried = h.retried;
    retry_wait = h.retry_wait;
    prompt = omega (arith, h.prompt);
    cached = omega (arith, h.cached);
    candidates = omega (arith, h.candidates);
    thoughts = omega (arith, h.thoughts);
    tool_use = omega (arith, h.tool_use);
  })
]

-- The turn of the user answers the calls one by one, each under its name.
abbrev pub Answers : List Call → List Part → Type 0
Answers [] [] = Unit
Answers (call ∷ calls) (Part.function_response name output ∷ parts) =
    (name ≡ call.name) × Answers calls parts
Answers _ _ = ⊥

-- What a turn's calls do.
pub record Ran (calls : List Call) (old : Session) (parts : List Part) (finish : Bool)
    (new : Session) : Type 0 where
  pub answers : Answers calls parts
  pub ending : finish ≡ any finishes calls
  pub contents : new.contents ≡ old.contents
  pub requests : new.requests ≡ old.requests
  pub cached : new.cached ≡ old.cached
  pub progress :
      new.progress
      ≡ record old.progress { tool_calls = old.progress.tool_calls ++ call_names calls }

module _ (host : Host) (generate : Service) (budget mid : String) where
  pub run_calls-Ran :
      (calls : List Call) (s : Session)
      → let ((parts, finish), s') = run_calls host generate budget mid calls s in
        Ran calls s parts finish s'
  unfolding run_calls run_call
  run_calls-Ran [] s = record {
    answers = tt;
    ending = refl;
    contents = refl;
    requests = refl;
    cached = refl;
    progress =
        ap (λ names. record s.progress { tool_calls = names })
          (sym (append-nil s.progress.tool_calls));
  }
  run_calls-Ran (call ∷ calls) s =
      let rest = run_calls-Ran calls ((run_call host generate budget mid call s).1) in
      record {
        answers = (refl, rest.answers);
        ending = ground (arith, rest.ending, execute_finish host call s.sink);
        contents = rest.contents;
        requests = rest.requests;
        cached = rest.cached;
        progress =
            rest.progress
            ∙ ap (λ names. record s.progress { tool_calls = names })
                (append_assoc s.progress.tool_calls (call.name ∷ []) (call_names calls));
      }

-- Neither the names nor the last turn are among the counters.
pub Accounted-names :
    (before : Progress) (rs : List Response) (p : Progress) (names : List String) (turn : Option ℕ)
    → Accounted before rs p
    → Accounted before rs (record p { tool_calls = names; last_turn = turn })
Accounted-names before rs p names turn h = record {
  responses = h.responses;
  retried = h.retried;
  retry_wait = h.retry_wait;
  prompt = h.prompt;
  cached = h.cached;
  candidates = h.candidates;
  thoughts = h.thoughts;
  tool_use = h.tool_use;
}
