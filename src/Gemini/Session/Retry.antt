-- ===== src/Gemini/Session/Retry.antt =====
-- When a session is attempted again, and what the second attempt starts from.
use argus_review.Prelude.{
  ℕ, ◌*◌, ◌≤◌, ◌<◌, ◌≡◌, refl, ◌⊎◌, inl, inr, true, false, ◌||◌, none, some, [], ◌∷◌, ltb, leb,
  nat_eq, arith, Bool-cases, Option-cases,
}
use argus_review.Gemini.{Exc, RetryKind, retry_decision}
use argus_review.Gemini.Turns.{Progress, Session, LoopEnd, max_turns}
use argus_review.Gemini.Turns.Outcome.{Left, run_turns-Left}
use argus_review.Gemini.Session.{
  Attempt, Setting, attempt, remaining, granted_wait, run_turns_with_retry, fresh, is_service_error,
}

-- Nothing was received or called yet.
pub record Blank (p : Progress) : Type 0 where
  pub responses : p.responses ≡ 0
  pub prompt : p.prompt_tokens ≡ 0
  pub cached : p.cached_tokens ≡ 0
  pub candidates : p.candidates_tokens ≡ 0
  pub thoughts : p.thoughts_tokens ≡ 0
  pub tool_use : p.tool_use_prompt_tokens ≡ 0
  pub calls : p.tool_calls ≡ []

module _ (given : Setting) where
  -- The reasons for which a failed first attempt is the last.
  abbrev pub Refused : Exc → Progress → Type 0
  Refused e p =
      (is_service_error e ≡ false)
      ⊎ ((1 ≤ p.responses)
          ⊎ ((retry_decision given.limits given.uniform e ≡ none)
              ⊎ ((kind : RetryKind) × (wait : ℕ) × (retry_decision given.limits given.uniform e
                    ≡ some (kind, wait))
                  × ((4 * remaining given < given.timeout) ⊎ (remaining given ≤ wait)))))

  -- The reasons for which there is a second attempt, after a wait that ends before the deadline.
  pub record Allowed (e : Exc) (p : Progress) (wait : ℕ) : Type 0 where
    pub caught : is_service_error e ≡ true
    pub unanswered : p.responses ≡ 0
    pub kind : RetryKind
    pub decision : retry_decision given.limits given.uniform e ≡ some (kind, wait)
    pub time_left : given.timeout ≤ 4 * remaining given
    pub in_time : wait < remaining given

  granted_wait_outcome :
      (e : Exc) (p : Progress)
      → ((granted_wait given e p ≡ none) × Refused e p)
        ⊎ ((wait : ℕ) × (granted_wait given e p ≡ some wait) × Allowed e p wait)
  unfolding granted_wait
  granted_wait_outcome e p = elim (Bool-cases (is_service_error e)) [
    | inr other ↦ inl (rw other refl, inl other)
    | inl caught ↦ elim (Bool-cases (nat_eq p.responses 0)) [
      | inr begun ↦ inl (rw (caught, begun) refl, inr (inl (ground arith)))
      | inl unanswered ↦ elim (Option-cases (retry_decision given.limits given.uniform e)) [
        | inl denied ↦ inl (rw (caught, unanswered, denied) refl, inr (inr (inl denied)))
        | inr ((kind, wait), decision) ↦
            elim (Bool-cases
              (ltb (4 * remaining given) given.timeout || leb (remaining given) wait)) [
                | inl late ↦ inl (
                  rw (caught, unanswered, decision, late) refl,
                  inr (inr (inr (kind, wait, decision, ground arith))),
                )
                | inr early ↦ inr (
                  wait,
                  rw (caught, unanswered, decision, early) refl,
                  record {
                    caught = caught;
                    unanswered = ground arith;
                    kind = kind;
                    decision = decision;
                    time_left = ground arith;
                    in_time = ground arith;
                  },
                )
              ]
      ]
    ]
  ]

  -- A session of one attempt.
  abbrev pub Once : Attempt → LoopEnd → Session → Type 0
  Once first ending s =
      (attempt given first fresh ≡ (ending, s))
      × Left max_turns first.generate given.user_message fresh ending s
      × ((e : Exc) → ending ≡ LoopEnd.failed e → Refused e s.progress)

  -- A session of two attempts.
  abbrev pub Twice : Attempt → Attempt → LoopEnd → Session → Type 0
  Twice first second ending s =
      (e : Exc) × (lost : Session) × (wait : ℕ) × (before : Progress) × (attempt given first fresh
        ≡ (LoopEnd.failed e, lost))
      × Allowed e lost.progress wait
      × Blank before
      × (before.retried ≡ true)
      × (before.retry_wait ≡ wait)
      × (attempt given second before ≡ (ending, s))
      × Left max_turns second.generate given.user_message before ending s

  Left-Blank :
      (a : Attempt) (e : Exc) (s : Session) (wait : ℕ)
      → Left max_turns a.generate given.user_message fresh (LoopEnd.failed e) s
      → s.progress.responses ≡ 0
      → Blank (record s.progress { retried = true; retry_wait = wait })
  Left-Blank a e s wait ([], go, told, _, _, _, _) unanswered = record {
    responses = told.account.responses;
    prompt = told.account.prompt;
    cached = told.account.cached;
    candidates = told.account.candidates;
    thoughts = told.account.thoughts;
    tool_use = told.account.tool_use;
    calls = told.names;
  }
  Left-Blank a e s wait (r ∷ rs, go, told, _, _, _, _) unanswered =
      absurd (omega (arith, told.account.responses, unanswered))

  -- What a session ends with is the end of its first attempt, or of the second attempt that
  -- follows a failed first one; each attempt has at most a hundred turns. It is attempted
  -- again only if the first attempt failed by an API or HTTP error before any response, the retry
  -- decision grants a wait shorter than the time that remains, and a quarter of the timeout
  -- remains; the second attempt then starts from blank counters, so nothing is counted twice.
  pub run_turns_with_retry_outcome :
      (first second : Attempt)
      → let (ending, s) = run_turns_with_retry given first second in
        Once first ending s ⊎ Twice first second ending s
  unfolding run_turns_with_retry
  run_turns_with_retry_outcome first second = step (attempt given first fresh) refl (
      run_turns-Left given.host first.generate given.turn_budget_nudge given.mid_budget_nudge
        given.user_message fresh first.cached)
    where
      step :
          (out : LoopEnd × Session)
          → attempt given first fresh ≡ out
          → Left max_turns first.generate given.user_message fresh out.0 out.1
          → let result : LoopEnd × Session = elim out.0 [
            | LoopEnd.completed ↦ (LoopEnd.completed, out.1)
            | LoopEnd.exhausted ↦ (LoopEnd.exhausted, out.1)
            | LoopEnd.failed e ↦ elim (granted_wait given e out.1.progress) [
              | none ↦ (LoopEnd.failed e, out.1)
              | some wait ↦
                  attempt given second (record out.1.progress { retried = true; retry_wait = wait })
            ]
          ] in
            Once first result.0 result.1 ⊎ Twice first second result.0 result.1
      step (LoopEnd.completed, s) is left = inl (is, left, λ e same. cc)
      step (LoopEnd.exhausted, s) is left = inl (is, left, λ e same. cc)
      step (LoopEnd.failed e, s) is left = elim (granted_wait_outcome e s.progress) [
        | inl (denied, why) ↦
            rw denied (inl (is, left, λ f same. (let one : e ≡ f = cc in rw (← one) why)))
        | inr (wait, granted, allowed) ↦ rw granted (
            inr (
              e,
              s,
              wait,
              record s.progress { retried = true; retry_wait = wait },
              is,
              allowed,
              Left-Blank first e s wait left allowed.unanswered,
              refl,
              refl,
              refl,
              run_turns-Left given.host second.generate given.turn_budget_nudge
                  given.mid_budget_nudge given.user_message _ second.cached,
            ))
      ]
