-- ===== src/Gemini/Turns/Turn.antt =====
-- What one turn of the loop does.
use mathlib.Core.List.{append_assoc, append-nil}
use argus_review.Prelude.{
  ℕ, ◌+◌, ◌-◌, nat_eq, ◌≤◌, ◌<◌, String, ◌≡◌, refl, sym, ◌∙◌, ◌⊎◌, inl, inr, Bool, true, false,
  some, List, [], ◌∷◌, any, arith, Bool-cases, Option-cases, if◌then◌else◌, is_empty,
}
use argus_review.Prelude.Result.{Result, ok, err}
use argus_review.Gemini.{Exc}
use argus_review.Gemini.Tools.{Call, Host, parse_text_findings}
use argus_review.Gemini.Turns.{
  Content, Response, Progress, Session, Service, TurnEnd, max_turns, nudge_turns_before_budget,
  mid_budget_nudge_turn, due, nudged, received, request, run_calls, recover, answer, prepared,
  run_turn,
}
use argus_review.Gemini.Turns.Request.{Single, Repeated, Result-cases, request-Requested}
use argus_review.Gemini.Turns.Account.{
  Accounted-names, all_calls, call_names, finishes, received-Accounted, run_calls-Ran,
}
use argus_review.Gemini.Turns.Protocol.{Told, Conversation, exchanged, prepared-Told}

-- An answer that lets the loop go on: no call in it ends the session.
abbrev pub GoesOn : Response → Type 0
GoesOn r = (is_empty r.function_calls ≡ false) × (any finishes r.function_calls ≡ false)

-- An answer that ends the session, by a call or since it has no call, and what is then told.
abbrev pub Ended : String → Progress → Response → List Response → Session → Type 0
Ended message before r rs s =
    ((is_empty r.function_calls ≡ true) × Told message before rs (r ∷ rs) s)
    ⊎ ((any finishes r.function_calls ≡ true) × Told message before (r ∷ rs) (r ∷ rs) s)

-- A request of the given numbers, in which the conversation is told that the earlier answers led to,
-- and what the service answered to it.
abbrev pub Asked : Service → String → List Response → ℕ → ℕ → Result Exc Response → Type 0
Asked generate message rs from to outcome =
    (n : ℕ) × (cached : Bool) × (contents : List Content) × (from ≤ n)
    × (n < to)
    × Conversation message rs contents
    × (generate n cached contents ≡ outcome)

-- What holds after a turn that the given responses preceded, whose requests have the given numbers.
abbrev pub After : Service → String → Progress → List Response → ℕ → ℕ → TurnEnd → Session → Type 0
After generate message before rs from to (TurnEnd.raised e) s =
    Told message before rs rs s × Asked generate message rs from to (err e)
After generate message before rs from to TurnEnd.finished s =
    (r : Response) × Ended message before r rs s × Asked generate message rs from to (ok r)
After generate message before rs from to TurnEnd.next s =
    (r : Response) × GoesOn r
    × Told message before (r ∷ rs) (r ∷ rs) s
    × Asked generate message rs from to (ok r)

calls_cases :
    (calls : List Call)
    → (calls ≡ []) ⊎ ((first : Call) × (rest : List Call) × (calls ≡ first ∷ rest))
calls_cases [] = inl refl
calls_cases (first ∷ rest) = inr (first, rest, refl)

module _ (message : String) (before : Progress) where
  module _ (host : Host) (generate : Service) (budget mid : String) where
    recover-Told :
        (asked rs : List Response) (r : Response) (s : Session)
        → Told message before asked rs s
        → Told message before asked rs (recover host generate budget mid r s)
    unfolding recover
    recover-Told asked rs r s h = elim (Option-cases (parse_text_findings host r.text)) [
      | inl prose ↦ rw (recover, prose) h
      | inr (found, parsed) ↦
          rw (recover, parsed)
            (record { conversation = h.conversation; account = h.account; names = h.names })
    ]

    exchange-Told :
        (rs : List Response) (r : Response) (s : Session)
        → Told message before rs (r ∷ rs) s
        → is_empty r.function_calls ≡ false
        → let ((parts, finish), s') =
            run_calls host generate budget mid r.function_calls
              (record s { contents = r.content ∷ s.contents }) in
          Told message before (r ∷ rs) (r ∷ rs) (record s' {
            contents = record { from_model = false; parts = some parts } ∷ s'.contents;
          })
    exchange-Told rs r s h asks =
        let told = record s { contents = r.content ∷ s.contents } in
        let ran = run_calls-Ran host generate budget mid r.function_calls told in
        let parts = (run_calls host generate budget mid r.function_calls told).0.0 in
        record {
          conversation =
              rw (ran.contents, ← append-nil parts)
                (exchanged r rs s.contents parts [] h.conversation asks ran.answers);
          account =
              rw ran.progress
                (Accounted-names before (r ∷ rs) s.progress _ s.progress.last_turn h.account);
          names =
              rw (ran.progress, h.names)
                (append_assoc before.tool_calls (all_calls rs) (call_names r.function_calls));
        }

    answer-none :
        (r : Response) (s : Session)
        → r.function_calls ≡ []
        → answer host generate budget mid r s
          ≡ (TurnEnd.finished, recover host generate budget mid r s)
    unfolding answer recover
    answer-none r s silent = rw (answer, silent) refl

    answer-some :
        (r : Response) (s : Session) (call : Call) (calls : List Call)
        → r.function_calls ≡ call ∷ calls
        → let ((parts, finish), s') =
            run_calls host generate budget mid r.function_calls
              (record s { contents = r.content ∷ s.contents }) in
          answer host generate budget mid r s ≡ (
            if finish then TurnEnd.finished else TurnEnd.next,
            record s' {
              contents = record { from_model = false; parts = some parts } ∷ s'.contents;
            },
          )
    unfolding answer
    answer-some r s call calls asks = rw (answer, asks) refl

    answer-After :
        (rs : List Response) (r : Response) (s : Session) (from to : ℕ)
        → Told message before rs (r ∷ rs) s
        → Asked generate message rs from to (ok r)
        → let (ending, s') = answer host generate budget mid r s in
          After generate message before rs from to ending s'
    answer-After rs r s from to h asked = elim (calls_cases r.function_calls) [
      | inl silent ↦
          rw (answer-none r s silent)
            (r, inl (rw silent refl, recover-Told rs (r ∷ rs) r s h), asked)
      | inr (call, calls, asks) ↦
          let exchange = exchange-Told rs r s h (rw asks refl) in
          let ran =
            run_calls-Ran host generate budget mid r.function_calls
              (record s { contents = r.content ∷ s.contents }) in
          elim (Bool-cases (
            (run_calls host generate budget mid r.function_calls
              (record s { contents = r.content ∷ s.contents })).0.1)) [
                | inl finish ↦
                    rw (answer-some r s call calls asks, finish)
                      (r, inr (sym ran.ending ∙ finish, exchange), asked)
                | inr going ↦
                    rw (answer-some r s call calls asks, going)
                      (r, (rw asks refl, sym ran.ending ∙ going), exchange, asked)
              ]
    ]

    recover-requests :
        (r : Response) (s : Session) → (recover host generate budget mid r s).requests ≡ s.requests
    unfolding recover
    recover-requests r s = elim (Option-cases (parse_text_findings host r.text)) [
      | inl prose ↦ rw (recover, prose) refl
      | inr (found, parsed) ↦ rw (recover, parsed) refl
    ]

    answer-requests :
        (r : Response) (s : Session)
        → ((answer host generate budget mid r s).1).requests ≡ s.requests
    answer-requests r s = elim (calls_cases r.function_calls) [
      | inl silent ↦ rw (answer-none r s silent) (recover-requests r s)
      | inr (call, calls, asks) ↦
          let ran =
            run_calls-Ran host generate budget mid r.function_calls
              (record s { contents = r.content ∷ s.contents }) in
          rw (answer-some r s call calls asks) ran.requests
    ]

    received-Told :
        (rs : List Response) (r : Response) (s : Session)
        → Told message before rs rs s
        → Told message before rs (r ∷ rs) (received r s)
    received-Told rs r s h = record {
      conversation = h.conversation;
      account = received-Accounted before rs r s h.account;
      names = elim (Option-cases r.usage) [
        | inl unreported ↦ rw unreported h.names
        | inr (u, reported) ↦ rw reported h.names
      ];
    }

    nudged-requests : (b : Bool) (t : String) (s : Session) → (nudged b t s).requests ≡ s.requests
    nudged-requests true t s = refl
    nudged-requests false t s = refl

    prepared-requests :
        (turn : ℕ) (s : Session) → (prepared host generate budget mid turn s).requests ≡ s.requests
    prepared-requests turn s =
        nudged-requests (due (mid_budget_nudge_turn max_turns) turn) mid _
        ∙ nudged-requests (nat_eq turn (max_turns - nudge_turns_before_budget)) budget _

    -- The answer of a turn is the service's answer to one of the turn's requests.
    answer_of_turn :
        (rs : List Response) (s new : Session) (outcome answered : Result Exc Response)
        → Conversation message rs s.contents
        → Single generate s outcome new ⊎ Repeated generate s outcome new
        → outcome ≡ answered
        → Asked generate message rs s.requests new.requests answered
    answer_of_turn rs s new outcome answered told (inl (count, _, same, _)) is =
        (s.requests, s.cached, s.contents, omega arith, omega (arith, count), told, sym same ∙ is)
    answer_of_turn rs s new outcome answered told (inr (_, _, _, twice, _, same)) is = (
      s.requests + 1,
      new.cached,
      s.contents,
      omega arith,
      omega (arith, twice),
      told,
      sym same ∙ is,
    )

    sent :
        (s new : Session) (outcome : Result Exc Response)
        → Single generate s outcome new ⊎ Repeated generate s outcome new
        → (s.requests + 1 ≤ new.requests) × (new.requests ≤ s.requests + 2)
    sent s new outcome (inl once) = (omega (arith, once.0), omega (arith, once.0))
    sent s new outcome (inr (_, _, _, twice, _, _)) = (omega (arith, twice), omega (arith, twice))

    pub run_turn-After :
        (turn : ℕ) (rs : List Response) (s : Session)
        → Told message before rs rs s
        → let (ending, s') = run_turn host generate budget mid turn s in
          After generate message before rs s.requests s'.requests ending s'
          × (s.requests + 1 ≤ s'.requests)
          × (s'.requests ≤ s.requests + 2)
    unfolding run_turn
    run_turn-After turn rs s h =
        let p = prepared host generate budget mid turn s in
        let told = prepared-Told message before host generate budget mid turn rs s h in
        let asked = request-Requested host generate budget mid p in
        let after = (request host generate budget mid p).1 in
        let kept : Told message before rs rs after = record {
          conversation = rw asked.contents told.conversation;
          account = rw asked.progress told.account;
          names = rw asked.progress told.names;
        } in
        let (least, most) = sent p after ((request host generate budget mid p).0) asked.asked in
        let start = prepared-requests turn s in
        elim (Result-cases ((request host generate budget mid p).0)) [
          | inl (e, failed) ↦
              rw (run_turn, failed)
                (
                  (
                    kept,
                    rw start at
                        (answer_of_turn rs p after _ (err e) told.conversation asked.asked failed),
                  ),
                  omega (arith, least, start),
                  omega (arith, most, start),
                )
          | inr (r, returned) ↦
              let spent = answer-requests r (received r after) in
              rw (run_turn, returned)
                (
                  answer-After rs r (received r after) s.requests _ (received-Told rs r after kept)
                      (rw (start, ← spent) at
                        (answer_of_turn rs p after _ (ok r) told.conversation asked.asked
                          returned)),
                  omega (arith, least, start, spent),
                  omega (arith, most, start, spent),
                )
        ]
