-- ===== src/Gemini/Turns/Outcome.antt =====
-- What the whole loop does: its ends, its bounds, and what it has told and counted by then.
use mathlib.Core.List.{append-nil}
use argus_review.Prelude.{
  ℕ, zero, suc, ◌+◌, ◌*◌, ◌≤◌, ◌<◌, String, ◌≡◌, refl, sym, Bool, List, [], ◌∷◌, length, All, arith,
}
use argus_review.Prelude.Result.{Result, ok, err}
use argus_review.Gemini.{Exc}
use argus_review.Gemini.Tools.{Host}
use argus_review.Gemini.Turns.{
  Content, Response, Progress, Session, Service, TurnEnd, LoopEnd, max_turns, run_turn, turns,
  opening, run_turns,
}
use argus_review.Gemini.Turns.Protocol.{Told, Conversation, opened}
use argus_review.Gemini.Turns.Turn.{After, Asked, Ended, GoesOn, run_turn-After}

-- Responses (newest first) that the service gave to requests of rising numbers below a bound; each
-- request told the conversation that the responses before it led to.
abbrev pub Received : Service → String → List Response → ℕ → Type 0
Received generate message [] bound = Unit
Received generate message (r ∷ rs) bound =
    (n : ℕ) × (cached : Bool) × (contents : List Content) × (n < bound)
    × Conversation message rs contents
    × (generate n cached contents ≡ ok r)
    × Received generate message rs n

-- An exception that the service raised at a request after those responses.
abbrev pub Raised : Service → String → List Response → Exc → ℕ → Type 0
Raised generate message rs e bound =
    (n : ℕ) × (cached : Bool) × (contents : List Content) × (n < bound)
    × Conversation message rs contents
    × (generate n cached contents ≡ err e)
    × Received generate message rs n

Received-later :
    (generate : Service) (message : String) (rs : List Response) (low high : ℕ)
    → low ≤ high
    → Received generate message rs low
    → Received generate message rs high
Received-later generate message [] low high le h = tt
Received-later generate message (r ∷ rs) low high le (n, cached, contents, below, talk, is, rest) =
    (n, cached, contents, omega (arith, le, below), talk, is, rest)

-- What holds at the end of a loop over so many turns: by which answers of the service it came there
-- (newest first), what is told and counted, and how often the service was asked.
abbrev pub Left : ℕ → Service → String → Progress → LoopEnd → Session → Type 0
Left limit generate message before (LoopEnd.failed e) s =
    (rs : List Response) × All GoesOn rs
    × Told message before rs rs s
    × Raised generate message rs e s.requests
    × (length rs < limit)
    × (length rs + 1 ≤ s.requests)
    × (s.requests ≤ 2 * length rs + 2)
Left limit generate message before LoopEnd.completed s =
    (rs : List Response) × (r : Response) × All GoesOn rs
    × Ended message before r rs s
    × Received generate message (r ∷ rs) s.requests
    × (length rs < limit)
    × (length rs + 1 ≤ s.requests)
    × (s.requests ≤ 2 * length rs + 2)
Left limit generate message before LoopEnd.exhausted s =
    (rs : List Response) × All GoesOn rs
    × Told message before rs rs s
    × Received generate message rs s.requests
    × (length rs ≡ limit)
    × (length rs ≤ s.requests)
    × (s.requests ≤ 2 * length rs)

module _ (host : Host) (generate : Service) (budget mid : String) (message : String)
    (before : Progress) where
  turns-Left :
      (limit remaining turn : ℕ) (rs : List Response) (s : Session)
      → All GoesOn rs
      → Told message before rs rs s
      → Received generate message rs s.requests
      → length rs + remaining ≡ limit
      → length rs ≤ s.requests
      → s.requests ≤ 2 * length rs
      → let (ending, s') = turns host generate budget mid remaining turn s in
        Left limit generate message before ending s'
  unfolding turns
  turns-Left limit zero turn rs s go told from count least most =
      (rs, go, told, from, omega (arith, count), least, most)
  turns-Left limit (suc n) turn rs s go told from count least most =
      step
        (λ r s' goes h got more less.
          turns-Left limit n (turn + 1) (r ∷ rs) s' (goes, go) h got (omega (arith, count))
            (omega (arith, least, more)) (omega (arith, most, less)))
        (run_turn host generate budget mid turn s)
        (run_turn-After message before host generate budget mid turn rs s told)
    where
      joined :
          (outcome : Result Exc Response) (to : ℕ)
          → Asked generate message rs s.requests to outcome
          → (n : ℕ) × (cached : Bool) × (contents : List Content) × (n < to)
            × Conversation message rs contents
            × (generate n cached contents ≡ outcome)
            × Received generate message rs n
      joined outcome to (n, cached, contents, late, below, talk, is) = (
        n,
        cached,
        contents,
        below,
        talk,
        is,
        Received-later generate message rs s.requests n late from,
      )

      step :
          ((r : Response) (s' : Session)
            → GoesOn r
            → Told message before (r ∷ rs) (r ∷ rs) s'
            → Received generate message (r ∷ rs) s'.requests
            → s.requests + 1 ≤ s'.requests
            → s'.requests ≤ s.requests + 2
            → let (ending, last) = turns host generate budget mid n (turn + 1) s' in
              Left limit generate message before ending last)
          → (out : TurnEnd × Session)
          → After generate message before rs s.requests out.1.requests out.0 out.1
            × (s.requests + 1 ≤ out.1.requests)
            × (out.1.requests ≤ s.requests + 2)
          → let ended : LoopEnd × Session = elim out.0 [
            | TurnEnd.raised e ↦ (LoopEnd.failed e, out.1)
            | TurnEnd.finished ↦ (LoopEnd.completed, out.1)
            | TurnEnd.next ↦ turns host generate budget mid n (turn + 1) out.1
          ] in
            Left limit generate message before ended.0 ended.1
      step again (TurnEnd.raised e, s') ((h, asked), more, less) = (
        rs,
        go,
        h,
        joined (err e) s'.requests asked,
        omega (arith, count),
        omega (arith, least, more),
        omega (arith, most, less),
      )
      step again (TurnEnd.finished, s') ((r, h, asked), more, less) = (
        rs,
        r,
        go,
        h,
        joined (ok r) s'.requests asked,
        omega (arith, count),
        omega (arith, least, more),
        omega (arith, most, less),
      )
      step again (TurnEnd.next, s') ((r, goes, h, asked), more, less) =
          again r s' goes h (joined (ok r) s'.requests asked) more less

  -- From any earlier progress the loop ends, with at most 100 responses and at most 200 requests. The
  -- responses are the service's own answers, to requests of rising numbers that each told the
  -- conversation of the responses before. In the conversation every turn of the model, as it came, is followed by one turn of the user that
  -- answers exactly its calls, in order and under their names. No response before the last one had
  -- no call or a successful finish_review; the loop is left by such a response, fails by an
  -- exception of the service, or is exhausted after exactly 100 responses. The progress then counts
  -- the usage of all responses, and the calls of those that are in the conversation.
  pub run_turns-Left :
      (cached : Bool)
      → let (ending, s) = run_turns host generate budget mid message cached before in
        Left max_turns generate message before ending s
  unfolding run_turns
  run_turns-Left cached =
      turns-Left max_turns max_turns 0 [] (opening host generate budget mid message cached before)
        tt
        (record {
          conversation = opened [];
          account = record {
            responses = omega arith;
            retried = refl;
            retry_wait = refl;
            prompt = omega arith;
            cached = omega arith;
            candidates = omega arith;
            thoughts = omega arith;
            tool_use = omega arith;
          };
          names = sym (append-nil before.tool_calls);
        })
        tt refl (omega arith) (omega arith)
