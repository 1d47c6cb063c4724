-- ===== src/Gemini/Turns/Request.antt =====
-- One turn's requests: at most two, and nothing else of the session changes but the cache.
use argus_review.Prelude.{
  ◌+◌, String, ◌≡◌, refl, sym, ◌⊎◌, inl, inr, Bool, true, false, not, ◌&&◌, ◌||◌, arith, Bool-cases,
}
use argus_review.Prelude.Result.{Result, ok, err}
use argus_review.Gemini.{Exc, is_cache_invalid_error, is_invalid_argument}
use argus_review.Gemini.Tools.{Host}
use argus_review.Gemini.Turns.{
  Response, Session, Service, is_exception, send, after_failure, request,
}

pub Result-cases :
    {E A : Type 0} (r : Result E A) → ((e : E) × (r ≡ err e)) ⊎ ((a : A) × (r ≡ ok a))
Result-cases (err e) = inl (e, refl)
Result-cases (ok a) = inr (a, refl)

-- The service may be asked again: without its cache, or since the first fault may pass.
abbrev pub may_repeat : Bool → Exc → Bool
may_repeat cached e =
    is_exception e && ((cached && is_cache_invalid_error e) || is_invalid_argument e)

-- The second request of a turn: what the first one raised allows it, and it is the same
-- conversation, without the cache if the cache was at fault.
abbrev pub Repeated : Service → Session → Result Exc Response → Session → Type 0
Repeated generate old outcome new =
    (e : Exc) × (generate old.requests old.cached old.contents ≡ err e)
    × (may_repeat old.cached e ≡ true)
    × (new.requests ≡ old.requests + 2)
    × (new.cached ≡ (old.cached && not (is_cache_invalid_error e)))
    × (outcome ≡ generate (old.requests + 1) new.cached old.contents)

-- The only request of a turn: it is answered, or what it raised is raised.
abbrev pub Single : Service → Session → Result Exc Response → Session → Type 0
Single generate old outcome new =
    (new.requests ≡ old.requests + 1)
    × (new.cached ≡ old.cached)
    × (outcome ≡ generate old.requests old.cached old.contents)
    × ((e : Exc) → outcome ≡ err e → may_repeat old.cached e ≡ false)

-- What one turn's requests leave behind.
pub record Requested (generate : Service) (old : Session) (outcome : Result Exc Response)
    (new : Session) : Type 0 where
  pub contents : new.contents ≡ old.contents
  pub sink : new.sink ≡ old.sink
  pub files : new.files_explored ≡ old.files_explored
  pub progress : new.progress ≡ old.progress
  pub asked : Single generate old outcome new ⊎ Repeated generate old outcome new

module _ (host : Host) (generate : Service) (budget mid : String) where
  again-Requested :
      (s : Session) (e : Exc) (cached : Bool)
      → generate s.requests s.cached s.contents ≡ err e
      → may_repeat s.cached e ≡ true
      → cached ≡ (s.cached && not (is_cache_invalid_error e))
      → let (outcome, s') =
          send host generate budget mid (record s { cached = cached; requests = s.requests + 1 }) in
        Requested generate s outcome s'
  again-Requested s e cached raised allowed kept = record {
    contents = refl;
    sink = refl;
    files = refl;
    progress = refl;
    asked = inr (e, raised, allowed, omega arith, kept, refl);
  }

  final :
      (s : Session) (outcome : Result Exc Response) (e f : Exc)
      → may_repeat s.cached e ≡ false
      → outcome ≡ err e
      → outcome ≡ err f
      → may_repeat s.cached f ≡ false
  final s outcome e f refused one other = (let same : e ≡ f = cc in rw (← same) refused)

  once-Requested :
      (s : Session) (outcome : Result Exc Response)
      → generate s.requests s.cached s.contents ≡ outcome
      → ((e : Exc) → outcome ≡ err e → may_repeat s.cached e ≡ false)
      → Requested generate s outcome (record s { requests = s.requests + 1 })
  once-Requested s outcome answered final = record {
    contents = refl;
    sink = refl;
    files = refl;
    progress = refl;
    asked = inl (refl, refl, sym answered, final);
  }

  after_failure-Requested :
      (s : Session) (e : Exc)
      → generate s.requests s.cached s.contents ≡ err e
      → let (outcome, s') =
          after_failure host generate budget mid e (record s { requests = s.requests + 1 }) in
        Requested generate s outcome s'
  after_failure-Requested s e raised = elim (Bool-cases (is_exception e)) [
    | inr cancel ↦
        rw cancel
          (once-Requested s (err e) raised (λ f same. final s (err e) e f (ground arith) refl same))
    | inl caught ↦ elim (Bool-cases (not s.cached || not (is_cache_invalid_error e))) [
      | inr stale ↦
          rw (caught, stale) (again-Requested s e false raised (ground arith) (ground arith))
      | inl fresh ↦ elim (Bool-cases (is_invalid_argument e)) [
        | inl invalid ↦
            rw (caught, fresh, invalid)
              (again-Requested s e s.cached raised (ground arith) (ground arith))
        | inr other ↦
            rw (caught, fresh, other)
              (once-Requested s (err e) raised
                (λ f same. final s (err e) e f (ground arith) refl same))
      ]
    ]
  ]

  -- A turn asks the service once, or twice. It asks again exactly if the first request raised a
  -- caught exception that blames the cache in use, then without the cache, or that is a 400
  -- INVALID_ARGUMENT, then with the same request. The last answer is the turn's, exceptions
  -- included, and nothing else of the session changes.
  pub request-Requested :
      (s : Session)
      → let (outcome, s') = request host generate budget mid s in Requested generate s outcome s'
  unfolding request
  request-Requested s = elim (Result-cases (generate s.requests s.cached s.contents)) [
    | inl (e, raised) ↦ rw raised (after_failure-Requested s e raised)
    | inr (r, received) ↦ rw received (once-Requested s (ok r) received (λ e same. cc))
  ]
