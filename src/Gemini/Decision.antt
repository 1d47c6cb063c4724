-- ===== src/Gemini/Decision.antt =====
-- Which failures of a session are retried, and how long the wait may be.
use argus_review.Prelude.{
  ℕ, ◌≤◌, ◌≡◌, refl, ◌⊎◌, inl, inr, true, false, not, ◌&&◌, ◌||◌, Option, none, some, leb, arith,
  Bool-cases, Option-cases, if◌then◌else◌,
}
use argus_review.Gemini.{
  Exc, RetryKind, RetryLimits, rate_limit, server, network, is_transient_error, is_daily_quota,
  is_rate_limit, has_answer, retried_by_sdk, min_of, max_of, capped_wait, retry_decision,
  retry_after_min,
}

-- The shortest wait of a kind of failure, unless the server names one.
abbrev pub least_wait : RetryLimits → Exc → ℕ
least_wait limits e =
    min_of (if is_rate_limit e then limits.rate_limit_min else limits.short_min) limits.max_wait

-- What holds of a granted retry.
pub record Granted (limits : RetryLimits) (e : Exc) (decision : Option (RetryKind × ℕ))
    : Type 0 where
  pub kind : RetryKind
  pub wait : ℕ
  pub granted : decision ≡ some (kind, wait)
  pub transient : is_transient_error e ≡ true
  pub not_repeated : retried_by_sdk e ≡ false
  pub no_daily_quota : (is_rate_limit e && is_daily_quota e) ≡ false
  pub capped : wait ≤ limits.max_wait
  pub patient :
      (least_wait limits e ≤ wait)
      ⊎ ((delay : ℕ) × (e.retry_after ≡ some delay)
          × (retry_after_min ≤ delay)
          × (wait ≡ min_of delay limits.max_wait))

-- What holds where there is no retry.
abbrev pub Denied : Exc → Option (RetryKind × ℕ) → Type 0
Denied e decision =
    (decision ≡ none)
    × (((not (is_transient_error e)) || retried_by_sdk e || (is_rate_limit e && is_daily_quota e))
        ≡ true)

module _ (limits : RetryLimits) (uniform : ℕ → ℕ → ℕ)
    (in_range : (lo hi : ℕ) → lo ≤ hi → lo ≤ uniform lo hi) where
  capped_wait_lem :
      (e : Exc) (lo hi : ℕ)
      → let wait = capped_wait limits uniform e lo hi in
        (wait ≤ limits.max_wait)
        × ((min_of lo limits.max_wait ≤ wait)
            ⊎ ((delay : ℕ) × (e.retry_after ≡ some delay)
                × (retry_after_min ≤ delay)
                × (wait ≡ min_of delay limits.max_wait)))
  capped_wait_lem e lo hi =
      let least = in_range lo (max_of lo hi) (ground arith) in
      elim (Option-cases e.retry_after) [
        | inl unnamed ↦ rw unnamed (ground arith, inl (ground arith))
        | inr (delay, named) ↦ elim (Bool-cases (leb retry_after_min delay)) [
          | inl long ↦ rw (named, long) (ground arith, inr (delay, refl, ground arith, refl))
          | inr short ↦ rw (named, short) (ground arith, inl (ground arith))
        ]
      ]

  -- For a jitter not below its lower limit: a failure is retried exactly if it is transient, the
  -- SDK has not retried it already, and it reports no daily quota; the wait never exceeds the cap,
  -- and is not below the kind's lower limit (or the cap) unless the server names five seconds or
  -- more, which is then the wait, up to the cap.
  pub retry_decision_outcome :
      (e : Exc)
      → Denied e (retry_decision limits uniform e)
        ⊎ Granted limits e (retry_decision limits uniform e)
  unfolding retry_decision
  retry_decision_outcome e = elim (Bool-cases (not (is_transient_error e) || retried_by_sdk e)) [
    | inl refused ↦ inl (rw refused refl, ground arith)
    | inr eligible ↦ elim (Bool-cases (is_rate_limit e)) [
      | inl limited ↦ elim (Bool-cases (is_daily_quota e)) [
        | inl daily ↦ inl (rw (eligible, limited, daily) refl, ground arith)
        | inr brief ↦
            let (capped, patient) = capped_wait_lem e limits.rate_limit_min limits.rate_limit_max in
            inr (record {
              kind = rate_limit;
              wait = capped_wait limits uniform e limits.rate_limit_min limits.rate_limit_max;
              granted = rw (eligible, limited, brief) refl;
              transient = ground arith;
              not_repeated = ground arith;
              no_daily_quota = ground arith;
              capped = capped;
              patient = rw limited patient;
            })
      ]
      | inr other ↦
          let (capped, patient) = capped_wait_lem e limits.short_min limits.short_max in
          inr (record {
            kind = if has_answer e then server else network;
            wait = capped_wait limits uniform e limits.short_min limits.short_max;
            granted = rw (eligible, other) refl;
            transient = ground arith;
            not_repeated = ground arith;
            no_daily_quota = rw other refl;
            capped = capped;
            patient = rw other patient;
          })
    ]
  ]
