-- ===== src/Hmrc/Retry/Bounded.antt =====
-- The loop ends, after a bounded number of calls and a bounded wait.
use mtd_backend.Common.{
  ℕ, zero, suc, ◌+◌, ◌≤◌, ◌<◌, max, true, false, ◌||◌, not, leb, ◌≡◌, ◌⊎◌, refl, inl, inr, arith,
  List, [], ◌∷◌, length, some, Option-cases, Bool-cases,
}
use mtd_backend.Hmrc.Retry.{
  ceiling_of, Response, RetryOptions, Runtime, Outcome, header_delay, or_jitter, resolve_delay,
  is_retryable, retry_from, retry_with_backoff,
}

-- `Math.random()` is below 1.
abbrev pub IsJitter : Runtime → Type 0
IsJitter rt = (attempt ceiling : ℕ) → rt.jitter attempt ceiling ≤ ceiling

resolve_delay-cap :
    (rt : Runtime) (response : Response) (attempt : ℕ) (opts : RetryOptions)
    → IsJitter rt
    → resolve_delay rt response attempt opts ≤ opts.max_delay_ms
unfolding resolve_delay header_delay or_jitter ceiling_of
resolve_delay-cap rt response attempt opts jitter =
    let random : rt.jitter attempt (ceiling_of attempt opts) ≤ ceiling_of attempt opts =
      jitter attempt (ceiling_of attempt opts) in
    elim (Option-cases response.retry_after) [
      | inl missing ↦ rw missing (ground arith)
      | inr (text, header) ↦ rw header (ground arith)
    ]

module _ (rt : Runtime) (fn : ℕ → Response) (opts : RetryOptions) where
  -- Pauses after calls from `attempt` on: each follows a response that is to be retried, and is
  -- within the cap.
  abbrev pub Paused : ℕ → List ℕ → Type 0
  Paused attempt [] = Unit
  Paused attempt (d ∷ ds) =
      (is_retryable (fn attempt) ≡ true) × (d ≤ opts.max_delay_ms) × Paused (attempt + 1) ds

  pub record IsDone (start : ℕ) (o : Outcome) : Type 0 where
    pub response : o.response ≡ fn o.attempt
    pub calls : o.attempt ≤ max start opts.max_retries
    pub pauses : start + length o.delays ≡ o.attempt
    pub paused : Paused start o.delays
    pub stops : (is_retryable o.response ≡ false) ⊎ (opts.max_retries ≤ o.attempt)

  retry_from-IsDone :
      (fuel attempt : ℕ)
      → IsJitter rt
      → 0 < fuel
      → opts.max_retries < attempt + fuel
      → (o : Outcome) × (retry_from rt fn opts fuel attempt ≡ some o) × IsDone attempt o
  unfolding retry_from
  retry_from-IsDone zero attempt jitter more enough = absurd (omega arith)
  retry_from-IsDone (suc fuel) attempt jitter more enough =
      elim (Bool-cases (not (is_retryable (fn attempt)) || leb opts.max_retries attempt)) [
        | inl stop ↦ (
          record { response = fn attempt; attempt = attempt; delays = [] },
          rw stop refl,
          record {
            response = refl;
            calls = omega arith;
            pauses = omega arith;
            paused = tt;
            stops = ground arith;
          },
        )
        | inr again ↦
            let (o, run, done) =
              retry_from-IsDone fuel (attempt + 1) jitter (ground arith) (ground arith) in
            let delay = resolve_delay rt (fn attempt) attempt opts in
            (
              record o { delays = delay ∷ o.delays },
              rw (again, run) refl,
              record {
                response = done.response;
                calls = let below = done.calls in ground arith;
                pauses = let rest = done.pauses in omega arith;
                paused = (
                  ground arith,
                  resolve_delay-cap rt (fn attempt) attempt opts jitter,
                  done.paused,
                );
                stops = done.stops;
              },
            )
      ]

  -- The loop ends: a call is answered after at most as many repetitions as are allowed, with the
  -- first response that need not be retried or with the last one; there is one pause for each
  -- repetition, after a response that asked for it and within the cap, if the random share of a
  -- pause is not more than the whole.
  pub retry_with_backoff-IsDone :
      IsJitter rt → (o : Outcome) × (retry_with_backoff rt fn opts ≡ some o) × IsDone 0 o
  unfolding retry_with_backoff
  retry_with_backoff-IsDone jitter =
      retry_from-IsDone (opts.max_retries + 1) 0 jitter (omega arith) (omega arith)
