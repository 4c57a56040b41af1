-- ===== src/Hmrc/Retry.antt =====
-- src/modules/hmrc/hmrc-retry.util.ts: calls that are repeated while HMRC is busy.
pub mod Bounded
use mtd_backend.Common.{
  ℕ, zero, suc, ◌+◌, ◌*◌, ◌-◌, min, String, Bool, true, false, ◌&&◌, ◌||◌, not, ◌==◌, ltb, leb,
  if◌then◌else◌, present, List, [], ◌∷◌, Option, none, some,
}

-- The status and the `Retry-After` header of a response.
pub record Response : Type 0 where
  pub status : ℕ
  pub retry_after : Option String

pub record RetryOptions : Type 0 where
  pub max_retries : ℕ
  pub base_delay_ms : ℕ
  pub max_delay_ms : ℕ

abbrev pub default_opts : RetryOptions
default_opts = record { max_retries = 3; base_delay_ms = 1000; max_delay_ms = 30000 }

-- JavaScript's `parseInt(text, 10)`, `none` for `NaN` and for negative numbers, and
-- `Math.random() * ceiling`, in whole milliseconds.
pub record Runtime : Type 0 where
  pub parse_int : String → Option ℕ
  pub jitter : ℕ → ℕ → ℕ

unfoldable pub power_of_two : ℕ → ℕ
power_of_two zero = 1
power_of_two (suc n) = 2 * power_of_two n

-- The pause that the header asks for.
unfoldable pub header_delay : Runtime → Option String → ℕ → Option ℕ
header_delay rt none cap = none
header_delay rt (some text) cap = elim (rt.parse_int text) [
  | none ↦ none
  | some seconds ↦
      if present (some text) && ltb 0 seconds then some (min (seconds * 1000) cap) else none
]

unfoldable pub ceiling_of : ℕ → RetryOptions → ℕ
unfolding power_of_two
ceiling_of attempt opts = min (opts.base_delay_ms * power_of_two attempt) opts.max_delay_ms

unfoldable pub or_jitter : Runtime → ℕ → ℕ → Option ℕ → ℕ
or_jitter rt attempt ceiling (some delay) = delay
or_jitter rt attempt ceiling none = rt.jitter attempt ceiling

unfoldable pub resolve_delay : Runtime → Response → ℕ → RetryOptions → ℕ
unfolding header_delay or_jitter ceiling_of
resolve_delay rt response attempt opts =
    or_jitter rt attempt (ceiling_of attempt opts)
      (header_delay rt response.retry_after opts.max_delay_ms)

abbrev pub is_retryable : Response → Bool
is_retryable response = (response.status == 429) || (response.status == 503)

-- The response that is returned, the number of calls before it, and the pauses between them.
pub record Outcome : Type 0 where
  pub response : Response
  pub attempt : ℕ
  pub delays : List ℕ

abbrev pub paused : ℕ → Option Outcome → Option Outcome
paused delay none = none
paused delay (some o) = some (record o { delays = delay ∷ o.delays })

module _ (rt : Runtime) (fn : ℕ → Response) (opts : RetryOptions) where
  -- `while (true)`, on fuel: `fn attempt` is the response of the call.
  unfoldable pub retry_from : ℕ → ℕ → Option Outcome
  unfolding resolve_delay
  retry_from zero attempt = none
  retry_from (suc fuel) attempt =
      let rest = retry_from fuel (attempt + 1) in
      if not (is_retryable (fn attempt)) || leb opts.max_retries attempt
      then some (record { response = fn attempt; attempt = attempt; delays = [] })
      else paused (resolve_delay rt (fn attempt) attempt opts) rest

  unfoldable pub retry_with_backoff : Option Outcome
  retry_with_backoff = retry_from (opts.max_retries + 1) 0
