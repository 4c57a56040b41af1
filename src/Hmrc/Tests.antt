-- ===== src/Hmrc/Tests.antt =====
-- A busy server that answers on the third call.
use mtd_backend.Common.{ℕ, ltb, none, some, ◌≡◌, refl, arith, if◌then◌else◌, [], ◌∷◌}
use mtd_backend.Hmrc.Retry.{
  Response, Runtime, Outcome, default_opts, retry_from, resolve_delay, header_delay, or_jitter,
  ceiling_of, power_of_two, retry_with_backoff,
}
use mtd_backend.Hmrc.Retry.Bounded.{IsDone, retry_with_backoff-IsDone}

abbrev steady : Runtime
steady = record { parse_int = λ text. some 2; jitter = λ attempt ceiling. ceiling }

abbrev busy_twice : ℕ → Response
busy_twice k = record { status = if ltb k 2 then 429 else 200; retry_after = none }

busy_twice_run :
    retry_with_backoff steady busy_twice default_opts
    ≡ some (record { response = busy_twice 2; attempt = 2; delays = 1000 ∷ 2000 ∷ [] })
unfolding retry_with_backoff retry_from resolve_delay header_delay or_jitter ceiling_of power_of_two
busy_twice_run = refl

retry_with_backoff-IsDone_example :
    (o : Outcome) × (retry_with_backoff steady busy_twice default_opts ≡ some o)
    × IsDone steady busy_twice default_opts 0 o
retry_with_backoff-IsDone_example =
    retry_with_backoff-IsDone steady busy_twice default_opts (λ attempt ceiling. omega arith)
