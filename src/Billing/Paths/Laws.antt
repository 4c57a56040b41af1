-- ===== src/Billing/Paths/Laws.antt =====
-- The query string of a URL cannot open a closed path.
use mtd_backend.Common.{ℕ, some, List, [], ◌∷◌, ◌++◌, ◌≡◌, ◌≢◌, refl, arith, All}
use mtd_backend.Billing.Paths.{before_query, is_billing_exempt_path}

before_query-append :
    (path query : List ℕ) → All (λ c. c ≢ b'?') path → before_query (path ++ b'?' ∷ query) ≡ path
unfolding before_query
before_query-append [] query h = refl
before_query-append (c ∷ path) query h = ground (arith, before_query-append path query h.1)

before_query_self : (path : List ℕ) → All (λ c. c ≢ b'?') path → before_query path ≡ path
unfolding before_query
before_query_self [] h = refl
before_query_self (c ∷ path) h = ground (arith, before_query_self path h.1)

-- For a path with no question mark, adding any query string changes nothing in whether the path
-- is exempt from the billing check.
pub is_billing_exempt_path-query :
    (c : ℕ) (path query : List ℕ)
    → All (λ d. d ≢ b'?') (c ∷ path)
    → is_billing_exempt_path (some (c ∷ path ++ b'?' ∷ query))
      ≡ is_billing_exempt_path (some (c ∷ path))
unfolding is_billing_exempt_path
is_billing_exempt_path-query c path query h =
    rw (before_query-append (c ∷ path) query h, before_query_self (c ∷ path) h) refl
