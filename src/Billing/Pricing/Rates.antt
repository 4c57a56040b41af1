-- ===== src/Billing/Pricing/Rates.antt =====
-- The rate of one extra client, and the sum of the rates of a run of clients.
use mtd_backend.Common.{ℕ, zero, suc, ◌+◌, ◌-◌, ◌*◌, ◌≤◌, ◌<◌, ◌≡◌, min, arith}
use mtd_backend.Billing.Pricing.{extra_client_rate}

-- The rates of `count` clients from number `i` on, one by one.
unfoldable pub sum_rates : ℕ → ℕ → ℕ
sum_rates zero i = 0
sum_rates (suc count) i = extra_client_rate i + sum_rates count (i + 1)

-- The tariff: 90p for the first 50 extra clients, then 80p, 70p and 60p for the next fifties, and
-- 50p for all others.
unfoldable pub tariff : ℕ → ℕ
tariff x =
    90 * min x 50
    + 80 * min (x - 50) 50
    + 70 * min (x - 100) 50
    + 60 * min (x - 150) 50
    + 50 * (x - 200)

pub rate_of_extra : (x : ℕ) → extra_client_rate (51 + x) + tariff x ≡ tariff (x + 1)
unfolding extra_client_rate tariff
rate_of_extra x = ground arith

pub sum_rates-tariff : (count x : ℕ) → sum_rates count (51 + x) + tariff x ≡ tariff (x + count)
unfolding sum_rates
sum_rates-tariff zero x = ground arith
sum_rates-tariff (suc count) x = ground (arith, rate_of_extra x, sum_rates-tariff count (x + 1))

pub sum_rates-add : (a b i : ℕ) → sum_rates (a + b) i ≡ sum_rates a i + sum_rates b (i + a)
unfolding sum_rates
sum_rates-add zero b i = ground arith
sum_rates-add (suc a) b i =
    let grown : suc a + b ≡ suc (a + b) = omega arith in
    rw grown (ground (arith, sum_rates-add a b (i + 1)))

-- A run of clients at one rate.
pub sum_rates-constant :
    (count i rate : ℕ)
    → ((k : ℕ) → i ≤ k → k < i + count → extra_client_rate k ≡ rate)
    → sum_rates count i ≡ count * rate
unfolding sum_rates
sum_rates-constant zero i rate h = omega arith
sum_rates-constant (suc count) i rate h = omega (
  arith,
  h i (omega arith) (omega arith),
  sum_rates-constant count (i + 1) rate (λ k p q. h k (omega arith) (omega arith)),
)

-- From client 51 on a client costs between 50p and 90p.
pub extra_client_rate_bounds :
    (x : ℕ) → (50 ≤ extra_client_rate (51 + x)) × (extra_client_rate (51 + x) ≤ 90)
unfolding extra_client_rate
extra_client_rate_bounds x = ground arith

-- So the tariff grows by between 50p and 90p for each extra client.
pub tariff-add_bounds :
    (d x : ℕ) → (tariff x + 50 * d ≤ tariff (x + d)) × (tariff (x + d) ≤ tariff x + 90 * d)
tariff-add_bounds zero x = ground arith
tariff-add_bounds (suc d) x =
    let (low, high) = extra_client_rate_bounds x in
    let step = rate_of_extra x in
    let (low', high') = tariff-add_bounds d (x + 1) in
    let same : x + suc d ≡ x + 1 + d = omega arith in rw same (omega arith, omega arith)
