-- ===== src/Billing/Pricing/Fee.antt =====
-- The fee as a whole.
use mtd_backend.Common.{
  ℕ, inl, inr, ◌+◌, ◌-◌, ◌*◌, ◌≤◌, ◌≡◌, refl, ltb, some, List, [], arith, Bool-cases, if◌then◌else◌,
}
use mtd_backend.Billing.Pricing.{
  PricingBandLine, MonthlyFeeQuote, included_clients, base_pence, quote_of, subtotals,
  calc_monthly_fee,
}
use mtd_backend.Billing.Pricing.Rates.{tariff, sum_rates-tariff, tariff-add_bounds}
use mtd_backend.Billing.Pricing.Bands.{IsPartition, band_lines-IsPartition, subtotals-IsPartition}

-- The fee of `n` clients by the tariff.
abbrev pub fee : ℕ → ℕ
fee n = (if ltb 0 n then base_pence else 0) + tariff (n - included_clients)

pub record IsQuote (n : ℕ) (q : MonthlyFeeQuote) : Type 0 where
  pub clients : q.billable_clients ≡ n
  pub counted : q.included + q.extra_clients ≡ n
  pub included : q.included ≤ included_clients
  pub bands : IsPartition (included_clients + 1) n q.bands
  pub extras : q.extras ≡ tariff (n - included_clients)
  pub total : q.total_ex_vat ≡ fee n

tariff-zero : tariff 0 ≡ 0
unfolding tariff
tariff-zero = refl

subtotals-tariff :
    (n : ℕ) (lines : List PricingBandLine)
    → included_clients ≤ n
    → IsPartition (included_clients + 1) n lines
    → subtotals lines ≡ tariff (n - included_clients)
subtotals-tariff n lines h p =
    let summed = subtotals-IsPartition lines 51 n (omega arith) p in
    let cut : n + 1 - 51 ≡ n - 50 = omega arith in
    let listed = sum_rates-tariff (n - 50) 0 in ground (arith, tariff-zero)

quote_of-IsQuote :
    (n : ℕ) (lines : List PricingBandLine)
    → IsPartition (included_clients + 1) n lines
    → subtotals lines ≡ tariff (n - included_clients)
    → IsQuote n (quote_of n lines)
unfolding quote_of
quote_of-IsQuote n lines p e = record {
  clients = refl;
  counted = omega arith;
  included = omega arith;
  bands = p;
  extras = e;
  total = rw e refl;
}

-- For every number of clients the computation returns a quote: its included and extra clients add
-- up to all clients, with at most 50 included, its bands cut the extra clients into consecutive
-- runs at the rates of their clients, and its extras and its total are those of the tariff.
pub calc_monthly_fee-IsQuote :
    (n : ℕ) → (q : MonthlyFeeQuote) × (calc_monthly_fee n ≡ some q) × IsQuote n q
unfolding calc_monthly_fee subtotals
calc_monthly_fee-IsQuote n = elim (Bool-cases (ltb 0 (n - included_clients))) [
  | inl more ↦
      let (lines, found, p) = band_lines-IsPartition (n + 1) n 51 (omega arith) (omega arith) in
      let above : included_clients ≤ n = ground arith in
      (
        quote_of n lines,
        rw (more, found) refl,
        quote_of-IsQuote n lines p (subtotals-tariff n lines above p),
      )
  | inr few ↦ (
    quote_of n [],
    rw few refl,
    quote_of-IsQuote n [] (ground arith) (ground (arith, tariff-zero)),
  )
]

total-fee : (n : ℕ) (q : MonthlyFeeQuote) → calc_monthly_fee n ≡ some q → q.total_ex_vat ≡ fee n
total-fee n q e =
    let (q', found, is) = calc_monthly_fee-IsQuote n in
    let same : q' ≡ q = cc in rw (← same) is.total

-- From 50 clients on, each further client adds between 50p and 90p to the total.
pub total_ex_vat_bounds :
    (n m : ℕ) (q r : MonthlyFeeQuote)
    → included_clients ≤ n
    → n ≤ m
    → calc_monthly_fee n ≡ some q
    → calc_monthly_fee m ≡ some r
    → (q.total_ex_vat + 50 * (m - n) ≤ r.total_ex_vat)
      × (r.total_ex_vat ≤ q.total_ex_vat + 90 * (m - n))
total_ex_vat_bounds n m q r h k e f =
    let (low, high) = tariff-add_bounds (m - n) (n - included_clients) in
    let reach : n - included_clients + (m - n) ≡ m - included_clients = omega arith in
    ground (arith, total-fee n q e, total-fee m r f)
