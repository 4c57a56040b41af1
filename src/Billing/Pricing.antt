-- ===== src/Billing/Pricing.antt =====
-- src/modules/billing/pricing.util.ts and the amounts of billing.constants.ts: the monthly fee.
-- Amounts are whole pence. The source computes in pounds and rounds each amount to two places
-- (`toFixed(2)`), so that every amount it returns is a whole number of pence.
pub mod Rates
pub mod Bands
pub mod Fee
use mtd_backend.Common.{
  ℕ, zero, suc, ◌+◌, ◌-◌, ◌*◌, ◌/◌, min, max, leb, ltb, ◌==◌, if◌then◌else◌, Option, none, some,
  List, [], ◌∷◌,
}
use mathlib.Core.Option

abbrev pub included_clients : ℕ
included_clients = 50

abbrev pub base_pence : ℕ
base_pence = 5000

abbrev pub extra_floor_pence : ℕ
extra_floor_pence = 50

abbrev pub extra_start_pence : ℕ
extra_start_pence = 90

abbrev pub band_size : ℕ
band_size = 50

pub record PricingBandLine : Type 0 where
  pub from_client : ℕ
  pub to_client : ℕ
  pub count : ℕ
  pub rate : ℕ
  pub subtotal : ℕ

pub record MonthlyFeeQuote : Type 0 where
  pub billable_clients : ℕ
  pub included : ℕ
  pub extra_clients : ℕ
  pub base : ℕ
  pub extras : ℕ
  pub bands : List PricingBandLine
  pub total_ex_vat : ℕ

-- A rate below zero, where `90 - band * 10` stops at 0 here, is raised to the floor all the same.
unfoldable pub extra_client_rate : ℕ → ℕ
extra_client_rate number =
    if leb number included_clients
    then 0
    else let band = (number - included_clients - 1) / band_size in
      max extra_floor_pence (extra_start_pence - band * 10)

-- `while (j + 1 <= n && extraClientRateGbp(j + 1) === rate) j++`, over the clients left, `n - j`.
band_end : ℕ → ℕ → ℕ → ℕ
band_end zero rate j = j
band_end (suc left) rate j =
    let rest = band_end left rate (j + 1) in if extra_client_rate (j + 1) == rate then rest else j

band_line : ℕ → ℕ → ℕ → PricingBandLine
band_line i j rate = record {
  from_client = i;
  to_client = j;
  count = j - i + 1;
  rate = rate;
  subtotal = (j - i + 1) * rate;
}

-- `while (i <= n)`, on fuel; `none` means that the fuel ran out.
pub band_lines : ℕ → ℕ → ℕ → Option (List PricingBandLine)
band_lines zero n i = none
band_lines (suc fuel) n i =
    let rate = extra_client_rate i in
    let j = band_end (n - i) rate i in
    let rest = band_lines fuel n (j + 1) in
    if leb i n then Option.map (λ lines. band_line i j rate ∷ lines) rest else some []

pub subtotals : List PricingBandLine → ℕ
subtotals [] = 0
subtotals (line ∷ lines) = line.subtotal + subtotals lines

pub quote_of : ℕ → List PricingBandLine → MonthlyFeeQuote
quote_of n lines =
    let base = if ltb 0 n then base_pence else 0 in
    record {
      billable_clients = n;
      included = min n included_clients;
      extra_clients = n - included_clients;
      base = base;
      extras = subtotals lines;
      bands = lines;
      total_ex_vat = base + subtotals lines;
    }

-- `n + 1` rounds are enough: each takes at least one client.
unfoldable pub calc_monthly_fee : ℕ → Option MonthlyFeeQuote
unfolding band_lines band_end band_line quote_of subtotals extra_client_rate
calc_monthly_fee n =
    if ltb 0 (n - included_clients)
    then Option.map (quote_of n) (band_lines (n + 1) n (included_clients + 1))
    else some (quote_of n [])
