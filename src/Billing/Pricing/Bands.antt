-- ===== src/Billing/Pricing/Bands.antt =====
-- The bands of a quote.
use mtd_backend.Common.{
  ℕ, zero, suc, ◌+◌, ◌-◌, ◌*◌, ◌≤◌, ◌<◌, ◌≡◌, ◌≢◌, ◌⊎◌, inl, inr, refl, leb, ◌==◌, some, List, [],
  ◌∷◌, arith, Bool-cases,
}
use mtd_backend.Billing.Pricing.{
  PricingBandLine, extra_client_rate, band_end, band_line, band_lines, subtotals,
}
use mtd_backend.Billing.Pricing.Rates.{sum_rates, sum_rates-add, sum_rates-constant}

-- `j` is the last client of the run of `rate` that starts before `i + 1` and ends by `last`.
record IsRun (i last rate j : ℕ) : Type 0 where
  from : i ≤ j
  until : j ≤ last
  same : (k : ℕ) → i < k → k ≤ j → extra_client_rate k ≡ rate
  maximal : (j ≡ last) ⊎ (extra_client_rate (j + 1) ≢ rate)

IsRun-step :
    (left rate i j : ℕ)
    → extra_client_rate (i + 1) ≡ rate
    → IsRun (i + 1) (i + 1 + left) rate j
    → IsRun i (i + suc left) rate j
IsRun-step left rate i j e r = record {
  from = omega (arith, r.from);
  until = omega (arith, r.until);
  same = λ k p q. ground (arith, r.same k, e);
  maximal = ground (arith, r.maximal);
}

band_end-IsRun : (left rate i : ℕ) → IsRun i (i + left) rate (band_end left rate i)
unfolding band_end
band_end-IsRun zero rate i = record {
  from = omega arith;
  until = omega arith;
  same = λ k p q. absurd (omega arith);
  maximal = inl (omega arith);
}
band_end-IsRun (suc left) rate i = elim (Bool-cases (extra_client_rate (i + 1) == rate)) [
  | inl e ↦ rw e (IsRun-step left rate i _ (ground arith) (band_end-IsRun left rate (i + 1)))
  | inr e ↦ rw e (record {
    from = omega arith;
    until = omega arith;
    same = λ k p q. absurd (omega arith);
    maximal = inr (ground arith);
  })
]

-- The lines cut the clients from `i` to `n` into consecutive runs, each at the rate of all of its
-- clients, and none ends before its rate does.
abbrev pub IsPartition : ℕ → ℕ → List PricingBandLine → Type 0
IsPartition i n [] = n < i
IsPartition i n (line ∷ lines) =
    (line.from_client ≡ i)
    × (i ≤ line.to_client)
    × (line.to_client ≤ n)
    × (line.count + i ≡ line.to_client + 1)
    × (line.subtotal ≡ line.count * line.rate)
    × ((k : ℕ) → i ≤ k → k ≤ line.to_client → extra_client_rate k ≡ line.rate)
    × ((line.to_client ≡ n) ⊎ (extra_client_rate (line.to_client + 1) ≢ line.rate))
    × IsPartition (line.to_client + 1) n lines

band_line-IsPartition :
    (n i j : ℕ) (lines : List PricingBandLine)
    → i ≤ n
    → IsRun i (i + (n - i)) (extra_client_rate i) j
    → IsPartition (j + 1) n lines
    → IsPartition i n (band_line i j (extra_client_rate i) ∷ lines)
unfolding band_line
band_line-IsPartition n i j lines h r rest = (
  refl,
  r.from,
  omega (arith, r.until),
  omega (arith, r.from),
  refl,
  λ k p q. ground (arith, r.same k),
  ground (arith, r.maximal),
  rest,
)

-- With fuel above the number of clients left, the loop returns, and its lines are such a cut.
pub band_lines-IsPartition :
    (fuel n i : ℕ)
    → n + 1 < fuel + i
    → 0 < fuel
    → (lines : List PricingBandLine) × (band_lines fuel n i ≡ some lines) × IsPartition i n lines
unfolding band_lines
band_lines-IsPartition zero n i h p = absurd (omega arith)
band_lines-IsPartition (suc fuel) n i h p = elim (Bool-cases (leb i n)) [
  | inr done ↦ ([], rw done refl, ground arith)
  | inl more ↦
      let j = band_end (n - i) (extra_client_rate i) i in
      let i_le_n : i ≤ n = ground arith in
      let run : IsRun i (i + (n - i)) (extra_client_rate i) j =
        band_end-IsRun (n - i) (extra_client_rate i) i in
      let forward : i ≤ j = run.from in
      let (lines, found, rest) =
        band_lines-IsPartition fuel n (j + 1) (omega arith) (omega arith) in
      (
        band_line i j (extra_client_rate i) ∷ lines,
        rw (more, found) refl,
        band_line-IsPartition n i j lines i_le_n run rest,
      )
]

-- The subtotals of such a cut add up to the rates of its clients, one by one.
pub subtotals-IsPartition :
    (lines : List PricingBandLine) (i n : ℕ)
    → i ≤ n + 1
    → IsPartition i n lines
    → subtotals lines ≡ sum_rates (n + 1 - i) i
unfolding subtotals sum_rates
subtotals-IsPartition [] i n h p = let over : n + 1 - i ≡ 0 = omega arith in rw over refl
subtotals-IsPartition (line ∷ lines) i n h (from, lo, hi, count, sub, same, _, rest) =
    let ih = subtotals-IsPartition lines (line.to_client + 1) n (omega arith) rest in
    let run = sum_rates-constant line.count i line.rate (λ k p q. same k p (omega arith)) in
    let split : n + 1 - i ≡ line.count + (n + 1 - (line.to_client + 1)) = omega arith in
    let next : line.to_client + 1 ≡ i + line.count = omega arith in
    let parts = sum_rates-add line.count (n + 1 - (line.to_client + 1)) i in
    rw split (rw parts (rw (← next) (omega (arith, ih, run, sub))))
