-- ===== src/Common/Pages.antt =====
-- The pages of a list.
use Prim.Native.Nat.{ℕ, zero, suc, ◌+◌, ◌-◌, ◌*◌, ◌/◌, ◌≤◌, ◌<◌, min, max}
use mathlib.Core.Path.{◌≡◌, refl, ap, sym, ◌∙◌}
use mathlib.Core.List.{List, [], ◌∷◌, ◌++◌}
use native.Mathlib.Omega.{arith}
use mtd_backend.Common.Lists.{length}

-- What the pages 1 to `n` give, in order.
unfoldable pub pages_to {ℓ} : {A : Type ℓ} → ℕ → (ℕ → List A) → List A
pages_to zero f = []
pages_to (suc n) f = pages_to n f ++ f (suc n)

module _ {ℓ} {A : Type ℓ} where
  unfoldable pub take : ℕ → List A → List A
  take zero xs = []
  take (suc n) [] = []
  take (suc n) (x ∷ xs) = x ∷ take n xs

  unfoldable pub drop : ℕ → List A → List A
  drop zero xs = xs
  drop (suc n) [] = []
  drop (suc n) (x ∷ xs) = drop n xs

  -- `Math.max(1, Math.ceil(total / limit))`
  abbrev pub total_pages : ℕ → List A → ℕ
  total_pages limit xs = max 1 ((length xs + limit - 1) / limit)

  -- `slice((safePage - 1) * limit, safePage * limit)`
  unfoldable pub page_at : ℕ → ℕ → List A → List A
  unfolding take drop
  page_at page limit xs = take limit (drop ((min page (total_pages limit xs) - 1) * limit) xs)

  -- `.skip((page - 1) * limit).take(limit)`
  unfoldable pub slice_at : ℕ → ℕ → List A → List A
  unfolding take drop
  slice_at page limit xs = take limit (drop ((page - 1) * limit) xs)

  take-nil : (n : ℕ) → take n [] ≡ []
  unfolding take
  take-nil zero = refl
  take-nil (suc n) = refl

  pub take-add : (n m : ℕ) (xs : List A) → take (n + m) xs ≡ take n xs ++ take m (drop n xs)
  unfolding take drop
  take-add zero m xs = ap (λ k. take k xs) (omega arith)
  take-add (suc n) m [] = take-nil (suc n + m) ∙ sym (take-nil m)
  take-add (suc n) m (x ∷ xs) =
      let sum : suc n + m ≡ suc (n + m) = omega arith in
      ap (λ k. take k (x ∷ xs)) sum ∙ ap (λ ys. x ∷ ys) (take-add n m xs)

  pub take-all : (n : ℕ) (xs : List A) → length xs ≤ n → take n xs ≡ xs
  unfolding take
  take-all zero [] h = refl
  take-all (suc n) [] h = refl
  take-all zero (x ∷ xs) h = absurd (omega arith)
  take-all (suc n) (x ∷ xs) h = ap (λ ys. x ∷ ys) (take-all n xs (omega arith))

  length-le-pages : (limit : ℕ) (xs : List A) → 0 < limit → length xs ≤ total_pages limit xs * limit
  length-le-pages limit xs h = grind arith

  slices-take :
      (n limit : ℕ) (xs : List A) → pages_to n (λ p. slice_at p limit xs) ≡ take (n * limit) xs
  unfolding pages_to slice_at take
  slices-take zero limit xs =
      let nothing : 0 ≡ 0 * limit = omega arith in ap (λ k. take k xs) nothing
  slices-take (suc n) limit xs =
      let step : n * limit + limit ≡ suc n * limit = grind arith in
      let before : suc n - 1 ≡ n = omega arith in
      rw (slices-take n limit xs, slice_at, before)
        (sym (take-add (n * limit) limit xs) ∙ ap (λ k. take k xs) step)

  -- The pages together are the list.
  pub slices-all :
      (limit : ℕ) (xs : List A)
      → 0 < limit
      → pages_to (total_pages limit xs) (λ p. slice_at p limit xs) ≡ xs
  slices-all limit xs h =
      slices-take (total_pages limit xs) limit xs
      ∙ take-all (total_pages limit xs * limit) xs (length-le-pages limit xs h)
