-- ===== src/Common/Keys.antt =====
-- Primary keys, and tables compared row by row.
use Prim.Native.String.{String}
use mathlib.Core.Path.{◌≡◌, refl, ap, sym, ◌∙◌}
use mathlib.Core.Logic.{◌≢◌, inl, inr}
use mathlib.Core.Bool.{Bool, true, false}
use mathlib.Core.Option.{none, some}
use mathlib.Core.List.{List, [], ◌∷◌}
use mtd_backend.Common.Tests.{◌===◌, Bool-cases}
use mtd_backend.Common.Lists.{All, All-map, All-zip}
use mtd_backend.Common.Rows.{find, find-none_of_All, update, All-find, All-update}
use native.Mathlib.Omega.{arith}
use text.Mathlib.TextPositions.{eq_refl}

-- A primary key: no two rows share it.
module _ {ℓ} {A : Type ℓ} where
  abbrev pub Distinct : (A → String) → List A → Type 0
  Distinct key [] = Unit
  Distinct key (x ∷ xs) = All (λ y. key y ≢ key x) xs × Distinct key xs

  -- The row that `find` returns is the only one with its key.
  pub find-Distinct :
      (key : A → String) (p : A → Bool) (xs : List A) (a : A)
      → Distinct key xs
      → find p xs ≡ some a
      → All (λ x. key x ≡ key a → x ≡ a) xs
  unfolding find
  find-Distinct key p [] a d h = tt
  find-Distinct key p (x ∷ xs) a (apart, d) h = elim (Bool-cases (p x)) [
    | inl e ↦
        let joined : some x ≡ some a = rw e at h in
        let same : x ≡ a = cc in
        (
          λ _. same,
          All-map (λ y. key y ≢ key x) (λ y. key y ≡ key a → y ≡ a) xs
              (λ y n k. absurd (n (k ∙ ap key (sym same)))) apart,
        )
    | inr e ↦
        let later : find p xs ≡ some a = rw e at h in
        (
          λ k. absurd (All-find (λ y. key y ≢ key x) p xs a apart later (sym k)),
          find-Distinct key p xs a d later,
        )
  ]

  pub Distinct-update :
      (key : A → String) (p : A → Bool) (f : A → A) (xs : List A)
      → ((x : A) → key (f x) ≡ key x)
      → Distinct key xs
      → Distinct key (update p f xs)
  unfolding update
  Distinct-update key p f [] k d = tt
  Distinct-update key p f (x ∷ xs) k (apart, d) =
      let kept : All (λ y. key y ≢ key x) (update p f xs) =
        All-update (λ y. key y ≢ key x) (λ y. key y ≢ key x) p f xs (λ y n _. rw (k y) n)
          (λ y n _. n) apart in
      let rest : Distinct key (update p f xs) = Distinct-update key p f xs k d in
      elim (Bool-cases (p x)) [ inl e ↦ rw e (rw (k x) (kept, rest)) | inr e ↦ rw e (kept, rest) ]

module _ {ℓ} {A : Type ℓ} where
  -- Each row is the only one with its key.
  pub Distinct-row :
      (key : A → String) (xs : List A)
      → Distinct key xs
      → All (λ a. All (λ x. key x ≡ key a → x ≡ a) xs) xs
  Distinct-row key [] d = tt
  Distinct-row key (x ∷ xs) (apart, d) = (
    (λ _. refl, All-map (λ y. key y ≢ key x) _ xs (λ y n k. absurd (n k)) apart),
    All-map (λ a. (key a ≢ key x) × All (λ y. key y ≡ key a → y ≡ a) xs) _ xs
        (λ a p. (λ k. absurd (p.0 (sym k)), p.1))
        (All-zip (λ a. key a ≢ key x) _ xs apart (Distinct-row key xs d)),
  )

module _ {ℓ} {A : Type ℓ} where
  -- A row that only its own hash finds is not found again, once it is spent.
  pub find-spent :
      (hash id : A → String) (live : A → Bool) (f : A → A) (xs : List A) (a : A)
      → Distinct hash xs
      → find live xs ≡ some a
      → ((x : A) → live x ≡ true → hash x ≡ hash a)
      → ((x : A) → live (f x) ≡ false)
      → find live (update (λ x. id x === id a) f xs) ≡ none
  find-spent hash id live f xs a distinct found keyed spent = find-none_of_All live _ (
      All-update (λ x. hash x ≡ hash a → x ≡ a) (λ x. live x ≡ false) (λ x. id x === id a) f xs
        (λ x only own. spent x)
        (λ x only other. elim (Bool-cases (live x)) [
          | inr dead ↦ dead
          | inl alive ↦
              let same : x ≡ a = only (keyed x alive) in
              let own : (id a === id a) ≡ false = rw same at other in
              absurd (ground (arith, eq_refl (id a)))
        ])
        (find-Distinct hash live xs a distinct found))

-- Two tables of the same rows, row by row.
module _ {ℓ} {A : Type ℓ} where
  abbrev pub Pointwise : (A → A → Type 0) → List A → List A → Type 0
  Pointwise R [] [] = Unit
  Pointwise R (x ∷ xs) (y ∷ ys) = R x y × Pointwise R xs ys
  Pointwise R _ _ = ⊥

  pub Pointwise-refl : (R : A → A → Type 0) (xs : List A) → ((x : A) → R x x) → Pointwise R xs xs
  Pointwise-refl R [] r = tt
  Pointwise-refl R (x ∷ xs) r = (r x, Pointwise-refl R xs r)

  pub Pointwise-trans :
      (R : A → A → Type 0) (xs ys zs : List A)
      → ((x y z : A) → R x y → R y z → R x z)
      → Pointwise R xs ys
      → Pointwise R ys zs
      → Pointwise R xs zs
  Pointwise-trans R [] [] [] t h k = tt
  Pointwise-trans R (x ∷ xs) (y ∷ ys) (z ∷ zs) t (h, hs) (k, ks) =
      (t x y z h k, Pointwise-trans R xs ys zs t hs ks)
  Pointwise-trans R [] [] (z ∷ zs) t h k = elim k [ ]
  Pointwise-trans R [] (y ∷ ys) zs t h k = elim h [ ]
  Pointwise-trans R (x ∷ xs) [] zs t h k = elim h [ ]
  Pointwise-trans R (x ∷ xs) (y ∷ ys) [] t h k = elim k [ ]

module _ {ℓ κ} {A : Type ℓ} where
  pub Pointwise-update :
      (P : A → Type κ) (R : A → A → Type 0) (p : A → Bool) (f : A → A) (xs : List A)
      → ((x : A) → P x → p x ≡ true → R x (f x))
      → ((x : A) → P x → p x ≡ false → R x x)
      → All P xs
      → Pointwise R xs (update p f xs)
  unfolding update
  Pointwise-update P R p f [] h k a = tt
  Pointwise-update P R p f (x ∷ xs) h k (a, more) = elim (Bool-cases (p x)) [
    | inl e ↦ (rw e (h x a e), Pointwise-update P R p f xs h k more)
    | inr e ↦ (rw e (k x a e), Pointwise-update P R p f xs h k more)
  ]
