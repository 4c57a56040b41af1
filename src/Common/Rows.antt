-- ===== src/Common/Rows.antt =====
-- The rows of a database table, in order: what the handlers ask of a TypeORM repository.
use Prim.Native.Nat.{ℕ, ◌+◌}
use mathlib.Core.Path.{◌≡◌, refl}
use mathlib.Core.Logic.{inl, inr}
use mathlib.Core.Bool.{Bool, true, false}
use mathlib.Core.Option.{Option, none, some}
use mathlib.Core.List.{List, [], ◌∷◌, ◌++◌}
use native.Mathlib.Omega.{arith}
use mtd_backend.Common.Tests.{if◌then◌else◌, Bool-cases}
use mtd_backend.Common.Lists.{All}

module _ {ℓ} {A : Type ℓ} where
  -- `findOne({ where })`
  unfoldable pub find : (A → Bool) → List A → Option A
  find p [] = none
  find p (x ∷ xs) = if p x then some x else find p xs

  -- `find({ where })`
  unfoldable pub find_all : (A → Bool) → List A → List A
  find_all p [] = []
  find_all p (x ∷ xs) = let rest = find_all p xs in if p x then x ∷ rest else rest

  -- `count({ where })`
  unfoldable pub count_where : (A → Bool) → List A → ℕ
  count_where p [] = 0
  count_where p (x ∷ xs) = (if p x then 1 else 0) + count_where p xs

  -- `update(where, change)`
  unfoldable pub update : (A → Bool) → (A → A) → List A → List A
  update p f [] = []
  update p f (x ∷ xs) = (if p x then f x else x) ∷ update p f xs

  -- `delete(where)`
  unfoldable pub delete : (A → Bool) → List A → List A
  delete p [] = []
  delete p (x ∷ xs) = let rest = delete p xs in if p x then rest else x ∷ rest

  -- `Array.some`
  unfoldable pub any : (A → Bool) → List A → Bool
  any p [] = false
  any p (x ∷ xs) = if p x then true else any p xs

  pub find-true : (p : A → Bool) (xs : List A) (a : A) → find p xs ≡ some a → p a ≡ true
  unfolding find
  find-true p [] a h = ground arith
  find-true p (x ∷ xs) a h = ground (arith, find-true p xs a)

  pub find-cons_false :
      (p : A → Bool) (x : A) (xs : List A) → p x ≡ false → find p (x ∷ xs) ≡ find p xs
  unfolding find
  find-cons_false p x xs h = rw h

  pub All-false_of_find :
      (p : A → Bool) (xs : List A) → find p xs ≡ none → All (λ x. p x ≡ false) xs
  unfolding find
  All-false_of_find p [] h = tt
  All-false_of_find p (x ∷ xs) h = elim (Bool-cases (p x)) [
    | inl e ↦ ground arith
    | inr e ↦ (e, All-false_of_find p xs (ground arith))
  ]

  pub find-none_of_All : (p : A → Bool) (xs : List A) → All (λ x. p x ≡ false) xs → find p xs ≡ none
  unfolding find
  find-none_of_All p [] h = refl
  find-none_of_All p (x ∷ xs) h = rw (h.0) (find-none_of_All p xs h.1)

  -- A change that does not touch the rows asked for leaves the answer.
  pub find-update_apart :
      (p q : A → Bool) (f : A → A) (xs : List A)
      → ((x : A) → p x ≡ true → q x ≡ false)
      → ((x : A) → p x ≡ true → q (f x) ≡ false)
      → find q (update p f xs) ≡ find q xs
  unfolding find update
  find-update_apart p q f [] h k = refl
  find-update_apart p q f (x ∷ xs) h k = elim (Bool-cases (p x)) [
    | inl e ↦ rw (e, h x e, k x e) (find-update_apart p q f xs h k)
    | inr e ↦ rw (e, find-update_apart p q f xs h k) refl
  ]

module _ {ℓ} {A : Type ℓ} where
  pub find-append :
      (p : A → Bool) (xs ys : List A) → find p xs ≡ none → find p (xs ++ ys) ≡ find p ys
  unfolding find
  find-append p [] ys h = refl
  find-append p (x ∷ xs) ys h = elim (Bool-cases (p x)) [
    | inl e ↦ absurd (ground arith)
    | inr e ↦ rw e (find-append p xs ys (ground arith))
  ]

module _ {ℓ κ} {A : Type ℓ} where
  pub All-find :
      (P : A → Type κ) (p : A → Bool) (xs : List A) (a : A) → All P xs → find p xs ≡ some a → P a
  unfolding find
  All-find P p [] a h e = ground arith
  All-find P p (x ∷ xs) a h e = elim (Bool-cases (p x)) [
    | inl t ↦
        let same : some x ≡ some a = ground arith in let same' : x ≡ a = cc in rw (← same') (h.0)
    | inr t ↦ All-find P p xs a h.1 (ground arith)
  ]

module _ {ℓ κ κ'} {A : Type ℓ} where
  -- What the changed rows and the others satisfy, all rows satisfy.
  pub All-update :
      (P : A → Type κ) (Q : A → Type κ') (p : A → Bool) (f : A → A) (xs : List A)
      → ((x : A) → P x → p x ≡ true → Q (f x))
      → ((x : A) → P x → p x ≡ false → Q x)
      → All P xs
      → All Q (update p f xs)
  unfolding update
  All-update P Q p f [] h k a = tt
  All-update P Q p f (x ∷ xs) h k a = elim (Bool-cases (p x)) [
    | inl e ↦ (rw e (h x a.0 e), All-update P Q p f xs h k a.1)
    | inr e ↦ (rw e (k x a.0 e), All-update P Q p f xs h k a.1)
  ]

module _ {ℓ κ} {A : Type ℓ} where
  pub All-delete :
      (P : A → Type κ) (p : A → Bool) (xs : List A)
      → All P xs
      → All (λ x. P x × (p x ≡ false)) (delete p xs)
  unfolding delete
  All-delete P p [] h = tt
  All-delete P p (x ∷ xs) h = elim (Bool-cases (p x)) [
    | inl e ↦ rw e (All-delete P p xs h.1)
    | inr e ↦ rw e ((h.0, e), All-delete P p xs h.1)
  ]

  pub All-find_all :
      (P : A → Type κ) (p : A → Bool) (xs : List A) → All P xs → All P (find_all p xs)
  unfolding find_all
  All-find_all P p [] h = tt
  All-find_all P p (x ∷ xs) h = elim (Bool-cases (p x)) [
    | inl e ↦ rw e (h.0, All-find_all P p xs h.1)
    | inr e ↦ rw e (All-find_all P p xs h.1)
  ]

module _ {ℓ} {A : Type ℓ} where
  -- A stored row that is replaced is found again in its new form.
  pub find-update_self :
      (p q : A → Bool) (new a : A) (xs : List A)
      → find p xs ≡ some a
      → q a ≡ true
      → q new ≡ true
      → find q (update q (λ _. new) xs) ≡ some new
  unfolding find update
  find-update_self p q new a [] found old fresh = ground arith
  find-update_self p q new a (x ∷ xs) found old fresh = elim (Bool-cases (q x)) [
    | inl here ↦ rw (here, fresh) refl
    | inr away ↦ elim (Bool-cases (p x)) [
      | inl is ↦
          let joined : some x ≡ some a = rw is at found in
          let same : x ≡ a = cc in let stored : q x ≡ true = rw same old in absurd (ground arith)
      | inr isnt ↦ rw (away, away) (find-update_self p q new a xs (ground arith) old fresh)
    ]
  ]

module _ {ℓ} {A : Type ℓ} where
  -- The rows that pass `q`, when rows that do not are changed, deleted or added.
  pub find_all-update_apart :
      (q p : A → Bool) (f : A → A) (xs : List A)
      → All (λ x. p x ≡ true → (q x ≡ false) × (q (f x) ≡ false)) xs
      → find_all q (update p f xs) ≡ find_all q xs
  unfolding find_all update
  find_all-update_apart q p f [] h = refl
  find_all-update_apart q p f (x ∷ xs) (h, more) = elim (Bool-cases (p x)) [
    | inl e ↦ let (a, b) = h e in rw (e, a, b) (find_all-update_apart q p f xs more)
    | inr e ↦ rw (e, find_all-update_apart q p f xs more) refl
  ]

  pub find_all-delete_apart :
      (q p : A → Bool) (xs : List A)
      → All (λ x. p x ≡ true → q x ≡ false) xs
      → find_all q (delete p xs) ≡ find_all q xs
  unfolding find_all delete
  find_all-delete_apart q p [] h = refl
  find_all-delete_apart q p (x ∷ xs) (h, more) = elim (Bool-cases (p x)) [
    | inl e ↦ rw (e, h e) (find_all-delete_apart q p xs more)
    | inr e ↦ rw (e, find_all-delete_apart q p xs more) refl
  ]

  pub find_all-append_false :
      (q : A → Bool) (xs : List A) (x : A) → q x ≡ false → find_all q (xs ++ x ∷ []) ≡ find_all q xs
  unfolding find_all
  find_all-append_false q [] x h = rw h refl
  find_all-append_false q (y ∷ xs) x h = rw (find_all-append_false q xs x h) refl

module _ {ℓ} {A : Type ℓ} where
  -- A change that the test does not see leaves the row that is found.
  pub find-update_kept :
      (p q : A → Bool) (f : A → A) (xs : List A) (a : A)
      → ((x : A) → p (f x) ≡ p x)
      → find p xs ≡ some a
      → q a ≡ true
      → find p (update q f xs) ≡ some (f a)
  unfolding find update
  find-update_kept p q f [] a same found hit = ground arith
  find-update_kept p q f (x ∷ xs) a same found hit = elim (Bool-cases (p x)) [
    | inl here ↦
        let joined : some x ≡ some a = rw here at found in
        let own : x ≡ a = cc in
        let changed : q x ≡ true = rw own hit in rw (changed, same x, here, own) refl
    | inr away ↦
        let later : find p xs ≡ some a = rw away at found in
        let rest = find-update_kept p q f xs a same later hit in
        elim (Bool-cases (q x)) [
          | inl hit' ↦ rw (hit', same x, away) rest
          | inr miss ↦ rw (miss, away) rest
        ]
  ]
