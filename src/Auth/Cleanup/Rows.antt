-- ===== src/Auth/Cleanup/Rows.antt =====
-- Rows that are found in a table from which useless rows were deleted.
use mtd_backend.Common.{
  String, Bool, true, false, Option, none, some, List, [], ◌∷◌, ◌++◌, ◌≡◌, ◌≢◌, ◌∙◌, refl, sym, inl,
  inr, if◌then◌else◌, All-map, All-delete, Distinct, Bool-cases, find, find_all, find-none_of_All,
  update, delete,
}

-- A row that was found counts while it passes a test.
unfoldable pub usable {ℓ} : {A : Type ℓ} → (A → Bool) → Option A → Option A
usable good none = none
usable good (some a) = if good a then some a else none

module _ {ℓ} {A : Type ℓ} where
  -- Deleted rows were of no use, and no two rows have the same hash.
  pub usable-find-delete :
      (hash : A → String) (h : String) (p q good : A → Bool) (xs : List A)
      → ((x : A) → p x ≡ true → hash x ≡ h)
      → ((x : A) → q x ≡ true → p x ≡ true → good x ≡ false)
      → Distinct hash xs
      → usable good (find p (delete q xs)) ≡ usable good (find p xs)
  unfolding find delete usable
  usable-find-delete hash h p q good [] keyed bad d = refl
  usable-find-delete hash h p q good (x ∷ xs) keyed bad (apart, d) =
      let more = usable-find-delete hash h p q good xs keyed bad d in
      elim (Bool-cases (p x)) [
        | inr away ↦ elim (Bool-cases (q x)) [
          | inl gone ↦ rw (gone, away) more
          | inr kept ↦ rw (kept, away) more
        ]
        | inl here ↦ elim (Bool-cases (q x)) [
          | inr kept ↦ rw (kept, here) refl
          | inl gone ↦
              let others : find p (delete q xs) ≡ none = find-none_of_All p (delete q xs) (
                All-map (λ y. (hash y ≢ hash x) × (q y ≡ false)) (λ y. p y ≡ false) (delete q xs)
                  (λ y n. elim (Bool-cases (p y)) [
                    | inr not_this ↦ not_this
                    | inl also ↦ absurd (n.0 (keyed y also ∙ sym (keyed x here)))
                  ])
                  (All-delete (λ y. hash y ≢ hash x) q xs apart)) in
              rw (gone, here, others, bad x gone here) refl
        ]
      ]

  pub find_all-update-delete :
      (u p q : A → Bool) (f : A → A) (xs : List A)
      → ((x : A) → q x ≡ true → u x ≡ false)
      → ((x : A) → q x ≡ true → u (f x) ≡ false)
      → find_all u (update p f (delete q xs)) ≡ find_all u (update p f xs)
  unfolding find_all update delete
  find_all-update-delete u p q f [] old new = refl
  find_all-update-delete u p q f (x ∷ xs) old new =
      let more = find_all-update-delete u p q f xs old new in
      elim (Bool-cases (q x)) [
        | inr kept ↦ rw (kept, more) refl
        | inl gone ↦ elim (Bool-cases (p x)) [
          | inl hit ↦ rw (gone, hit, new x gone) more
          | inr miss ↦ rw (gone, miss, old x gone) more
        ]
      ]

  pub find_all-append :
      (u : A → Bool) (xs ys : List A) → find_all u (xs ++ ys) ≡ find_all u xs ++ find_all u ys
  unfolding find_all
  find_all-append u [] ys = refl
  find_all-append u (x ∷ xs) ys = elim (Bool-cases (u x)) [
    | inl e ↦ rw (e, find_all-append u xs ys) refl
    | inr e ↦ rw (e, find_all-append u xs ys) refl
  ]
