-- ===== src/Team/Owners.antt =====
-- The owners of the firms in a table of users, when one of its other rows changes.
use mtd_backend.Common.{
  String, Bool, true, false, some, List, [], ◌∷◌, ◌++◌, ◌≡◌, ◌≢◌, refl, sym, ◌∙◌, inl, inr, ◌===◌,
  eq_iff, All, All-map, All-append, All-delete, Distinct, find-Distinct, Distinct-update, find,
  find_all, find_all-update_apart, find_all-delete_apart, find_all-append_false, update, delete,
  Bool-cases,
}
use mtd_backend.Users.{User}
use mtd_backend.Users.Permissions.{resolve_firm_role}
use mtd_backend.Users.Accounts.{NewUser, new_user, create_user, mark_email_verified}
use mtd_backend.Team.{is_owner}

abbrev pub user_key : User → String
user_key u = u.id

-- The same owners, and ids that still differ.
pub record Keeps (xs ys : List User) : Type 0 where
  pub distinct : Distinct user_key ys
  pub owners : find_all is_owner ys ≡ find_all is_owner xs

pub Keeps-refl : (xs ys : List User) → Distinct user_key xs → ys ≡ xs → Keeps xs ys
Keeps-refl xs ys d same = record { distinct = rw same d; owners = rw same refl }

Distinct-delete :
    (p : User → Bool) (xs : List User) → Distinct user_key xs → Distinct user_key (delete p xs)
unfolding delete
Distinct-delete p [] d = tt
Distinct-delete p (x ∷ xs) (apart, d) = elim (Bool-cases (p x)) [
  | inl e ↦ rw e (Distinct-delete p xs d)
  | inr e ↦ rw e (
    All-map _ (λ y. user_key y ≢ user_key x) (delete p xs) (λ y h. h.0)
        (All-delete (λ y. user_key y ≢ user_key x) p xs apart),
    Distinct-delete p xs d,
  )
]

Distinct-append :
    (xs : List User) (x : User)
    → Distinct user_key xs
    → All (λ y. user_key y ≢ user_key x) xs
    → Distinct user_key (xs ++ x ∷ [])
Distinct-append [] x d h = (tt, tt)
Distinct-append (y ∷ xs) x (apart, d) (h, hs) = (
  All-append (λ z. user_key z ≢ user_key y) xs (x ∷ []) apart ((λ k. h (sym k)), tt),
  Distinct-append xs x d hs,
)

module _ (p : User → Bool) (xs : List User) (user : User) where
  staff_apart :
      Distinct user_key xs
      → find p xs ≡ some user
      → is_owner user ≡ false
      → All (λ x. (x.id === user.id) ≡ true → is_owner x ≡ false) xs
  staff_apart d found staff =
      All-map (λ x. user_key x ≡ user_key user → x ≡ user)
        (λ x. (x.id === user.id) ≡ true → is_owner x ≡ false) xs
        (λ x only h. let same : x ≡ user = only ((eq_iff x.id user.id).0 h) in rw same staff)
        (find-Distinct user_key p xs user d found)

  -- A member of the staff is changed, not the name of the role.
  pub Keeps-update :
      (f : User → User)
      → ((x : User) → (f x).id ≡ x.id)
      → ((x : User) → (f x).role_name ≡ x.role_name)
      → Distinct user_key xs
      → find p xs ≡ some user
      → is_owner user ≡ false
      → Keeps xs (update (λ u. u.id === user.id) f xs)
  Keeps-update f same_id same_role d found staff = record {
    distinct = Distinct-update user_key (λ u. u.id === user.id) f xs same_id d;
    owners =
        find_all-update_apart is_owner (λ u. u.id === user.id) f xs
          (All-map (λ x. (x.id === user.id) ≡ true → is_owner x ≡ false) _ xs
            (λ x h e. (h e, rw (same_role x) (h e))) (staff_apart d found staff));
  }

  -- A member of the staff is deleted.
  pub Keeps-delete :
      Distinct user_key xs
      → find p xs ≡ some user
      → is_owner user ≡ false
      → Keeps xs (delete (λ u. u.id === user.id) xs)
  Keeps-delete d found staff = record {
    distinct = Distinct-delete (λ u. u.id === user.id) xs d;
    owners = find_all-delete_apart is_owner (λ u. u.id === user.id) xs (staff_apart d found staff);
  }

new_user-staff :
    (user_id : String) (dto : NewUser)
    → dto.role_name ≡ "staff"
    → is_owner (new_user user_id dto) ≡ false
unfolding new_user resolve_firm_role
new_user-staff user_id dto role = rw role refl

-- A new member of the staff.
pub Keeps-create :
    (user_id : String) (dto : NewUser) (xs : List User)
    → dto.role_name ≡ "staff"
    → Distinct user_key xs
    → All (λ u. user_key u ≢ user_id) xs
    → Keeps xs (mark_email_verified user_id (create_user user_id dto xs))
unfolding create_user mark_email_verified new_user
Keeps-create user_id dto xs role d fresh =
    let staff : is_owner (new_user user_id dto) ≡ false = new_user-staff user_id dto role in
    record {
      distinct =
          Distinct-update user_key (λ u. u.id === user_id) _ (xs ++ new_user user_id dto ∷ [])
            (λ x. refl) (Distinct-append xs (new_user user_id dto) d fresh);
      owners =
          find_all-update_apart is_owner (λ u. u.id === user_id) _ (xs ++ new_user user_id dto ∷ [])
            (All-append _ xs (new_user user_id dto ∷ [])
              (All-map (λ u. user_key u ≢ user_id) _ xs
                (λ u n h. absurd (n ((eq_iff u.id user_id).0 h))) fresh)
              ((λ h. (staff, staff)), tt))
          ∙ find_all-append_false is_owner xs (new_user user_id dto) staff;
    }
