-- ===== src/Admin/SignedOut.antt =====
-- A sign-out of a firm's users ends their sessions.
use mtd_backend.Common.{
  ℕ, String, Bool, true, false, some, List, [], ◌∷◌, ◌≡◌, refl, inl, inr, arith, ◌===◌, eq_iff,
  eq_refl, Bool-cases, Option-cases, All, All-map, All-update, All-always, find_all, any, map,
  update, ok,
}
use mtd_backend.Users.{User}
use mtd_backend.Auth.Jwt.{find_tenant}
use mtd_backend.Auth.Database.{RefreshToken}
use mtd_backend.Auth.Tokens.{is_session_of}
use mtd_backend.Admin.{AdminDb, AdminServices, Call}
use mtd_backend.Admin.Details.{AdminFirmDetail, is_user_of, get_firm}
use mtd_backend.Admin.Firms.{
  is_one_of, live_token_of, user_ids, invalidate_sessions_for_user_ids, invalidate_firm_sessions,
}

-- The user's tokens from before `now` are stale, and none of the user's sessions is live.
pub record IsOut (now : ℕ) (tokens : List RefreshToken) (a : User) : Type 0 where
  pub stamped : a.session_invalidated_at ≡ some now
  pub ended : All (λ r. is_session_of a.id r ≡ false) tokens

-- So is every user of the firm.
abbrev pub IsSignedOut : ℕ → String → AdminDb → Type 0
IsSignedOut now id s =
    All (λ a. is_user_of id a ≡ true → IsOut now s.auth.refresh_tokens a) s.auth.accounts.users

any-map :
    (p : User → Bool) (xs : List User)
    → All (λ a. p a ≡ true → is_one_of (map (λ u. u.id) (find_all p xs)) a.id ≡ true) xs
unfolding find_all any
any-map p [] = tt
any-map p (x ∷ xs) = (
  λ h. rw (h, eq_refl x.id) refl,
  All-map _ (λ a. p a ≡ true → is_one_of (map (λ u. u.id) (find_all p (x ∷ xs))) a.id ≡ true) xs
      (λ a k h. elim (Bool-cases (p x)) [
        | inl e ↦ rw e (elim (Bool-cases (x.id === a.id)) [
          | inl own ↦ rw own refl
          | inr other ↦ rw other (k h)
        ])
        | inr e ↦ rw e (k h)
      ])
      (any-map p xs),
)

module _ (ids : List String) where
  ended_of :
      (a : User) (tokens : List RefreshToken)
      → is_one_of ids a.id ≡ true
      → All
          (λ r. is_session_of a.id r ≡ false)
          (update (live_token_of ids) (λ r. record r { is_revoked = true }) tokens)
  ended_of a tokens h =
      All-update (λ _. Unit {0}) (λ r. is_session_of a.id r ≡ false) (live_token_of ids)
        (λ r. record r { is_revoked = true }) tokens (λ r _ e. ground arith)
        (λ r _ e. elim (Bool-cases (r.user_id === a.id)) [
          | inl own ↦
              let same : r.user_id ≡ a.id = (eq_iff r.user_id a.id).0 own in
              let listed : is_one_of ids r.user_id ≡ true = rw same h in ground arith
          | inr other ↦ rw other refl
        ])
        (All-always (λ _. Unit {0}) tokens (λ _. tt))

invalidate-IsSignedOut :
    (ids : List String) (now : ℕ) (id : String) (s : AdminDb)
    → All (λ a. is_user_of id a ≡ true → is_one_of ids a.id ≡ true) s.auth.accounts.users
    → IsSignedOut now id (invalidate_sessions_for_user_ids now ids s)
unfolding invalidate_sessions_for_user_ids any
invalidate-IsSignedOut [] now id s h =
    All-map _ _ s.auth.accounts.users (λ a k own. absurd (ground (arith, k own))) h
invalidate-IsSignedOut (i ∷ is) now id s h =
    All-update (λ a. is_user_of id a ≡ true → is_one_of (i ∷ is) a.id ≡ true)
      (λ a. is_user_of id a ≡ true → IsOut now _ a) (λ u. is_one_of (i ∷ is) u.id)
      (λ u. record u { session_invalidated_at = some now }) s.auth.accounts.users
      (λ a k e own. record { stamped = refl; ended = ended_of (i ∷ is) a s.auth.refresh_tokens e })
      (λ a k e own. absurd (ground (arith, k own))) h

module _ (sv : AdminServices) (call : Call) where
  -- Once the sign-out of a firm is answered, every user of the firm is signed out: the tokens that
  -- were issued in a second before the request count as stale, and no stored session of the user is
  -- live.
  pub invalidate_firm_sessions-IsSignedOut :
      (id : String) (s u : AdminDb) (d : AdminFirmDetail)
      → invalidate_firm_sessions sv call id s ≡ (ok d, u)
      → IsSignedOut call.now id u
  unfolding invalidate_firm_sessions get_firm
  invalidate_firm_sessions-IsSignedOut id s u d h =
      elim (Option-cases (find_tenant id s.auth.accounts.tenants)) [
        | inl missing ↦ absurd (ground arith)
        | inr (t, found) ↦
            let rows : u.auth ≡ (invalidate_sessions_for_user_ids call.now (user_ids id s) s).auth =
              ground arith in
            rw rows (
              invalidate-IsSignedOut (user_ids id s) call.now id s
                (any-map (is_user_of id) s.auth.accounts.users))
      ]
