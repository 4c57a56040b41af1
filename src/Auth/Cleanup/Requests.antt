-- ===== src/Auth/Cleanup/Requests.antt =====
-- What a request does, by the usable token that its hash finds.
use mtd_backend.Common.{
  ℕ, String, Bool, true, false, none, some, ◌≡◌, refl, inl, inr, arith, ◌===◌, ltb, not,
  Option-cases, find, update, ok, err,
}
use mtd_backend.Auth.Database.{RefreshToken, OneTimeToken, Db, Services, Fresh}
use mtd_backend.Auth.Tokens.{is_live, invalid_refresh, rotate, refresh_tokens, revoke_sessions}
use mtd_backend.Auth.Password.{is_open, used, invalid_link, update_user, reset_password}
use mtd_backend.Auth.Cleanup.Rows.{usable}

abbrev pub in_time : ℕ → RefreshToken → Bool
in_time now r = not (ltb r.expires_at now)

abbrev pub in_time_reset : ℕ → OneTimeToken → Bool
in_time_reset now t = not (ltb t.expires_at now)

module _ (sv : Services) (now : ℕ) (raw : String) (s : Db) where
  pub refresh-refused :
      (fresh : Fresh)
      → usable (in_time now) (find (is_live sv raw) s.refresh_tokens) ≡ none
      → refresh_tokens sv now fresh raw s ≡ (err invalid_refresh, s)
  unfolding refresh_tokens usable
  refresh-refused fresh h = elim (Option-cases (find (is_live sv raw) s.refresh_tokens)) [
    | inl missing ↦ rw missing refl
    | inr (stored, found) ↦
        let late : ltb stored.expires_at now ≡ true = ground arith in rw (found, late) refl
  ]

  pub refresh-accepted :
      (fresh : Fresh) (stored : RefreshToken)
      → usable (in_time now) (find (is_live sv raw) s.refresh_tokens) ≡ some stored
      → refresh_tokens sv now fresh raw s ≡ rotate sv now fresh stored s
  unfolding refresh_tokens usable
  refresh-accepted fresh stored h = elim (Option-cases (find (is_live sv raw) s.refresh_tokens)) [
    | inl missing ↦ absurd (ground arith)
    | inr (other, found) ↦
        let soon : ltb other.expires_at now ≡ false = ground arith in
        let joined : some other ≡ some stored = ground arith in
        let same : other ≡ stored = cc in rw (found, soon, same) refl
  ]

  pub reset-refused :
      (new_password : String)
      → usable (in_time_reset now) (find (is_open sv raw) s.reset_tokens) ≡ none
      → reset_password sv now raw new_password s ≡ (err invalid_link, s)
  unfolding reset_password usable
  reset-refused new_password h = elim (Option-cases (find (is_open sv raw) s.reset_tokens)) [
    | inl missing ↦ rw missing refl
    | inr (stored, found) ↦
        let late : ltb stored.expires_at now ≡ true = ground arith in rw (found, late) refl
  ]

  pub reset-accepted :
      (new_password : String) (stored : OneTimeToken)
      → usable (in_time_reset now) (find (is_open sv raw) s.reset_tokens) ≡ some stored
      → reset_password sv now raw new_password s ≡ (
        ok tt,
        revoke_sessions stored.user_id (
            update_user stored.user_id
              (λ u. record u { password_hash = sv.hash_password new_password })
              (record s { reset_tokens = update (λ t. t.id === stored.id) used s.reset_tokens })),
      )
  unfolding reset_password usable
  reset-accepted new_password stored h =
      elim (Option-cases (find (is_open sv raw) s.reset_tokens)) [
        | inl missing ↦ absurd (ground arith)
        | inr (other, found) ↦
            let soon : ltb other.expires_at now ≡ false = ground arith in
            let joined : some other ≡ some stored = ground arith in
            let same : other ≡ stored = cc in rw (found, soon, same) refl
      ]
