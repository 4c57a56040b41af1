-- ===== src/Auth/Cleanup/Unseen.antt =====
-- A cleanup is not seen by the requests that follow it.
use mtd_backend.Common.{
  ℕ, ◌≤◌, ◌-◌, String, Bool, [], ◌∷◌, ◌++◌, ◌≡◌, ◌∙◌, refl, inl, inr, arith, ◌===◌, ltb, eq_iff,
  not, ◌&&◌, All-always, Distinct, Option-cases, Bool-cases, find, find_all, find_all-delete_apart,
  Result, update, delete,
}
use mtd_backend.Auth.Jwt.{find_user}
use mtd_backend.Auth.Database.{RefreshToken, OneTimeToken, Db, Services, Fresh, firm_is_active}
use mtd_backend.Auth.Tokens.{
  is_live, revoked, new_refresh_token, rotate, issue_tokens, refresh_tokens, revoke_sessions,
}
use mtd_backend.Auth.Password.{is_open, used, update_user, reset_password}
use mtd_backend.Auth.Cleanup.{
  day_ms, is_stale, is_stale_reset, purge_refresh_tokens, purge_password_reset_tokens,
}
use mtd_backend.Auth.Cleanup.Rows.{
  usable, usable-find-delete, find_all-update-delete, find_all-append,
}
use mtd_backend.Auth.Cleanup.Requests.{
  in_time, in_time_reset, refresh-refused, refresh-accepted, reset-refused, reset-accepted,
}

-- Tokens that can still be exchanged.
abbrev pub works : ℕ → RefreshToken → Bool
works now r = not (ltb r.expires_at now) && not r.is_revoked

abbrev pub works_reset : ℕ → OneTimeToken → Bool
works_reset now t = not (ltb t.expires_at now) && not t.is_used

-- The tables as requests see them from a time on.
unfoldable pub view : ℕ → Db → Db
view now s = record s {
  refresh_tokens = find_all (works now) s.refresh_tokens;
  reset_tokens = find_all (works_reset now) s.reset_tokens;
}

-- The two jobs of a night.
unfoldable pub cleaned : ℕ → ℕ → Db → Db
cleaned first second s = purge_password_reset_tokens second (purge_refresh_tokens first s)

view-cleaned :
    (first second later : ℕ) (s : Db)
    → first ≤ later
    → second ≤ later
    → view later (cleaned first second s) ≡ view later s
unfolding view cleaned purge_refresh_tokens purge_password_reset_tokens
view-cleaned first second later s a b =
    rw
      (
        find_all-delete_apart (works later) (is_stale (first - day_ms)) s.refresh_tokens
            (All-always _ s.refresh_tokens (λ x h. ground arith)),
        find_all-delete_apart (works_reset later) (is_stale_reset (second - day_ms)) s.reset_tokens
            (All-always _ s.reset_tokens (λ x h. ground arith)),
      )
      refl

module _ (sv : Services) (first second later : ℕ) (raw : String) (s : Db) (a : first ≤ later)
    (b : second ≤ later) where
  found_cleaned :
      Distinct (λ r. r.token_hash) s.refresh_tokens
      → usable (in_time later) (find (is_live sv raw) (cleaned first second s).refresh_tokens)
        ≡ usable (in_time later) (find (is_live sv raw) s.refresh_tokens)
  unfolding cleaned purge_refresh_tokens purge_password_reset_tokens
  found_cleaned d =
      usable-find-delete (λ r. r.token_hash) (sv.sha256 raw) (is_live sv raw)
        (is_stale (first - day_ms)) (in_time later) s.refresh_tokens
        (λ x h. (eq_iff x.token_hash (sv.sha256 raw)).0 (ground arith)) (λ x h k. ground arith) d

  found_cleaned_reset :
      Distinct (λ t. t.token_hash) s.reset_tokens
      → usable (in_time_reset later) (find (is_open sv raw) (cleaned first second s).reset_tokens)
        ≡ usable (in_time_reset later) (find (is_open sv raw) s.reset_tokens)
  unfolding cleaned purge_refresh_tokens purge_password_reset_tokens
  found_cleaned_reset d =
      usable-find-delete (λ t. t.token_hash) (sv.sha256 raw) (is_open sv raw)
        (is_stale_reset (second - day_ms)) (in_time_reset later) s.reset_tokens
        (λ x h. (eq_iff x.token_hash (sv.sha256 raw)).0 (ground arith)) (λ x h k. ground arith) d

-- Two runs with the same answer, and tables that look the same from then on.
abbrev pub Agree {ℓ} : {A : Type ℓ} → ℕ → Result A × Db → Result A × Db → Type ℓ
Agree now (r, s) (q, t) = (r ≡ q) × (view now s ≡ view now t)

module _ (sv : Services) (first second later : ℕ) (s : Db) (a : first ≤ later)
    (b : second ≤ later) where
  -- A change of the refresh tokens that revives none looks the same on cleaned tables.
  works-cleaned :
      (p : RefreshToken → Bool)
      → find_all
          (works later)
          (update p revoked (delete (is_stale (first - day_ms)) s.refresh_tokens))
        ≡ find_all (works later) (update p revoked s.refresh_tokens)
  works-cleaned p =
      find_all-update-delete (works later) p (is_stale (first - day_ms)) revoked s.refresh_tokens
        (λ x h. ground arith) (λ x h. ground arith)

  works-issued :
      (p : RefreshToken → Bool) (new : RefreshToken)
      → find_all
          (works later)
          (update p revoked (delete (is_stale (first - day_ms)) s.refresh_tokens) ++ new ∷ [])
        ≡ find_all (works later) (update p revoked s.refresh_tokens ++ new ∷ [])
  works-issued p new =
      rw
        (
          find_all-append (works later)
              (update p revoked (delete (is_stale (first - day_ms)) s.refresh_tokens)) (new ∷ []),
          find_all-append (works later) (update p revoked s.refresh_tokens) (new ∷ []),
          works-cleaned p,
        )
        refl

  works_reset-deleted :
      find_all (works_reset later) (delete (is_stale_reset (second - day_ms)) s.reset_tokens)
      ≡ find_all (works_reset later) s.reset_tokens
  works_reset-deleted =
      find_all-delete_apart (works_reset later) (is_stale_reset (second - day_ms)) s.reset_tokens
        (All-always _ s.reset_tokens (λ x h. ground arith))

  works_reset-cleaned :
      (p : OneTimeToken → Bool)
      → find_all
          (works_reset later)
          (update p used (delete (is_stale_reset (second - day_ms)) s.reset_tokens))
        ≡ find_all (works_reset later) (update p used s.reset_tokens)
  works_reset-cleaned p =
      find_all-update-delete (works_reset later) p (is_stale_reset (second - day_ms)) used
        s.reset_tokens (λ x h. ground arith) (λ x h. ground arith)

  rotate-cleaned :
      (fresh : Fresh) (stored : RefreshToken)
      → Agree later
          (rotate sv later fresh stored (cleaned first second s))
          (rotate sv later fresh stored s)
  unfolding rotate issue_tokens view cleaned purge_refresh_tokens purge_password_reset_tokens
  rotate-cleaned fresh stored = elim (Option-cases (find_user stored.user_id s.accounts.users)) [
    | inl missing ↦
        rw (missing, works-cleaned (λ r. r.id === stored.id), works_reset-deleted) (refl, refl)
    | inr (user, found) ↦ elim (Bool-cases user.is_active) [
      | inr gone ↦
          rw (found, gone, works-cleaned (λ r. r.id === stored.id), works_reset-deleted)
            (refl, refl)
      | inl active ↦ elim (Bool-cases (firm_is_active s.accounts user.tenant_id)) [
        | inr closed ↦
            rw (found, active, closed, works-cleaned (λ r. r.id === stored.id), works_reset-deleted)
              (refl, refl)
        | inl running ↦
            rw
              (
                found,
                active,
                running,
                works-issued (λ r. r.id === stored.id)
                    (new_refresh_token sv later fresh user.id stored.mfa_authenticated),
                works_reset-deleted,
              )
              (refl, refl)
      ]
    ]
  ]

  reset-cleaned :
      (raw new_password : String) (stored : OneTimeToken)
      → view later (
          revoke_sessions stored.user_id (
            update_user stored.user_id
              (λ u. record u { password_hash = sv.hash_password new_password })
              (record (cleaned first second s) {
                reset_tokens =
                    update (λ t. t.id === stored.id) used (cleaned first second s).reset_tokens;
              })))
        ≡ view later (
            revoke_sessions stored.user_id (
              update_user stored.user_id
                (λ u. record u { password_hash = sv.hash_password new_password })
                (record s { reset_tokens = update (λ t. t.id === stored.id) used s.reset_tokens })))
  unfolding view cleaned purge_refresh_tokens purge_password_reset_tokens revoke_sessions
      update_user
  reset-cleaned raw new_password stored =
      rw
        (
          works-cleaned (λ r. r.user_id === stored.user_id && not r.is_revoked),
          works_reset-cleaned (λ t. t.id === stored.id),
        )
        refl

  refresh-Agree :
      (fresh : Fresh) (raw : String)
      → Distinct (λ r. r.token_hash) s.refresh_tokens
      → Agree later
          (refresh_tokens sv later fresh raw (cleaned first second s))
          (refresh_tokens sv later fresh raw s)
  refresh-Agree fresh raw d =
      let same = found_cleaned sv first second later raw s a b d in
      elim (Option-cases (usable (in_time later) (find (is_live sv raw) s.refresh_tokens))) [
        | inl refused ↦
            rw
              (
                refresh-refused sv later raw s fresh refused,
                refresh-refused sv later raw (cleaned first second s) fresh (same ∙ refused),
              )
              (refl, view-cleaned first second later s a b)
        | inr (stored, taken) ↦
            rw
              (
                refresh-accepted sv later raw s fresh stored taken,
                refresh-accepted sv later raw (cleaned first second s) fresh stored (same ∙ taken),
              )
              (rotate-cleaned fresh stored)
      ]

  reset-Agree :
      (raw new_password : String)
      → Distinct (λ t. t.token_hash) s.reset_tokens
      → Agree later
          (reset_password sv later raw new_password (cleaned first second s))
          (reset_password sv later raw new_password s)
  reset-Agree raw new_password d =
      let same = found_cleaned_reset sv first second later raw s a b d in
      elim (Option-cases (usable (in_time_reset later) (find (is_open sv raw) s.reset_tokens))) [
        | inl refused ↦
            rw
              (
                reset-refused sv later raw s new_password refused,
                reset-refused sv later raw (cleaned first second s) new_password (same ∙ refused),
              )
              (refl, view-cleaned first second later s a b)
        | inr (stored, taken) ↦
            rw
              (
                reset-accepted sv later raw s new_password stored taken,
                reset-accepted sv later raw (cleaned first second s) new_password stored
                    (same ∙ taken),
              )
              (refl, reset-cleaned raw new_password stored)
      ]

  -- After the nightly cleanup every request to exchange a refresh token or to reset a password is
  -- answered as it would have been without, and the tokens that still work are the same
  -- afterwards, if the stored hashes differ and the request is not before the cleanup.
  pub cleaned-view :
      (fresh : Fresh) (raw new_password : String)
      → Distinct (λ r. r.token_hash) s.refresh_tokens
      → Distinct (λ t. t.token_hash) s.reset_tokens
      → Agree later
          (refresh_tokens sv later fresh raw (cleaned first second s))
          (refresh_tokens sv later fresh raw s)
        × Agree later
            (reset_password sv later raw new_password (cleaned first second s))
            (reset_password sv later raw new_password s)
  cleaned-view fresh raw new_password d e =
      (refresh-Agree fresh raw d, reset-Agree raw new_password e)
