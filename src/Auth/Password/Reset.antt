-- ===== src/Auth/Password/Reset.antt =====
-- A reset link works at most once, and ends every session of its user.
use mtd_backend.Common.{
  ℕ, String, false, none, some, List, ◌≡◌, ◌≤◌, ◌∙◌, refl, sym, inl, inr, arith, ◌===◌, eq_iff,
  eq_refl, Option-cases, Bool-cases, All, All-update, All-always, Distinct, find-Distinct, find,
  find-true, find-none_of_All, update, ok, err,
}
use mtd_backend.Users.{User}
use mtd_backend.Auth.Database.{OneTimeToken, RefreshToken, Db, Services}
use mtd_backend.Auth.Tokens.{is_session_of, revoked, revoke_sessions}
use mtd_backend.Auth.Password.{is_open, used, update_user, invalid_link, reset_password}

module _ (sv : Services) (raw : String) where
  dead_row :
      (stored t : OneTimeToken)
      → stored.token_hash ≡ sv.sha256 raw
      → (t.token_hash ≡ stored.token_hash → t ≡ stored)
      → (t.id === stored.id) ≡ false
      → is_open sv raw t ≡ false
  dead_row stored t hash same apart = elim (Bool-cases (t.token_hash === sv.sha256 raw)) [
    | inr other ↦ rw other refl
    | inl equal ↦
        let is : t ≡ stored = same ((eq_iff t.token_hash (sv.sha256 raw)).0 equal ∙ sym hash) in
        let id : (stored.id === stored.id) ≡ false = rw is at apart in
        absurd (ground (arith, eq_refl stored.id))
  ]

  -- Once the found token is used, no row is open under the raw token.
  pub closed_after :
      (stored : OneTimeToken) (tokens : List OneTimeToken)
      → Distinct (λ t. t.token_hash) tokens
      → find (is_open sv raw) tokens ≡ some stored
      → find (is_open sv raw) (update (λ t. t.id === stored.id) used tokens) ≡ none
  closed_after stored tokens distinct found =
      let opened = find-true (is_open sv raw) tokens stored found in
      let hash : stored.token_hash ≡ sv.sha256 raw =
        (eq_iff stored.token_hash (sv.sha256 raw)).0 (ground arith) in
      find-none_of_All (is_open sv raw) _ (
        All-update (λ t. t.token_hash ≡ stored.token_hash → t ≡ stored)
          (λ t. is_open sv raw t ≡ false) (λ t. t.id === stored.id) used tokens
          (λ t p e. ground arith) (λ t p e. dead_row stored t hash p e)
          (find-Distinct (λ t. t.token_hash) (is_open sv raw) tokens stored distinct found))

-- No session of the user is live, and the password of the user's row is the new one.
pub record IsReset (sv : Services) (new_password : String) (user_id : String) (u : Db)
    : Type 0 where
  pub signed_out : All (λ r. is_session_of user_id r ≡ false) u.refresh_tokens
  pub password :
      All (λ a. a.id ≡ user_id → a.password_hash ≡ sv.hash_password new_password) u.accounts.users

signed_out_after :
    (user_id : String) (tokens : List RefreshToken)
    → All (λ r. is_session_of user_id r ≡ false) (update (is_session_of user_id) revoked tokens)
signed_out_after user_id tokens =
    All-update (λ _. Unit {0}) (λ r. is_session_of user_id r ≡ false) (is_session_of user_id)
      revoked tokens (λ r _ e. ground arith) (λ r _ e. e)
      (All-always (λ _. Unit {0}) tokens (λ _. tt))

password_after :
    (user_id hash : String) (users : List User)
    → All
        (λ a. a.id ≡ user_id → a.password_hash ≡ hash)
        (update (λ a. a.id === user_id) (λ a. record a { password_hash = hash }) users)
password_after user_id hash users =
    All-update (λ _. Unit {0}) (λ a. a.id ≡ user_id → a.password_hash ≡ hash)
      (λ a. a.id === user_id) (λ a. record a { password_hash = hash }) users (λ a _ e id. refl)
      (λ a _ e id. absurd (ground (arith, eq_iff a.id user_id)))
      (All-always (λ _. Unit {0}) users (λ _. tt))

module _ (sv : Services) (now later : ℕ) (raw new_password other : String) (s u : Db) where
  reset-missing :
      find (is_open sv raw) u.reset_tokens ≡ none
      → reset_password sv later raw other u ≡ (err invalid_link, u)
  unfolding reset_password
  reset-missing h = rw h refl

  -- What a successful reset leaves in the tables.
  record IsWritten (stored : OneTimeToken) : Type 0 where
    current : now ≤ stored.expires_at
    tokens : u.reset_tokens ≡ update (λ t. t.id === stored.id) used s.reset_tokens
    sessions : u.refresh_tokens ≡ update (is_session_of stored.user_id) revoked s.refresh_tokens
    users :
        u.accounts.users
        ≡ update
            (λ a. a.id === stored.user_id)
            (λ a. record a { password_hash = sv.hash_password new_password })
            s.accounts.users

  reset-IsWritten :
      (stored : OneTimeToken)
      → find (is_open sv raw) s.reset_tokens ≡ some stored
      → reset_password sv now raw new_password s ≡ (ok tt, u)
      → IsWritten stored
  unfolding reset_password update_user revoke_sessions
  reset-IsWritten stored found h = record {
    current = ground arith;
    tokens = ground arith;
    sessions = ground arith;
    users = ground arith;
  }

  reset-open :
      reset_password sv now raw new_password s ≡ (ok tt, u)
      → (stored : OneTimeToken) × (find (is_open sv raw) s.reset_tokens ≡ some stored)
  unfolding reset_password
  reset-open h = elim (Option-cases (find (is_open sv raw) s.reset_tokens)) [
    | inl missing ↦ absurd (ground arith)
    | inr found ↦ found
  ]

  -- A reset that succeeds used a stored, unused and unexpired token. Afterwards no session of the
  -- token's user is live, the user's password is the new one, and the same link is refused at any
  -- later time, with nothing changed. The stored hashes differ.
  pub reset_password_once :
      Distinct (λ t. t.token_hash) s.reset_tokens
      → reset_password sv now raw new_password s ≡ (ok tt, u)
      → (stored : OneTimeToken) × (find (is_open sv raw) s.reset_tokens ≡ some stored)
        × (now ≤ stored.expires_at)
        × IsReset sv new_password stored.user_id u
        × (reset_password sv later raw other u ≡ (err invalid_link, u))
  reset_password_once distinct h =
      let (stored, found) = reset-open h in
      let w = reset-IsWritten stored found h in
      (
        stored,
        found,
        w.current,
        record {
          signed_out = rw (w.sessions) (signed_out_after stored.user_id s.refresh_tokens);
          password =
              rw (w.users)
                (password_after stored.user_id (sv.hash_password new_password) s.accounts.users);
        },
        reset-missing (rw (w.tokens) (closed_after sv raw stored s.reset_tokens distinct found)),
      )
