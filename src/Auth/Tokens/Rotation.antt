-- ===== src/Auth/Tokens/Rotation.antt =====
-- A refresh token works at most once, and what a rotation hands on.
use mtd_backend.Common.{
  ℕ, String, true, false, none, some, List, [], ◌∷◌, ◌++◌, ◌≡◌, ◌≢◌, ◌≤◌, ◌∙◌, refl, sym, inl, inr,
  arith, ◌===◌, eq_iff, eq_refl, get_or, Option-cases, Bool-cases, All-append, All-update, Distinct,
  find-Distinct, find, find-true, find-none_of_All, update, ok, err,
}
use mtd_backend.Users.{User}
use mtd_backend.Auth.Jwt.{find_user}
use mtd_backend.Auth.Database.{RefreshToken, Db, Services, Fresh, firm_is_active}
use mtd_backend.Auth.Tokens.{
  TokensResponse, is_live, revoked, invalid_refresh, new_refresh_token, issue_tokens,
  access_payload, rotate, refresh_tokens,
}

-- The hashes of the stored tokens differ.
abbrev pub HasDistinctHashes : Db → Type 0
HasDistinctHashes s = Distinct (λ r. r.token_hash) s.refresh_tokens

-- What a successful rotation has checked and done.
pub record IsRotated (sv : Services) (now : ℕ) (fresh : Fresh) (stored : RefreshToken) (s : Db)
    (t : TokensResponse) (u : Db) : Type 0 where
  pub user : User
  pub found : find_user stored.user_id s.accounts.users ≡ some user
  pub active : user.is_active ≡ true
  pub firm : firm_is_active s.accounts user.tenant_id ≡ true
  pub access :
      t.access_token
      ≡ sv.sign
          (access_payload s.accounts user.id user.email
            (get_or user.tenant_id "")
            stored.mfa_authenticated)
          now
  pub raw : t.refresh_token ≡ fresh.raw
  pub rows :
      u.refresh_tokens
      ≡ update (λ r. r.id === stored.id) revoked s.refresh_tokens
        ++ new_refresh_token sv now fresh user.id stored.mfa_authenticated ∷ []
  pub accounts : u.accounts ≡ s.accounts

module _ (sv : Services) (now : ℕ) (fresh : Fresh) where
  rotate-IsRotated :
      (stored : RefreshToken) (s u : Db) (t : TokensResponse)
      → rotate sv now fresh stored s ≡ (ok t, u)
      → IsRotated sv now fresh stored s t u
  unfolding rotate issue_tokens
  rotate-IsRotated stored s u t h =
      elim (Option-cases (find_user stored.user_id s.accounts.users)) [
        | inl missing ↦ absurd (ground arith)
        | inr (user, found) ↦ record {
          user = user;
          found = found;
          active = ground arith;
          firm = ground arith;
          access = ground arith;
          raw = ground arith;
          rows = ground arith;
          accounts = ground arith;
        }
      ]

  -- A successful refresh: the token is stored, live and not expired, and is rotated.
  pub record IsRefreshed (raw : String) (s : Db) (t : TokensResponse) (u : Db) : Type 0 where
    pub stored : RefreshToken
    pub live : find (is_live sv raw) s.refresh_tokens ≡ some stored
    pub current : now ≤ stored.expires_at
    pub rotated : IsRotated sv now fresh stored s t u

  -- A refresh that returns tokens found a stored, unrevoked and unexpired token, whose user is
  -- stored and active and whose firm, if the user has one, is active. It revokes that token and
  -- adds one new token for the same user with the MFA flag of the old one; the access token is
  -- signed over the user's stored role and permissions, and users and firms are unchanged.
  pub refresh_tokens-IsRefreshed :
      (raw : String) (s u : Db) (t : TokensResponse)
      → refresh_tokens sv now fresh raw s ≡ (ok t, u)
      → IsRefreshed raw s t u
  unfolding refresh_tokens
  refresh_tokens-IsRefreshed raw s u t h =
      elim (Option-cases (find (is_live sv raw) s.refresh_tokens)) [
        | inl missing ↦ absurd (ground arith)
        | inr (stored, found) ↦ record {
          stored = stored;
          live = found;
          current = ground arith;
          rotated = rotate-IsRotated stored s u t (ground arith);
        }
      ]

  -- The rows that a rotation leaves: none is live under the old token.
  dead_row :
      (raw : String) (stored r : RefreshToken)
      → stored.token_hash ≡ sv.sha256 raw
      → (r.token_hash ≡ stored.token_hash → r ≡ stored)
      → (r.id === stored.id) ≡ false
      → is_live sv raw r ≡ false
  dead_row raw stored r hash same apart = elim (Bool-cases (r.token_hash === sv.sha256 raw)) [
    | inr other ↦ rw other refl
    | inl equal ↦
        let is : r ≡ stored = same ((eq_iff r.token_hash (sv.sha256 raw)).0 equal ∙ sym hash) in
        let id : (stored.id === stored.id) ≡ false = rw is at apart in
        absurd (ground (arith, eq_refl stored.id))
  ]

  dead_after :
      (raw : String) (stored : RefreshToken) (user_id : String) (tokens : List RefreshToken)
      → Distinct (λ r. r.token_hash) tokens
      → find (is_live sv raw) tokens ≡ some stored
      → sv.sha256 fresh.raw ≢ sv.sha256 raw
      → find (is_live sv raw) (
          update (λ r. r.id === stored.id) revoked tokens
          ++ new_refresh_token sv now fresh user_id stored.mfa_authenticated ∷ [])
        ≡ none
  unfolding new_refresh_token
  dead_after raw stored user_id tokens distinct found apart =
      let live = find-true (is_live sv raw) tokens stored found in
      let hash : stored.token_hash ≡ sv.sha256 raw =
        (eq_iff stored.token_hash (sv.sha256 raw)).0 (ground arith) in
      let same = find-Distinct (λ r. r.token_hash) (is_live sv raw) tokens stored distinct found in
      let new = new_refresh_token sv now fresh user_id stored.mfa_authenticated in
      find-none_of_All (is_live sv raw) _ (
        All-append (λ r. is_live sv raw r ≡ false) (update (λ r. r.id === stored.id) revoked tokens)
          (new ∷ [])
          (All-update (λ r. r.token_hash ≡ stored.token_hash → r ≡ stored)
            (λ r. is_live sv raw r ≡ false) (λ r. r.id === stored.id) revoked tokens
            (λ r p e. ground arith) (λ r p e. dead_row raw stored r hash p e) same)
          (ground (arith, eq_iff (sv.sha256 fresh.raw) (sv.sha256 raw)), tt))

module _ (sv : Services) where
  refresh-missing :
      (now : ℕ) (fresh : Fresh) (raw : String) (s : Db)
      → find (is_live sv raw) s.refresh_tokens ≡ none
      → refresh_tokens sv now fresh raw s ≡ (err invalid_refresh, s)
  unfolding refresh_tokens
  refresh-missing now fresh raw s h = rw h refl

  -- A refresh token works once: after a refresh that returned tokens, the same raw token is
  -- refused at any later call, and that call changes nothing. The stored hashes differ, and the
  -- hash of the newly drawn token is not that of the old one.
  pub refresh_tokens_once :
      (now later : ℕ) (fresh other : Fresh) (raw : String) (s u : Db) (t : TokensResponse)
      → HasDistinctHashes s
      → sv.sha256 fresh.raw ≢ sv.sha256 raw
      → refresh_tokens sv now fresh raw s ≡ (ok t, u)
      → refresh_tokens sv later other raw u ≡ (err invalid_refresh, u)
  refresh_tokens_once now later fresh other raw s u t distinct apart h =
      let done = refresh_tokens-IsRefreshed sv now fresh raw s u t h in
      refresh-missing later other raw u (
        rw (done.rotated.rows) (
          dead_after sv now fresh raw done.stored done.rotated.user.id s.refresh_tokens distinct
            done.live apart))
