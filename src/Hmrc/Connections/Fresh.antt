-- ===== src/Hmrc/Connections/Fresh.antt =====
-- The tokens that are handed out.
use mtd_backend.Common.{
  ℕ, ◌+◌, ◌≤◌, ◌⊎◌, String, Bool, true, false, some, List, [], ◌∷◌, ◌≡◌, ◌∙◌, refl, ap, sym, inl,
  inr, arith, eq_refl, find, find-true, update, Bool-cases, Option-cases, Run-cases, HttpError,
  Result, ok, err,
}
use mtd_backend.Hmrc.Connections.{
  HmrcConnection, HmrcServices, HmrcTokenResponse, Grant, ConnectionStatus, connected, is_connected,
  is_of_tenant, has_id, request_tokens, apply_token_response, refresh_buffer_ms, needs_refresh,
  save_refreshed, refresh_hmrc_tokens, token_of, get_valid_access_token,
}

-- The first row that passes `p` stays first when it is replaced by one that passes.
find-update_to {ℓ} :
    {A : Type ℓ} (p q : A → Bool) (new a : A) (xs : List A)
    → find p xs ≡ some a
    → q a ≡ true
    → p new ≡ true
    → find p (update q (λ _. new) xs) ≡ some new
unfolding find update
find-update_to p q new a [] found old fresh = ground arith
find-update_to p q new a (x ∷ xs) found old fresh = elim (Bool-cases (q x)) [
  | inl here ↦ rw (here, fresh) refl
  | inr away ↦ elim (Bool-cases (p x)) [
    | inl is ↦
        let joined : some x ≡ some a = rw is at found in
        let same : x ≡ a = cc in let stored : q x ≡ true = rw same old in absurd (ground arith)
    | inr isnt ↦ rw (away, isnt) (find-update_to p q new a xs (ground arith) old fresh)
  ]
]

is_connected-eq : (status : ConnectionStatus) → is_connected status ≡ true → status ≡ connected
is_connected-eq ConnectionStatus.connected h = refl
is_connected-eq ConnectionStatus.disconnected h = cc
is_connected-eq ConnectionStatus.expired h = cc

module _ (sv : HmrcServices) (now : ℕ) where
  -- What a refresh that succeeds leaves.
  pub record IsRefreshed (tenant_id : String) (s s' : List HmrcConnection) (c : HmrcConnection)
      : Type 0 where
    pub old : HmrcConnection
    pub tokens : HmrcTokenResponse
    pub was : find (is_of_tenant tenant_id) s ≡ some old
    pub answer :
        request_tokens sv (Grant.refresh_grant (sv.decrypt_token old.refresh_token)) ≡ ok tokens
    pub becomes : c ≡ apply_token_response sv now false tokens old
    pub stored : find (is_of_tenant tenant_id) s' ≡ some c

  saved-IsRefreshed :
      (tenant_id : String) (s s' : List HmrcConnection) (old c : HmrcConnection)
      → find (is_of_tenant tenant_id) s ≡ some old
      → (r : Result HmrcTokenResponse)
      → request_tokens sv (Grant.refresh_grant (sv.decrypt_token old.refresh_token)) ≡ r
      → save_refreshed sv now old r s ≡ (ok c, s')
      → IsRefreshed tenant_id s s' c
  unfolding save_refreshed
  saved-IsRefreshed tenant_id s s' old c found (ok tokens) answer h =
      let new = apply_token_response sv now false tokens old in
      let same : new ≡ c = cc in
      let after : update (has_id old.id) (λ _. new) s ≡ s' = ap (λ r. r.1) h in
      let own = find-true (is_of_tenant tenant_id) s old found in
      let there =
        find-update_to (is_of_tenant tenant_id) (has_id old.id) new old s found (eq_refl old.id)
          own in
      record {
        old = old;
        tokens = tokens;
        was = found;
        answer = answer;
        becomes = sym same;
        stored = ap (find (is_of_tenant tenant_id)) (sym after) ∙ there ∙ ap some same;
      }
  saved-IsRefreshed tenant_id s s' old c found (err (HttpError.bad_request e)) answer h =
      absurd (ground arith)
  saved-IsRefreshed tenant_id s s' old c found (err (HttpError.unauthorized e)) answer h =
      absurd (ground arith)
  saved-IsRefreshed tenant_id s s' old c found (err (HttpError.forbidden e)) answer h =
      absurd (ground arith)
  saved-IsRefreshed tenant_id s s' old c found (err (HttpError.not_found e)) answer h =
      absurd (ground arith)
  saved-IsRefreshed tenant_id s s' old c found (err (HttpError.conflict e)) answer h =
      absurd (ground arith)
  saved-IsRefreshed tenant_id s s' old c found (err (HttpError.service_unavailable e)) answer h =
      absurd (ground arith)
  saved-IsRefreshed tenant_id s s' old c found (err (HttpError.internal e)) answer h =
      absurd (ground arith)

  refresh_hmrc_tokens-IsRefreshed :
      (tenant_id : String) (s s' : List HmrcConnection) (c : HmrcConnection)
      → refresh_hmrc_tokens sv now tenant_id s ≡ (ok c, s')
      → IsRefreshed tenant_id s s' c
  unfolding refresh_hmrc_tokens save_refreshed
  refresh_hmrc_tokens-IsRefreshed tenant_id s s' c h =
      elim (Option-cases (find (is_of_tenant tenant_id) s)) [
        | inl missing ↦ let failed = rw missing at h in absurd (ground arith)
        | inr (old, found) ↦
            let saved = rw found at h in
            saved-IsRefreshed tenant_id s s' old c found
              (request_tokens sv (Grant.refresh_grant (sv.decrypt_token old.refresh_token))) refl
              saved
      ]

  -- A token that is given out for a firm is the one of its stored connection. The connection was
  -- good for a minute more and is unchanged, or HMRC has just granted new tokens for it.
  pub record IsCurrent (tenant_id : String) (s s' : List HmrcConnection) (token : String)
      : Type 0 where
    pub connection : HmrcConnection
    pub stored : find (is_of_tenant tenant_id) s' ≡ some connection
    pub own : sv.decrypt_token connection.access_token ≡ token
    pub status : connection.status ≡ connected
    pub fresh :
        ((s' ≡ s) × (now + refresh_buffer_ms ≤ connection.access_token_expires_at))
        ⊎ IsRefreshed tenant_id s s' connection

  given :
      (tenant_id token : String) (s s' : List HmrcConnection) (c : HmrcConnection)
      → find (is_of_tenant tenant_id) s ≡ some c
      → (b : Bool) → needs_refresh sv now c ≡ b
      → token_of sv now tenant_id c b s ≡ (ok token, s')
      → IsCurrent tenant_id s s' token
  unfolding token_of
  given tenant_id token s s' c found false still h =
      let after : s ≡ s' = ap (λ r. r.1) h in
      record {
        connection = c;
        stored = ap (find (is_of_tenant tenant_id)) (sym after) ∙ found;
        own = cc;
        status = is_connected-eq c.status (ground arith);
        fresh = inl (sym after, ground arith);
      }
  given tenant_id token s s' c found true stale h =
      elim (Run-cases (refresh_hmrc_tokens sv now tenant_id s)) [
        | inr (e, s1, failed) ↦ let thrown = rw failed at h in absurd (ground arith)
        | inl (new, s1, done) ↦
            let answered = rw done at h in
            let after : s1 ≡ s' = ap (λ r. r.1) answered in
            let refreshed =
              refresh_hmrc_tokens-IsRefreshed tenant_id s s' new
                (done ∙ ap (λ x. (ok new, x)) after) in
            record {
              connection = new;
              stored = refreshed.stored;
              own = cc;
              status = ap (λ x. x.status) refreshed.becomes;
              fresh = inr refreshed;
            }
      ]

  -- A valid access token is the token of the connection that is stored for the firm, which is
  -- connected afterwards. Either that connection is good for another minute and nothing changed, or
  -- HMRC has just granted the token for the firm's stored refresh token.
  pub get_valid_access_token-IsCurrent :
      (tenant_id token : String) (s s' : List HmrcConnection)
      → get_valid_access_token sv now tenant_id s ≡ (ok token, s')
      → IsCurrent tenant_id s s' token
  unfolding get_valid_access_token
  get_valid_access_token-IsCurrent tenant_id token s s' h =
      elim (Option-cases (find (is_of_tenant tenant_id) s)) [
        | inl missing ↦ let failed = rw missing at h in absurd (ground arith)
        | inr (c, found) ↦
            let got = rw found at h in
            given tenant_id token s s' c found (needs_refresh sv now c) refl got
      ]
