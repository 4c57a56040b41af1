-- ===== src/Hmrc/Connections.antt =====
-- src/modules/hmrc/hmrc.service.ts: the connection of a firm to HMRC and its OAuth tokens. The
-- sandbox users and the checks of the fraud headers are left out.
pub mod Fresh
use mtd_backend.Common.{
  ℕ, ◌+◌, ◌*◌, String, Bool, true, false, Option, none, some, List, [], ◌∷◌, ◌++◌, not, ◌&&◌, ◌||◌,
  ltb, ◌==◌, ◌===◌, find, update, delete, get_or, or_else, if◌then◌else◌, HttpError, Result, ok,
  err, Exec, pure, throw, gets, require, modify, lift, ◌>>=◌, ◌>>◌,
}

pub data ConnectionStatus : Type 0 where
  connected disconnected expired : ConnectionStatus

pub record HmrcConnection : Type 0 where
  pub id : String
  pub tenant_id : String
  pub access_token : String
  pub refresh_token : String
  pub access_token_expires_at : ℕ
  pub refresh_token_expires_at : Option ℕ
  pub connected_at : ℕ
  pub status : ConnectionStatus
  pub scope : Option String
  pub arn : Option String

pub record HmrcTokenResponse : Type 0 where
  pub access_token : String
  pub refresh_token : String
  pub expires_in : ℕ
  pub refresh_token_expires_in : Option ℕ
  pub scope : Option String

pub data Grant : Type 0 where
  authorization_code refresh_grant : String → Grant

-- What a call of HMRC's token endpoint comes to: no answer, an error status, or tokens.
pub data TokenReply : Type 0 where
  unreachable : TokenReply
  refused : ℕ → TokenReply
  granted : HmrcTokenResponse → TokenReply

-- The token endpoint, the encryption of tokens (the identity where no key is configured), and
-- whether the OAuth client is configured.
pub record HmrcServices : Type 0 where
  pub is_configured : Bool
  pub token_call : Grant → TokenReply
  pub encrypt_token : String → String
  pub decrypt_token : String → String

abbrev pub refresh_buffer_ms : ℕ
refresh_buffer_ms = 60000

abbrev pub is_connected : ConnectionStatus → Bool
is_connected connected = true
is_connected disconnected = false
is_connected expired = false

abbrev pub is_of_tenant : String → HmrcConnection → Bool
is_of_tenant tenant_id c = c.tenant_id === tenant_id

abbrev pub has_id : String → HmrcConnection → Bool
has_id id c = c.id === id

abbrev pub save_connection : HmrcConnection → Exec (List HmrcConnection) Unit
save_connection c = modify (λ s. update (has_id c.id) (λ _. c) s)

abbrev pub reconnect : HttpError
reconnect =
    HttpError.unauthorized
      "HMRC refresh token is invalid or has expired. Please reconnect HMRC in Settings."

abbrev pub not_connected : HttpError
not_connected = HttpError.not_found "No active HMRC connection found. Connect to HMRC first."

-- `if (x)` on a number that may be missing.
abbrev pub if_positive : Option ℕ → Option ℕ
if_positive none = none
if_positive (some n) = if n == 0 then none else some n

abbrev pub later : ℕ → Option ℕ → Option ℕ
later now none = none
later now (some seconds) = some (now + seconds * 1000)

module _ (sv : HmrcServices) where
  result_of : TokenReply → Result HmrcTokenResponse
  result_of unreachable = err (HttpError.internal "Failed to contact HMRC for token request.")
  result_of (refused status) =
      if status == 400 || status == 401
      then err (HttpError.bad_request "HMRC rejected the token request")
      else err (HttpError.internal "HMRC token endpoint returned an error.")
  result_of (granted tokens) = ok tokens

  unfoldable pub request_tokens : Grant → Result HmrcTokenResponse
  unfolding result_of
  request_tokens grant =
      if sv.is_configured
      then result_of (sv.token_call grant)
      else err (HttpError.internal "HMRC OAuth is not fully configured.")

module _ (sv : HmrcServices) (now : ℕ) where
  -- A field that the answer does not give is kept.
  abbrev pub apply_token_response : Bool → HmrcTokenResponse → HmrcConnection → HmrcConnection
  apply_token_response set_connected_at tokens c = record c {
    access_token = sv.encrypt_token tokens.access_token;
    refresh_token = sv.encrypt_token tokens.refresh_token;
    access_token_expires_at = now + tokens.expires_in * 1000;
    refresh_token_expires_at =
        or_else (later now (if_positive tokens.refresh_token_expires_in))
          c.refresh_token_expires_at;
    connected_at = if set_connected_at then now else c.connected_at;
    status = connected;
    scope = or_else tokens.scope c.scope;
  }

  -- A row that `create` makes; its other columns are filled by the tokens.
  abbrev blank_connection : String → String → HmrcConnection
  blank_connection id tenant_id = record {
    id = id;
    tenant_id = tenant_id;
    access_token = "";
    refresh_token = "";
    access_token_expires_at = 0;
    refresh_token_expires_at = none;
    connected_at = 0;
    status = connected;
    scope = none;
    arn = none;
  }

  save_exchanged :
      String
      → String
      → HmrcTokenResponse
      → Option HmrcConnection
      → Exec (List HmrcConnection) HmrcConnection
  save_exchanged id tenant_id tokens (some c) = do
    save_connection (apply_token_response true tokens c)
    pure (apply_token_response true tokens c)
  save_exchanged id tenant_id tokens none = do
    modify (λ s. s ++ (apply_token_response true tokens (blank_connection id tenant_id) ∷ []))
    pure (apply_token_response true tokens (blank_connection id tenant_id))

  unfoldable pub exchange_code :
      String → String → String → Exec (List HmrcConnection) HmrcConnection
  unfolding save_exchanged
  exchange_code id tenant_id code = do
    tokens ← lift (request_tokens sv (Grant.authorization_code code))
    existing ← gets (λ s. find (is_of_tenant tenant_id) s)
    save_exchanged id tenant_id tokens existing

  expire_and_throw : HmrcConnection → Exec (List HmrcConnection) HmrcConnection
  expire_and_throw c = do save_connection (record c { status = expired }); throw reconnect

  unfoldable pub save_refreshed :
      HmrcConnection → Result HmrcTokenResponse → Exec (List HmrcConnection) HmrcConnection
  unfolding expire_and_throw
  save_refreshed c (ok tokens) = do
    save_connection (apply_token_response false tokens c)
    pure (apply_token_response false tokens c)
  save_refreshed c (err (HttpError.bad_request e)) = expire_and_throw c
  save_refreshed c (err (HttpError.unauthorized e)) = expire_and_throw c
  save_refreshed c (err e) = throw e

  unfoldable pub refresh_hmrc_tokens : String → Exec (List HmrcConnection) HmrcConnection
  unfolding save_refreshed
  refresh_hmrc_tokens tenant_id = do
    found ← gets (λ s. find (is_of_tenant tenant_id) s)
    c ← require found (HttpError.not_found "No HMRC connection found. Connect to HMRC first.")
    save_refreshed c (request_tokens sv (Grant.refresh_grant (sv.decrypt_token c.refresh_token)))

  -- `expiresAt - now < buffer`, or not connected.
  abbrev pub needs_refresh : HmrcConnection → Bool
  needs_refresh c =
      ltb c.access_token_expires_at (now + refresh_buffer_ms) || not (is_connected c.status)

  unfoldable pub token_of : String → HmrcConnection → Bool → Exec (List HmrcConnection) String
  unfolding refresh_hmrc_tokens
  token_of tenant_id c false = pure (sv.decrypt_token c.access_token)
  token_of tenant_id c true = do
    refreshed ← refresh_hmrc_tokens tenant_id
    pure (sv.decrypt_token refreshed.access_token)

  unfoldable pub get_valid_access_token : String → Exec (List HmrcConnection) String
  unfolding token_of
  get_valid_access_token tenant_id = do
    found ← gets (λ s. find (is_of_tenant tenant_id) s)
    c ← require found (
        HttpError.bad_request
          "Your firm is not connected to HMRC. Go to Settings → HMRC Connection to connect first.")
    token_of tenant_id c (needs_refresh c)

  abbrev pub is_refresh_expired : HmrcConnection → Bool
  is_refresh_expired c = elim c.refresh_token_expires_at [ none ↦ false | some at ↦ ltb at now ]

  abbrev pub is_dead : HmrcConnection → Bool
  is_dead c = is_connected c.status && (ltb c.access_token_expires_at now && is_refresh_expired c)

  unfoldable pub check_status :
      Option HmrcConnection → Exec (List HmrcConnection) (Option HmrcConnection)
  check_status none = pure none
  check_status (some c) =
      if is_dead c
      then (save_connection (record c { status = expired })
          >> pure (some (record c { status = expired })))
      else pure (some c)

  unfoldable pub get_status : String → Exec (List HmrcConnection) (Option HmrcConnection)
  unfolding check_status
  get_status tenant_id = do found ← gets (λ s. find (is_of_tenant tenant_id) s); check_status found

  pub update_arn : String → String → Exec (List HmrcConnection) HmrcConnection
  update_arn tenant_id arn = do
    found ← gets (λ s. find (is_of_tenant tenant_id) s)
    c ← require found not_connected
    save_connection (record c { arn = some arn })
    pure (record c { arn = some arn })

  pub disconnect : String → Exec (List HmrcConnection) Unit
  disconnect tenant_id = do
    found ← gets (λ s. find (is_of_tenant tenant_id) s)
    c ← require found (HttpError.not_found "No active HMRC connection found for this firm.")
    modify (λ s. delete (is_of_tenant tenant_id) s)
