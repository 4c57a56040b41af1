-- ===== src/Portal/Messages.antt =====
-- src/modules/client-portal/portal.service.ts: the chat between a client and the firm. The mails and
-- the notification that follow a message are dropped when they fail; the notification is left out.
use Prim.Native.String
use mtd_backend.Common.{
  ℕ, zero, suc, String, Bool, true, false, Option, none, some, List, [], ◌∷◌, ◌++◌, not, ◌&&◌,
  ◌===◌, is_some, find, find_all, count_where, update, get_or, if◌then◌else◌, HttpError, Exec, pure,
  gets, require, modify, throw_if, attempt, ◌>>=◌, ◌>>◌,
}
use mtd_backend.Tenants.{Tenant}
use mtd_backend.Clients.{Client}
use mtd_backend.Portal.{PortalMessage, Sender, from_agent, from_client, PortalDb, PortalServices}
use mtd_backend.Portal.Accounts.{mail_to, live_client}

abbrev pub is_agent : Sender → Bool
is_agent from_agent = true
is_agent from_client = false

-- `take: 100`
pub take : ℕ → List PortalMessage → List PortalMessage
take zero xs = []
take (suc n) [] = []
take (suc n) (x ∷ xs) = x ∷ take n xs

abbrev client_missing : HttpError
client_missing = HttpError.not_found "Client not found"

pub require_client : String → String → Exec PortalDb Client
require_client tenant_id client_id = do
  found ← gets (λ s. find (λ c. live_client client_id c && c.tenant_id === tenant_id) s.clients)
  require found client_missing

-- A message of the firm that its client has not read.
abbrev pub is_unread : String → PortalMessage → Bool
is_unread client_id m = m.client_id === client_id && (is_agent m.sender && not (is_some m.read_at))

-- A message of the client that the firm has not read.
abbrev pub is_unread_by_firm : String → String → PortalMessage → Bool
is_unread_by_firm tenant_id client_id m =
    (m.tenant_id === tenant_id && m.client_id === client_id)
    && (not (is_agent m.sender) && not (is_some m.read_at))

pub get_messages : String → PortalDb → List PortalMessage
unfolding take
get_messages client_id s = take 100 (find_all (λ m. m.client_id === client_id) s.messages)

pub get_unread_count : String → PortalDb → ℕ
get_unread_count client_id s = count_where (is_unread client_id) s.messages

pub get_messages_for_agent : String → String → Exec PortalDb (List PortalMessage)
unfolding require_client take
get_messages_for_agent tenant_id client_id = do
  client ← require_client tenant_id client_id
  gets (λ s.
      take 100 (find_all (λ m. m.tenant_id === tenant_id && m.client_id === client_id) s.messages))

abbrev contact_email : Option Tenant → Option String
contact_email none = none
contact_email (some tenant) = tenant.contact_email

module _ (sv : PortalServices) (now : ℕ) where
  abbrev pub read : PortalMessage → PortalMessage
  read m = record m { read_at = some now }

  -- Only a message of the firm is marked, and only once.
  pub mark_message_read : String → String → Exec PortalDb PortalMessage
  mark_message_read client_id message_id = do
    found ← gets (λ s. find (λ m. m.id === message_id && m.client_id === client_id) s.messages)
    msg ← require found (HttpError.not_found "Message not found")
    modify (λ s. record s {
      messages =
          update (λ m. (m.id === msg.id) && (is_agent msg.sender && not (is_some msg.read_at))) read
            s.messages;
    })
    pure (if is_agent msg.sender && not (is_some msg.read_at) then read msg else msg)

  pub mark_client_messages_read : String → String → PortalDb → PortalDb
  mark_client_messages_read tenant_id client_id s = record s {
    messages = update (is_unread_by_firm tenant_id client_id) read s.messages;
  }

  pub new_message : String → String → String → String → String → Sender → PortalMessage
  new_message id tenant_id client_id subject body sender = record {
    id = id;
    tenant_id = tenant_id;
    client_id = client_id;
    subject = subject;
    body = body;
    sender = sender;
    read_at = none;
    created_at = now;
  }

  add_message : PortalMessage → PortalDb → PortalDb
  add_message msg s = record s { messages = s.messages ++ msg ∷ [] }

  pub send_message : String → String → String → String → String → Exec PortalDb PortalMessage
  unfolding require_client new_message add_message
  send_message id tenant_id client_id subject body = do
    client ← require_client tenant_id client_id
    modify (add_message (new_message id tenant_id client_id subject body from_agent))
    attempt (mail_to sv now client.email (String.◌++◌ sv.frontend_url "/portal/messages"))
    pure (new_message id tenant_id client_id subject body from_agent)

  mail_firm : Option Tenant → String → Exec PortalDb Unit
  mail_firm tenant link = elim (contact_email tenant) [
    | none ↦ pure tt
    | some email ↦ if not (email === "") then attempt (mail_to sv now email link) else pure tt
  ]

  or_default : String → String
  or_default subject =
      if not (sv.trim subject === "") then sv.trim subject else "Message from portal"

  pub reply_from_client :
      String → String → String → Option String → String → Exec PortalDb PortalMessage
  unfolding require_client new_message add_message mail_firm or_default
  reply_from_client id tenant_id client_id subject body = do
    client ← require_client tenant_id client_id
    throw_if (sv.trim body === "") (HttpError.bad_request "Message cannot be empty")
    modify (
        add_message (
          new_message id tenant_id client_id (or_default (get_or subject "")) (sv.trim body)
            from_client))
    tenant ← gets (λ s. find (λ t. t.id === tenant_id) s.tenants)
    mail_firm tenant (String.◌++◌ sv.frontend_url (String.◌++◌ "/clients/detail?id=" client_id))
    pure (
        new_message id tenant_id client_id (or_default (get_or subject "")) (sv.trim body)
          from_client)
