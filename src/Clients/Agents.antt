-- ===== src/Clients/Agents.antt =====
-- HMRC's agent API as src/modules/clients/clients.service.ts calls it, and the refusals and tests of
-- an invitation.
use mtd_backend.Common.{
  ℕ, String, Bool, false, Option, not, ◌||◌, ◌==◌, ◌===◌, present, if◌then◌else◌, HttpError,
}
use mtd_backend.Clients.{Client}
use mtd_backend.Hmrc.Connections.{HmrcServices}
use mtd_backend.Portal.{PortalServices}

-- The answers of HMRC's agent API: no answer, the status of an error, or what it gives.
pub data InvitationReply : Type 0 where
  unreachable : InvitationReply
  refused : ℕ → InvitationReply
  created : String → InvitationReply

pub data StatusReply : Type 0 where
  unreachable : StatusReply
  refused : ℕ → StatusReply
  not_json : StatusReply
  status_text : String → StatusReply

pub data RelationshipReply : Type 0 where
  unreachable : RelationshipReply
  answered : ℕ → RelationshipReply

-- The calls take the agent's reference and an access token. `dashed` is
-- `raw.trim().toLowerCase().replace(/\s+/g, '-')`, `last_part` the text behind the last slash, and
-- `clean_nino` takes white space out and writes capitals.
pub record AgentApi : Type 0 where
  pub invitation_call : String → String → Client → InvitationReply
  pub status_call : String → String → Option String → StatusReply
  pub relationship_call : String → String → Client → RelationshipReply
  pub dashed : String → String
  pub last_part : String → String
  pub clean_nino : String → String
  pub clean_postcode : String → String
  pub pii_hash : String → String

pub record Services : Type 0 where
  pub api : AgentApi
  pub hmrc : HmrcServices
  pub portal : PortalServices

pub record CreateClientDto : Type 0 where
  pub name : String
  pub nino : String
  pub postcode : String
  pub email : String
  pub phone : Option String
  pub agent_type : Option String
  pub utr : Option String

pub record CreateClientResult : Type 0 where
  pub client : Client
  pub invitation_sent : Bool

abbrev pub not_connected : HttpError
not_connected =
    HttpError.bad_request
      "Your firm is not connected to HMRC. Go to Settings > HMRC Connection to connect first."

abbrev pub no_arn : HttpError
no_arn =
    HttpError.bad_request
      "Agent Reference Number (ARN) is not set. Go to Settings > HMRC Connection and enter your ARN."

abbrev pub nino_taken : HttpError
nino_taken = HttpError.conflict "A client with this National Insurance number already exists."

abbrev pub already : HttpError
already = HttpError.bad_request "This client has already accepted the HMRC invitation."

abbrev pub waiting : HttpError
waiting =
    HttpError.bad_request
      "An invitation is already pending with HMRC for this client. Wait for the client to respond or check status first."

abbrev pub is_terminal : String → Bool
is_terminal status =
    ((status === "accepted") || (status === "rejected"))
    || ((status === "expired") || ((status === "cancelled") || (status === "deauthorised")))

abbrev pub is_accepted : String → Bool
is_accepted status = status === "accepted" || status === "partial-auth"

abbrev pub needs_hmrc_status_sync : Client → Bool
needs_hmrc_status_sync c =
    if present c.invitation_id then not (is_terminal c.invitation_status) else false

abbrev pub is_over : String → Bool
is_over status =
    ((status === "expired") || (status === "rejected"))
    || ((status === "cancelled") || (status === "deauthorised"))

abbrev pub is_active : RelationshipReply → Bool
is_active (answered code) = code == 204
is_active RelationshipReply.unreachable = false
