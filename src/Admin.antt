-- ===== src/Admin.antt =====
-- src/modules/admin: the tables that the platform's administrators work on, and the audit log of what
-- they change. The list of firms, the overview and the purge of a firm are left out.
pub mod Details
pub mod Firms
pub mod Closed
pub mod Enquiries
pub mod Listing
pub mod Replay
pub mod SignedOut
mod Tests
use mtd_backend.Common.{
  ℕ, String, Bool, Option, none, some, List, [], ◌∷◌, ◌++◌, truthy, if◌then◌else◌,
}
use mtd_backend.Auth.Database.{Db}
use mtd_backend.Clients.{Client}
use mtd_backend.Hmrc.Connections.{HmrcConnection}
use mtd_backend.Enquiries.{Enquiry, EnquiryStatus}

pub record AdminActor : Type 0 where
  pub user_id : String
  pub email : Option String

pub data AuditAction : Type 0 where
  firm_activate firm_deactivate firm_deactivation_reason_update firm_invalidate_sessions firm_purge
        user_invalidate_sessions enquiry_update :
      AuditAction

pub data AuditTarget : Type 0 where
  firm_target user_target enquiry_target : AuditTarget

-- The JSON objects that the calls of `recordAudit` write.
pub data AuditMetadata : Type 0 where
  reason_change : Option String → Option String → AuditMetadata
  deactivation : Option String → AuditMetadata
  signed_out : ℕ → AuditMetadata
  user_signed_out : String → String → String → AuditMetadata
  enquiry_change : EnquiryStatus → EnquiryStatus → Bool → AuditMetadata

pub record AdminAuditLog : Type 0 where
  pub id : String
  pub actor_user_id : String
  pub actor_email : Option String
  pub action : AuditAction
  pub target_type : AuditTarget
  pub target_id : String
  pub target_label : Option String
  pub summary : String
  pub metadata : Option AuditMetadata
  pub created_at : ℕ

-- Users, firms and refresh tokens stand in the tables of `Auth.Database`. Each table keeps its rows
-- in the order in which they were made.
pub record AdminDb : Type 0 where
  pub auth : Db
  pub clients : List Client
  pub connections : List HmrcConnection
  pub enquiries : List Enquiry
  pub audit : List AdminAuditLog

-- JavaScript's `trim`.
pub record AdminServices : Type 0 where
  pub trim : String → String

-- The time of a request, the id of the audit row that it writes and the administrator who sends it.
pub record Call : Type 0 where
  pub now : ℕ
  pub row_id : String
  pub actor : AdminActor

-- `x?.trim() || null`
unfoldable pub trim_or_null : AdminServices → Option String → Option String
trim_or_null sv none = none
trim_or_null sv (some text) = if truthy (sv.trim text) then some (sv.trim text) else none

module _ (sv : AdminServices) (call : Call) where
  abbrev pub audit_row :
      AuditAction → AuditTarget → String → String → String → Option AuditMetadata → AdminAuditLog
  audit_row action target_type target_id target_label summary metadata = record {
    id = call.row_id;
    actor_user_id = call.actor.user_id;
    actor_email = trim_or_null sv call.actor.email;
    action = action;
    target_type = target_type;
    target_id = target_id;
    target_label = some target_label;
    summary = summary;
    metadata = metadata;
    created_at = call.now;
  }

-- `recordAudit`
abbrev pub record_audit : AdminAuditLog → AdminDb → AdminDb
record_audit row s = record s { audit = s.audit ++ row ∷ [] }
