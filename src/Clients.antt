-- ===== src/Clients.antt =====
-- src/modules/clients/entities/client.entity.ts: the row of a client.
pub mod Scope
pub mod Records
pub mod Customers
mod Tests
pub mod Isolation
pub mod Listing
pub mod Import
pub mod Agents
pub mod Invitations
use mtd_backend.Common.{ℕ, String, Bool, Option}

-- `deleted_at` is set by a soft delete.
pub record Client : Type 0 where
  pub id : String
  pub tenant_id : String
  pub name : String
  pub preferred_name : Option String
  pub nino : String
  pub nino_hash : String
  pub postcode : String
  pub email : String
  pub phone : Option String
  pub utr : Option String
  pub agent_type : String
  pub invitation_id : Option String
  pub invitation_status : String
  pub invitation_sent_at : Option ℕ
  pub invitation_expires_at : Option ℕ
  pub authorised_at : Option ℕ
  pub pipeline_status : String
  pub workflow_type : Option String
  pub assigned_to_user_id : Option String
  pub portal_only : Bool
  pub deleted_at : Option ℕ
