-- ===== src/Admin/Tests.antt =====
-- An administrator, a firm with one owner, and its enquiry.
use mtd_backend.Common.{
  true, false, none, some, [], ◌∷◌, ◌≡◌, refl, arith, eq_iff, find, find_all, update, ok, any,
  ◌===◌,
}
use mtd_backend.Users.{User}
use mtd_backend.Tenants.{Tenant, BillingStatus}
use mtd_backend.Auth.Jwt.{find_tenant}
use mtd_backend.Auth.Database.{RefreshToken, Db}
use mtd_backend.Enquiries.{Enquiry, EnquiryStatus}
use mtd_backend.Admin.{AdminDb, AdminServices, Call, trim_or_null}
use mtd_backend.Admin.Details.{AdminFirmDetail, get_firm, firm_detail}
use mtd_backend.Admin.Firms.{
  set_firm_active, change_firm, deactivate, invalidate_firm_sessions,
  invalidate_sessions_for_user_ids,
}
use mtd_backend.Admin.Closed.{IsClosed, deactivated-IsClosed}
use mtd_backend.Admin.SignedOut.{IsSignedOut, invalidate_firm_sessions-IsSignedOut}
use mtd_backend.Admin.Replay.{
  activity_request, firm_sign_out, run_requests, IsTold, run_requests-IsTold, told,
}
use mtd_backend.Admin.Listing.{ListServices}

abbrev plain : AdminServices
plain = record { trim = λ s. s }

abbrev call : Call
call = record { now = 5000; row_id = "a1"; actor = record { user_id = "root"; email = none } }

abbrev ada : User
ada = record {
  id = "u1";
  first_name = "Ada";
  last_name = "Lovelace";
  firm_name = "Ledger Ltd";
  email = "ada@ledger.example";
  password_hash = "secret";
  is_active = true;
  is_email_verified = true;
  last_login_at = some 3;
  session_invalidated_at = none;
  mfa_enabled = false;
  totp_secret = none;
  role_name = some "owner";
  tenant_id = some "firm";
  permissions = none;
}

abbrev ledger : Tenant
ledger = record {
  id = "firm";
  firm_name = "Ledger Ltd";
  contact_name = none;
  contact_email = none;
  phone = none;
  address = none;
  postcode = none;
  is_active = true;
  deactivation_reason = none;
  deactivated_at = none;
  billing_status = BillingStatus.active;
  trial_starts_at = none;
  trial_ends_at = none;
  trial_email_domain = none;
  stripe_customer_id = none;
  stripe_subscription_id = none;
  billing_period_ends_at = none;
  billing_cancels_at = none;
  included_client_allowance = 50;
  trial_ending_email_sent_at = none;
  trial_expired_email_sent_at = none;
}

abbrev session : RefreshToken
session = record {
  id = "t1";
  user_id = "u1";
  token_hash = "raw1";
  expires_at = 9000;
  is_revoked = false;
  mfa_authenticated = false;
}

abbrev question : Enquiry
question = record {
  id = "e1";
  name = "Eve";
  firm = "Books";
  email = "eve@books.example";
  phone = none;
  message = "Hello";
  source_page = none;
  plan_interest = none;
  status = EnquiryStatus.new;
  internal_note = none;
  created_at = 1;
  updated_at = 1;
}

abbrev auth_tables : Db
auth_tables = record {
  accounts = record { users = ada ∷ []; tenants = ledger ∷ [] };
  refresh_tokens = session ∷ [];
  reset_tokens = [];
  verification_tokens = [];
  sent = [];
}

abbrev tables : AdminDb
tables = record {
  auth = auth_tables;
  clients = [];
  connections = [];
  enquiries = question ∷ [];
  audit = [];
}

abbrev closed : AdminDb
closed = (set_firm_active plain call "firm" false none tables).1

abbrev shown : AdminFirmDetail
shown = firm_detail plain (record ledger { is_active = false; deactivated_at = some 5000 }) closed

closes : set_firm_active plain call "firm" false none tables ≡ (ok shown, closed)
unfolding set_firm_active change_firm deactivate trim_or_null get_firm find_tenant find update
    find_all any invalidate_sessions_for_user_ids firm_detail
closes = refl

deactivated-IsClosed_example : IsClosed "firm" closed
deactivated-IsClosed_example =
    deactivated-IsClosed plain call "firm" none tables closed shown
      (ground (arith, eq_iff "firm" "")) closes

abbrev out : AdminDb
out = (invalidate_firm_sessions plain call "firm" tables).1

signs_out :
    invalidate_firm_sessions plain call "firm" tables ≡ (ok (firm_detail plain ledger out), out)
unfolding invalidate_firm_sessions get_firm find_tenant find invalidate_sessions_for_user_ids
    find_all
signs_out = refl

invalidate_firm_sessions-IsSignedOut_example : IsSignedOut 5000 "firm" out
invalidate_firm_sessions-IsSignedOut_example =
    invalidate_firm_sessions-IsSignedOut plain call "firm" tables out (firm_detail plain ledger out)
      signs_out

run_requests-IsTold_example :
    IsTold
      (λ id. true)
      (run_requests plain
        ((call, activity_request "firm" false none) ∷ (call, firm_sign_out "firm") ∷ [])
        tables)
unfolding told
run_requests-IsTold_example =
    run_requests-IsTold plain (λ id. true)
      ((call, activity_request "firm" false none) ∷ (call, firm_sign_out "firm") ∷ []) tables
      (refl, tt)

abbrev finder : ListServices
finder = record { trim = λ s. s; lower = λ s. s; like = λ s t. s === t }
