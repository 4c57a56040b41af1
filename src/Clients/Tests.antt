-- ===== src/Clients/Tests.antt =====
-- A firm with one client, asked by its staff, by HMRC's answers and by an import of two rows.
use mtd_backend.Common.{
  ℕ, ◌⊎◌, String, true, false, none, some, List, [], ◌∷◌, ◌≡◌, refl, arith, ◌===◌, is_some, find,
  any, find_all, ok,
}
use mtd_backend.Clients.{Client}
use mtd_backend.Clients.Agents.{Services, answered, status_text, created}
use mtd_backend.Clients.Scope.{ClientsDb, find_one}
use mtd_backend.Clients.Records.{update_client}
use mtd_backend.Clients.Records.Cleared.{cleared, update_client-cleared}
use mtd_backend.Clients.Import.{
  BulkImportRow, ImportServices, imported, existing_hashes, validate_from, row_errors, seen_after,
  bulk_import, validate_rows,
}
use mtd_backend.Clients.Import.Whole.{clients_of, IsWhole, bulk_import-valid, bulk_import-IsWhole}
use mtd_backend.Clients.Invitations.{sync_relationship_from_hmrc}
use mtd_backend.Clients.Listing.{ensure_client_authorised_for_mtd}
use mtd_backend.Clients.Listing.Gate.{IsStored, ensure_client-IsStored}
use mtd_backend.Hmrc.Connections.{
  HmrcConnection, HmrcServices, TokenReply, connected, get_status, get_valid_access_token,
}
use mtd_backend.Hmrc.Connections.Fresh.{IsCurrent, get_valid_access_token-IsCurrent}
use mtd_backend.Portal.{PortalServices}

abbrev ada : Client
ada = record {
  id = "c1";
  tenant_id = "firm";
  name = "Ada";
  preferred_name = some "A";
  nino = "AB123456C";
  nino_hash = "AB123456C";
  postcode = "TS24 1PA";
  email = "ada@example.com";
  phone = none;
  utr = some "1234567890";
  agent_type = "main";
  invitation_id = some "i1";
  invitation_status = "pending";
  invitation_sent_at = some 10;
  invitation_expires_at = some 20;
  authorised_at = none;
  pipeline_status = "pending-invite";
  workflow_type = none;
  assigned_to_user_id = some "u1";
  portal_only = false;
  deleted_at = none;
}

abbrev connection : HmrcConnection
connection = record {
  id = "h1";
  tenant_id = "firm";
  access_token = "token";
  refresh_token = "refresh";
  access_token_expires_at = 1000000;
  refresh_token_expires_at = none;
  connected_at = 5;
  status = connected;
  scope = none;
  arn = some "ARN1";
}

abbrev db : ClientsDb
db = record {
  portal = record {
    users = [];
    messages = [];
    files = [];
    clients = ada ∷ [];
    tenants = [];
    sent = [];
  };
  history = [];
  notes = [];
  users = [];
  connections = connection ∷ [];
  notices = [];
}

abbrev silent : HmrcServices
silent = record {
  is_configured = true;
  token_call = λ grant. TokenReply.unreachable;
  encrypt_token = λ t. t;
  decrypt_token = λ t. t;
}

abbrev plain : PortalServices
plain = record {
  hash_password = λ s. s;
  compare_password = λ s t. s === t;
  hmac = λ secret s. s;
  email_hash_secret = none;
  jwt_secret = some "secret";
  sign = λ payload now. payload.sub;
  verify = λ token now. none;
  mail_works = λ address. true;
  frontend_url = "https://app.example";
  trim = λ s. s;
  lower = λ s. s;
}

-- HMRC says that the client has accepted.
abbrev accepting : Services
accepting = record {
  api = record {
    invitation_call = λ arn token c. created "i2";
    status_call = λ arn token id. status_text "accepted";
    relationship_call = λ arn token c. answered 204;
    dashed = λ s. s;
    last_part = λ s. s;
    clean_nino = λ s. s;
    clean_postcode = λ s. s;
    pii_hash = λ s. s;
  };
  hmrc = silent;
  portal = plain;
}

update_client-cleared_example :
    update_client (λ s. s) "firm" "c1" (cleared "") none db
    ≡ (ok (record ada { utr = none; preferred_name = none }), db)
unfolding find
update_client-cleared_example = update_client-cleared (λ s. s) "firm" "c1" "" none db ada refl refl

abbrev accepted_ada : Client
accepted_ada = record ada { invitation_status = "accepted"; authorised_at = some 50 }

abbrev accepted_db : ClientsDb
accepted_db = record db { portal = record (db.portal) { clients = accepted_ada ∷ [] } }

ada_passes :
    ensure_client_authorised_for_mtd accepting 100 "firm" "c1" accepted_db
    ≡ (ok accepted_ada, accepted_db)
unfolding ensure_client_authorised_for_mtd find_one find get_status get_valid_access_token
    sync_relationship_from_hmrc
ada_passes = refl

ensure_client-IsStored_example :
    (is_some accepted_ada.authorised_at ≡ true) × IsStored "firm" "c1" accepted_db accepted_ada
ensure_client-IsStored_example =
    ensure_client-IsStored accepting 100 "firm" "c1" accepted_db accepted_db accepted_ada ada_passes

token_given :
    get_valid_access_token silent 100 "firm" (connection ∷ []) ≡ (ok "token", connection ∷ [])
unfolding get_valid_access_token find
token_given = refl

get_valid_access_token-IsCurrent_example :
    IsCurrent silent 100 "firm" (connection ∷ []) (connection ∷ []) "token"
get_valid_access_token-IsCurrent_example =
    get_valid_access_token-IsCurrent silent 100 "firm" "token" (connection ∷ []) (connection ∷ [])
      token_given

abbrev row_of : ℕ → String → BulkImportRow
row_of n nino = record {
  row_number = n;
  name = some "Ben";
  nino = some nino;
  postcode = some "N1";
  email = some "ben@example.com";
  phone = none;
  agent_type = none;
  personal_message = none;
}

abbrev two_rows : List BulkImportRow
two_rows = row_of 1 "AA111111A" ∷ row_of 2 "BB222222B" ∷ []

abbrev reading : ImportServices
reading = record {
  parse_csv = λ file. ok two_rows;
  is_nino = λ s. true;
  is_email = λ s. true;
  trim = λ s. s;
  squash = λ s. s;
  upper = λ s. s;
  lower = λ s. s;
  text_length = λ s. 3;
  compute_hash = λ s. s;
}

abbrev by_nino : BulkImportRow → String
by_nino row = elim row.nino [ none ↦ "" | some nino ↦ nino ]

two_rows_clean :
    validate_rows reading two_rows (existing_hashes reading by_nino "firm" (ada ∷ [])) ≡ []
unfolding validate_rows validate_from row_errors any find_all seen_after
two_rows_clean = refl

bulk_import-valid_example :
    ((bulk_import reading by_nino "firm" "file" db).0 ≡ ok (imported 2))
    × ((bulk_import reading by_nino "firm" "file" db).1.portal.clients
        ≡ ada ∷ clients_of reading by_nino "firm" two_rows)
bulk_import-valid_example =
    bulk_import-valid reading by_nino "firm" "file" two_rows db refl (omega arith) (omega arith)
      (refl, tt) two_rows_clean

bulk_import-IsWhole_example :
    ((rows : List BulkImportRow) × (reading.parse_csv "file" ≡ ok rows)
      × IsWhole reading by_nino "firm" rows db (bulk_import reading by_nino "firm" "file" db))
    ⊎ ((bulk_import reading by_nino "firm" "file" db).1 ≡ db)
bulk_import-IsWhole_example = bulk_import-IsWhole reading by_nino "firm" "file" db
