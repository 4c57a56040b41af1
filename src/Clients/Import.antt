-- ===== src/Clients/Import.antt =====
-- src/modules/clients/bulk-import.util.ts and `bulkImport` of clients.service.ts.
pub mod Whole
use mtd_backend.Common.{
  ℕ, zero, suc, ◌+◌, String, Bool, true, false, Option, none, some, List, [], ◌∷◌, ◌++◌, not, ◌&&◌,
  ◌||◌, ltb, ◌==◌, ◌===◌, is_some, truthy, get_or, any, find_all, map, length, if◌then◌else◌,
  HttpError, Result, ok, err, Exec, pure, throw, gets, require, modify, throw_if, attempt, lift,
  ◌>>=◌, ◌>>◌,
}
use mtd_backend.Clients.{Client}
use mtd_backend.Clients.Scope.{ClientsDb, in_pipeline, with_clients}
use mtd_backend.Clients.Customers.{has_nino}
use mtd_backend.Pipeline.Service.{record_initial_status}

pub record BulkImportRow : Type 0 where
  pub row_number : ℕ
  pub name : Option String
  pub nino : Option String
  pub postcode : Option String
  pub email : Option String
  pub phone : Option String
  pub agent_type : Option String
  pub personal_message : Option String

pub record BulkImportRowError : Type 0 where
  pub row : ℕ
  pub field : String
  pub message : String

-- Status 422 with the errors, or what was created.
pub data ImportAnswer : Type 0 where
  invalid : List BulkImportRowError → ImportAnswer
  imported : ℕ → ImportAnswer

-- The CSV parser, the regular expressions, the methods of JavaScript's texts (`squash` takes all
-- white space out) and the hash of a NINO.
pub record ImportServices : Type 0 where
  pub parse_csv : String → Result (List BulkImportRow)
  pub is_nino : String → Bool
  pub is_email : String → Bool
  pub trim : String → String
  pub squash : String → String
  pub upper : String → String
  pub lower : String → String
  pub text_length : String → ℕ
  pub compute_hash : String → String

abbrev pub contains : String → List String → Bool
contains text texts = any (λ t. t === text) texts

module _ (sv : ImportServices) where
  abbrev pub text_of : Option String → String
  text_of none = ""
  text_of (some s) = sv.trim s

  abbrev pub is_too_long : ℕ → Option String → Bool
  is_too_long limit none = false
  is_too_long limit (some s) = truthy s && ltb limit (sv.text_length (sv.trim s))

  abbrev pub clean_nino : Option String → String
  clean_nino nino = sv.upper (sv.squash (get_or nino ""))

  abbrev pub row_hash : BulkImportRow → String
  row_hash row = sv.compute_hash (clean_nino row.nino)

  abbrev pub row_error : BulkImportRow → String → String → BulkImportRowError
  row_error row field message = record { row = row.row_number; field = field; message = message }

  unfoldable pub name_errors : BulkImportRow → List BulkImportRowError
  name_errors row =
      if not (truthy (text_of row.name))
      then row_error row "name" "Name is required" ∷ []
      else if ltb 200 (sv.text_length (text_of row.name))
      then row_error row "name" "Name must be 200 characters or less" ∷ []
      else []

  unfoldable pub postcode_errors : BulkImportRow → List BulkImportRowError
  postcode_errors row =
      if not (truthy (text_of row.postcode))
      then row_error row "postcode" "Postcode is required" ∷ []
      else if ltb 20 (sv.text_length (text_of row.postcode))
      then row_error row "postcode" "Postcode must be 20 characters or less" ∷ []
      else []

  unfoldable pub email_errors : BulkImportRow → List BulkImportRowError
  email_errors row =
      if not (truthy (text_of row.email))
      then row_error row "email" "Email is required" ∷ []
      else if not (sv.is_email (text_of row.email))
      then row_error row "email" "Invalid email address" ∷ []
      else []

  abbrev pub is_agent_type : Option String → Bool
  is_agent_type none = true
  is_agent_type (some s) =
      not (truthy s)
      || ((sv.lower (sv.trim s) === "main") || (sv.lower (sv.trim s) === "supporting"))

  unfoldable pub optional_errors : BulkImportRow → List BulkImportRowError
  optional_errors row =
      (if is_too_long 30 row.phone
        then row_error row "phone" "Phone must be 30 characters or less" ∷ []
        else [])
      ++ ((if is_agent_type row.agent_type
            then []
            else row_error row "agent_type" "agent_type must be \"main\" or \"supporting\"" ∷ [])
          ++ (if is_too_long 1000 row.personal_message
              then row_error row "personal_message"
                  "Personal message must be 1000 characters or less"
                ∷ []
              else []))

  -- The sets `existingNinoHashes` and `seenHashes`.
  unfoldable pub nino_errors : List String → List String → BulkImportRow → List BulkImportRowError
  nino_errors existing seen row =
      if not (truthy (text_of row.nino))
      then row_error row "nino" "NINO is required" ∷ []
      else if not (sv.is_nino (clean_nino row.nino))
      then row_error row "nino" "NINO must be 2 letters, 6 digits, 1 letter A–D (e.g. AB123456C)"
        ∷ []
      else if contains (row_hash row) seen
      then row_error row "nino" "Duplicate NINO: this NINO appears more than once in the file" ∷ []
      else if contains (row_hash row) existing
      then row_error row "nino" "A client with this NINO already exists in your account" ∷ []
      else []

  pub is_new_nino : List String → List String → BulkImportRow → Bool
  is_new_nino existing seen row =
      (truthy (text_of row.nino) && sv.is_nino (clean_nino row.nino))
      && (not (contains (row_hash row) seen) && not (contains (row_hash row) existing))

  unfoldable pub seen_after : List String → List String → BulkImportRow → List String
  unfolding is_new_nino
  seen_after existing seen row = if is_new_nino existing seen row then row_hash row ∷ seen else seen

  unfoldable pub row_errors : List String → List String → BulkImportRow → List BulkImportRowError
  unfolding name_errors nino_errors postcode_errors email_errors optional_errors
  row_errors existing seen row =
      name_errors row
      ++ (nino_errors existing seen row
          ++ (postcode_errors row ++ (email_errors row ++ optional_errors row)))

  unfoldable pub validate_from :
      List String → List String → List BulkImportRow → List BulkImportRowError
  validate_from existing seen [] = []
  validate_from existing seen (row ∷ rows) =
      row_errors existing seen row ++ validate_from existing (seen_after existing seen row) rows

  unfoldable pub validate_rows : List BulkImportRow → List String → List BulkImportRowError
  validate_rows rows existing = validate_from existing [] rows

  abbrev or_missing : Option String → Option String
  or_missing none = none
  or_missing (some s) = if truthy (sv.trim s) then some (sv.trim s) else none

  abbrev pub imported_client : String → String → BulkImportRow → Client
  imported_client id tenant_id row = record {
    id = id;
    tenant_id = tenant_id;
    name = text_of row.name;
    preferred_name = none;
    nino = clean_nino row.nino;
    nino_hash = row_hash row;
    postcode = sv.upper (text_of row.postcode);
    email = text_of row.email;
    phone = or_missing row.phone;
    utr = none;
    agent_type =
        if sv.lower (text_of row.agent_type) === "supporting" then "supporting" else "main";
    invitation_id = none;
    invitation_status = "pending";
    invitation_sent_at = none;
    invitation_expires_at = none;
    authorised_at = none;
    pipeline_status = "pending-invite";
    workflow_type = none;
    assigned_to_user_id = none;
    portal_only = false;
    deleted_at = none;
  }

  -- The ids that the rows get; the hashes that the query reads, which passes deleted rows over.
  module _ (new_id : BulkImportRow → String) (tenant_id : String) where
    abbrev pub is_live_of : Client → Bool
    is_live_of c = c.tenant_id === tenant_id && not (is_some c.deleted_at)

    abbrev pub existing_hashes : List Client → List String
    existing_hashes clients = map (λ c. c.nino_hash) (find_all is_live_of clients)

    -- The transaction: `none` where a row breaks the unique index, which undoes it all.
    unfoldable pub insert_rows : List BulkImportRow → List Client → Option (List Client)
    insert_rows [] clients = some clients
    insert_rows (row ∷ rows) clients =
        let rest =
          insert_rows rows (clients ++ (imported_client (new_id row) tenant_id row ∷ [])) in
        if any (has_nino tenant_id (row_hash row)) clients then none else rest

    pub record_all : List BulkImportRow → ClientsDb → ClientsDb
    record_all [] s = s
    record_all (row ∷ rows) s =
        record_all rows (in_pipeline (record_initial_status tenant_id (new_id row)) s).1

    unfoldable pub import_rows : List BulkImportRow → Exec ClientsDb ImportAnswer
    import_rows rows = do
      inserted ← gets (λ s. insert_rows rows s.portal.clients)
      clients ← require inserted (HttpError.internal "Duplicate entry")
      modify (with_clients (λ _. clients))
      modify (record_all rows)
      pure (imported (length rows))

    unfoldable pub answer_errors :
        List BulkImportRow → List BulkImportRowError → Exec ClientsDb ImportAnswer
    unfolding import_rows
    answer_errors rows [] = import_rows rows
    answer_errors rows (e ∷ errors) = pure (invalid (e ∷ errors))

    unfoldable pub bulk_import : String → Exec ClientsDb ImportAnswer
    unfolding answer_errors
    bulk_import file = do
      rows ← lift (sv.parse_csv file)
      throw_if (length rows == 0) (HttpError.bad_request "The uploaded file contains no data rows.")
      throw_if (ltb 200 (length rows)) (
          HttpError.bad_request
            "A single import can contain at most 200 clients. Split the file and import in batches.")
      errors ← gets (λ s. validate_rows rows (existing_hashes s.portal.clients))
      answer_errors rows errors
