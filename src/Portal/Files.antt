-- ===== src/Portal/Files.antt =====
-- src/modules/client-portal/portal.service.ts: the files that clients upload. The bytes on the disk
-- are not modelled, nor the mail that tells the firm of a new file.
use mtd_backend.Common.{
  ℕ, ◌*◌, String, Bool, true, false, List, [], ◌∷◌, ◌++◌, not, ◌&&◌, ◌===◌, ltb, any, find,
  find_all, count_where, update, HttpError, Exec, pure, gets, require, modify, throw_if, ◌>>=◌,
  ◌>>◌,
}
use mtd_backend.Portal.{PortalFile, PortalDb}
use mtd_backend.Portal.Messages.{require_client}

abbrev pub max_file_size_bytes : ℕ
max_file_size_bytes = 10 * 1024 * 1024

abbrev pub allowed_mime_types : List String
allowed_mime_types =
    "application/pdf" ∷ "image/jpeg" ∷ "image/png" ∷ "image/gif" ∷ "image/webp" ∷ "text/csv"
    ∷ "application/vnd.ms-excel"
    ∷ "application/vnd.openxmlformats-officedocument.spreadsheetml.sheet" ∷ "application/msword"
    ∷ "application/vnd.openxmlformats-officedocument.wordprocessingml.document" ∷ "application/zip"
    ∷ "text/plain" ∷ []

pub record Upload : Type 0 where
  pub original_name : String
  pub mime_type : String
  pub size : ℕ

-- `id` and `storage_path` hold random parts.
pub upload_file : ℕ → String → String → String → String → Upload → Exec PortalDb PortalFile
upload_file now id storage_path client_id tenant_id file = do
  throw_if (ltb max_file_size_bytes file.size)
      (HttpError.bad_request "File exceeds the 10 MB size limit.")
  throw_if (not (any (λ t. t === file.mime_type) allowed_mime_types)) (
      HttpError.bad_request
        "File type not allowed. Upload PDF, images, spreadsheets, Word documents, CSV, or ZIP files.")
  client ← require_client tenant_id client_id
  modify (λ s. record s {
    files =
        s.files
        ++ record {
          id = id;
          tenant_id = tenant_id;
          client_id = client_id;
          original_name = file.original_name;
          mime_type = file.mime_type;
          size = file.size;
          storage_path = storage_path;
          viewed_by_agent = false;
          created_at = now;
        }
          ∷ [];
  })
  pure (record {
    id = id;
    tenant_id = tenant_id;
    client_id = client_id;
    original_name = file.original_name;
    mime_type = file.mime_type;
    size = file.size;
    storage_path = storage_path;
    viewed_by_agent = false;
    created_at = now;
  })

-- The order of the lists, newest first, is left to the table.
pub get_files : String → PortalDb → List PortalFile
get_files client_id s = find_all (λ f. f.client_id === client_id) s.files

pub get_file_record : String → String → Exec PortalDb PortalFile
get_file_record client_id file_id = do
  found ← gets (λ s. find (λ f. f.id === file_id && f.client_id === client_id) s.files)
  require found (HttpError.not_found "File not found")

abbrev pub is_file_of : String → String → PortalFile → Bool
is_file_of tenant_id client_id f = f.tenant_id === tenant_id && f.client_id === client_id

-- The files as they were, and the unseen ones of the list marked as viewed, by their ids.
pub get_files_for_agent : String → String → PortalDb → List PortalFile × PortalDb
get_files_for_agent tenant_id client_id s =
    let files = find_all (is_file_of tenant_id client_id) s.files in
    let unseen = find_all (λ f. not f.viewed_by_agent) files in
    (
      files,
      record s {
        files =
            update (λ f. any (λ u. u.id === f.id) unseen) (λ f. record f { viewed_by_agent = true })
              s.files;
      },
    )

pub get_file_record_for_agent : String → String → String → Exec PortalDb PortalFile
get_file_record_for_agent tenant_id client_id file_id = do
  found ← gets (λ s. find (λ f. f.id === file_id && is_file_of tenant_id client_id f) s.files)
  require found (HttpError.not_found "File not found")

pub count_unseen_files : String → String → PortalDb → ℕ
count_unseen_files tenant_id client_id s =
    count_where (λ f. is_file_of tenant_id client_id f && not f.viewed_by_agent) s.files
