-- ===== src/Clients/Import/Whole.antt =====
-- A file is imported whole or not at all.
use mtd_backend.Common.{
  ◌≤◌, ◌<◌, String, Bool, true, false, some, List, [], ◌∷◌, ◌++◌, ◌≡◌, ◌∙◌, refl, ap, sym, ◌&&◌,
  ltb, ◌==◌, ◌===◌, is_some, any, find_all, map, length, All, Bool-cases, Option-cases, inl, inr,
  ◌⊎◌, arith, HttpError, Result, ok, err,
}
use mtd_backend.Clients.{Client}
use mtd_backend.Clients.Scope.{ClientsDb, in_pipeline, with_clients}
use mtd_backend.Pipeline.Service.{record_initial_status}
use mtd_backend.Clients.Customers.{has_nino}
use mtd_backend.Clients.Import.{
  BulkImportRow, BulkImportRowError, ImportServices, ImportAnswer, imported, contains, row_hash,
  name_errors, nino_errors, seen_after, is_new_nino, row_errors, validate_from, validate_rows,
  imported_client, existing_hashes, insert_rows, record_all, import_rows, answer_errors,
  bulk_import,
}

append-nil : {A : Type 0} (xs ys : List A) → xs ++ ys ≡ [] → (xs ≡ []) × (ys ≡ [])
append-nil [] ys h = (refl, h)
append-nil (x ∷ xs) ys h = ground arith

module _ (sv : ImportServices) (existing : List String) where
  -- Each row has a hash that is new for the account and for the rows before it.
  abbrev pub AllNew : List String → List BulkImportRow → Type 0
  AllNew seen [] = Unit
  AllNew seen (row ∷ rows) =
      ((contains (row_hash sv row) seen ≡ false) × (contains (row_hash sv row) existing ≡ false))
      × AllNew (row_hash sv row ∷ seen) rows

  nino_errors-new :
      (seen : List String) (row : BulkImportRow)
      → nino_errors sv existing seen row ≡ []
      → is_new_nino sv existing seen row ≡ true
  unfolding nino_errors is_new_nino
  nino_errors-new seen row h = ground arith

  new_parts :
      (seen : List String) (row : BulkImportRow)
      → is_new_nino sv existing seen row ≡ true
      → (contains (row_hash sv row) seen ≡ false) × (contains (row_hash sv row) existing ≡ false)
  unfolding is_new_nino
  new_parts seen row h = (ground arith, ground arith)

  validate_from-AllNew :
      (seen : List String) (rows : List BulkImportRow)
      → validate_from sv existing seen rows ≡ []
      → AllNew seen rows
  unfolding validate_from row_errors seen_after
  validate_from-AllNew seen [] h = tt
  validate_from-AllNew seen (row ∷ rows) h =
      let (own, more) = append-nil (row_errors sv existing seen row) _ h in
      let (_, after_name) = append-nil (name_errors sv row) _ own in
      let (nino, _) = append-nil (nino_errors sv existing seen row) _ after_name in
      let fresh = nino_errors-new seen row nino in
      (
        new_parts seen row fresh,
        validate_from-AllNew (row_hash sv row ∷ seen) rows (rw fresh at more),
      )

any-append :
    (p : Client → Bool) (xs : List Client) (c : Client)
    → any p xs ≡ false
    → p c ≡ false
    → any p (xs ++ (c ∷ [])) ≡ false
unfolding any
any-append p [] c h k = rw k refl
any-append p (x ∷ xs) c h k = ground (arith, any-append p xs c)

append-one : (xs ys : List Client) (c : Client) → (xs ++ (c ∷ [])) ++ ys ≡ xs ++ (c ∷ ys)
append-one [] ys c = refl
append-one (x ∷ xs) ys c = ap (λ zs. x ∷ zs) (append-one xs ys c)

append_nil : (xs : List Client) → xs ++ [] ≡ xs
append_nil [] = refl
append_nil (x ∷ xs) = ap (λ zs. x ∷ zs) (append_nil xs)

module _ (sv : ImportServices) (new_id : BulkImportRow → String) (tenant_id : String) where
  -- The clients that a file makes.
  abbrev pub clients_of : List BulkImportRow → List Client
  clients_of rows = map (λ row. imported_client sv (new_id row) tenant_id row) rows

  abbrev Covers : List String → List String → List Client → Type 0
  Covers existing seen clients =
      (h : String)
      → contains h seen ≡ false
      → contains h existing ≡ false
      → any (has_nino tenant_id h) clients ≡ false

  Covers-append :
      (existing seen : List String) (clients : List Client) (row : BulkImportRow)
      → Covers existing seen clients
      → Covers existing
          (row_hash sv row ∷ seen)
          (clients ++ (imported_client sv (new_id row) tenant_id row ∷ []))
  unfolding any
  Covers-append existing seen clients row covers h not_seen not_there =
      any-append (has_nino tenant_id h) clients (imported_client sv (new_id row) tenant_id row)
        (covers h (ground arith) not_there) (ground arith)

  insert_rows-all :
      (existing seen : List String) (rows : List BulkImportRow) (clients : List Client)
      → AllNew sv existing seen rows
      → Covers existing seen clients
      → insert_rows sv new_id tenant_id rows clients ≡ some (clients ++ clients_of rows)
  unfolding insert_rows
  insert_rows-all existing seen [] clients h covers = ap some (sym (append_nil clients))
  insert_rows-all existing seen (row ∷ rows) clients (own, more) covers =
      let free = covers (row_hash sv row) own.0 own.1 in
      let rest =
        insert_rows-all existing (row_hash sv row ∷ seen) rows
          (clients ++ (imported_client sv (new_id row) tenant_id row ∷ [])) more
          (Covers-append existing seen clients row covers) in
      rw free (
        rest
        ∙ ap some
            (append-one clients (clients_of rows) (imported_client sv (new_id row) tenant_id row)))

  -- The row is no deleted client of the firm.
  abbrev pub IsKept : Client → Type 0
  IsKept c = (c.tenant_id === tenant_id && is_some c.deleted_at) ≡ false

  existing-Covers :
      (clients : List Client)
      → All IsKept clients
      → Covers (existing_hashes sv new_id tenant_id clients) [] clients
  unfolding any find_all
  existing-Covers [] kept h not_seen not_there = refl
  existing-Covers (c ∷ clients) (own, kept) h not_seen not_there =
      elim (Bool-cases (c.tenant_id === tenant_id)) [
        | inr other ↦ rw other (existing-Covers clients kept h not_seen (rw other at not_there))
        | inl same ↦
            let live : is_some c.deleted_at ≡ false = rw same at own in
            let seen_here = rw (same, live) at not_there in
            elim (Bool-cases (c.nino_hash === h)) [
              | inl taken ↦ let found = rw taken at seen_here in absurd (ground arith)
              | inr apart ↦
                  rw (same, apart) (existing-Covers clients kept h not_seen (rw apart at seen_here))
            ]
      ]

  initial-clients :
      (id : String) (s : ClientsDb)
      → (in_pipeline (record_initial_status tenant_id id) s).1.portal.clients ≡ s.portal.clients
  unfolding record_initial_status
  initial-clients id s = ground arith

  record_all-clients :
      (rows : List BulkImportRow) (s : ClientsDb)
      → (record_all sv new_id tenant_id rows s).portal.clients ≡ s.portal.clients
  unfolding record_all
  record_all-clients [] s = refl
  record_all-clients (row ∷ rows) s =
      record_all-clients rows (in_pipeline (record_initial_status tenant_id (new_id row)) s).1
      ∙ initial-clients (new_id row) s

  -- A file that parses into 1 to 200 rows and has no errors is imported whole: the answer is the
  -- number of its rows, and one client for each row stands behind the clients that were there. The
  -- firm has no deleted client: such a row is not looked at by the check for errors, but by the
  -- unique index.
  pub bulk_import-valid :
      (file : String) (rows : List BulkImportRow) (s : ClientsDb)
      → sv.parse_csv file ≡ ok rows
      → 0 < length rows
      → length rows ≤ 200
      → All IsKept s.portal.clients
      → validate_rows sv rows (existing_hashes sv new_id tenant_id s.portal.clients) ≡ []
      → ((bulk_import sv new_id tenant_id file s).0 ≡ ok (imported (length rows)))
        × ((bulk_import sv new_id tenant_id file s).1.portal.clients
            ≡ s.portal.clients ++ clients_of rows)
  unfolding bulk_import answer_errors import_rows validate_rows
  bulk_import-valid file rows s parsed some_rows few kept clean =
      let inserted =
        insert_rows-all (existing_hashes sv new_id tenant_id s.portal.clients) [] rows
          s.portal.clients
          (validate_from-AllNew sv (existing_hashes sv new_id tenant_id s.portal.clients) [] rows
            clean)
          (existing-Covers s.portal.clients kept) in
      let not_empty : (length rows == 0) ≡ false = ground arith in
      let not_long : ltb 200 (length rows) ≡ false = ground arith in
      rw (parsed, not_empty, not_long, clean, inserted) (refl, record_all-clients rows _)

  insert_rows-some :
      (rows : List BulkImportRow) (clients out : List Client)
      → insert_rows sv new_id tenant_id rows clients ≡ some out
      → out ≡ clients ++ clients_of rows
  unfolding insert_rows
  insert_rows-some [] clients out h =
      let same : clients ≡ out = cc in sym same ∙ sym (append_nil clients)
  insert_rows-some (row ∷ rows) clients out h =
      elim (Bool-cases (any (has_nino tenant_id (row_hash sv row)) clients)) [
        | inl taken ↦ let failed = rw taken at h in absurd (ground arith)
        | inr free ↦
            insert_rows-some rows (clients ++ (imported_client sv (new_id row) tenant_id row ∷ []))
              out (rw free at h)
            ∙ append-one clients (clients_of rows) (imported_client sv (new_id row) tenant_id row)
      ]

  -- What a run on the rows leaves: all of them imported and counted, or the tables as they were.
  abbrev pub IsWhole : List BulkImportRow → ClientsDb → Result ImportAnswer × ClientsDb → Type 0
  IsWhole rows s r =
      ((r.0 ≡ ok (imported (length rows)))
        × (r.1.portal.clients ≡ s.portal.clients ++ clients_of rows))
      ⊎ (r.1 ≡ s)

  import_rows-IsWhole :
      (rows : List BulkImportRow) (s : ClientsDb)
      → IsWhole rows s (import_rows sv new_id tenant_id rows s)
  unfolding import_rows
  import_rows-IsWhole rows s =
      elim (Option-cases (insert_rows sv new_id tenant_id rows s.portal.clients)) [
        | inl broken ↦ inr (rw broken refl)
        | inr (out, done) ↦ inl (
          rw done refl,
          rw done (
              record_all-clients rows (with_clients (λ _. out) s)
              ∙ insert_rows-some rows s.portal.clients out done),
        )
      ]

  answer-IsWhole :
      (rows : List BulkImportRow) (errors : List BulkImportRowError) (s : ClientsDb)
      → IsWhole rows s (answer_errors sv new_id tenant_id rows errors s)
  unfolding answer_errors
  answer-IsWhole rows [] s = import_rows-IsWhole rows s
  answer-IsWhole rows (e ∷ errors) s = inr refl

  rows-IsWhole :
      (file : String) (s : ClientsDb) (rows : List BulkImportRow)
      → sv.parse_csv file ≡ ok rows
      → IsWhole rows s (bulk_import sv new_id tenant_id file s)
  unfolding bulk_import
  rows-IsWhole file s rows parsed = elim (Bool-cases (length rows == 0)) [
    | inl empty ↦ inr (rw (parsed, empty) refl)
    | inr some_rows ↦ elim (Bool-cases (ltb 200 (length rows))) [
      | inl long ↦ inr (rw (parsed, some_rows, long) refl)
      | inr few ↦ rw (parsed, some_rows, few) (answer-IsWhole rows _ s)
    ]
  ]

  not_parsed :
      (file : String) (s : ClientsDb) (e : HttpError)
      → sv.parse_csv file ≡ err e
      → (bulk_import sv new_id tenant_id file s).1 ≡ s
  unfolding bulk_import
  not_parsed file s e parsed = rw parsed refl

  with_rows :
      (file : String) (s : ClientsDb) (r : Result (List BulkImportRow))
      → sv.parse_csv file ≡ r
      → ((rows : List BulkImportRow) × (sv.parse_csv file ≡ ok rows)
          × IsWhole rows s (bulk_import sv new_id tenant_id file s))
        ⊎ ((bulk_import sv new_id tenant_id file s).1 ≡ s)
  with_rows file s (err e) parsed = inr (not_parsed file s e parsed)
  with_rows file s (ok rows) parsed = inl (rows, parsed, rows-IsWhole file s rows parsed)

  -- A file is imported whole or not at all: either the answer counts the rows that the file parses
  -- into and one client for each row stands behind the clients that were there, or no table has
  -- changed.
  pub bulk_import-IsWhole :
      (file : String) (s : ClientsDb)
      → ((rows : List BulkImportRow) × (sv.parse_csv file ≡ ok rows)
          × IsWhole rows s (bulk_import sv new_id tenant_id file s))
        ⊎ ((bulk_import sv new_id tenant_id file s).1 ≡ s)
  bulk_import-IsWhole file s = with_rows file s (sv.parse_csv file) refl
