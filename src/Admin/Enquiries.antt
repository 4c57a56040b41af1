-- ===== src/Admin/Enquiries.antt =====
-- src/modules/admin/admin.service.ts: an enquiry, and its status and note.
use Prim.Native.String
use mtd_backend.Common.{
  String, Bool, true, false, Option, none, some, List, [], ◌∷◌, ◌++◌, ◌===◌, not, ◌&&◌, get_or,
  is_some, find, update, if◌then◌else◌, HttpError, Exec, pure, gets, require, modify, throw_if,
  ◌>>=◌, ◌>>◌,
}
use mtd_backend.Enquiries.{Enquiry, EnquiryStatus}
use mtd_backend.Admin.{
  AdminDb, AdminServices, Call, AuditAction, AuditTarget, AuditMetadata, audit_row, record_audit,
  trim_or_null,
}

-- `internal_note` is undefined, null or a text.
pub record EnquiryPatch : Type 0 where
  pub status : Option EnquiryStatus
  pub internal_note : Option (Option String)

abbrev pub no_enquiry : HttpError
no_enquiry = HttpError.not_found "Enquiry not found"

abbrev pub nothing_to_update : HttpError
nothing_to_update = HttpError.bad_request "Provide status and/or internalNote to update."

abbrev pub is_empty : EnquiryPatch → Bool
is_empty patch = not (is_some patch.status) && not (is_some patch.internal_note)

abbrev pub find_enquiry : String → AdminDb → Option Enquiry
find_enquiry id s = find (λ e. e.id === id) s.enquiries

-- `toEnquiryItem` copies every column.
unfoldable pub get_enquiry : String → Exec AdminDb Enquiry
get_enquiry id = do found ← gets (find_enquiry id); require found no_enquiry

abbrev status_word : EnquiryStatus → String
status_word EnquiryStatus.new = "new"
status_word EnquiryStatus.contacted = "contacted"
status_word EnquiryStatus.closed = "closed"

abbrev same_note : Option String → Option String → Bool
same_note none none = true
same_note none (some b) = false
same_note (some a) none = false
same_note (some a) (some b) = a === b

abbrev patched_note : AdminServices → Option String → Option (Option String) → Option String
patched_note sv old none = old
patched_note sv old (some note) = trim_or_null sv note

abbrev pub patched : AdminServices → EnquiryPatch → Enquiry → Enquiry
patched sv patch e = record e {
  status = get_or patch.status e.status;
  internal_note = patched_note sv e.internal_note patch.internal_note;
}

abbrev note_changed : EnquiryPatch → Enquiry → Enquiry → Bool
note_changed patch old saved =
    is_some patch.internal_note && not (same_note old.internal_note saved.internal_note)

-- `save` writes, and stamps `updatedAt`, where a column has changed.
abbrev saved_as : AdminServices → Call → EnquiryPatch → Enquiry → Enquiry
saved_as sv call patch e =
    let next = patched sv patch e in
    if (status_word e.status === status_word next.status)
      && same_note e.internal_note next.internal_note
    then next
    else record next { updated_at = call.now }

-- `parts` of the summary.
abbrev status_part : EnquiryPatch → Enquiry → Enquiry → List String
status_part patch old saved =
    if is_some patch.status && not (status_word saved.status === status_word old.status)
    then String.◌++◌ "status "
        (String.◌++◌ (status_word old.status) (String.◌++◌ " → " (status_word saved.status)))
      ∷ []
    else []

abbrev note_part : EnquiryPatch → Enquiry → Enquiry → List String
note_part patch old saved =
    if note_changed patch old saved
    then (if is_some saved.internal_note then "internal note updated" else "internal note cleared")
      ∷ []
    else []

abbrev joined : String → List String → String
joined text [] = text
joined text (a ∷ []) = String.◌++◌ text (String.◌++◌ ": " a)
joined text (a ∷ b ∷ _) = String.◌++◌ text (String.◌++◌ ": " (String.◌++◌ a (String.◌++◌ ", " b)))

abbrev label_of : Enquiry → String
label_of e = String.◌++◌ e.name (String.◌++◌ " (" (String.◌++◌ e.firm ")"))

abbrev pub enquiry_row : AdminServices → Call → EnquiryPatch → Enquiry → Enquiry → AdminDb → AdminDb
enquiry_row sv call patch old saved = record_audit (
    audit_row sv call AuditAction.enquiry_update AuditTarget.enquiry_target saved.id
      (label_of saved)
      (joined (String.◌++◌ "Updated enquiry " (label_of saved))
        (status_part patch old saved ++ note_part patch old saved))
      (some (AuditMetadata.enquiry_change old.status saved.status (note_changed patch old saved))))

module _ (sv : AdminServices) (call : Call) where
  unfoldable pub update_enquiry : String → EnquiryPatch → Exec AdminDb Enquiry
  update_enquiry id patch = do
    found ← gets (find_enquiry id)
    enquiry ← require found no_enquiry
    throw_if (is_empty patch) nothing_to_update
    modify (λ s. record s {
      enquiries = update (λ e. e.id === id) (λ _. saved_as sv call patch enquiry) s.enquiries;
    })
    modify (enquiry_row sv call patch enquiry (saved_as sv call patch enquiry))
    pure (saved_as sv call patch enquiry)
