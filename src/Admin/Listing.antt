-- ===== src/Admin/Listing.antt =====
-- src/modules/admin/admin.service.ts: the pages of the enquiries and of the audit log. `like search column`
-- is the database's `LOWER(column) LIKE '%search%'`.
use mtd_backend.Common.{
  ℕ, String, Bool, true, false, Option, none, some, List, [], ◌∷◌, ◌&&◌, ltb, ◌==◌, ◌++◌, any, max,
  min, get_or, truthy, find_all, length, sort, total_pages, slice_at, if◌then◌else◌,
}
use mtd_backend.Enquiries.{Enquiry, EnquiryStatus}
use mtd_backend.Admin.{AdminDb, AdminAuditLog, AuditAction}

pub record ListServices : Type 0 where
  pub trim : String → String
  pub lower : String → String
  pub like : String → String → Bool

pub record ListOptions (Filter : Type 0) : Type 0 where
  pub page : Option ℕ
  pub limit : Option ℕ
  pub filter : Option Filter
  pub search : Option String

pub record ListResponse (Row : Type 0) : Type 0 where
  pub items : List Row
  pub page : ℕ
  pub limit : ℕ
  pub total : ℕ
  pub total_pages : ℕ

-- `Math.max(1, opts.page ?? 1)`
abbrev pub page_of : Option ℕ → ℕ
page_of page = max 1 (get_or page 1)

-- `Math.min(100, Math.max(1, opts.limit ?? 20))`
abbrev pub limit_of : Option ℕ → ℕ
limit_of limit = min 100 (max 1 (get_or limit 20))

abbrev pub response_of : {A : Type 0} → Option ℕ → Option ℕ → List A → ListResponse A
response_of page limit rows = record {
  items = slice_at (page_of page) (limit_of limit) rows;
  page = page_of page;
  limit = limit_of limit;
  total = length rows;
  total_pages = total_pages (limit_of limit) rows;
}

abbrev status_is : EnquiryStatus → EnquiryStatus → Bool
status_is EnquiryStatus.new EnquiryStatus.new = true
status_is EnquiryStatus.contacted EnquiryStatus.contacted = true
status_is EnquiryStatus.closed EnquiryStatus.closed = true
status_is _ _ = false

abbrev action_code : AuditAction → ℕ
action_code AuditAction.firm_activate = 0
action_code AuditAction.firm_deactivate = 1
action_code AuditAction.firm_deactivation_reason_update = 2
action_code AuditAction.firm_invalidate_sessions = 3
action_code AuditAction.firm_purge = 4
action_code AuditAction.user_invalidate_sessions = 5
action_code AuditAction.enquiry_update = 6

-- The filter of a column, where one is asked for.
abbrev filter_by : {F : Type 0} → (F → Bool) → Option F → Bool
filter_by is none = true
filter_by is (some f) = is f

abbrev texts : Option String → List String
texts none = []
texts (some t) = t ∷ []

abbrev pub asked : {F : Type 0} → Option ℕ → Option ℕ → Option F → Option String → ListOptions F
asked page limit filter search = record {
  page = page;
  limit = limit;
  filter = filter;
  search = search;
}

module _ (sv : ListServices) where
  -- The search, where its text is not blank, over the columns of a row.
  abbrev matches : Option String → List String → Bool
  matches none columns = true
  matches (some search) columns =
      if truthy (sv.trim search)
      then any (λ c. sv.like (sv.lower (sv.trim search)) c) columns
      else true

  -- The enquiries that a request asks for, the newest first.
  unfoldable pub enquiries_for : Option EnquiryStatus → Option String → AdminDb → List Enquiry
  enquiries_for status search s =
      sort (λ a b. ltb b.created_at a.created_at)
        (find_all
          (λ e.
            filter_by (status_is e.status) status
            && matches search (e.name ∷ e.firm ∷ e.email ∷ []))
          s.enquiries)

  unfoldable pub list_enquiries : ListOptions EnquiryStatus → AdminDb → ListResponse Enquiry
  list_enquiries opts s = response_of opts.page opts.limit (enquiries_for opts.filter opts.search s)

  -- The rows of the audit log that a request asks for, the newest first. A missing text is not LIKE
  -- any pattern.
  unfoldable pub logs_for : Option AuditAction → Option String → AdminDb → List AdminAuditLog
  logs_for action search s =
      sort (λ a b. ltb b.created_at a.created_at)
        (find_all
          (λ a.
            filter_by (λ k. action_code a.action == action_code k) action
            && matches search (texts a.actor_email ++ texts a.target_label ++ a.summary ∷ []))
          s.audit)

  unfoldable pub list_audit_logs : ListOptions AuditAction → AdminDb → ListResponse AdminAuditLog
  list_audit_logs opts s = response_of opts.page opts.limit (logs_for opts.filter opts.search s)
