-- ===== src/Chase/Templates.antt =====
-- src/modules/chase-templates/chase-templates.service.ts: the templates of a firm. A table keeps its
-- rows in the order in which they were made. `new_id` draws the ids.
pub mod Seeded
use mtd_backend.Common.{
  ℕ, String, Bool, true, false, Option, none, some, List, [], ◌∷◌, ◌++◌, not, ◌&&◌, ◌===◌, is_some,
  find, find_all, update, get_or, HttpError, Exec, pure, gets, require, modify, ◌>>=◌, ◌>>◌,
}

pub record ChaseTemplate : Type 0 where
  pub id : String
  pub tenant_id : String
  pub name : String
  pub type : String
  pub subject : String
  pub body : String
  pub is_default : Bool
  pub deleted_at : Option ℕ

pub record CreateChaseTemplateDto : Type 0 where
  pub type : String
  pub name : String
  pub subject : String
  pub body : String

pub record UpdateChaseTemplateDto : Type 0 where
  pub name : Option String
  pub type : Option String
  pub subject : Option String
  pub body : Option String

abbrev pub bookkeeping_reminder : CreateChaseTemplateDto
bookkeeping_reminder = record {
  type = "bookkeeping";
  name = "Bookkeeping reminder";
  subject = "Quarterly bookkeeping needed: {business}";
  body =
      "Hi {name},\n\nJust a reminder that your {quarter} quarterly records are due by {deadline}. Please complete your bookkeeping in your accounting software and let us know when it's ready for us to review.\n\nIf you need any help, just reply to this email.\n\nBest regards,\n{agent_name}";
}

abbrev pub bookkeeping_overdue : CreateChaseTemplateDto
bookkeeping_overdue = record {
  type = "bookkeeping";
  name = "Bookkeeping overdue";
  subject = "Action required: overdue bookkeeping for {business}";
  body =
      "Hi {name},\n\nThe deadline for your {quarter} quarterly update has passed. Please complete your bookkeeping as soon as possible so we can review and ensure your records are up to date with HMRC.\n\nBest regards,\n{agent_name}";
}

abbrev pub data_request_gentle : CreateChaseTemplateDto
data_request_gentle = record {
  type = "data-request";
  name = "Data request (gentle)";
  subject = "Quarterly records needed: {business}";
  body =
      "Hi {name},\n\nWe need your income and expense records for {quarter} (due {deadline}). Please send us your bank statements, invoices, and receipts for the period.\n\nYou can reply to this email with attachments, or upload files directly in your portal.\n\nBest regards,\n{agent_name}";
}

abbrev pub data_request_urgent : CreateChaseTemplateDto
data_request_urgent = record {
  type = "data-request";
  name = "Data request (urgent)";
  subject = "Urgent: records overdue for {business}";
  body =
      "Hi {name},\n\nYour {quarter} records are now overdue. We need your bank statements and receipts urgently to update your HMRC records.\n\nPlease send everything you have as soon as possible.\n\nBest regards,\n{agent_name}";
}

abbrev pub welcome : CreateChaseTemplateDto
welcome = record {
  type = "general";
  name = "Welcome / onboarding";
  subject = "Welcome to {firm_name}";
  body =
      "Hi {name},\n\nWelcome! We're looking forward to helping you with your Making Tax Digital obligations.\n\nYou'll receive a separate email from HMRC asking you to authorise us as your agent. Please accept this request so we can manage your quarterly updates.\n\nBest regards,\n{agent_name}";
}

-- `DEFAULT_TEMPLATES`
abbrev pub default_templates : List CreateChaseTemplateDto
default_templates =
    bookkeeping_reminder ∷ bookkeeping_overdue ∷ data_request_gentle ∷ data_request_urgent ∷ welcome
    ∷ []

-- A template of the firm that is not deleted.
abbrev pub is_live_of : String → ChaseTemplate → Bool
is_live_of tenant_id t = t.tenant_id === tenant_id && not (is_some t.deleted_at)

abbrev pub live_templates : String → List ChaseTemplate → List ChaseTemplate
live_templates tenant_id s = find_all (is_live_of tenant_id) s

abbrev pub new_template : String → String → Bool → CreateChaseTemplateDto → ChaseTemplate
new_template id tenant_id is_default dto = record {
  id = id;
  tenant_id = tenant_id;
  name = dto.name;
  type = dto.type;
  subject = dto.subject;
  body = dto.body;
  is_default = is_default;
  deleted_at = none;
}

module _ (new_id : CreateChaseTemplateDto → String) where
  unfoldable pub seeds : String → List CreateChaseTemplateDto → List ChaseTemplate
  seeds tenant_id [] = []
  seeds tenant_id (dto ∷ dtos) = new_template (new_id dto) tenant_id true dto ∷ seeds tenant_id dtos

  abbrev pub seed_defaults : String → Exec (List ChaseTemplate) Unit
  seed_defaults tenant_id = modify (λ s. s ++ seeds tenant_id default_templates)

  unfoldable pub list_from :
      String → List ChaseTemplate → Exec (List ChaseTemplate) (List ChaseTemplate)
  list_from tenant_id [] = do seed_defaults tenant_id; gets (live_templates tenant_id)
  list_from tenant_id (t ∷ ts) = pure (t ∷ ts)

  unfoldable pub list : String → Exec (List ChaseTemplate) (List ChaseTemplate)
  unfolding list_from
  list tenant_id = do existing ← gets (live_templates tenant_id); list_from tenant_id existing

  pub create : String → CreateChaseTemplateDto → Exec (List ChaseTemplate) ChaseTemplate
  create tenant_id dto =
      let template = new_template (new_id dto) tenant_id false dto in
      do modify (λ s. s ++ (template ∷ [])); pure template

abbrev template_missing : HttpError
template_missing = HttpError.not_found "Chase template not found"

pub require_template : String → String → Exec (List ChaseTemplate) ChaseTemplate
require_template tenant_id id = do
  found ← gets (λ s. find (λ t. t.id === id && is_live_of tenant_id t) s)
  require found template_missing

-- `Object.assign(template, dto)`: a field that the request leaves out is kept.
abbrev pub assign_fields : UpdateChaseTemplateDto → ChaseTemplate → ChaseTemplate
assign_fields dto t = record t {
  name = get_or dto.name t.name;
  type = get_or dto.type t.type;
  subject = get_or dto.subject t.subject;
  body = get_or dto.body t.body;
}

pub update_template :
    String → String → UpdateChaseTemplateDto → Exec (List ChaseTemplate) ChaseTemplate
unfolding require_template
update_template tenant_id id dto = do
  template ← require_template tenant_id id
  modify (λ s. update (λ t. t.id === id) (assign_fields dto) s)
  pure (assign_fields dto template)

pub delete_template : ℕ → String → String → Exec (List ChaseTemplate) Unit
unfolding require_template
delete_template now tenant_id id = do
  template ← require_template tenant_id id
  modify (λ s. update (λ t. t.id === id) (λ t. record t { deleted_at = some now }) s)
