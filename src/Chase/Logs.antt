-- ===== src/Chase/Logs.antt =====
-- src/modules/chase-logs/chase-logs.service.ts: the chases that were sent, and the summary of those
-- of a client, of a business and of a period. `dispatch`, which mails a log without waiting, is left
-- out. `trim` and `day_part` (`slice(0, 10)` where that long) are JavaScript's.
pub mod Newest
use mtd_backend.Common.{
  head, sort, ℕ, String, Bool, true, false, Option, none, some, List, [], ◌∷◌, ◌++◌, not, ◌&&◌,
  ◌||◌, ltb, leb, ◌===◌, is_some, find, find_all, update, get_or, truthy, present, if◌then◌else◌,
  HttpError, Exec, pure, gets, require, modify, ◌>>=◌, ◌>>◌, length,
}

pub record ChaseLog : Type 0 where
  pub id : String
  pub tenant_id : String
  pub client_id : String
  pub business_id : Option String
  pub business_name : Option String
  pub period_start_date : Option String
  pub period_end_date : Option String
  pub due_date : Option String
  pub quarter_label : Option String
  pub template_id : Option String
  pub channel : String
  pub subject : String
  pub body : String
  pub status : String
  pub sent_at : ℕ
  pub sent_by_user_id : Option String
  pub deleted_at : Option ℕ

pub record CreateChaseLogDto : Type 0 where
  pub client_id : String
  pub business_id : Option String
  pub business_name : Option String
  pub period_start_date : Option String
  pub period_end_date : Option String
  pub due_date : Option String
  pub quarter_label : Option String
  pub template_id : Option String
  pub channel : String
  pub subject : String
  pub body : String

pub record ChaseLogServices : Type 0 where
  pub trim : String → String
  pub day_part : String → String

-- `sv.trim(x) || null`
unfoldable pub trimmed : ChaseLogServices → Option String → Option String
trimmed sv none = none
trimmed sv (some s) = if truthy (sv.trim s) then some (sv.trim s) else none

-- The period of a log or of a row by its first day.
unfoldable pub normalize_date_key : ChaseLogServices → Option String → Option String
normalize_date_key sv none = none
normalize_date_key sv (some s) = if truthy s then some (sv.day_part (sv.trim s)) else none

abbrev pub new_log :
    ChaseLogServices → String → String → ℕ → Option String → CreateChaseLogDto → ChaseLog
new_log sv id tenant_id now acting_user_id dto = record {
  id = id;
  tenant_id = tenant_id;
  client_id = dto.client_id;
  business_id = trimmed sv dto.business_id;
  business_name = trimmed sv dto.business_name;
  period_start_date = trimmed sv dto.period_start_date;
  period_end_date = trimmed sv dto.period_end_date;
  due_date = trimmed sv dto.due_date;
  quarter_label = trimmed sv dto.quarter_label;
  template_id = dto.template_id;
  channel = dto.channel;
  subject = dto.subject;
  body = dto.body;
  status = "sent";
  sent_at = now;
  sent_by_user_id = acting_user_id;
  deleted_at = none;
}

-- The log is saved before the mail is sent.
unfoldable pub create_log :
    ChaseLogServices
    → String
    → String
    → ℕ
    → Option String
    → CreateChaseLogDto
    → Exec (List ChaseLog) ChaseLog
create_log sv id tenant_id now acting_user_id dto = do
  modify (λ s. s ++ (new_log sv id tenant_id now acting_user_id dto ∷ []))
  pure (new_log sv id tenant_id now acting_user_id dto)

-- `order: { sentAt: 'DESC' }`
abbrev pub newest_first : ChaseLog → ChaseLog → Bool
newest_first a b = ltb b.sent_at a.sent_at

abbrev pub is_log_of : String → String → ChaseLog → Bool
is_log_of tenant_id client_id l =
    (l.tenant_id === tenant_id && l.client_id === client_id) && not (is_some l.deleted_at)

pub list_by_client : String → String → List ChaseLog → List ChaseLog
list_by_client tenant_id client_id s =
    sort newest_first (find_all (is_log_of tenant_id client_id) s)

abbrev log_missing : HttpError
log_missing = HttpError.not_found "Chase log not found"

pub update_status : String → String → String → Exec (List ChaseLog) ChaseLog
update_status tenant_id id status = do
  found ←
      gets (λ s.
        find (λ l. l.id === id && (l.tenant_id === tenant_id && not (is_some l.deleted_at))) s)
  log ← require found log_missing
  modify (λ s. update (λ l. l.id === id) (λ l. record l { status = status }) s)
  pure (record log { status = status })

pub record ChaseSummary : Type 0 where
  pub last_chase_at : Option ℕ
  pub chase_count : ℕ
  pub last_status : Option String

-- `if (wanted) { if (found !== wanted) return false } else if (found) return false`
unfoldable pub agrees : Option String → Option String → Bool
agrees (some wanted) (some found) = if truthy wanted then found === wanted else not (truthy found)
agrees (some wanted) none = not (truthy wanted)
agrees none (some found) = not (truthy found)
agrees none none = true

abbrev pub is_since : Option ℕ → ChaseLog → Bool
is_since none l = true
is_since (some since) l = leb since l.sent_at

-- `logs` are the chosen logs, the newest first.
abbrev pub summary_of : List ChaseLog → ChaseSummary
summary_of [] = record { last_chase_at = none; chase_count = 0; last_status = none }
summary_of (l ∷ logs) = record {
  last_chase_at = some l.sent_at;
  chase_count = length (l ∷ logs);
  last_status = some l.status;
}

abbrev pub summary_where :
    String → String → (ChaseLog → Bool) → Option ℕ → List ChaseLog → ChaseSummary
summary_where tenant_id client_id p since s = summary_of (
    find_all (λ l. p l && is_since since l)
      (sort newest_first (find_all (is_log_of tenant_id client_id) s)))

-- The entry of one target in the map that the three summaries return.
pub summary_for_client : String → String → Option ℕ → List ChaseLog → ChaseSummary
summary_for_client tenant_id client_id since s =
    summary_where tenant_id client_id (λ l. true) since s

pub summary_for_business : String → String → Option String → Option ℕ → List ChaseLog → ChaseSummary
unfolding agrees
summary_for_business tenant_id client_id business_id since s =
    summary_where tenant_id client_id (λ l. agrees business_id l.business_id) since s

unfoldable pub summary_for_period :
    ChaseLogServices
    → String
    → String
    → Option String
    → Option String
    → Option ℕ
    → List ChaseLog
    → ChaseSummary
unfolding agrees normalize_date_key
summary_for_period sv tenant_id client_id business_id period_start_date since s =
    let period = normalize_date_key sv period_start_date in
    summary_where tenant_id client_id
      (λ l.
        agrees business_id l.business_id
        && agrees period (normalize_date_key sv l.period_start_date))
      since s
