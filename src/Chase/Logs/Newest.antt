-- ===== src/Chase/Logs/Newest.antt =====
-- The newest chase of a period.
use mtd_backend.Common.{
  sort, insert, ℕ, ◌+◌, String, Bool, true, Option, none, some, List, [], ◌∷◌, ◌++◌, ◌≡◌, ◌∙◌, refl,
  ap, inl, inr, arith, ◌&&◌, find_all, eq_refl, All, Bool-cases,
}
use mtd_backend.Chase.Logs.{
  ChaseLog, CreateChaseLogDto, ChaseLogServices, trimmed, normalize_date_key, agrees, new_log,
  create_log, newest_first, is_log_of, summary_of, summary_where, summary_for_period,
}

abbrev pub IsBefore : ChaseLog → ChaseLog → Type 0
IsBefore x l = newest_first x l ≡ true

sort-append_newest :
    (x : ChaseLog) (s : List ChaseLog)
    → All (IsBefore x) s
    → sort newest_first (s ++ (x ∷ [])) ≡ x ∷ sort newest_first s
unfolding sort insert
sort-append_newest x [] h = refl
sort-append_newest x (l ∷ s) (h, more) = rw (sort-append_newest x s more, h) refl

find_all-append_true :
    (p : ChaseLog → Bool) (x : ChaseLog) (s : List ChaseLog)
    → p x ≡ true
    → find_all p (s ++ (x ∷ [])) ≡ find_all p s ++ (x ∷ [])
unfolding find_all
find_all-append_true p x [] h = rw h refl
find_all-append_true p x (l ∷ s) h = elim (Bool-cases (p l)) [
  | inl e ↦ rw (e, find_all-append_true p x s h) refl
  | inr e ↦ rw (e, find_all-append_true p x s h) refl
]

All-find_all :
    (P : ChaseLog → Type 0) (p : ChaseLog → Bool) (s : List ChaseLog)
    → All P s
    → All P (find_all p s)
unfolding find_all
All-find_all P p [] h = tt
All-find_all P p (l ∷ s) (h, more) = elim (Bool-cases (p l)) [
  | inl e ↦ rw e (h, All-find_all P p s more)
  | inr e ↦ rw e (All-find_all P p s more)
]

summary_of-cons :
    (x : ChaseLog) (logs : List ChaseLog)
    → summary_of (x ∷ logs) ≡ record {
      last_chase_at = some x.sent_at;
      chase_count = (summary_of logs).chase_count + 1;
      last_status = some x.status;
    }
summary_of-cons x [] = refl
summary_of-cons x (l ∷ logs) = ground arith

chosen-newest :
    (tenant_id client_id : String) (p : ChaseLog → Bool) (x : ChaseLog) (s : List ChaseLog)
    → is_log_of tenant_id client_id x ≡ true
    → p x ≡ true
    → All (IsBefore x) s
    → find_all p (sort newest_first (find_all (is_log_of tenant_id client_id) (s ++ (x ∷ []))))
      ≡ x ∷ find_all p (sort newest_first (find_all (is_log_of tenant_id client_id) s))
unfolding find_all
chosen-newest tenant_id client_id p x s own chosen h =
    let older = All-find_all (IsBefore x) (is_log_of tenant_id client_id) s h in
    ap (λ logs. find_all p (sort newest_first logs))
      (find_all-append_true (is_log_of tenant_id client_id) x s own)
    ∙ ap (find_all p) (sort-append_newest x (find_all (is_log_of tenant_id client_id) s) older)
    ∙ rw chosen refl

summary_where-newest :
    (tenant_id client_id : String) (p : ChaseLog → Bool) (x : ChaseLog) (s : List ChaseLog)
    → is_log_of tenant_id client_id x ≡ true
    → p x ≡ true
    → All (IsBefore x) s
    → summary_where tenant_id client_id p none (s ++ (x ∷ [])) ≡ record {
      last_chase_at = some x.sent_at;
      chase_count = (summary_where tenant_id client_id p none s).chase_count + 1;
      last_status = some x.status;
    }
summary_where-newest tenant_id client_id p x s own chosen h =
    ap summary_of (chosen-newest tenant_id client_id (λ l. p l && true) x s own (rw chosen refl) h)
    ∙ summary_of-cons x _

-- After a chase was logged later than every other one, the summary of its period names the time of
-- that chase and the status `sent`, and counts one chase more.
pub summary_for_period-create_log :
    (sv : ChaseLogServices) (id tenant_id : String) (now : ℕ) (acting_user_id : Option String)
    (dto : CreateChaseLogDto) (business_id period_start_date : Option String) (s : List ChaseLog)
    → All (IsBefore (new_log sv id tenant_id now acting_user_id dto)) s
    → agrees business_id (trimmed sv dto.business_id) ≡ true
    → agrees
        (normalize_date_key sv period_start_date)
        (normalize_date_key sv (trimmed sv dto.period_start_date))
      ≡ true
    → summary_for_period sv tenant_id dto.client_id business_id period_start_date none
        (create_log sv id tenant_id now acting_user_id dto s).1
      ≡ record {
        last_chase_at = some now;
        chase_count =
            (summary_for_period sv tenant_id dto.client_id business_id period_start_date none
              s).chase_count
            + 1;
        last_status = some "sent";
      }
unfolding summary_for_period create_log
summary_for_period-create_log sv id tenant_id now acting dto business_id period s h same_business
      same_period =
    summary_where-newest tenant_id dto.client_id _ (new_log sv id tenant_id now acting dto) s
      (rw (eq_refl tenant_id, eq_refl dto.client_id) refl) (rw (same_business, same_period) refl) h
