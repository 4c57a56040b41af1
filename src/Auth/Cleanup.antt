-- ===== src/Auth/Cleanup.antt =====
-- src/modules/auth/token-cleanup.service.ts: the daily deletion of tokens that no longer work.
-- `setDate` goes back by one day on the local clock; the model takes 24 hours off the time, which
-- is the same but across a change to or from summer time.
pub mod Rows
pub mod Requests
pub mod Unseen
use mtd_backend.Common.{ℕ, ◌-◌, ◌+◌, Bool, ◌||◌, ltb, count_where, delete}
use mtd_backend.Auth.Database.{RefreshToken, OneTimeToken, Db}

abbrev pub day_ms : ℕ
day_ms = 86400000

abbrev pub is_stale : ℕ → RefreshToken → Bool
is_stale cutoff r = ltb r.expires_at cutoff || r.is_revoked

abbrev pub is_stale_reset : ℕ → OneTimeToken → Bool
is_stale_reset cutoff t = ltb t.expires_at cutoff || t.is_used

unfoldable pub purge_refresh_tokens : ℕ → Db → Db
purge_refresh_tokens now s = record s {
  refresh_tokens = delete (is_stale (now - day_ms)) s.refresh_tokens;
}

unfoldable pub purge_password_reset_tokens : ℕ → Db → Db
purge_password_reset_tokens now s = record s {
  reset_tokens = delete (is_stale_reset (now - day_ms)) s.reset_tokens;
}

-- The numbers of deleted rows, and the tables without them. Nothing in the repository calls it.
pub run_now : ℕ → Db → (ℕ × ℕ) × Db
run_now now s = (
  (count_where (is_stale now) s.refresh_tokens, count_where (is_stale_reset now) s.reset_tokens),
  record s {
    refresh_tokens = delete (is_stale now) s.refresh_tokens;
    reset_tokens = delete (is_stale_reset now) s.reset_tokens;
  },
)
