-- ===== src/Team/Invitations/Once.antt =====
-- An invitation is accepted at most once.
use mtd_backend.Common.{
  ℕ, ◌≤◌, String, false, Option, none, some, ◌≡◌, ◌∙◌, refl, sym, inl, inr, arith, ◌===◌, eq_iff,
  Distinct, find, find-true, find-spent, update, Option-cases, Bool-cases, ok, err,
}
use mtd_backend.Users.{User}
use mtd_backend.Users.Accounts.{email_exists, create_user, mark_email_verified}
use mtd_backend.Tenants.{Tenant}
use mtd_backend.Team.{StaffInvite, TeamDb, TeamServices, invalid_invite}
use mtd_backend.Team.Invitations.{
  is_pending_raw, find_valid_pending_invite, staff_of_invite, accepted, accept_invite,
}

module _ (sv : TeamServices) (now : ℕ) (user_id raw password : String) (s u : TeamDb)
    (user : User) where
  -- What an acceptance has checked and done.
  pub record IsAccepted : Type 0 where
    pub invite : StaffInvite
    pub tenant : Option Tenant
    pub found : find (is_pending_raw sv now raw) s.invites ≡ some invite
    pub current : now ≤ invite.expires_at
    pub free : email_exists invite.email s.users ≡ false
    pub users :
        u.users
        ≡ mark_email_verified user_id
            (create_user user_id (staff_of_invite sv now password invite tenant) s.users)
    pub invites : u.invites ≡ update (λ i. i.id === invite.id) (accepted sv now user_id) s.invites

  accept_invite-IsAccepted : accept_invite sv now user_id raw password s ≡ (ok user, u) → IsAccepted
  unfolding accept_invite find_valid_pending_invite
  accept_invite-IsAccepted h = elim (Option-cases (find (is_pending_raw sv now raw) s.invites)) [
    | inl missing ↦ absurd (ground arith)
    | inr (invite, found) ↦ record {
      invite = invite;
      tenant = find (λ t. t.id === invite.tenant_id) s.tenants;
      found = found;
      current = ground arith;
      free = ground arith;
      users = ground arith;
      invites = ground arith;
    }
  ]

module _ (sv : TeamServices) (now : ℕ) (user_id raw password : String) (s u : TeamDb)
    (user : User) where
  invite-missing :
      (later : ℕ) (other_id other_password : String) (v : TeamDb)
      → find (is_pending_raw sv now raw) v.invites ≡ none
      → accept_invite sv later other_id raw other_password v ≡ (err invalid_invite, v)
  unfolding accept_invite find_valid_pending_invite
  invite-missing later other_id other_password v missing = elim (Bool-cases (sv.trim raw === "")) [
    | inl blank ↦ rw blank refl
    | inr filled ↦ rw (filled, missing) refl
  ]

  -- An invitation is accepted once: if the stored hashes differ, the same link is refused at any
  -- later time, with nothing changed. It was pending and had not expired, and no user had its
  -- address.
  pub accept_invite_once :
      (later : ℕ) (other_id other_password : String)
      → Distinct (λ i. i.token_hash) s.invites
      → accept_invite sv now user_id raw password s ≡ (ok user, u)
      → IsAccepted sv now user_id raw password s u user
        × (accept_invite sv later other_id raw other_password u ≡ (err invalid_invite, u))
  accept_invite_once later other_id other_password distinct h =
      let done = accept_invite-IsAccepted sv now user_id raw password s u user h in
      let live = find-true (is_pending_raw sv now raw) s.invites done.invite done.found in
      let hash : done.invite.token_hash ≡ sv.sha256 raw =
        (eq_iff done.invite.token_hash (sv.sha256 raw)).0 (ground arith) in
      (
        done,
        invite-missing later other_id other_password u (
            rw (done.invites) (
              find-spent (λ i. i.token_hash) (λ i. i.id) (is_pending_raw sv now raw)
                (accepted sv now user_id) s.invites done.invite distinct done.found
                (λ i alive. (eq_iff i.token_hash (sv.sha256 raw)).0 (ground arith) ∙ sym hash)
                (λ i. ground arith))),
      )
