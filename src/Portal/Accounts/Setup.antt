-- ===== src/Portal/Accounts/Setup.antt =====
-- The link of an invitation to the portal.
use mtd_backend.Common.{
  ℕ, ◌≤◌, String, Bool, false, some, ◌≡◌, ◌∙◌, refl, ap, arith, ltb, ◌===◌, eq_refl, is_text, find,
  find-update_kept, update, ok,
}
use mtd_backend.Portal.{ClientUser, PortalDb, PortalServices}
use mtd_backend.Portal.Accounts.{PortalSession, session_of, with_password, setup}

abbrev pub has_token : String → ClientUser → Bool
has_token token u = is_text u.portal_setup_token token

module _ (sv : PortalServices) (token : String) where
  -- Until the link expires it sets a password.
  setup-row :
      (now expires_at : ℕ) (password : String) (s : PortalDb) (cu : ClientUser)
      → find (has_token token) s.users ≡ some cu
      → cu.portal_setup_token_expires_at ≡ some expires_at
      → now ≤ expires_at
      → setup sv now token password s
        ≡ session_of sv now cu (record s {
          users = update (λ u. u.id === cu.id) (with_password sv now password) s.users;
        })
  unfolding setup
  setup-row now expires_at password s cu found expiry soon =
      let current : ltb expires_at now ≡ false = ground arith in rw (found, expiry, current) refl

  session_of-ok :
      (now : ℕ) (cu : ClientUser) (s : PortalDb)
      → (r : PortalSession) × (session_of sv now cu s ≡ (ok r, s))
  unfolding session_of
  session_of-ok now cu s = (_, refl)

  -- A use of the link: it is answered, and its row is found by the link again.
  setup-used :
      (now expires_at : ℕ) (password : String) (s : PortalDb) (cu : ClientUser)
      → find (has_token token) s.users ≡ some cu
      → cu.portal_setup_token_expires_at ≡ some expires_at
      → now ≤ expires_at
      → ((r : PortalSession) × ((setup sv now token password s).0 ≡ ok r))
        × (find (has_token token) (setup sv now token password s).1.users
            ≡ some (with_password sv now password cu))
  setup-used now expires_at password s cu found expiry soon =
      let row = setup-row now expires_at password s cu found expiry soon in
      let (r, done) = session_of-ok now cu (record s {
        users = update (λ u. u.id === cu.id) (with_password sv now password) s.users;
      }) in
      (
        (r, ap (λ p. p.0) (row ∙ done)),
        ap (λ p. find (has_token token) p.1.users) (row ∙ done)
            ∙ find-update_kept (has_token token) (λ u. u.id === cu.id)
                (with_password sv now password) s.users cu (λ x. refl) found (eq_refl cu.id),
      )

  -- The link that sets the first password of a portal account is not used up: until the time at
  -- which it expires it can be used again, and whoever uses it then gets a session and replaces
  -- the password that was set.
  pub setup-setup :
      (now later expires_at : ℕ) (password other : String) (s : PortalDb) (cu : ClientUser)
      → find (has_token token) s.users ≡ some cu
      → cu.portal_setup_token_expires_at ≡ some expires_at
      → now ≤ expires_at
      → later ≤ expires_at
      → ((r : PortalSession) × ((setup sv now token password s).0 ≡ ok r))
        × ((r : PortalSession) × ((setup sv later token other (setup sv now token password s).1).0
              ≡ ok r))
        × (find
              (has_token token)
              (setup sv later token other (setup sv now token password s).1).1.users
            ≡ some (with_password sv later other cu))
  setup-setup now later expires_at password other s cu found expiry soon still =
      let (first, kept) = setup-used now expires_at password s cu found expiry soon in
      let (second, row) =
        setup-used later expires_at other (setup sv now token password s).1
          (with_password sv now password cu) kept expiry still in
      (first, second, row)
