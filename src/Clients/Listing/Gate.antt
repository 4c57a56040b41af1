-- ===== src/Clients/Listing/Gate.antt =====
-- The gate in front of the calls on a client's taxes.
use mathlib.Core.Path.{subst}
use mtd_backend.Common.{
  continue-Keeps, ℕ, String, true, false, none, some, ◌≡◌, ◌∙◌, refl, ap, sym, ◌&&◌, ◌===◌, eq_iff,
  is_some, find, find-true, Bool-cases, Option-cases, Run-cases, inl, inr, arith, ok,
}
use mtd_backend.Clients.{Client}
use mtd_backend.Clients.Agents.{Services, is_accepted}
use mtd_backend.Clients.Scope.{ClientsDb, in_hmrc, find_one, staff_client_where}
use mtd_backend.Clients.Invitations.{sync_relationship_from_hmrc}
use mtd_backend.Clients.Listing.{
  Access, no_access, access, try_access, verify_with, verify_and_persist_relationship,
  check_relationship_status, ensure_client_authorised_for_mtd,
}
use mtd_backend.Hmrc.Connections.{get_status}

-- The row is the client of the firm with that id.
abbrev pub IsStored : String → String → ClientsDb → Client → Type 0
IsStored tenant_id id s client =
    find (λ c. c.id === id && staff_client_where tenant_id none false c) s.portal.clients
    ≡ some client

find_one-IsStored :
    (tenant_id id : String) (s s' : ClientsDb) (client : Client)
    → find_one tenant_id id none s ≡ (ok client, s')
    → IsStored tenant_id id s' client
unfolding find_one
find_one-IsStored tenant_id id s s' client h =
    elim (Option-cases
      (find (λ c. c.id === id && staff_client_where tenant_id none false c) s.portal.clients)) [
        | inl missing ↦ let failed = rw missing at h in absurd (ground arith)
        | inr (c, found) ↦
            let got = rw found at h in
            let same : c ≡ client = cc in
            let after : s ≡ s' = ap (λ r. r.1) got in rw (← after) (found ∙ ap some same)
      ]

module _ (sv : Services) (now : ℕ) where
  try_access-portal :
      (tenant_id : String) (s : ClientsDb) → (try_access sv now tenant_id s).1.portal ≡ s.portal
  unfolding try_access
  try_access-portal tenant_id s =
      continue-Keeps (λ u. u.portal ≡ s.portal) (in_hmrc (get_status sv.hmrc now tenant_id) s) _
        refl (λ connection u k. k)

  verify_with-IsStored :
      (tenant_id id : String) (s s' : ClientsDb) (c client : Client) (a : Access)
      → IsStored tenant_id id s c
      → verify_with sv now tenant_id c a s ≡ (ok client, s')
      → IsStored tenant_id id s' client
  unfolding verify_with
  verify_with-IsStored tenant_id id s s' c client no_access found h =
      let same : c ≡ client = cc in
      let after : s ≡ s' = ap (λ r. r.1) h in rw (← after) (found ∙ ap some same)
  verify_with-IsStored tenant_id id s s' c client (access arn token) found h =
      let own =
        find-true (λ x. x.id === id && staff_client_where tenant_id none false x) s.portal.clients c
          found in
      let same_id : c.id ≡ id = (eq_iff c.id id).0 (ground arith) in
      elim (Run-cases (sync_relationship_from_hmrc sv now c arn token s)) [
        | inr (e, u, failed) ↦ let thrown = rw failed at h in absurd (ground arith)
        | inl (_, u, done) ↦
            subst (λ x. IsStored tenant_id x s' client) same_id
              (find_one-IsStored tenant_id c.id u s' client (rw done at h))
      ]

  verify-IsStored :
      (tenant_id id : String) (s s' : ClientsDb) (c client : Client)
      → IsStored tenant_id id s c
      → verify_and_persist_relationship sv now tenant_id c s ≡ (ok client, s')
      → IsStored tenant_id id s' client
  unfolding verify_and_persist_relationship
  verify-IsStored tenant_id id s s' c client found h =
      elim (Bool-cases (is_accepted c.invitation_status)) [
        | inr open_ ↦
            let got = rw open_ at h in
            let same : c ≡ client = cc in
            let after : s ≡ s' = ap (λ r. r.1) got in rw (← after) (found ∙ ap some same)
        | inl accepted ↦
            let asked = rw accepted at h in
            elim (Run-cases (try_access sv now tenant_id s)) [
              | inr (e, u, failed) ↦ let thrown = rw failed at asked in absurd (ground arith)
              | inl (a, u, done) ↦
                  let kept : u.portal ≡ s.portal = rw done at (try_access-portal tenant_id s) in
                  verify_with-IsStored tenant_id id u s' c client a
                    (ap
                        (λ p.
                          find (λ x. x.id === id && staff_client_where tenant_id none false x)
                            p.clients)
                        kept
                      ∙ found)
                    (rw done at asked)
            ]
      ]

  check-IsStored :
      (tenant_id id : String) (s s' : ClientsDb) (client : Client)
      → check_relationship_status sv now tenant_id id s ≡ (ok client, s')
      → IsStored tenant_id id s' client
  unfolding check_relationship_status
  check-IsStored tenant_id id s s' client h = elim (Run-cases (find_one tenant_id id none s)) [
    | inr (e, u, failed) ↦ let thrown = rw failed at h in absurd (ground arith)
    | inl (c, u, done) ↦
        verify-IsStored tenant_id id u s' c client (find_one-IsStored tenant_id id s u c done)
          (rw done at h)
  ]

  -- A client that the gate lets through has a date of authorisation, and is the row that is stored
  -- at that moment for the firm under the id that was asked for.
  pub ensure_client-IsStored :
      (tenant_id id : String) (s s' : ClientsDb) (client : Client)
      → ensure_client_authorised_for_mtd sv now tenant_id id s ≡ (ok client, s')
      → (is_some client.authorised_at ≡ true) × IsStored tenant_id id s' client
  unfolding ensure_client_authorised_for_mtd
  ensure_client-IsStored tenant_id id s s' client h =
      elim (Run-cases (check_relationship_status sv now tenant_id id s)) [
        | inr (e, u, failed) ↦ let thrown = rw failed at h in absurd (ground arith)
        | inl (c, u, done) ↦
            let checked = rw done at h in
            elim (Bool-cases (is_some c.authorised_at)) [
              | inr open_ ↦ let thrown = rw open_ at checked in absurd (ground arith)
              | inl authorised ↦
                  let passed = rw authorised at checked in
                  let same : c ≡ client = cc in
                  let after : u ≡ s' = ap (λ r. r.1) passed in
                  (
                    ap (λ x. is_some x.authorised_at) (sym same) ∙ authorised,
                    subst (λ x. IsStored tenant_id id x client) after
                        (check-IsStored tenant_id id s u client (done ∙ ap (λ x. (ok x, u)) same)),
                  )
            ]
      ]
