-- ===== src/Clients/Listing/Authorised.antt =====
-- No request on lists and checks makes a client authorised that HMRC has not confirmed.
use mtd_backend.Common.{
  Keeps, continue-Keeps, Keeps-throw_if, ℕ, String, Option, none, some, List, [], ◌∷◌, inl, inr,
  not, is_some, present, Bool-cases, arith, Result, ok, err, Exec, continue, throw_if, ◌>>=◌, ◌>>=◌,
}
use mtd_backend.Clients.{Client}
use mtd_backend.Clients.Scope.{ClientsDb, find_one, in_hmrc}
use mtd_backend.Clients.Agents.{Services, is_accepted}
use mtd_backend.Clients.Invitations.{sync_relationship_from_hmrc, sync_one_invitation_from_hmrc}
use mtd_backend.Clients.Invitations.Confirmed.{
  AllConfirmed, sync_relationship-Confirmed, sync_one-Confirmed,
}
use mtd_backend.Clients.Listing.{
  Access, no_access, access, ListClientsQuery, Texts, sync_all, sync_some, try_access,
  sync_invitation_statuses_from_hmrc, sync_relationships_from_hmrc, find_all_clients,
  find_outstanding_invitations, find_invitation_panel_clients, verify_and_persist_relationship,
  verify_with, check_invitation_status, check_relationship_status, rethrown, no_invitation,
  not_authorised, ensure_client_authorised_for_mtd, arn_of,
}
use mtd_backend.Hmrc.Connections.{HmrcConnection, get_status, get_valid_access_token}
use mtd_backend.Portal.{Viewer}

module _ (sv : Services) (now : ℕ) where
  abbrev P : ClientsDb → Type 0
  P = AllConfirmed sv.api

  sync_all-Confirmed :
      (sync : Client → String → String → Exec ClientsDb Unit) (clients : List Client) (a : Access)
      → ((c : Client) (arn token : String) → Keeps P (sync c arn token))
      → Keeps P (sync_all sv now sync clients a)
  unfolding sync_all
  sync_all-Confirmed sync clients no_access k s h = h
  sync_all-Confirmed sync [] (access arn token) k s h = h
  sync_all-Confirmed sync (c ∷ clients) (access arn token) k s h =
      sync_all-Confirmed sync clients (access arn token) k _ (k c arn token s h)

  try_access-Confirmed : (tenant_id : String) → Keeps P (try_access sv now tenant_id)
  unfolding try_access
  try_access-Confirmed tenant_id s h =
      continue-Keeps P (in_hmrc (get_status sv.hmrc now tenant_id) s) _ h (λ connection u k. k)

  sync_some-Confirmed :
      (tenant_id : String) (sync : Client → String → String → Exec ClientsDb Unit)
      (clients : List Client)
      → ((c : Client) (arn token : String) → Keeps P (sync c arn token))
      → Keeps P (sync_some sv now tenant_id sync clients)
  unfolding sync_some
  sync_some-Confirmed tenant_id sync [] k s h = h
  sync_some-Confirmed tenant_id sync (c ∷ clients) k s h =
      continue-Keeps P (try_access sv now tenant_id s) _ (try_access-Confirmed tenant_id s h)
        (λ a. sync_all-Confirmed sync (c ∷ clients) a k)

  pub find_all_clients-Confirmed :
      (tx : Texts) (tenant_id : String) (query : ListClientsQuery) (viewer : Option Viewer)
      → Keeps P (find_all_clients sv now tx tenant_id query viewer)
  unfolding find_all_clients sync_invitation_statuses_from_hmrc sync_relationships_from_hmrc
  find_all_clients-Confirmed tx tenant_id query viewer s h =
      continue-Keeps P (sync_invitation_statuses_from_hmrc sv now tenant_id _ s) _
        (sync_some-Confirmed tenant_id (sync_one_invitation_from_hmrc sv now) _
          (sync_one-Confirmed sv now) s h)
        (λ _ u k.
          continue-Keeps P (sync_relationships_from_hmrc sv now tenant_id _ u) _
            (sync_some-Confirmed tenant_id (sync_relationship_from_hmrc sv now) _
              (sync_relationship-Confirmed sv now) u k)
            (λ _ v l. l))

  pub find_outstanding-Confirmed :
      (tenant_id : String) (viewer : Option Viewer)
      → Keeps P (find_outstanding_invitations sv now tenant_id viewer)
  unfolding find_outstanding_invitations sync_invitation_statuses_from_hmrc
  find_outstanding-Confirmed tenant_id viewer s h =
      continue-Keeps P (sync_invitation_statuses_from_hmrc sv now tenant_id _ s) _
        (sync_some-Confirmed tenant_id (sync_one_invitation_from_hmrc sv now) _
          (sync_one-Confirmed sv now) s h)
        (λ _ u k. k)

  pub find_panel-Confirmed :
      (tenant_id : String) (viewer : Option Viewer)
      → Keeps P (find_invitation_panel_clients sv now tenant_id viewer)
  unfolding find_invitation_panel_clients sync_invitation_statuses_from_hmrc
      sync_relationships_from_hmrc
  find_panel-Confirmed tenant_id viewer s h =
      continue-Keeps P (sync_invitation_statuses_from_hmrc sv now tenant_id _ s) _
        (sync_some-Confirmed tenant_id (sync_one_invitation_from_hmrc sv now) _
          (sync_one-Confirmed sv now) s h)
        (λ _ u k.
          continue-Keeps P (sync_relationships_from_hmrc sv now tenant_id _ u) _
            (sync_some-Confirmed tenant_id (sync_relationship_from_hmrc sv now) _
              (sync_relationship-Confirmed sv now) u k)
            (λ _ v l. l))

  pub find_one-Confirmed :
      (tenant_id id : String) (viewer : Option Viewer) → Keeps P (find_one tenant_id id viewer)
  unfolding find_one
  find_one-Confirmed tenant_id id viewer s h = ground arith

  verify_with-Confirmed :
      (tenant_id : String) (client : Client) (a : Access)
      → Keeps P (verify_with sv now tenant_id client a)
  unfolding verify_with
  verify_with-Confirmed tenant_id client no_access s h = h
  verify_with-Confirmed tenant_id client (access arn token) s h =
      continue-Keeps P (sync_relationship_from_hmrc sv now client arn token s) _
        (sync_relationship-Confirmed sv now client arn token s h)
        (λ _. find_one-Confirmed tenant_id client.id none)

  verify-Confirmed :
      (tenant_id : String) (client : Client)
      → Keeps P (verify_and_persist_relationship sv now tenant_id client)
  unfolding verify_and_persist_relationship
  verify-Confirmed tenant_id client s h = elim (Bool-cases (is_accepted client.invitation_status)) [
    | inr e ↦ rw e h
    | inl e ↦ rw e (
        continue-Keeps P (try_access sv now tenant_id s) _ (try_access-Confirmed tenant_id s h)
          (verify_with-Confirmed tenant_id client))
  ]

  pub check_relationship-Confirmed :
      (tenant_id id : String) → Keeps P (check_relationship_status sv now tenant_id id)
  unfolding check_relationship_status
  check_relationship-Confirmed tenant_id id s h =
      continue-Keeps P (find_one tenant_id id none s) _ (find_one-Confirmed tenant_id id none s h)
        (verify-Confirmed tenant_id)

  arn_of-Confirmed : (c : Option HmrcConnection) → Keeps P (arn_of sv now c)
  unfolding arn_of
  arn_of-Confirmed none s h = h
  arn_of-Confirmed (some c) s h = ground arith

  rethrown-Confirmed : (r : Result (Unit {0}) × ClientsDb) → P r.1 → P (rethrown sv now r).1
  rethrown-Confirmed (ok a, s) h = h
  rethrown-Confirmed (err e, s) h = h

  pub check_invitation-Confirmed :
      (tenant_id id : String) → Keeps P (check_invitation_status sv now tenant_id id)
  unfolding check_invitation_status
  check_invitation-Confirmed tenant_id id s h =
      continue-Keeps P (find_one tenant_id id none s) _ (find_one-Confirmed tenant_id id none s h)
        (λ c s1 h1.
          continue-Keeps P (throw_if (not (present c.invitation_id)) no_invitation s1) _
            (Keeps-throw_if P (not (present c.invitation_id)) no_invitation s1 h1)
            (λ _ s2 h2.
              continue-Keeps P (in_hmrc (get_status sv.hmrc now tenant_id) s2) _ h2
                (λ connection s3 h3.
                  continue-Keeps P (arn_of sv now connection s3) _
                    (arn_of-Confirmed connection s3 h3)
                    (λ arn s4 h4.
                      continue-Keeps P (in_hmrc (get_valid_access_token sv.hmrc now tenant_id) s4) _
                        h4
                        (λ token s5 h5.
                          synced tenant_id id
                            (rethrown sv now (sync_one_invitation_from_hmrc sv now c arn token s5))
                            (rethrown-Confirmed
                              (sync_one_invitation_from_hmrc sv now c arn token s5)
                              (sync_one-Confirmed sv now c arn token s5 h5)))))))
    where
      synced :
          (tenant_id id : String) (r : Result (Unit {0}) × ClientsDb)
          → P r.1
          → P
              (continue r (λ _.
                find_one tenant_id id none >>= verify_and_persist_relationship sv now tenant_id)).1
      synced tenant_id id r k = continue-Keeps P r _ k (λ _ u l.
          continue-Keeps P (find_one tenant_id id none u) _
            (find_one-Confirmed tenant_id id none u l) (verify-Confirmed tenant_id))

  pub ensure-Confirmed :
      (tenant_id id : String) → Keeps P (ensure_client_authorised_for_mtd sv now tenant_id id)
  unfolding ensure_client_authorised_for_mtd
  ensure-Confirmed tenant_id id s h =
      continue-Keeps P (check_relationship_status sv now tenant_id id s) _
        (check_relationship-Confirmed tenant_id id s h)
        (λ c s1 h1.
          continue-Keeps P (throw_if (not (is_some c.authorised_at)) not_authorised s1) _
            (Keeps-throw_if P (not (is_some c.authorised_at)) not_authorised s1 h1) (λ _ s2 h2. h2))
