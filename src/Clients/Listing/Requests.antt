-- ===== src/Clients/Listing/Requests.antt =====
-- No request on invitations, lists and checks makes a client authorised that HMRC does not confirm.
use mtd_backend.Common.{ℕ, String, Option, List, [], ◌∷◌}
use mtd_backend.Clients.Scope.{ClientsDb}
use mtd_backend.Clients.Agents.{Services, CreateClientDto}
use mtd_backend.Clients.Invitations.{create, resend_invitation}
use mtd_backend.Clients.Listing.{
  Texts, ListClientsQuery, find_all_clients, find_outstanding_invitations,
  find_invitation_panel_clients, check_invitation_status, check_relationship_status,
  ensure_client_authorised_for_mtd,
}
use mtd_backend.Portal.{Viewer}

-- A request to the service that may ask HMRC about clients.
pub data HmrcRequest : Type 0 where
  add_client : String → String → String → CreateClientDto → HmrcRequest
  resend : String → HmrcRequest
  list_clients : Texts → ListClientsQuery → Option Viewer → HmrcRequest
  list_outstanding list_panel : Option Viewer → HmrcRequest
  check_invitation check_relationship ensure_authorised : String → HmrcRequest

module _ (sv : Services) where
  -- A request of a firm at a time, and the tables after it.
  pub request_run : ℕ → String → HmrcRequest → ClientsDb → ClientsDb
  request_run now t (add_client id user_id link dto) s = (create sv now id user_id link t dto s).1
  request_run now t (resend id) s = (resend_invitation sv now t id s).1
  request_run now t (list_clients tx query viewer) s =
      (find_all_clients sv now tx t query viewer s).1
  request_run now t (list_outstanding viewer) s = (find_outstanding_invitations sv now t viewer s).1
  request_run now t (list_panel viewer) s = (find_invitation_panel_clients sv now t viewer s).1
  request_run now t (check_invitation id) s = (check_invitation_status sv now t id s).1
  request_run now t (check_relationship id) s = (check_relationship_status sv now t id s).1
  request_run now t (ensure_authorised id) s = (ensure_client_authorised_for_mtd sv now t id s).1

  pub requests_run : List (ℕ × String × HmrcRequest) → ClientsDb → ClientsDb
  unfolding request_run
  requests_run [] s = s
  requests_run ((now, t, request) ∷ requests) s =
      requests_run requests (request_run now t request s)
