-- ===== src/Clients/Isolation.antt =====
-- What staff can do with the clients of others.
use mtd_backend.Common.{
  ℕ, String, Bool, false, Option, some, ◌≡◌, ◌&&◌, ◌===◌, is_text, Exec, pure, ◌>>=◌,
}
use mtd_backend.Users.Permissions.{AppRole}
use mtd_backend.Clients.{Client}
use mtd_backend.Clients.Scope.{ClientsDb, find_one, staff_client_where}
use mtd_backend.Clients.Records.{
  ClientFields, update_client, get_notes, create_note, update_note, delete_note,
}
use mtd_backend.Clients.Customers.{remove_portal_customer}
use mtd_backend.Portal.{PortalServices, Viewer}

-- A request on one client of the firm.
pub data ClientRequest : Type 0 where
  read_client list_notes remove_customer : ClientRequest
  change_fields : ClientFields → ClientRequest
  add_note : String → String → String → ClientRequest
  change_note : String → Option String → Option Bool → ClientRequest
  remove_note : String → ClientRequest

-- The answer is left aside.
abbrev pub done : {A : Type 0} → Exec ClientsDb A → Exec ClientsDb Unit
done m = m >>= λ a. pure tt

module _ (sv : PortalServices) (now : ℕ) (tenant_id client_id : String) where
  unfoldable pub handle : Viewer → ClientRequest → Exec ClientsDb Unit
  unfolding find_one
  handle viewer read_client = done (find_one tenant_id client_id (some viewer))
  handle viewer list_notes = done (get_notes tenant_id client_id (some viewer))
  handle viewer remove_customer = remove_portal_customer sv now tenant_id client_id (some viewer)
  handle viewer (change_fields fields) =
      done (update_client sv.trim tenant_id client_id fields (some viewer))
  handle viewer (add_note id text author_name) =
      done (create_note id now tenant_id client_id text author_name (some viewer))
  handle viewer (change_note id text is_pinned) =
      done (update_note tenant_id client_id id text is_pinned (some viewer))
  handle viewer (remove_note id) = delete_note now tenant_id client_id id (some viewer)

  -- The row is no client of the viewer.
  abbrev pub IsOthers : Viewer → Client → Type 0
  IsOthers viewer c = (c.id === client_id && is_text c.assigned_to_user_id viewer.user_id) ≡ false

  -- The member of the staff that asks.
  abbrev pub staff_viewer : String → Viewer
  staff_viewer user_id = record { role = AppRole.staff; user_id = user_id }

  abbrev is_found : String → Client → Bool
  is_found user_id c =
      c.id === client_id && staff_client_where tenant_id (some (staff_viewer user_id)) false c
