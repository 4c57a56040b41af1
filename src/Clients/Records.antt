-- ===== src/Clients/Records.antt =====
-- src/modules/clients/clients.service.ts: the assignment and the fields of a client, its notes, and
-- the customers of the portal. `save` writes the fields that the code has set; one that it set to
-- `undefined` is left as it is in the row.
pub mod Cleared
use Prim.Native.String
use mtd_backend.Common.{
  ℕ, zero, suc, String, Bool, true, false, Option, none, some, List, [], ◌∷◌, ◌++◌, not, ◌&&◌, ltb,
  ◌===◌, is_text, is_some, truthy, get_or, sort, find, find_all, update, if◌then◌else◌, HttpError,
  Result, ok, err, Exec, pure, throw, gets, require, modify, throw_if, attempt, ◌>>=◌, ◌>>◌,
}
use mtd_backend.Users.{User}
use mtd_backend.Users.Permissions.{AppRole}
use mtd_backend.Clients.{Client}
use mtd_backend.Clients.Scope.{
  ClientNote, ClientsDb, in_portal, with_clients, find_one, assert_client_belongs_to_tenant,
}
use mtd_backend.Portal.{PortalServices, Viewer}
use mtd_backend.Portal.Accounts.{create_and_invite}
use mtd_backend.Portal.Customers.{is_portal_email_in_use, revoke_access}

abbrev pub is_staff : AppRole → Bool
is_staff AppRole.staff = true
is_staff _ = false

abbrev pub has_id : String → Client → Bool
has_id id c = c.id === id

-- `clientRepo.save` of a row that is stored.
abbrev pub change_client : String → (Client → Client) → ClientsDb → ClientsDb
change_client id f s = with_clients (update (has_id id) f) s

abbrev pub is_member : String → String → User → Bool
is_member tenant_id id u = (u.id === id && is_text u.tenant_id tenant_id) && u.is_active

unfoldable pub assignee : String → Option String → Exec ClientsDb (Option String)
assignee tenant_id none = pure none
assignee tenant_id (some id) =
    if truthy id
    then (do
      found ← gets (λ s. find (is_member tenant_id id) s.users)
      user ← require found (HttpError.not_found "Team member not found.")
      pure (some user.id))
    else pure none

unfoldable pub assign_client : AppRole → String → String → Option String → Exec ClientsDb Client
unfolding assignee
assign_client role tenant_id client_id assigned_to_user_id = do
  throw_if (is_staff role) (HttpError.forbidden "Only the firm owner can assign clients.")
  client ← find_one tenant_id client_id none
  user_id ← assignee tenant_id assigned_to_user_id
  modify (change_client client.id (λ c. record c { assigned_to_user_id = user_id }))
  pure (record client { assigned_to_user_id = user_id })

pub record ClientFields : Type 0 where
  pub name : Option String
  pub utr : Option String
  pub preferred_name : Option String

-- `x || undefined`
abbrev pub or_undefined : String → Option String
or_undefined s = if truthy s then some s else none

-- A field that is `undefined` is not written.
abbrev pub write : Option String → Option String → Option String
write none stored = stored
write (some s) stored = some s

abbrev pub bound : {A B : Type 0} → Option A → (A → Option B) → Option B
bound none f = none
bound (some a) f = f a

module _ (trim : String → String) where
  abbrev pub is_blank_name : Option String → Bool
  is_blank_name none = false
  is_blank_name (some name) = not (truthy (trim name))

  -- The row that `save` leaves.
  abbrev pub with_fields : ClientFields → Client → Client
  with_fields fields c = record c {
    name = get_or (bound fields.name (λ s. some (trim s))) c.name;
    utr = write (bound fields.utr or_undefined) c.utr;
    preferred_name =
        write (bound fields.preferred_name (λ s. or_undefined (trim s))) c.preferred_name;
  }

  -- What the entity holds that is returned: a field that was set to `undefined` is missing there.
  abbrev set : Option String → (String → Option String) → Option String → Option String
  set none f stored = stored
  set (some s) f stored = f s

  abbrev answered : ClientFields → Client → Client
  answered fields c = record (with_fields fields c) {
    utr = set fields.utr or_undefined c.utr;
    preferred_name = set fields.preferred_name (λ s. or_undefined (trim s)) c.preferred_name;
  }

  unfoldable pub update_client :
      String → String → ClientFields → Option Viewer → Exec ClientsDb Client
  unfolding find_one
  update_client tenant_id id fields viewer = do
    client ← find_one tenant_id id viewer
    throw_if (is_blank_name fields.name) (HttpError.bad_request "Client name cannot be empty.")
    modify (change_client client.id (with_fields fields))
    pure (answered fields client)

-- `order: { isPinned: 'DESC', createdAt: 'DESC' }`
abbrev pub is_shown_before : ClientNote → ClientNote → Bool
is_shown_before a b =
    if a.is_pinned
    then (if b.is_pinned then ltb b.created_at a.created_at else true)
    else (if b.is_pinned then false else ltb b.created_at a.created_at)

abbrev pub is_note_of : String → String → ClientNote → Bool
is_note_of tenant_id client_id n =
    (n.tenant_id === tenant_id && n.client_id === client_id) && not (is_some n.deleted_at)

unfoldable pub get_notes : String → String → Option Viewer → Exec ClientsDb (List ClientNote)
get_notes tenant_id client_id viewer = do
  assert_client_belongs_to_tenant tenant_id client_id viewer
  gets (λ s. sort is_shown_before (find_all (is_note_of tenant_id client_id) s.notes))

abbrev pub change_notes : (List ClientNote → List ClientNote) → ClientsDb → ClientsDb
change_notes f s = record s { notes = f s.notes }

abbrev pub new_note : String → ℕ → String → String → String → String → ClientNote
new_note id now tenant_id client_id text author_name = record {
  id = id;
  tenant_id = tenant_id;
  client_id = client_id;
  text = text;
  author_name = author_name;
  is_pinned = false;
  created_at = now;
  deleted_at = none;
}

unfoldable pub create_note :
    String → ℕ → String → String → String → String → Option Viewer → Exec ClientsDb ClientNote
create_note id now tenant_id client_id text author_name viewer = do
  assert_client_belongs_to_tenant tenant_id client_id viewer
  modify
      (change_notes (λ notes. notes ++ (new_note id now tenant_id client_id text author_name ∷ [])))
  pure (new_note id now tenant_id client_id text author_name)

abbrev pub note_missing : HttpError
note_missing = HttpError.not_found "Note not found"

unfoldable pub find_note : String → String → String → Exec ClientsDb ClientNote
find_note tenant_id client_id note_id = do
  found ← gets (λ s. find (λ n. n.id === note_id && is_note_of tenant_id client_id n) s.notes)
  require found note_missing

abbrev pub patched : Option String → Option Bool → ClientNote → ClientNote
patched text is_pinned n = record n {
  text = get_or text n.text;
  is_pinned = get_or is_pinned n.is_pinned;
}

unfoldable pub update_note :
    String
    → String
    → String
    → Option String
    → Option Bool
    → Option Viewer
    → Exec ClientsDb ClientNote
unfolding find_note
update_note tenant_id client_id note_id text is_pinned viewer = do
  assert_client_belongs_to_tenant tenant_id client_id viewer
  note ← find_note tenant_id client_id note_id
  modify (change_notes (update (λ n. n.id === note.id) (patched text is_pinned)))
  pure (patched text is_pinned note)

unfoldable pub delete_note : ℕ → String → String → String → Option Viewer → Exec ClientsDb Unit
unfolding find_note
delete_note now tenant_id client_id note_id viewer = do
  assert_client_belongs_to_tenant tenant_id client_id viewer
  note ← find_note tenant_id client_id note_id
  modify (change_notes (update (λ n. n.id === note_id) (λ n. record n { deleted_at = some now })))
