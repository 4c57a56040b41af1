-- ===== src/Clients/Records/Cleared.antt =====
-- Fields that cannot be cleared.
use mtd_backend.Common.{
  String, Bool, false, Option, none, some, List, [], ◌∷◌, ◌≡◌, refl, ap, ◌&&◌, ◌===◌, truthy, find,
  update, Bool-cases, inl, inr, ok,
}
use mtd_backend.Clients.{Client}
use mtd_backend.Clients.Scope.{ClientsDb, with_clients, find_one, staff_client_where}
use mtd_backend.Clients.Records.{ClientFields, has_id, with_fields, update_client}
use mtd_backend.Portal.{Viewer}

update-same :
    (p : Client → Bool) (f : Client → Client) (xs : List Client)
    → ((c : Client) → f c ≡ c)
    → update p f xs ≡ xs
unfolding update
update-same p f [] h = refl
update-same p f (c ∷ xs) h = elim (Bool-cases (p c)) [
  | inl e ↦ rw (e, h c, update-same p f xs h) refl
  | inr e ↦ rw (e, update-same p f xs h) refl
]

-- A request that empties the tax reference and the preferred name.
abbrev pub cleared : String → ClientFields
cleared blank = record { name = none; utr = some ""; preferred_name = some blank }

-- A request to empty the tax reference and the preferred name of a client (by the empty text and a
-- text that is blank) is answered with both fields missing, and changes nothing in the tables.
pub update_client-cleared :
    (trim : String → String) (tenant_id id blank : String) (viewer : Option Viewer) (s : ClientsDb)
    (client : Client)
    → truthy (trim blank) ≡ false
    → find (λ c. c.id === id && staff_client_where tenant_id viewer false c) s.portal.clients
      ≡ some client
    → update_client trim tenant_id id (cleared blank) viewer s
      ≡ (ok (record client { utr = none; preferred_name = none }), s)
unfolding update_client find_one
update_client-cleared trim tenant_id id blank viewer s client h found =
    rw (found, h)
      (ap
        (λ clients.
          (ok (record client { utr = none; preferred_name = none }), with_clients (λ _. clients) s))
        (update-same (has_id client.id) (with_fields trim (cleared blank)) s.portal.clients
          (λ c. rw h refl)))
