-- ===== src/Portal/Tests.antt =====
-- A client is invited to the portal and uses the link twice.
use mtd_backend.Common.{◌≡◌, true, none, some, [], refl, arith, ◌===◌, find, ok}
use mtd_backend.Portal.{ClientUser, PortalDb, PortalServices}
use mtd_backend.Portal.Accounts.{
  PortalSession, new_client_user, with_password, setup, create_and_invite,
}
use mtd_backend.Portal.Accounts.Setup.{has_token, setup-setup}

abbrev plain : PortalServices
plain = record {
  hash_password = λ s. s;
  compare_password = λ s t. s === t;
  hmac = λ secret s. s;
  email_hash_secret = none;
  jwt_secret = some "secret";
  sign = λ payload now. payload.sub;
  verify = λ token now. none;
  mail_works = λ address. true;
  frontend_url = "https://app.example";
  trim = λ s. s;
  lower = λ s. s;
}

abbrev no_accounts : PortalDb
no_accounts = record {
  users = [];
  messages = [];
  files = [];
  clients = [];
  tenants = [];
  sent = [];
}

abbrev invited : PortalDb
invited = (create_and_invite plain 1000 "p1" "link" "firm" "c1" "cleo@example.com" no_accounts).1

abbrev cleo : ClientUser
cleo = new_client_user plain 1000 "p1" "link" "firm" "c1" "cleo@example.com"

cleo-invited : find (has_token "link") invited.users ≡ some cleo
unfolding create_and_invite find new_client_user
cleo-invited = refl

cleo-expiry : cleo.portal_setup_token_expires_at ≡ some 604801000
unfolding new_client_user
cleo-expiry = refl

setup-setup_example :
    ((r : PortalSession) × ((setup plain 2000 "link" "hers" invited).0 ≡ ok r))
    × ((r : PortalSession) × ((setup plain 3000 "link" "theirs"
            (setup plain 2000 "link" "hers" invited).1).0
          ≡ ok r))
    × (find
          (has_token "link")
          (setup plain 3000 "link" "theirs" (setup plain 2000 "link" "hers" invited).1).1.users
        ≡ some (with_password plain 3000 "theirs" cleo))
setup-setup_example =
    setup-setup plain "link" 2000 3000 604801000 "hers" "theirs" invited cleo cleo-invited
      cleo-expiry (omega arith) (omega arith)
