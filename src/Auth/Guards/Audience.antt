-- ===== src/Auth/Guards/Audience.antt =====
-- The audience check after `validate`.
use mtd_backend.Common.{ℕ, Option, none, some, List, ◌≡◌, ◌≢◌, ◌↔◌, arith, ok}
use mtd_backend.Users.Permissions.{AppRole, audience_for_role}
use mtd_backend.Auth.Jwt.{JwtPayload, RequestUser, Accounts, validate}
use mtd_backend.Auth.Jwt.Laws.{validate-IsAdmitted}
use mtd_backend.Auth.Guards.{AuthAudienceType, any_audience, handle_request}

-- For a user that `validate` returned, a route with no audience decorator is open exactly to those
-- who are not platform admins, an admin route exactly to platform admins, and a route for any
-- audience to all.
pub handle_request-validate :
    (db : Accounts) (url : Option (List ℕ)) (now : ℕ) (payload : JwtPayload) (user : RequestUser)
    → validate db url now payload ≡ ok user
    → ((handle_request none (some user) none ≡ ok user) ↔ (user.role ≢ AppRole.admin))
      × ((handle_request none (some user) (some AuthAudienceType.admin) ≡ ok user)
          ↔ (user.role ≡ AppRole.admin))
      × (handle_request none (some user) (some any_audience) ≡ ok user)
unfolding handle_request audience_for_role
handle_request-validate db url now payload user h =
    let admitted = validate-IsAdmitted db url now payload user h in
    let coherent : user.audience ≡ audience_for_role user.role = admitted.audience in ground arith
