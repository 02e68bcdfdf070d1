-- ===== src/Tenancy/Tests.antt =====
-- An active company and a suspended one, and the theorem on the middleware applied to them.
use toupac.Prelude.{
  ℕ, ◌≡◌, refl, ◌⊎◌, String, true, false, Option, some, none, List, [], ◌∷◌, str_eq, if◌then◌else◌,
}
use toupac.Prelude.Text.{strip}
use toupac.Tenancy.{Tenant, active, suspended, is_open, Request, is_public, process_request}
use toupac.Tenancy.Cut.{process_request-IsOpen}

abbrev sahel : Tenant
sahel = record { id = 1; slug = "sahel"; status = active }

abbrev dormant : Tenant
dormant = record { id = 2; slug = "dormant"; status = suspended }

abbrev tenants : List Tenant
tenants = sahel ∷ dormant ∷ []

-- a token is the claim itself
abbrev claim : String → Option String
claim token = some token

abbrev uuid : String → Option ℕ
uuid s = if str_eq s "1" then some 1 else if str_eq s "2" then some 2 else none

abbrev by_header : Request
by_header = record {
  path = "/api/v1/voyage/trips/";
  session_tenant = none;
  authorization = "";
  tenant_header = " sahel ";
}

-- the token of a suspended company, with the header of another one
abbrev elsewhere : Request
elsewhere = record by_header { authorization = "Bearer 2"; tenant_header = "sahel" }

moved_over : process_request claim uuid elsewhere tenants ≡ some sahel
unfolding process_request strip
moved_over = refl

-- a session of a suspended company
session_kept :
    process_request claim uuid (record by_header { session_tenant = some dormant }) tenants
    ≡ some dormant
unfolding process_request
session_kept = refl

process_request-IsOpen_example :
    (is_public "/api/v1/voyage/trips/" ≡ false)
    × ((by_header.session_tenant ≡ some sahel)
        ⊎ ((by_header.session_tenant ≡ none) × (is_open active ≡ true)))
unfolding process_request strip
process_request-IsOpen_example = process_request-IsOpen claim uuid by_header tenants sahel refl
