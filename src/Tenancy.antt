-- ===== src/Tenancy.antt =====
-- core/middleware.py: the company of a request, from the session, from the token or from a header.
pub mod Cut
pub mod Tests
use Prim.Native.Char.{code}
use toupac.Prelude.{
  ℕ, zero, suc, String, Bool, true, false, ◌&&◌, ◌||◌, Option, some, none, List, [], ◌∷◌, any,
  first, ◌==◌, str_eq, if◌then◌else◌, or_else,
}
use toupac.Prelude.Text.{is_empty, strip}
use toupac.Numbering.{starts_with}

-- `Tenant.Status`
pub data TenantStatus : Type 0 where
  active suspended trial : TenantStatus

-- `Tenant`
pub record Tenant : Type 0 where
  pub id : ℕ
  pub slug : String
  pub status : TenantStatus

-- `allowed`
abbrev pub is_open : TenantStatus → Bool
is_open active = true
is_open trial = true
is_open suspended = false

-- What the middleware reads of a request: the path, the company of the user whom the session
-- authenticates, the two headers, the empty text where one is absent.
pub record Request : Type 0 where
  pub path : String
  pub session_tenant : Option Tenant
  pub authorization : String
  pub tenant_header : String

-- `PUBLIC_PATH_PREFIXES`
abbrev pub public_path_prefixes : List String
public_path_prefixes =
    "/admin/login" ∷ "/api/v1/auth/login" ∷ "/api/v1/auth/otp/" ∷ "/health"
    ∷ "/api/v1/billing/payments/webhook" ∷ []

unfoldable pub is_public : String → Bool
is_public path = any (λ prefix. starts_with prefix path) public_path_prefixes

-- `text.split(" ", 1)[1]` of a text that has a space
abbrev behind_space : String → String
behind_space String.[] = String.[]
behind_space (String.◌∷◌ c s) = let rest = behind_space s in if code c == 32 then s else rest

-- `jwt.decode` without verification and the claim `tenant_id`, none if the token cannot be decoded or
-- the claim is absent or empty; `uuid.UUID(text)`.
module _ (claimed_tenant : String → Option String) (parse_uuid : String → Option ℕ) where
  abbrev pub open_tenant : (Tenant → Bool) → List Tenant → Option Tenant
  open_tenant p tenants = first (λ t. t.id) (λ t. p t && is_open t.status) tenants

  abbrev pub by_id : Option ℕ → List Tenant → Option Tenant
  by_id none tenants = none
  by_id (some i) tenants = open_tenant (λ t. t.id == i) tenants

  -- `_attach_tenant`, and `_by_uuid` of the header
  unfoldable pub by_uuid : String → List Tenant → Option Tenant
  by_uuid value tenants = by_id (parse_uuid value) tenants

  abbrev pub by_claim : Option String → List Tenant → Option Tenant
  by_claim none tenants = none
  by_claim (some tenant_id) tenants = by_uuid tenant_id tenants

  -- `_resolve_from_jwt`
  unfoldable pub resolve_from_jwt : Request → List Tenant → Option Tenant
  resolve_from_jwt r tenants =
      if starts_with "Bearer " r.authorization
      then by_claim (claimed_tenant (behind_space r.authorization)) tenants
      else none

  -- `_resolve_from_header`
  unfoldable pub resolve_from_header : Request → List Tenant → Option Tenant
  unfolding by_uuid
  resolve_from_header r tenants =
      let header = strip r.tenant_header in
      if is_empty header
      then none
      else or_else (open_tenant (λ t. str_eq t.slug header) tenants) (by_uuid header tenants)

  -- `process_request`: `request.tenant`
  unfoldable pub process_request : Request → List Tenant → Option Tenant
  unfolding resolve_from_jwt resolve_from_header is_public
  process_request r tenants =
      if is_public r.path
      then none
      else or_else r.session_tenant
          (or_else (resolve_from_jwt r tenants) (resolve_from_header r tenants))
