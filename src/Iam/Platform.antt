-- ===== src/Iam/Platform.antt =====
-- iam/platform_scopes.py and iam/platform_permissions.py: what a key of a platform service may call.
pub mod Writes
pub mod Tests
use Prim.Native.String.{◌++◌}
use toupac.Prelude.{
  String, Bool, true, false, not, Option, some, none, List, [], ◌∷◌, select, str_eq, if◌then◌else◌,
}
use toupac.Prelude.Text.{is_empty, strip, is_among}

-- `User.Role`
pub data Role : Type 0 where
  superadmin admin dispatcher agent driver controller client service_account : Role

-- `PlatformCredential`, as the permissions read it
pub record PlatformCredential : Type 0 where
  pub platform_scopes : List String

-- What the permissions read of a request: the key, none where another backend has authenticated it,
-- the role of its user, and the header `X-Tenant-ID`, the empty text where it is absent.
pub record Request : Type 0 where
  pub auth : Option PlatformCredential
  pub role : Option Role
  pub tenant_header : String

-- What they read of a view; an attribute that is not declared is the empty text.
pub record View : Type 0 where
  pub platform_required_scope : String
  pub api_scope_domain : String
  pub action : String

abbrev pub global_scope : String
global_scope = "platform:global:read"

abbrev pub customer_scope : String
customer_scope = "platform:customer:read"

-- the keys of `PLATFORM_AVAILABLE_SCOPES`
abbrev pub platform_available_scopes : List String
platform_available_scopes =
    "platform:voyage:read" ∷ "platform:voyage:write" ∷ "platform:colis:read"
    ∷ "platform:colis:write" ∷ "platform:tracking:read" ∷ "platform:billing:read"
    ∷ "platform:billing:write" ∷ "platform:notifications:read" ∷ customer_scope ∷ global_scope ∷ []

-- the unknown scopes of a list
unfoldable pub validate_platform_scopes : List String → List String
validate_platform_scopes scopes = select (λ s. not (is_among s platform_available_scopes)) scopes

unfoldable pub platform_scope_for_domain : String → Bool → String
platform_scope_for_domain domain write =
    "platform:" ++ (domain ++ (if write then ":write" else ":read"))

abbrev pub has_platform_scope : PlatformCredential → String → Bool
has_platform_scope key scope = is_among scope key.platform_scopes

abbrev pub read_actions : List String
read_actions = "list" ∷ "retrieve" ∷ []

-- `_is_write`
unfoldable pub is_write : View → Bool
is_write view =
    if is_empty view.api_scope_domain then false else not (is_among view.action read_actions)

-- `_required_scope`
unfoldable pub required_scope : View → Option String
required_scope view =
    if not (is_empty view.platform_required_scope)
    then some view.platform_required_scope
    else if is_empty view.api_scope_domain
    then none
    else some (platform_scope_for_domain view.api_scope_domain (is_write view))

abbrev pub is_client : Option Role → Bool
is_client (some client) = true
is_client _ = false

-- The three refusals of `HasPlatformScope`, each with a message of its own.
pub data Refusal : Type 0 where
  not_exposed : Refusal
  lacks_scope : String → Refusal
  no_client : Refusal

abbrev pub refusal_of : PlatformCredential → Request → View → Option String → Option Refusal
refusal_of key request view none = some not_exposed
refusal_of key request view (some required) =
    if not (has_platform_scope key required)
    then some (lacks_scope required)
    else if is_write view
    then (if is_client request.role then none else some no_client)
    else none

abbrev pub refusal_for : Option PlatformCredential → Request → View → Option Refusal
refusal_for none request view = none
refusal_for (some key) request view = refusal_of key request view (required_scope view)

-- `HasPlatformScope.has_permission`: its refusal, none where it grants
unfoldable pub has_permission : Request → View → Option Refusal
has_permission request view = refusal_for request.auth request view

-- The two `ValidationError` of `IsPlatformTenantContextValid`.
pub data ContextFault : Type 0 where
  tenant_on_global missing_tenant : ContextFault

abbrev pub fault_of : Bool → Bool → Option ContextFault
fault_of true true = some tenant_on_global
fault_of true false = none
fault_of false true = none
fault_of false false = some missing_tenant

abbrev pub fault_for : Option PlatformCredential → Request → View → Option ContextFault
fault_for none request view = none
fault_for (some key) request view =
    fault_of (str_eq view.platform_required_scope global_scope)
      (not (is_empty (strip request.tenant_header)))

-- `IsPlatformTenantContextValid.has_permission`: what it raises, none where it grants
unfoldable pub has_tenant_context : Request → View → Option ContextFault
has_tenant_context request view = fault_for request.auth request view
