-- ===== src/Iam/Platform/Tests.antt =====
-- A key that reads trips and writes reservations, and the theorem on its writes applied to it.
use toupac.Prelude.{◌≡◌, refl, true, some, none, [], ◌∷◌}
use toupac.Prelude.Text.{strip}
use toupac.Iam.Platform.{
  PlatformCredential, Request, View, client, is_client, has_platform_scope,
  platform_scope_for_domain, has_permission, has_tenant_context, required_scope, is_write,
  validate_platform_scopes, lacks_scope, no_client, missing_tenant, tenant_on_global, global_scope,
}
use toupac.Iam.Platform.Writes.{Writable, has_permission-Writable}

abbrev chatbot : PlatformCredential
chatbot = record { platform_scopes = "platform:voyage:read" ∷ "platform:voyage:write" ∷ [] }

abbrev booking : Request
booking = record { auth = some chatbot; role = some client; tenant_header = "sahel" }

abbrev reservations : View
reservations = record {
  platform_required_scope = "";
  api_scope_domain = "voyage";
  action = "create";
}

-- no key has a scope to write positions
positions_closed :
    has_permission booking (record reservations { api_scope_domain = "tracking" })
    ≡ some (lacks_scope "platform:tracking:write")
unfolding has_permission required_scope platform_scope_for_domain is_write
positions_closed = refl

for_nobody : has_permission (record booking { role = none }) reservations ≡ some no_client
unfolding has_permission required_scope platform_scope_for_domain is_write
for_nobody = refl

-- a view that declares a scope to read and no domain is open to any action, for nobody
declared_read :
    has_permission
      (record booking { role = none })
      (record reservations {
        platform_required_scope = "platform:voyage:read";
        api_scope_domain = "";
      })
    ≡ none
unfolding has_permission required_scope platform_scope_for_domain is_write
declared_read = refl

without_tenant :
    has_tenant_context (record booking { tenant_header = "  " }) reservations ≡ some missing_tenant
unfolding has_tenant_context strip
without_tenant = refl

tenant_where_global :
    has_tenant_context booking (record reservations { platform_required_scope = global_scope })
    ≡ some tenant_on_global
unfolding has_tenant_context strip
tenant_where_global = refl

has_permission-Writable_example :
    Writable "voyage"
    × (has_platform_scope chatbot (platform_scope_for_domain "voyage" true) ≡ true)
    × (is_client (some client) ≡ true)
unfolding validate_platform_scopes is_write has_permission required_scope platform_scope_for_domain
has_permission-Writable_example =
    has_permission-Writable chatbot booking reservations refl refl refl refl refl
