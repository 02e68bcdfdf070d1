-- ===== src/Tenancy/Cut.antt =====
-- The status of the company that a request gets.
use toupac.Prelude.{
  refl, ℕ, ◌≡◌, ◌⊎◌, inl, inr, String, Bool, true, false, ◌&&◌, &&_both, Option, some, none, List,
  first-some, ◌==◌, str_eq, or_else, if◌then◌else◌, Bool-cases,
}
use toupac.Prelude.Text.{is_empty, strip}
use toupac.Numbering.{starts_with}
use toupac.Tenancy.{
  Tenant, Request, is_open, is_public, open_tenant, by_id, by_uuid, by_claim, resolve_from_jwt,
  resolve_from_header, process_request, behind_space,
}

module _ (claimed_tenant : String → Option String) (parse_uuid : String → Option ℕ) where
  -- What a lookup gives is open.
  IsOpen : Option Tenant → Type 0
  IsOpen o = (t : Tenant) → o ≡ some t → is_open t.status ≡ true

  none-IsOpen : IsOpen none
  unfolding IsOpen
  none-IsOpen t h = cc

  open_tenant-IsOpen :
      (p : Tenant → Bool) (tenants : List Tenant)
      → IsOpen (open_tenant claimed_tenant parse_uuid p tenants)
  unfolding IsOpen
  open_tenant-IsOpen p tenants t h =
      (&&_both (p t) (is_open t.status)
        (first-some (λ t. t.id) (λ t. p t && is_open t.status) tenants t h)).1

  or_else-IsOpen : (o u : Option Tenant) → IsOpen o → IsOpen u → IsOpen (or_else o u)
  or_else-IsOpen none u h k = k
  or_else-IsOpen (some t) u h k = h

  when-IsOpen : (b : Bool) (o : Option Tenant) → IsOpen o → IsOpen (if b then o else none)
  when-IsOpen true o h = h
  when-IsOpen false o h = none-IsOpen

  unless-IsOpen : (b : Bool) (o : Option Tenant) → IsOpen o → IsOpen (if b then none else o)
  unless-IsOpen true o h = none-IsOpen
  unless-IsOpen false o h = h

  absurd_lookup : {t : Tenant} → none ≡ some t → ⊥
  absurd_lookup h = cc

  session_or :
      (session o : Option Tenant) (t : Tenant)
      → IsOpen o
      → or_else session o ≡ some t
      → (session ≡ some t) ⊎ ((session ≡ none) × (is_open t.status ≡ true))
  unfolding IsOpen
  session_or none o t h e = inr (refl, h t e)
  session_or (some s) o t h e = inl e

  by_id-IsOpen :
      (o : Option ℕ) (tenants : List Tenant) → IsOpen (by_id claimed_tenant parse_uuid o tenants)
  by_id-IsOpen none tenants = none-IsOpen
  by_id-IsOpen (some i) tenants = open_tenant-IsOpen (λ t. t.id == i) tenants

  by_uuid-IsOpen :
      (value : String) (tenants : List Tenant)
      → IsOpen (by_uuid claimed_tenant parse_uuid value tenants)
  unfolding by_uuid
  by_uuid-IsOpen value tenants = by_id-IsOpen (parse_uuid value) tenants

  by_claim-IsOpen :
      (o : Option String) (tenants : List Tenant)
      → IsOpen (by_claim claimed_tenant parse_uuid o tenants)
  by_claim-IsOpen none tenants = none-IsOpen
  by_claim-IsOpen (some claim) tenants = by_uuid-IsOpen claim tenants

  resolve_from_jwt-IsOpen :
      (r : Request) (tenants : List Tenant)
      → IsOpen (resolve_from_jwt claimed_tenant parse_uuid r tenants)
  unfolding resolve_from_jwt
  resolve_from_jwt-IsOpen r tenants =
      when-IsOpen (starts_with "Bearer " r.authorization) _
        (by_claim-IsOpen (claimed_tenant (behind_space r.authorization)) tenants)

  resolve_from_header-IsOpen :
      (r : Request) (tenants : List Tenant)
      → IsOpen (resolve_from_header claimed_tenant parse_uuid r tenants)
  unfolding resolve_from_header
  resolve_from_header-IsOpen r tenants = unless-IsOpen (is_empty (strip r.tenant_header)) _ (
      or_else-IsOpen _ _ (open_tenant-IsOpen (λ t. str_eq t.slug (strip r.tenant_header)) tenants)
        (by_uuid-IsOpen (strip r.tenant_header) tenants))

  -- A request that gets a company has a path that is not public. The company is the session's where
  -- the session has one, and is active or on trial otherwise: neither a token nor a header takes the
  -- place of the session's company, and neither reaches a suspended one.
  pub process_request-IsOpen :
      (r : Request) (tenants : List Tenant) (t : Tenant)
      → process_request claimed_tenant parse_uuid r tenants ≡ some t
      → (is_public r.path ≡ false)
        × ((r.session_tenant ≡ some t) ⊎ ((r.session_tenant ≡ none) × (is_open t.status ≡ true)))
  unfolding process_request IsOpen
  process_request-IsOpen r tenants t h = elim (Bool-cases (is_public r.path)) [
    | inl public ↦ absurd (absurd_lookup (rw public at h))
    | inr private ↦ (
      private,
      session_or r.session_tenant _ t
          (or_else-IsOpen _ _ (resolve_from_jwt-IsOpen r tenants)
            (resolve_from_header-IsOpen r tenants))
          (rw private at h),
    )
  ]
