-- ===== src/Iam/Platform/Writes.antt =====
-- What a key of a platform service may write.
use Prim.Native.Char.{code}
use Prim.Native.String.{◌++◌}
use text.Mathlib.TextLemmas.{cons-append, append_cancel_left, append_cancel_right}
use toupac.Prelude.{
  ℕ, ◌≡◌, refl, sym, ap, ◌∙◌, ◌⊎◌, inl, inr, String, Bool, true, false, ◌||◌, some, none, List, [],
  ◌∷◌, str_eq, eq_iff, Bool-cases, arith,
}
use toupac.Prelude.Text.{is_empty, is_among}
use toupac.Iam.Platform.{
  PlatformCredential, Request, View, is_client, is_write, required_scope, platform_scope_for_domain,
  platform_available_scopes, validate_platform_scopes, has_permission, has_platform_scope,
  refusal_of,
}

-- the code of the last character
last_code : ℕ → String → ℕ
last_code n String.[] = n
last_code n (String.◌∷◌ c s) = last_code (code c) s

last_code-append : (n : ℕ) (s : String) → last_code n (s ++ ":write") ≡ 101
unfolding last_code
last_code-append n String.[] = refl
last_code-append n (String.◌∷◌ c s) =
    ap (last_code n) (cons-append c s ":write") ∙ last_code-append (code c) s

-- A scope that reads is not the scope of a write.
ne_read : (d rest : String) → last_code 0 rest ≡ 100 → d ++ ":write" ≡ rest → ⊥
ne_read d rest h e =
    let last : 101 ≡ 100 = sym (last_code-append 0 d) ∙ ap (last_code 0) e ∙ h in
    omega (arith, last)

-- The domains of the catalogue that have a scope to write.
pub Writable : String → Type 0
Writable d = (d ≡ "voyage") ⊎ ((d ≡ "colis") ⊎ (d ≡ "billing"))

behind_platform : (s t : String) → str_eq ("platform:" ++ s) ("platform:" ++ t) ≡ true → s ≡ t
behind_platform s t h =
    append_cancel_left "platform:" s t ((eq_iff ("platform:" ++ s) ("platform:" ++ t)).0 h)

-- a scope of the catalogue is that of a read, or that of a domain that is written
read_or :
    (d rest : String) (more : Bool)
    → last_code 0 rest ≡ 100
    → (str_eq ("platform:" ++ (d ++ ":write")) ("platform:" ++ rest) || more) ≡ true
    → more ≡ true
read_or d rest more is_read h =
    elim (Bool-cases (str_eq ("platform:" ++ (d ++ ":write")) ("platform:" ++ rest))) [
      | inl same ↦ absurd (ne_read d rest is_read (behind_platform (d ++ ":write") rest same))
      | inr other ↦ rw other at h
    ]

write_or :
    (d e : String) (more : Bool)
    → (str_eq ("platform:" ++ (d ++ ":write")) ("platform:" ++ (e ++ ":write")) || more) ≡ true
    → (d ≡ e) ⊎ (more ≡ true)
write_or d e more h =
    elim (Bool-cases (str_eq ("platform:" ++ (d ++ ":write")) ("platform:" ++ (e ++ ":write")))) [
      | inl same ↦
          inl (
            append_cancel_right d e ":write" (behind_platform (d ++ ":write") (e ++ ":write") same))
      | inr other ↦ inr (rw other at h)
    ]

after_billing :
    (d : String)
    → is_among
        ("platform:" ++ (d ++ ":write"))
        ("platform:notifications:read" ∷ "platform:customer:read" ∷ "platform:global:read" ∷ [])
      ≡ true
    → ⊥
unfolding last_code
after_billing d h =
    let none_left =
      read_or d "global:read" false refl
        (read_or d "customer:read" _ refl (read_or d "notifications:read" _ refl h)) in
    cc

available-Writable :
    (d : String)
    → is_among ("platform:" ++ (d ++ ":write")) platform_available_scopes ≡ true
    → Writable d
unfolding last_code Writable
available-Writable d h = elim (write_or d "voyage" _ (read_or d "voyage:read" _ refl h)) [
  | inl voyage ↦ inl voyage
  | inr more ↦ elim (write_or d "colis" _ (read_or d "colis:read" _ refl more)) [
    | inl colis ↦ inr (inl colis)
    | inr further ↦
        elim (write_or d "billing" _
          (read_or d "billing:read" _ refl (read_or d "tracking:read" _ refl further))) [
            | inl billing ↦ inr (inr billing)
            | inr last ↦ absurd (after_billing d last)
          ]
  ]
]

-- A scope of a list without unknown ones is one of the catalogue.
known :
    (scope : String) (scopes : List String)
    → validate_platform_scopes scopes ≡ []
    → is_among scope scopes ≡ true
    → is_among scope platform_available_scopes ≡ true
unfolding validate_platform_scopes
known scope [] valid h = cc
known scope (s ∷ ss) valid h = elim (Bool-cases (is_among s platform_available_scopes)) [
  | inr unknown ↦ absurd (cons_nil (rw unknown at valid))
  | inl available ↦ elim (Bool-cases (str_eq scope s)) [
    | inl same ↦ rw ((eq_iff scope s).0 same) available
    | inr other ↦ known scope ss (rw available at valid) (rw other at h)
  ]
]
  where
    cons_nil : {s : String} {ss : List String} → s ∷ ss ≡ [] → ⊥
    cons_nil e = cc

granted_scope :
    (key : PlatformCredential) (request : Request) (view : View) (required : String)
    → refusal_of key request view (some required) ≡ none
    → is_write view ≡ true
    → (has_platform_scope key required ≡ true) × (is_client request.role ≡ true)
granted_scope key request view required h write =
    elim (Bool-cases (has_platform_scope key required)) [
      | inr lacking ↦ absurd (ground (arith, h, lacking))
      | inl held ↦ elim (Bool-cases (is_client request.role)) [
        | inl client ↦ (held, client)
        | inr other ↦ absurd (ground (arith, h, held, other, write))
      ]
    ]

write_in_domain : (view : View) → is_write view ≡ true → is_empty view.api_scope_domain ≡ false
unfolding is_write
write_in_domain view h = ground arith

required_scope_write :
    (view : View)
    → view.platform_required_scope ≡ ""
    → is_write view ≡ true
    → required_scope view ≡ some (platform_scope_for_domain view.api_scope_domain true)
unfolding required_scope platform_scope_for_domain is_write
required_scope_write view undeclared write = rw (undeclared, write, write_in_domain view write) refl

-- A key whose scopes are all in the catalogue writes, on a view that declares no scope of its own,
-- in the domains of trips, parcels and billing only, with the scope of that write, and for a client.
pub has_permission-Writable :
    (key : PlatformCredential) (request : Request) (view : View)
    → request.auth ≡ some key
    → validate_platform_scopes key.platform_scopes ≡ []
    → view.platform_required_scope ≡ ""
    → is_write view ≡ true
    → has_permission request view ≡ none
    → Writable view.api_scope_domain
      × (has_platform_scope key (platform_scope_for_domain view.api_scope_domain true) ≡ true)
      × (is_client request.role ≡ true)
unfolding has_permission platform_scope_for_domain
has_permission-Writable key request view by valid undeclared write granted =
    let asked : refusal_of key request view
          (some (platform_scope_for_domain view.api_scope_domain true))
        ≡ none =
      rw (by, required_scope_write view undeclared write) at granted in
    let both = granted_scope key request view _ asked write in
    (
      available-Writable view.api_scope_domain (known _ key.platform_scopes valid both.0),
      both.0,
      both.1,
    )
