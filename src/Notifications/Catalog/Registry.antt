-- ===== src/Notifications/Catalog/Registry.antt =====
-- What the registry of events guarantees to its readers.
use toupac.Prelude.{
  sym, ap, ap₂, not, not-true, ◌&&◌, ◌||◌, ◌⊎◌, if◌then◌else◌, ◌≡◌, refl, ◌∙◌, inl, inr, String,
  Bool, true, false, Option, some, none, List, [], ◌∷◌, ◌++◌, any, any-append, eq_iff, all, is_some,
  Bool-cases, arith,
}
use toupac.Prelude.Text.{is_among}
use toupac.Notifications.Catalog.{
  NotifEvent, Schema, CatalogError, names, is_code, get_event, merged, unsupported, first_among,
  first_missing, refuse_if, has_no_channel, is_category, is_supported, registration_error,
  after_register, register,
}

-- every name of the first list is in the second
abbrev pub subset : List String → List String → Bool
subset names known = all (λ s. is_among s known) names

-- An event that the service can announce: a category that the preferences know, a channel, types that
-- the validation checks, no variable in both schemas, and masks that all hide a variable.
pub record IsSound (e : NotifEvent) : Type 0 where
  pub category : is_category e.category ≡ true
  pub channel : has_no_channel e ≡ false
  pub types : all (λ row. is_supported row.1.type) (merged e) ≡ true
  pub apart : any (λ s. is_among s (names e.resolver_variables)) (names e.variables) ≡ false
  pub masks : subset e.confidentiality_masks (names e.variables) ≡ true

-- No two events of the list have the same code.
abbrev pub has_code : String → List NotifEvent → Bool
has_code code = any (is_code code)

abbrev pub IsRegistry : List NotifEvent → Type 0
IsRegistry [] = Unit
IsRegistry (e ∷ events) = IsSound e × (has_code e.code events ≡ false) × IsRegistry events

unsupported-none :
    (schema : Schema)
    → unsupported schema ≡ none
    → all (λ row. is_supported row.1.type) schema ≡ true
unsupported-none [] h = refl
unsupported-none ((name, spec) ∷ schema) h = ground (arith, unsupported-none schema)

first_among-none :
    (ss known : List String) → first_among ss known ≡ none → any (λ s. is_among s known) ss ≡ false
first_among-none [] known h = refl
first_among-none (s ∷ ss) known h = ground (arith, first_among-none ss known)

first_missing-none :
    (ss known : List String) → first_missing ss known ≡ none → subset ss known ≡ true
first_missing-none [] known h = refl
first_missing-none (s ∷ ss) known h = ground (arith, first_missing-none ss known)

get_event-none :
    (code : String) (events : List NotifEvent)
    → is_some (get_event code events) ≡ false
    → has_code code events ≡ false
unfolding get_event
get_event-none code [] h = refl
get_event-none code (e ∷ events) h = ground (arith, get_event-none code events)

refuse_if-none {ℓ} :
    {A : Type ℓ} (o : Option A) (error : A → CatalogError) (rest : Option CatalogError)
    → refuse_if o error rest ≡ none
    → (o ≡ none) × (rest ≡ none)
refuse_if-none none error rest h = (refl, h)
refuse_if-none (some a) error rest h = cc

absurd_refusal : {e : CatalogError} → some e ≡ none → ⊥
absurd_refusal h = cc

-- An event that passes the guards of `register` is sound, and its code is new.
registration_error-none :
    (e : NotifEvent) (events : List NotifEvent)
    → registration_error e events ≡ none
    → IsSound e × (has_code e.code events ≡ false)
unfolding registration_error
registration_error-none e events h = elim (Bool-cases (is_some (get_event e.code events))) [
  | inl old ↦ absurd (absurd_refusal (rw old at h))
  | inr new ↦ elim (Bool-cases (is_category e.category)) [
    | inr unknown ↦ absurd (absurd_refusal (rw (new, unknown) at h))
    | inl category ↦ elim (Bool-cases (has_no_channel e)) [
      | inl nothing ↦ absurd (absurd_refusal (rw (new, category, nothing) at h))
      | inr channel ↦
          let types = refuse_if-none _ _ _ (rw (new, category, channel) at h) in
          let apart = refuse_if-none _ _ _ types.1 in
          let masks = refuse_if-none _ _ _ apart.1 in
          (
            record {
              category = category;
              channel = channel;
              types = unsupported-none (merged e) types.0;
              apart = first_among-none (names e.variables) (names e.resolver_variables) apart.0;
              masks = first_missing-none e.confidentiality_masks (names e.variables) masks.0;
            },
            get_event-none e.code events new,
          )
    ]
  ]
]

append-IsRegistry :
    (events : List NotifEvent) (e : NotifEvent)
    → IsRegistry events
    → IsSound e
    → has_code e.code events ≡ false
    → IsRegistry (events ++ e ∷ [])
append-IsRegistry [] e h sound new = (sound, refl, tt)
append-IsRegistry (x ∷ events) e (x_sound, x_new, rest) sound new = (
  x_sound,
  any-append (is_code x.code) events (e ∷ [])
      ∙ ground (arith, eq_iff x.code e.code, eq_iff e.code x.code),
  append-IsRegistry events e rest sound (ground arith),
)

-- the same as a test: what a declaration has to be, whatever the order of the guards
abbrev pub is_sound : NotifEvent → Bool
is_sound e =
    is_category e.category
    && not (has_no_channel e)
    && all (λ row. is_supported row.1.type) (merged e)
    && not (any (λ s. is_among s (names e.resolver_variables)) (names e.variables))
    && subset e.confidentiality_masks (names e.variables)

abbrev pub is_new : NotifEvent → List NotifEvent → Bool
is_new e events = not (has_code e.code events)

unsupported-is_some :
    (schema : Schema)
    → is_some (unsupported schema) ≡ not (all (λ row. is_supported row.1.type) schema)
unsupported-is_some [] = refl
unsupported-is_some ((name, spec) ∷ schema) = ground (arith, unsupported-is_some schema)

first_among-is_some :
    (ss known : List String) → is_some (first_among ss known) ≡ any (λ s. is_among s known) ss
first_among-is_some [] known = refl
first_among-is_some (s ∷ ss) known = ground (arith, first_among-is_some ss known)

first_missing-is_some :
    (ss known : List String) → is_some (first_missing ss known) ≡ not (subset ss known)
first_missing-is_some [] known = refl
first_missing-is_some (s ∷ ss) known = ground (arith, first_missing-is_some ss known)

get_event-is_some :
    (code : String) (events : List NotifEvent)
    → is_some (get_event code events) ≡ has_code code events
unfolding get_event
get_event-is_some code [] = refl
get_event-is_some code (e ∷ events) = ground (arith, get_event-is_some code events)

refuse_if-is_some {ℓ} :
    {A : Type ℓ} (o : Option A) (error : A → CatalogError) (rest : Option CatalogError)
    → is_some (refuse_if o error rest) ≡ (is_some o || is_some rest)
refuse_if-is_some none error rest = refl
refuse_if-is_some (some a) error rest = refl

is_some-if :
    (b : Bool) (error : CatalogError) (rest : Option CatalogError)
    → is_some (if b then some error else rest) ≡ (b || is_some rest)
is_some-if true error rest = refl
is_some-if false error rest = refl

de_morgan :
    (new category nothing types apart masks : Bool)
    → (new || (not category || (nothing || (not types || (apart || (not masks || false))))))
      ≡ not ((category && not nothing && types && not apart && masks) && not new)
de_morgan new category nothing types apart masks = ground arith

-- The guards refuse exactly the declarations that are not sound or not new.
registration_error-is_some :
    (e : NotifEvent) (events : List NotifEvent)
    → is_some (registration_error e events) ≡ not (is_sound e && is_new e events)
unfolding registration_error
registration_error-is_some e events =
    is_some-if _ _ _
    ∙ ap₂ ◌||◌ (get_event-is_some e.code events) (
        is_some-if _ _ _
        ∙ ap (λ b. not (is_category e.category) || b)
            (is_some-if _ _ _
              ∙ ap (λ b. has_no_channel e || b)
                  (refuse_if-is_some _ _ _
                    ∙ ap₂ ◌||◌ (unsupported-is_some (merged e)) (
                        refuse_if-is_some _ _ _
                        ∙ ap₂ ◌||◌
                            (first_among-is_some (names e.variables) (names e.resolver_variables))
                            (refuse_if-is_some _ _ _
                              ∙ ap (λ b. b || false)
                                  (first_missing-is_some e.confidentiality_masks
                                    (names e.variables)))))))
    ∙ de_morgan (has_code e.code events) (is_category e.category) (has_no_channel e)
        (all (λ row. is_supported row.1.type) (merged e))
        (any (λ s. is_among s (names e.resolver_variables)) (names e.variables))
        (subset e.confidentiality_masks (names e.variables))

-- What a declaration does to a registry: it is accepted at the end, or refused with an error.
abbrev pub Registered :
    NotifEvent → List NotifEvent → List NotifEvent × Option CatalogError → Type 0
Registered e events after =
    ((is_sound e && is_new e events ≡ true) × (after ≡ (events ++ e ∷ [], none)))
    ⊎ ((is_sound e && is_new e events ≡ false)
        × (error : CatalogError) × (after ≡ (events, some error)))

register_step :
    (events : List NotifEvent) (e : NotifEvent) (error : Option CatalogError)
    → registration_error e events ≡ error
    → IsRegistry events
    → IsRegistry (after_register e events error).0
      × Registered e events (after_register e events error)
register_step events e (some error) h registry =
    let refused : not (is_sound e && is_new e events) ≡ true =
      sym (registration_error-is_some e events) ∙ ap is_some h in
    (registry, inr (not-true _ refused, error, refl))
register_step events e none h registry =
    let passed = registration_error-none e events h in
    let accepted : not (is_sound e && is_new e events) ≡ false =
      sym (registration_error-is_some e events) ∙ ap is_some h in
    (append-IsRegistry events e registry passed.0 passed.1, inl (ground arith, refl))

-- The registry that the declarations fill, one after the other: its events stay sound, each with a
-- category that the preferences know, a channel, types that the validation checks, no variable in
-- both schemas and no mask that hides nothing, and no two of them have the same code. A declaration
-- that is sound and of a new code is added at the end; any other is refused with an error, and
-- changes nothing.
pub register-IsRegistry :
    (events : List NotifEvent) (e : NotifEvent)
    → IsRegistry events
    → IsRegistry (register e events).0 × Registered e events (register e events)
unfolding register
register-IsRegistry events e registry =
    register_step events e (registration_error e events) refl registry
