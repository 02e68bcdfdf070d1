-- ===== src/Notifications/Catalog.antt =====
-- notifications/catalog.py: the registry of events and the validation of a context, with the
-- categories of preferences.py.
pub mod Registry
use toupac.Prelude.{
  ℕ, String, Bool, true, false, not, ◌&&◌, ◌||◌, Option, some, none, List, [], ◌∷◌, ◌++◌, map, any,
  ltb, ◌==◌, str_eq, is_some, get_or_default, if◌then◌else◌, ◌≡◌,
}
use Prim.Native.Char.{code}
use toupac.Prelude.Text.{is_among, char_count}
use toupac.Notifications.Models.{
  Channel, Value, Context, text, int, bool, float, datetime, uuid, other,
}

-- `VariableSpec`
pub record VariableSpec : Type 0 where
  pub type : String
  pub required : Bool
  pub max_length : Option ℕ

abbrev pub Schema : Type 0
Schema = List (String × VariableSpec)

-- `NotifEvent`, without the columns that only documents read
pub record NotifEvent : Type 0 where
  pub code : String
  pub priority : String
  pub category : String
  pub default_channels : List Channel
  pub variables : Schema
  pub resolver_key : String
  pub resolver_variables : Schema
  pub confidentiality_masks : List String

-- `SUPPORTED_TYPES`
abbrev pub supported_types : List String
supported_types = "string" ∷ "int" ∷ "float" ∷ "datetime" ∷ "url" ∷ "uuid" ∷ []

-- `type in SUPPORTED_TYPES`
unfoldable pub is_supported : String → Bool
is_supported type = is_among type supported_types

-- `NEVER_OPT_OUT`
abbrev pub never_opt_out : List String
never_opt_out = "otp" ∷ "security" ∷ "critical_ops" ∷ []

-- `ALL_CATEGORIES`
abbrev pub all_categories : List String
all_categories =
    "otp" ∷ "security" ∷ "critical_ops" ∷ "trip_updates" ∷ "parcel_updates" ∷ "payments"
    ∷ "dispatch" ∷ "fleet" ∷ "workflow" ∷ "marketing" ∷ []

-- `category in ALL_CATEGORIES`
unfoldable pub is_category : String → Bool
is_category category = is_among category all_categories

-- What escapes from the catalogue: `KeyError`, `ValueError` with its cause.
pub data CatalogError : Type 0 where
  unknown_code duplicate_code unknown_category no_channel : String → CatalogError
  unsupported_type declared_twice undeclared_mask : String → String → CatalogError
  missing_variable wrong_type not_an_url too_long : String → String → CatalogError

abbrev pub names {ℓ} : {A : Type ℓ} → List (String × A) → List String
names [] = []
names ((k, v) ∷ rows) = k ∷ names rows

-- `d[key]` or `d.get(key)`, on a dictionary
abbrev pub entry {ℓ} : {A : Type ℓ} → String → List (String × A) → Option A
entry k [] = none
entry k ((j, v) ∷ rows) = let rest = entry k rows in if str_eq j k then some v else rest

abbrev pub is_code : String → NotifEvent → Bool
is_code code e = str_eq e.code code

-- `get_event`
unfoldable pub get_event : String → List NotifEvent → Option NotifEvent
get_event code [] = none
get_event code (e ∷ events) =
    let rest = get_event code events in if is_code code e then some e else rest

abbrev override : Schema → Schema → Schema
override [] schema = []
override ((name, spec) ∷ rows) schema =
    (name, get_or_default (entry name schema) spec) ∷ override rows schema

abbrev not_among : List String → Schema → Schema
not_among known [] = []
not_among known ((name, spec) ∷ rows) =
    let rest = not_among known rows in if is_among name known then rest else (name, spec) ∷ rest

-- `{**event.variables, **event.resolver_variables}`
abbrev pub merged : NotifEvent → Schema
merged e =
    override e.variables e.resolver_variables ++ not_among (names e.variables) e.resolver_variables

-- the first variable of a schema whose type no value can have
abbrev unsupported : Schema → Option String
unsupported [] = none
unsupported ((name, spec) ∷ schema) =
    let rest = unsupported schema in if is_supported spec.type then rest else some name

abbrev first_among : List String → List String → Option String
first_among [] known = none
first_among (s ∷ ss) known =
    let rest = first_among ss known in if is_among s known then some s else rest

abbrev first_missing : List String → List String → Option String
first_missing [] known = none
first_missing (s ∷ ss) known =
    let rest = first_missing ss known in if is_among s known then rest else some s

abbrev refuse_if {ℓ} :
    {A : Type ℓ} → Option A → (A → CatalogError) → Option CatalogError → Option CatalogError
refuse_if (some a) error rest = some (error a)
refuse_if none error rest = rest

abbrev has_no_channel : NotifEvent → Bool
has_no_channel e = elim e.default_channels [ [] ↦ true | ◌∷◌ c cs ↦ false ]

-- The guards of `register`, in order; no value if the event passes. `declared_twice` names the first
-- of the overlapping variables.
unfoldable pub registration_error : NotifEvent → List NotifEvent → Option CatalogError
unfolding get_event is_supported is_category
registration_error e events =
    if is_some (get_event e.code events)
    then some (duplicate_code e.code)
    else if not (is_category e.category)
    then some (unknown_category e.category)
    else if has_no_channel e
    then some (no_channel e.code)
    else refuse_if (unsupported (merged e)) (unsupported_type e.code) (
        refuse_if (first_among (names e.variables) (names e.resolver_variables))
          (declared_twice e.code)
          (refuse_if (first_missing e.confidentiality_masks (names e.variables))
            (undeclared_mask e.code) none))

abbrev pub after_register :
    NotifEvent → List NotifEvent → Option CatalogError → List NotifEvent × Option CatalogError
after_register e events (some error) = (events, some error)
after_register e events none = (events ++ e ∷ [], none)

-- `register`: the registry afterwards, or the error with the registry as it was
unfoldable pub register : NotifEvent → List NotifEvent → List NotifEvent × Option CatalogError
unfolding registration_error
register e events = after_register e events (registration_error e events)

abbrev starts_with : String → String → Bool
starts_with String.[] s = true
starts_with (String.◌∷◌ c p) String.[] = false
starts_with (String.◌∷◌ c p) (String.◌∷◌ d s) = code c == code d && starts_with p s

abbrev is_url : String → Bool
is_url s = starts_with "http://" s || starts_with "https://" s || starts_with "/" s

abbrev exceeds : Option ℕ → String → Bool
exceeds none s = false
exceeds (some n) s = ltb n (char_count s)

-- `uuid.UUID(text)` is the interpreter's: whether it accepts the text.
module _ (is_uuid : String → Bool) where
  -- whether a value has the type that a specification names; a type that is not supported is not checked
  abbrev pub has_type : String → Value → Bool
  has_type type (text s) =
      if str_eq type "string"
      then true
      else if str_eq type "url"
      then true
      else if str_eq type "uuid"
      then is_uuid s
      else not (is_supported type)
  has_type type (int n) = str_eq type "int" || str_eq type "float" || not (is_supported type)
  has_type type (bool b) = not (is_supported type)
  has_type type (float x) = str_eq type "float" || not (is_supported type)
  has_type type (datetime t) = str_eq type "datetime" || not (is_supported type)
  has_type type (uuid u) = str_eq type "uuid" || not (is_supported type)
  has_type type other = not (is_supported type)

  abbrev pub is_bad_url : String → Value → Bool
  is_bad_url type (text s) = str_eq type "url" && not (is_url s)
  is_bad_url type v = false

  abbrev pub is_too_long : Option ℕ → Value → Bool
  is_too_long limit (text s) = exceeds limit s
  is_too_long limit v = false

  -- `_check_type`
  unfoldable pub check_type : String → String → Value → VariableSpec → Option CatalogError
  check_type event_code name value spec =
      if not (has_type spec.type value)
      then some (wrong_type event_code name)
      else if is_bad_url spec.type value
      then some (not_an_url event_code name)
      else if is_too_long spec.max_length value
      then some (too_long event_code name)
      else none

  abbrev check_entry : String → String → Option Value → VariableSpec → Option CatalogError
  check_entry event_code name none spec =
      if spec.required then some (missing_variable event_code name) else none
  check_entry event_code name (some value) spec = check_type event_code name value spec

  -- the loop of `validate_context`
  unfoldable pub check_schema : String → Context → Schema → Option CatalogError
  unfolding check_type
  check_schema event_code context [] = none
  check_schema event_code context ((name, spec) ∷ schema) =
      let rest = check_schema event_code context schema in
      elim (check_entry event_code name (entry name context) spec) [
        | some error ↦ some error
        | none ↦ rest
      ]

  -- `validate_context`
  unfoldable pub validate_context : NotifEvent → Context → Option CatalogError
  unfolding check_schema
  validate_context e context = check_schema e.code context (merged e)
