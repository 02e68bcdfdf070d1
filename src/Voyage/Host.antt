-- ===== src/Voyage/Host.antt =====
-- What the voyage code takes from the interpreter, from Django's field conversions, from PyJWT and
-- from the machine: arguments of the model, with no law assumed.
use toupac.Prelude.{ℕ, String, Option}
use toupac.Prelude.Int.{ℤ}
use toupac.Json.{Json}
pub use toupac.Prelude.Results.{Result, ok, err}

-- An exception that is no `EventRejected`: Django's `IntegrityError`, or any other, with its text.
pub data Fault : Type 0 where
  integrity : String → Fault
  other : String → Fault

-- What `float` raises: `TypeError` or `ValueError`, or `OverflowError` for an integer that is too large.
pub data FloatError : Type 0 where
  no_number : FloatError
  too_large : String → FloatError

-- What `parse_datetime` reads: an instant, in UTC or in the local time zone.
pub data Stamp : Type 0 where
  naive : ℕ → Stamp
  aware : ℕ → Stamp

-- The claims of a ticket, as `sign_ticket_jwt` lays them out.
pub record TicketClaims : Type 0 where
  pub sub : String
  pub trip : String
  pub seat : Json
  pub pax : String
  pub tenant : String
  pub iat : ℕ
  pub exp : ℕ

-- Instants are microseconds. An identifier is the number of its UUID, a float its bit pattern.
pub record Host : Type 0 where
  -- `str(value)`, and what an f-string prints
  pub text : Json → String
  pub show_uuid : ℕ → String
  -- `uuid.UUID(text)`, with no value where it raises `ValueError`
  pub parse_uuid : String → Option ℕ
  -- `chr(n)`, with no value where it raises `ValueError`
  pub chr : ℕ → Option String
  -- `float(value)`
  pub float : Json → Result FloatError ℕ
  -- Django's `parse_datetime`: an instant, `None` for another format, `ValueError` for a date that
  -- is well formed and does not exist
  pub parse_datetime : String → Result String (Option Stamp)
  -- `timezone.make_aware` in the current time zone
  pub make_aware : ℕ → ℕ
  -- the texts of `AttributeError` and `TypeError` on a value
  pub attribute_error : Json → String
  pub type_error : Json → String
  -- the conversions of a model field on its way to the database, a limit of length first
  pub uuid_field : Json → Result Fault ℕ
  pub char_field : ℕ → Json → Result Fault String
  pub text_field : Json → Result Fault String
  pub json_field : Json → Result Fault Json
  pub integer_field : Json → Result Fault ℤ
  pub float_field : Json → Result Fault ℕ
  -- the texts of the database's refusals
  pub duplicate_key : String
  pub missing_reference : String
  pub no_row_affected : String
  -- `jwt.encode(claims, key, algorithm="RS256")`
  pub sign : TicketClaims → Result Fault String
  -- the n-th sample of `uuid.uuid4()` and of `timezone.now()`
  pub uuid4 : ℕ → ℕ
  pub clock : ℕ → ℕ
