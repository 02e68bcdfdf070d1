-- ===== src/Voyage/Tx.antt =====
-- Code that runs against the database and may raise. What was written before an exception stays
-- written until a transaction undoes it, so the state comes back beside the exception too.
pub mod Moves
pub mod Inversion
use toupac.Prelude.{ℕ, suc, String, Bool, true, false, Option, none, some, if◌then◌else◌}
use toupac.Json.{Json, Fields, obj, null}
use toupac.Voyage.Codes.{RejectionCode}
use toupac.Voyage.Models.{Trip}
use toupac.Voyage.Host.{Host, Result, ok, err, Fault, integrity, other}
use toupac.Voyage.Db.{Db, references_hold}

-- `EventRejected(message, code)`, or another exception
pub data Failure : Type 0 where
  rejection : RejectionCode → String → Failure
  fault : Fault → Failure

-- The database; how many samples the clock and the random source have given; and the instance that
-- `session.trip` has loaded, which lives as long as the processor's session object.
pub record State : Type 0 where
  pub db : Db
  pub samples : ℕ
  pub session_trip : Option Trip

-- The host, and what other transactions have committed when one of ours looks again.
pub record Env : Type 0 where
  pub host : Host
  pub open host use *
  pub others : ℕ → Db → Db

abbrev pub Tx {ℓ} : Type ℓ → Type ℓ
Tx A = State → Result Failure A × State

module _ {ℓ} {A : Type ℓ} where
  unfoldable pub pure : A → Tx A
  pure a s = (ok a, s)

  unfoldable pub fail : Failure → Tx A
  fail e s = (err e, s)

  -- `raise EventRejected(message, code)`
  abbrev pub reject : RejectionCode → String → Tx A
  reject code message = fail (rejection code message)

  unfoldable pub gets : (State → A) → Tx A
  gets f s = (ok (f s), s)

  -- a conversion that may raise
  unfoldable pub lift : Result Fault A → Tx A
  lift (ok a) s = (ok a, s)
  lift (err e) s = (err (fault e), s)

  -- `value`, or the rejection where it is `None`
  unfoldable pub required : Option A → RejectionCode → String → Tx A
  required (some a) code message = pure a
  required none code message = reject code message

  -- `try: m`, the outcome as a value
  unfoldable pub attempt : Tx A → Tx (Result Failure A)
  attempt m s = let (r, s') = m s in (ok r, s')

  -- the database of a state taken back to an earlier one
  abbrev pub rollback : Db → Result Failure A × State → Result Failure A × State
  rollback db (ok a, s) = (ok a, s)
  rollback db (err e, s) = (err e, record s { db = db })

  -- `with transaction.atomic()` inside another: a savepoint
  unfoldable pub savepoint : Tx A → Tx A
  savepoint m s = rollback s.db (m s)

  abbrev pub check_references : String → Result Failure A × State → Result Failure A × State
  check_references message (ok a, s) =
      if references_hold s.db then (ok a, s) else (err (fault (integrity message)), s)
  check_references message (err e, s) = (err e, s)

  -- `with transaction.atomic()` outside any other: deferred references are checked at the commit
  unfoldable pub transaction : Env → Tx A → Tx A
  transaction env m s = rollback s.db (check_references env.missing_reference (m s))

unfoldable pub modify : (Db → Db) → Tx (Unit {0})
modify f s = (ok tt, record s { db = f s.db })

-- `raise EventRejected` if a test holds
unfoldable pub reject_if : Bool → RejectionCode → String → Tx (Unit {0})
reject_if true code message = reject code message
reject_if false code message = pure tt

unfoldable pub fault_if : Bool → Fault → Tx (Unit {0})
fault_if true e = fail (fault e)
fault_if false e = pure tt

-- what other transactions commit between two statements of ours
unfoldable pub interleave : Env → Tx (Unit {0})
interleave env s = (ok tt, record s { db = env.others s.samples s.db })

-- `payload.get(...)` needs a dictionary
unfoldable pub fields_of : Env → Json → Tx Fields
fields_of env (obj fs) = pure fs
fields_of env v = fail (fault (other (env.attribute_error v)))

-- `timezone.now()`
unfoldable pub now : Env → Tx ℕ
now env s = (ok (env.clock s.samples), record s { samples = suc s.samples })

-- the default of a primary key, `uuid.uuid4()`
unfoldable pub new_id : Env → Tx ℕ
new_id env s = (ok (env.uuid4 s.samples), record s { samples = suc s.samples })

-- the conversion of a nullable column
unfoldable pub nullable {ℓ} : {A : Type ℓ} → (Json → Result Fault A) → Json → Tx (Option A)
nullable field null s = (ok none, s)
nullable field v s = elim (field v) [ ok a ↦ (ok (some a), s) | err e ↦ (err (fault e), s) ]

module _ {ℓ κ} {A : Type ℓ} {B : Type κ} where
  abbrev pub continue : Result Failure A × State → (A → Tx B) → Result Failure B × State
  continue (ok a, s) f = f a s
  continue (err e, s) f = (err e, s)

  infixl 10 ◌>>=◌
  -- opening this opens the other actions of this module
  unfoldable pub ◌>>=◌ : Tx A → (A → Tx B) → Tx B
  unfolding pure fail lift gets required attempt savepoint transaction modify reject_if fault_if
      interleave fields_of now new_id nullable
  ◌>>=◌ m f s = continue (m s) f

infixl 10 ◌>>◌
abbrev pub ◌>>◌ {ℓ} : {B : Type ℓ} → Tx (Unit {0}) → Tx B → Tx B
m >> n = m >>= λ _. n
