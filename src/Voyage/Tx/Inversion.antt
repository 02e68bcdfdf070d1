-- ===== src/Voyage/Tx/Inversion.antt =====
-- What is known of an action that has returned.
use toupac.Prelude.{
  ℕ, String, ◌≡◌, refl, Bool, true, false, Bool-cases, inl, inr, Option, none, some, arith,
}
use toupac.Voyage.Codes.{RejectionCode}
use toupac.Voyage.Host.{Result, ok, err, Fault}
use toupac.Json.{Json, Fields, null, obj}
use toupac.Voyage.Db.{Db, references_hold}
use toupac.Voyage.Tx.{
  Failure, fault, State, Env, Tx, rollback, check_references, transaction, nullable, pure, fail,
  lift, fault_if, reject_if, gets, required, fields_of, new_id, continue, ◌>>=◌,
}

module _ {ℓ κ} {A : Type ℓ} {B : Type κ} where
  continue-eq-ok :
      (r : Result Failure A × State) (f : A → Tx B) {b : B} {t : State}
      → continue r f ≡ (ok b, t)
      → (a : A) × (u : State) × (r ≡ (ok a, u)) × (f a u ≡ (ok b, t))
  continue-eq-ok (ok a, u) f h = (a, u, refl, h)
  continue-eq-ok (err e, u) f h = cc

  -- A bind that has returned went through both its parts.
  pub bind-eq-ok :
      (m : Tx A) (f : A → Tx B) (s : State) {b : B} {t : State}
      → (m >>= f) s ≡ (ok b, t)
      → (a : A) × (u : State) × (m s ≡ (ok a, u)) × (f a u ≡ (ok b, t))
  unfolding ◌>>=◌
  bind-eq-ok m f s h = continue-eq-ok (m s) f h

module _ {ℓ} {A : Type ℓ} where
  pub lift-eq-ok :
      (r : Result Fault A) (s : State) {a : A} {t : State}
      → lift r s ≡ (ok a, t)
      → (r ≡ ok a) × (t ≡ s)
  unfolding lift
  lift-eq-ok (ok a) s h = ground arith
  lift-eq-ok (err e) s h = cc

pub fault_if-eq-ok :
    (b : Bool) (e : Fault) (s : State) {x : Unit {0}} {t : State}
    → fault_if b e s ≡ (ok x, t)
    → (b ≡ false) × (t ≡ s)
unfolding fault_if pure fail
fault_if-eq-ok true e s h = cc
fault_if-eq-ok false e s h = ground arith

module _ {ℓ} {A : Type ℓ} where
  rollback-eq-ok :
      (d : Db) (r : Result Failure A × State) {a : A} {t : State}
      → rollback d r ≡ (ok a, t)
      → r ≡ (ok a, t)
  rollback-eq-ok d (ok a, s) h = h
  rollback-eq-ok d (err e, s) h = cc

  checked-eq-ok :
      (message : String) (r : Result Failure A × State) {a : A} {t : State}
      → check_references message r ≡ (ok a, t)
      → (r ≡ (ok a, t)) × (references_hold t.db ≡ true)
  checked-eq-ok message (ok a, s) h = elim (Bool-cases (references_hold s.db)) [
    | inl e ↦ ground arith
    | inr e ↦ ground arith
  ]
  checked-eq-ok message (err e, s) h = cc

  -- A transaction that has committed did what its body did, and its references hold.
  pub transaction-eq-ok :
      (env : Env) (m : Tx A) (s : State) {a : A} {t : State}
      → transaction env m s ≡ (ok a, t)
      → (m s ≡ (ok a, t)) × (references_hold t.db ≡ true)
  unfolding transaction
  transaction-eq-ok env m s h = checked-eq-ok env.missing_reference (m s) (rollback-eq-ok s.db _ h)

  nullable_state :
      (r : Result Fault A) (s : State) {o : Option A} {t : State}
      → (elim r as (λ _. Result Failure (Option A) × State) [
        | ok a ↦ (ok (some a), s)
        | err e ↦ (err (fault e), s)
      ])
        ≡ (ok o, t)
      → t ≡ s
  nullable_state (ok a) s h = ground arith
  nullable_state (err e) s h = cc

  pub nullable-eq-ok :
      (field : Json → Result Fault A) (v : Json) (s : State) {o : Option A} {t : State}
      → nullable field v s ≡ (ok o, t)
      → t ≡ s
  unfolding nullable
  nullable-eq-ok field null s h = ground arith
  nullable-eq-ok field v s h = nullable_state (field v) s h

  pub pure-eq-ok :
      (a : A) (s : State) {b : A} {t : State} → pure a s ≡ (ok b, t) → (b ≡ a) × (t ≡ s)
  unfolding pure
  pure-eq-ok a s h = ground arith

pub new_id-eq-ok :
    (env : Env) (s : State) {i : ℕ} {t : State} → new_id env s ≡ (ok i, t) → t.db ≡ s.db
unfolding new_id
new_id-eq-ok env s h = ground arith

pub reject_if-eq-ok :
    (b : Bool) (code : RejectionCode) (message : String) (s : State) {x : Unit {0}} {t : State}
    → reject_if b code message s ≡ (ok x, t)
    → (b ≡ false) × (t ≡ s)
unfolding reject_if pure fail
reject_if-eq-ok true code message s h = cc
reject_if-eq-ok false code message s h = ground arith

module _ {ℓ} {A : Type ℓ} where
  pub gets-eq-ok :
      (f : State → A) (s : State) {a : A} {t : State} → gets f s ≡ (ok a, t) → (a ≡ f s) × (t ≡ s)
  unfolding gets
  gets-eq-ok f s h = ground arith

  pub required-eq-ok :
      (o : Option A) (code : RejectionCode) (message : String) (s : State) {a : A} {t : State}
      → required o code message s ≡ (ok a, t)
      → (o ≡ some a) × (t ≡ s)
  unfolding required pure fail
  required-eq-ok none code message s h = cc
  required-eq-ok (some a) code message s h = ground arith

pub fields_of-eq-ok :
    (env : Env) (v : Json) (s : State) {fs : Fields} {t : State}
    → fields_of env v s ≡ (ok fs, t)
    → (v ≡ obj fs) × (t ≡ s)
unfolding fields_of pure fail
fields_of-eq-ok env (obj fs) s h = ground arith
fields_of-eq-ok env _ s h = cc
