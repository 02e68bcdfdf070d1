-- ===== src/Voyage/Tx/Moves.antt =====
-- Relations between the database before and after an action, with a rule for each way to build one.
use toupac.Prelude.{
  ℕ, String, Bool, Bool-cases, inl, inr, true, false, Option, none, some, if◌then◌else◌,
}
use toupac.Json.{Json, null, obj}
use toupac.Voyage.Codes.{RejectionCode}
use toupac.Voyage.Host.{Result, ok, err, Fault}
use toupac.Voyage.Db.{Db, references_hold}
use toupac.Voyage.Tx.{
  Failure, State, Env, Tx, pure, fail, gets, lift, required, attempt, rollback, savepoint, fault,
  check_references, continue, transaction, modify, reject_if, fault_if, now, new_id, interleave,
  fields_of, nullable, ◌>>=◌,
}

-- Whether `m` returns or raises, it takes the database along `R`.
pub record Moves {ℓ} {A : Type ℓ} (R : Db → Db → Type 0) (m : Tx A) : Type ℓ where
  pub at : (s : State) → R s.db (m s).1.db

pub record IsPreorder (R : Db → Db → Type 0) : Type 0 where
  pub reflexive : (d : Db) → R d d
  pub transitive : (a b c : Db) → R a b → R b c → R a c

module _ {R : Db → Db → Type 0} (order : IsPreorder R) where
  module _ {ℓ} {A : Type ℓ} where
    pub Moves-pure : (a : A) → Moves R (pure a)
    unfolding pure
    Moves-pure a = record { at = λ s. order.reflexive s.db }

    pub Moves-fail : (e : Failure) → Moves R (fail {A = A} e)
    unfolding fail
    Moves-fail e = record { at = λ s. order.reflexive s.db }

    pub Moves-gets : (f : State → A) → Moves R (gets f)
    unfolding gets
    Moves-gets f = record { at = λ s. order.reflexive s.db }

    pub Moves-lift : (r : Result Fault A) → Moves R (lift r)
    unfolding lift
    Moves-lift (ok a) = record { at = λ s. order.reflexive s.db }
    Moves-lift (err e) = record { at = λ s. order.reflexive s.db }

    pub Moves-required :
        (o : Option A) (code : RejectionCode) (message : String) → Moves R (required o code message)
    unfolding required pure fail
    Moves-required none code message = record { at = λ s. order.reflexive s.db }
    Moves-required (some a) code message = record { at = λ s. order.reflexive s.db }

    rollback-moves : (d : Db) (r : Result Failure A × State) → R d r.1.db → R d (rollback d r).1.db
    rollback-moves d (ok a, s) h = h
    rollback-moves d (err e, s) h = order.reflexive d

    pub Moves-attempt : (m : Tx A) → Moves R m → Moves R (attempt m)
    unfolding attempt
    Moves-attempt m h = record { at = λ s. h.at s }

    pub Moves-savepoint : (m : Tx A) → Moves R m → Moves R (savepoint m)
    unfolding savepoint
    Moves-savepoint m h = record { at = λ s. rollback-moves s.db (m s) (h.at s) }

    checked-moves :
        (message : String) (d : Db) (r : Result Failure A × State)
        → R d r.1.db
        → R d (check_references message r).1.db
    checked-moves message d (ok a, s) h = elim (Bool-cases (references_hold s.db)) [
      | inl e ↦ rw e h
      | inr e ↦ rw e h
    ]
    checked-moves message d (err e, s) h = h

    pub Moves-transaction : (env : Env) (m : Tx A) → Moves R m → Moves R (transaction env m)
    unfolding transaction
    Moves-transaction env m h = record {
      at = λ s. rollback-moves s.db _ (checked-moves env.missing_reference s.db (m s) (h.at s));
    }

    pub Moves-if : (b : Bool) (m n : Tx A) → Moves R m → Moves R n → Moves R (if b then m else n)
    Moves-if true m n hm hn = hm
    Moves-if false m n hm hn = hn

    pub Moves-nullable : (field : Json → Result Fault A) (v : Json) → Moves R (nullable field v)
    unfolding nullable
    Moves-nullable field null = record { at = λ s. order.reflexive s.db }
    Moves-nullable field v = record { at = λ s. nullable_case s (field v) }
      where
        nullable_case :
            (s : State) (r : Result Fault A)
            → R s.db
                (elim r as (λ _. Result Failure (Option A) × State) [
                  | ok a ↦ (ok (some a), s)
                  | err e ↦ (err (fault e), s)
                ]).1.db
        nullable_case s (ok a) = order.reflexive s.db
        nullable_case s (err e) = order.reflexive s.db

  module _ {ℓ κ} {A : Type ℓ} {B : Type κ} where
    pub Moves-bind :
        (m : Tx A) (f : A → Tx B) → Moves R m → ((a : A) → Moves R (f a)) → Moves R (m >>= f)
    unfolding ◌>>=◌
    Moves-bind m f hm hf = record { at = λ s. go s (m s) (hm.at s) }
      where
        go : (s : State) (r : Result Failure A × State) → R s.db r.1.db → R s.db (continue r f).1.db
        go s (ok a, t) h = order.transitive s.db t.db _ h ((hf a).at t)
        go s (err e, t) h = h

  pub Moves-modify : (f : Db → Db) → ((d : Db) → R d (f d)) → Moves R (modify f)
  unfolding modify
  Moves-modify f h = record { at = λ s. h s.db }

  pub Moves-reject_if :
      (b : Bool) (code : RejectionCode) (message : String) → Moves R (reject_if b code message)
  unfolding reject_if pure fail
  Moves-reject_if true code message = record { at = λ s. order.reflexive s.db }
  Moves-reject_if false code message = record { at = λ s. order.reflexive s.db }

  pub Moves-fault_if : (b : Bool) (e : Fault) → Moves R (fault_if b e)
  unfolding fault_if pure fail
  Moves-fault_if true e = record { at = λ s. order.reflexive s.db }
  Moves-fault_if false e = record { at = λ s. order.reflexive s.db }

  pub Moves-now : (env : Env) → Moves R (now env)
  unfolding now
  Moves-now env = record { at = λ s. order.reflexive s.db }

  pub Moves-new_id : (env : Env) → Moves R (new_id env)
  unfolding new_id
  Moves-new_id env = record { at = λ s. order.reflexive s.db }

  pub Moves-fields_of : (env : Env) (v : Json) → Moves R (fields_of env v)
  unfolding fields_of pure fail
  Moves-fields_of env (obj fs) = record { at = λ s. order.reflexive s.db }
  Moves-fields_of env _ = record { at = λ s. order.reflexive s.db }

  pub Moves-interleave :
      (env : Env) → ((n : ℕ) (d : Db) → R d (env.others n d)) → Moves R (interleave env)
  unfolding interleave
  Moves-interleave env h = record { at = λ s. h s.samples s.db }

pub ruleset moves_rules = (
  Moves-pure, Moves-fail, Moves-gets, Moves-lift, Moves-required, Moves-attempt, Moves-savepoint,
  Moves-transaction, Moves-if, Moves-nullable, Moves-bind, Moves-modify, Moves-reject_if,
  Moves-fault_if, Moves-now, Moves-new_id, Moves-fields_of,
)
