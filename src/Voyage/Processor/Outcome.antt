-- ===== src/Voyage/Processor/Outcome.antt =====
-- What is known when the outer transaction of an event has ended, committed or not.
use toupac.Prelude.{
  ℕ, String, List, [], ◌≡◌, refl, sym, ◌∙◌, ap, Bool, true, false, Option, none, some, ◌⊎◌, inl,
  inr, arith, if◌then◌else◌,
}
use toupac.Json.{Json, str, is_unhashable}
use toupac.Voyage.Models.{ControlSession, ControlEvent, EventStatus}
use toupac.Voyage.Host.{Result, ok, err, integrity, other}
use toupac.Voyage.Db.{Db}
use toupac.Voyage.Tx.{
  State, Env, Failure, rejection, fault, Tx, rollback, transaction, pure, fail, ◌>>=◌,
}
use toupac.Voyage.Tx.Inversion.{transaction-eq-ok, bind-eq-ok, pure-eq-ok}
use toupac.Voyage.Events.{Report}
use toupac.Voyage.Drafts.{Draft}
use toupac.Voyage.Verdicts.{Verdict, VerdictStatus, report_verdict, duplicate_of, duplicate_verdict}
use toupac.Voyage.Processor.{
  archive, details_of, duplicate_or_bare, unprocessable, conclude, process_draft,
}
use toupac.Voyage.Processor.Archive.{Archived, archive-eq-ok}

-- the state that an event finds once other transactions have run
abbrev pub interleaved : Env → State → State
interleaved env s = record s { db = env.others s.samples s.db }

module _ {ℓ} {A : Type ℓ} where
  rollback-db :
      (d : Db) (r : Result Failure A × State) {e : Failure} {t : State}
      → rollback d r ≡ (err e, t)
      → t.db ≡ d
  rollback-db d (ok a, s) h = cc
  rollback-db d (err e, s) h = ground arith

  -- A transaction that has raised leaves the database as it was.
  pub transaction-err :
      (env : Env) (m : Tx A) (s : State) {e : Failure} {t : State}
      → transaction env m s ≡ (err e, t)
      → t.db ≡ s.db
  unfolding transaction
  transaction-err env m s h = rollback-db s.db _ h

report_verdict-accepted :
    (c : String) (keys : List String) (report : Report)
    → (report_verdict c keys report).status ≡ VerdictStatus.accepted
    → report.accepted ≡ true
unfolding report_verdict
report_verdict-accepted c keys report h = ground arith

-- A duplicate's verdict says so.
pub duplicate_verdict-status :
    (c : String) (e : ControlEvent) → (duplicate_verdict c e).status ≡ VerdictStatus.duplicate
unfolding duplicate_verdict
duplicate_verdict-status c e = duplicate_of-status e.status
  where
    duplicate_of-status :
        (st : EventStatus)
        → (duplicate_of c st e.rejection_reason e.rejection_code).status ≡ VerdictStatus.duplicate
    duplicate_of-status EventStatus.processed = refl
    duplicate_of-status EventStatus.rejected = refl
    duplicate_of-status EventStatus.pending = refl

module _ (env : Env) (tenant : ℕ) (session : ControlSession) (client_uuid : ℕ) (draft : Draft) where
  raise_or_go :
      (b : Bool) (e : Failure) (f : List String → Tx Verdict) (s : State)
      → (f [] s).1 ≡ s
      → (((if b then fail e else pure []) >>= f) s).1 ≡ s
  unfolding ◌>>=◌
  raise_or_go true e f s h = refl
  raise_or_go false e f s h = h

  -- the keys of the details are found or an exception escapes; the state stays
  details_of-bind :
      (v : Json) (f : List String → Tx Verdict)
      → ((ks : List String) (u : State) → (f ks u).1 ≡ u)
      → (s : State) → ((details_of env tenant session v >>= f) s).1 ≡ s
  unfolding details_of ◌>>=◌
  details_of-bind (str t) f h s = h _ s
  details_of-bind v f h s =
      raise_or_go (is_unhashable v) (fault (other (env.type_error v))) f s (h [] s)

  -- The verdict is read off, and nothing is written.
  pub conclude-state :
      (r : Result Failure Report) (s : State)
      → (conclude env tenant session client_uuid draft r s).1 ≡ s
  unfolding conclude ◌>>=◌
  conclude-state (ok report) s = details_of-bind draft.event_type _ (λ ks u. refl) s
  conclude-state (err (fault (integrity m))) s = refl
  conclude-state (err (fault (other m))) s = refl
  conclude-state (err (rejection c m)) s = refl

  duplicate_or_bare-status :
      (c : String) (o : Option ControlEvent)
      → (duplicate_or_bare env tenant session c o).status ≡ VerdictStatus.duplicate
  unfolding duplicate_or_bare
  duplicate_or_bare-status c none = refl
  duplicate_or_bare-status c (some e) = duplicate_verdict-status c e

  -- A verdict that accepts comes from a report that does.
  pub conclude-accepted :
      (r : Result Failure Report) (s : State) {v : Verdict} {t : State}
      → conclude env tenant session client_uuid draft r s ≡ (ok v, t)
      → v.status ≡ VerdictStatus.accepted
      → (report : Report) × (r ≡ ok report) × (report.accepted ≡ true)
  unfolding conclude unprocessable
  conclude-accepted (ok report) s h a =
      let (keys, u, e, k) = bind-eq-ok _ _ s h in
      let (same, _) = pure-eq-ok _ u k in
      (report, refl, report_verdict-accepted _ keys report (sym (ap (λ w. w.status) same) ∙ a))
  conclude-accepted (err (fault (integrity m))) s h a =
      let (racing, u, e, k) = bind-eq-ok _ _ s h in
      let (same, _) = pure-eq-ok _ u k in
      let dup : (duplicate_or_bare env tenant session (env.show_uuid client_uuid) racing).status
          ≡ VerdictStatus.duplicate =
        duplicate_or_bare-status _ racing in
      let acc = sym (ap (λ w. w.status) same) ∙ a in cc
  conclude-accepted (err (fault (other m))) s h a = let (same, _) = pure-eq-ok _ s h in ground arith
  conclude-accepted (err (rejection c m)) s h a = let (same, _) = pure-eq-ok _ s h in ground arith

  -- The database after the transaction: untouched, or with the event archived.
  abbrev pub Settled : State → State → Type 0
  Settled s t =
      (t.db ≡ (interleaved env s).db)
      ⊎ ((report : Report) × Archived env tenant session client_uuid draft (interleaved env s)
            report t)

  transaction-Settled :
      (s : State) (r : Result Failure Report) (t : State)
      → transaction env (archive env tenant session client_uuid draft) (interleaved env s) ≡ (r, t)
      → Settled s t
  transaction-Settled s (ok report) t h = inr (
    report,
    archive-eq-ok env tenant session client_uuid draft (interleaved env s)
        (transaction-eq-ok env _ (interleaved env s) h).0,
  )
  transaction-Settled s (err e) t h = inl (transaction-err env _ (interleaved env s) h)

  -- However the processing of an event ends.
  pub process_draft-Settled :
      (s : State) → Settled s (process_draft env tenant session client_uuid draft s).1
  unfolding process_draft ◌>>=◌
  process_draft-Settled s =
      let r = transaction env (archive env tenant session client_uuid draft) (interleaved env s) in
      rw (conclude-state r.0 r.1) (transaction-Settled s r.0 r.1 refl)

  pub process_draft-accepted :
      (s : State) {v : Verdict} {t : State}
      → process_draft env tenant session client_uuid draft s ≡ (ok v, t)
      → v.status ≡ VerdictStatus.accepted
      → (report : Report) × Archived env tenant session client_uuid draft
          (interleaved env s)
          report
          t
        × (report.accepted ≡ true)
  unfolding process_draft ◌>>=◌
  process_draft-accepted s {t = t} h a =
      let r = transaction env (archive env tenant session client_uuid draft) (interleaved env s) in
      let (report, e, accepted) = conclude-accepted r.0 r.1 h a in
      let same = sym (ap (λ p. p.1) h) ∙ conclude-state r.0 r.1 in
      let committed : transaction env (archive env tenant session client_uuid draft)
            (interleaved env s)
          ≡ (ok report, t) =
        cc in
      (
        report,
        archive-eq-ok env tenant session client_uuid draft (interleaved env s)
            (transaction-eq-ok env (archive env tenant session client_uuid draft)
              (interleaved env s) committed).0,
        accepted,
      )
