-- ===== src/Voyage/Processor/Replay.antt =====
-- An event sent again: the idempotence of the batch by the client's identifier.
use toupac.Prelude.{
  ℕ, String, ◌≡◌, refl, sym, ◌∙◌, ap, true, Option, none, some, ==_refl, first, first-append_last,
}
use toupac.Json.{Fields, obj, get}
use toupac.Voyage.Models.{ControlSession, ControlEvent}
use toupac.Voyage.Host.{Result, ok, err}
use toupac.Voyage.Db.{find_event, is_event}
use toupac.Voyage.Tx.{State, Env, fail, ◌>>=◌}
use toupac.Voyage.Tx.Inversion.{pure-eq-ok}
use toupac.Voyage.Events.{Report}
use toupac.Voyage.Drafts.{Draft, Stop, refused, escaped, check_event}
use toupac.Voyage.Verdicts.{
  Verdict, VerdictStatus, OriginalStatus, bare_duplicate, duplicate_verdict,
}
use toupac.Voyage.Processor.{
  settled, checked, known_or_new, process_identified, identified, process_single_event,
}
use toupac.Voyage.Processor.Archive.{Archived}
use toupac.Voyage.Processor.Outcome.{interleaved, duplicate_verdict-status, process_draft-accepted}

module _ (env : Env) (tenant : ℕ) (session : ControlSession) where
  module _ (u : ℕ) where
    its_own_event :
        (row : ControlEvent)
        → row.tenant ≡ tenant
        → row.client_uuid ≡ u
        → is_event tenant u row ≡ true
    its_own_event row p q = rw (p, q, ==_refl tenant, ==_refl u) refl

    -- An archived event is the one that its client's identifier finds.
    pub find_event-Archived :
        (draft : Draft) (s : State) (report : Report) (t : State)
        (a : Archived env tenant session u draft s report t)
        → find_event tenant u t.db ≡ some (settled env tenant session report a.at a.row)
    find_event-Archived draft s report t a =
        ap (first (λ e. e.id) (is_event tenant u)) a.events
        ∙ first-append_last (λ e. e.id) (is_event tenant u) s.db.control_events
            (settled env tenant session report a.at a.row) a.new_uuid
            (its_own_event (settled env tenant session report a.at a.row) a.its_tenant a.its_uuid)

    -- the recorded row of an accepted event is a duplicate with that outcome
    settled-duplicate :
        (c : String) (report : Report) (at : ℕ) (row : ControlEvent)
        → report.accepted ≡ true
        → duplicate_verdict c (settled env tenant session report at row)
          ≡ bare_duplicate c (some OriginalStatus.accepted)
    unfolding duplicate_verdict
    settled-duplicate c report at row h = rw h refl

    checked-accepted :
        (r : Result Stop Draft) (s : State) {v : Verdict} {t : State}
        → checked env tenant session u r s ≡ (ok v, t)
        → v.status ≡ VerdictStatus.accepted
        → (e : ControlEvent) × (find_event tenant u t.db ≡ some e)
          × (duplicate_verdict (env.show_uuid u) e
              ≡ bare_duplicate (env.show_uuid u) (some OriginalStatus.accepted))
    unfolding checked fail
    checked-accepted (ok draft) s {t = t} h a =
        let (report, archived, accepted) =
          process_draft-accepted env tenant session u draft s h a in
        (
          _,
          find_event-Archived draft (interleaved env s) report t archived,
          settled-duplicate (env.show_uuid u) report archived.at archived.row accepted,
        )
    checked-accepted (err (refused code message)) s h a = let (same, _) = pure-eq-ok _ s h in cc
    checked-accepted (err (escaped message)) s h a = cc

    known_or_new-accepted :
        (event : Fields) (o : Option ControlEvent) (s : State) {v : Verdict} {t : State}
        → known_or_new env tenant session u event o s ≡ (ok v, t)
        → v.status ≡ VerdictStatus.accepted
        → (e : ControlEvent) × (find_event tenant u t.db ≡ some e)
          × (duplicate_verdict (env.show_uuid u) e
              ≡ bare_duplicate (env.show_uuid u) (some OriginalStatus.accepted))
    unfolding known_or_new
    known_or_new-accepted event none s h a = checked-accepted (check_event env.host event) s h a
    known_or_new-accepted event (some e) s h a =
        let (same, _) = pure-eq-ok _ s h in
        let dup : (duplicate_verdict (env.show_uuid u) e).status ≡ VerdictStatus.duplicate =
          duplicate_verdict-status (env.show_uuid u) e in
        cc

  -- An event that is already recorded is answered from its row, and changes nothing.
  pub recorded_event :
      (event : Fields) (u : ℕ) (e : ControlEvent) (s : State)
      → env.parse_uuid (env.text (get event "client_uuid")) ≡ some u
      → find_event tenant u s.db ≡ some e
      → process_single_event env tenant session (obj event) s
        ≡ (ok (duplicate_verdict (env.show_uuid u) e), s)
  unfolding process_single_event identified process_identified known_or_new ◌>>=◌
  recorded_event event u e s p q = rw (p, q) refl

  -- An accepted event sent again, with the same client's identifier and whatever else, while the
  -- table of events is as the first pass left it: it is a duplicate whose original was accepted,
  -- no exception escapes, and the state does not change at all.
  pub accepted_then_duplicate :
      (event again : Fields) (u : ℕ) (s : State) (v : Verdict) (t t' : State)
      → env.parse_uuid (env.text (get event "client_uuid")) ≡ some u
      → env.parse_uuid (env.text (get again "client_uuid")) ≡ some u
      → process_single_event env tenant session (obj event) s ≡ (ok v, t)
      → v.status ≡ VerdictStatus.accepted
      → t'.db.control_events ≡ t.db.control_events
      → process_single_event env tenant session (obj again) t'
        ≡ (ok (bare_duplicate (env.show_uuid u) (some OriginalStatus.accepted)), t')
  unfolding process_single_event identified process_identified ◌>>=◌
  accepted_then_duplicate event again u s v t t' p q h a same =
      let first_pass : known_or_new env tenant session u event (find_event tenant u s.db) s
          ≡ (ok v, t) =
        ap (λ o. identified env tenant session (get event "client_uuid") o event s) (sym p) ∙ h in
      let (e, found, answer) =
        known_or_new-accepted u event (find_event tenant u s.db) s first_pass a in
      recorded_event again u e t' q (ap (first (λ x. x.id) (is_event tenant u)) same ∙ found)
      ∙ ap (λ w. (ok w, t')) answer
