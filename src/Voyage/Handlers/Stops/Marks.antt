-- ===== src/Voyage/Handlers/Stops/Marks.antt =====
-- What an arrival or a departure that is accepted has found, and what it leaves.
use toupac.Prelude.{
  ℕ, ◌≡◌, refl, sym, ◌∙◌, ap, ◌&&◌, &&_both, Option, none, some, ◌==◌, ==_iff, first, first-some,
  first-update_where, or_else, arith,
}
use mathlib.Core.Option
use toupac.Voyage.Models.{Trip, TripStop, StopStatus, ControlSession}
use toupac.Voyage.Host.{ok}
use toupac.Voyage.Db.{Db, trip_by_pk}
use toupac.Voyage.Tx.{State, Env, modify}
use toupac.Voyage.Tx.Inversion.{
  bind-eq-ok, pure-eq-ok, lift-eq-ok, gets-eq-ok, required-eq-ok, fields_of-eq-ok,
}
use toupac.Voyage.Events.{Event, Report}
use toupac.Voyage.Session.{load_trip, cached_trip, session_trip}
use toupac.Voyage.Handlers.Stops.{
  first_mark, mark_arrival, mark_departure, resolve_stop, save_stop, handle_stop_arrive,
  handle_stop_depart,
}

-- the stop of a trip with a key
abbrev pub find_stop : ℕ → ℕ → Db → Option TripStop
find_stop trip i db = first (λ p. p.id) (λ p. p.id == i && p.trip == trip) db.trip_stops

first_mark-or_else : (o : Option ℕ) (at : ℕ) → first_mark o at ≡ or_else o (some at)
first_mark-or_else none at = refl
first_mark-or_else (some t) at = refl

mark_arrival-first :
    (at : ℕ) (stop : TripStop)
    → mark_arrival at stop
      ≡ record stop { ata = or_else stop.ata (some at); status = StopStatus.arrived }
mark_arrival-first at stop =
    ap (λ o. record stop { ata = o; status = StopStatus.arrived }) (first_mark-or_else stop.ata at)

load_trip-db :
    (env : Env) (o : Option Trip) (s : State) {trip : Trip} {t : State}
    → load_trip env o s ≡ (ok trip, t)
    → t.db ≡ s.db
unfolding load_trip
load_trip-db env none s h = cc
load_trip-db env (some x) s h = ground arith

cached_trip-db :
    (env : Env) (session : ControlSession) (o : Option Trip) (s : State) {trip : Trip} {t : State}
    → cached_trip env session o s ≡ (ok trip, t)
    → t.db ≡ s.db
unfolding cached_trip
cached_trip-db env session none s h = load_trip-db env (trip_by_pk session.trip s.db) s h
cached_trip-db env session (some x) s h = ground arith

session_trip-db :
    (env : Env) (session : ControlSession) (s : State) {trip : Trip} {t : State}
    → session_trip env session s ≡ (ok trip, t)
    → t.db ≡ s.db
unfolding session_trip
session_trip-db env session s h = cached_trip-db env session s.session_trip s h

module _ (env : Env) (tenant : ℕ) (session : ControlSession) where
  -- the stop of the session's trip that an event names, and nothing written
  record IsResolved (s : State) (stop : TripStop) (t : State) : Type 0 where
    trip : Trip
    loaded : State
    of_session : session_trip env session s ≡ (ok trip, loaded)
    found : find_stop trip.id stop.id s.db ≡ some stop
    same_db : t.db ≡ s.db

  resolve_stop-eq-ok :
      (event : Event) (s : State) {stop : TripStop} {t : State}
      → resolve_stop env tenant session event s ≡ (ok stop, t)
      → IsResolved s stop t
  unfolding resolve_stop
  resolve_stop-eq-ok event s {stop} h =
      let (payload, s1, e1, h1) = bind-eq-ok _ _ s h in
      let (stop_id, s2, e2, h2) = bind-eq-ok _ _ s1 h1 in
      let (trip, s3, e3, h3) = bind-eq-ok _ _ s2 h2 in
      let (i, s4, e4, h4) = bind-eq-ok _ _ s3 h3 in
      let (o, s5, e5, h5) = bind-eq-ok _ _ s4 h4 in
      let start = (required-eq-ok _ _ _ s1 e2).1 ∙ (fields_of-eq-ok env event.payload s e1).1 in
      let same4 = (lift-eq-ok _ s3 e4).1 in
      let db3 : s3.db ≡ s.db = session_trip-db env session s2 e3 ∙ ap (λ u. u.db) start in
      let (looked, same5) = gets-eq-ok _ s4 e5 in
      let (is_found, same) = required-eq-ok o _ _ s5 h5 in
      let there : find_stop trip.id i s.db ≡ some stop =
        ap (find_stop trip.id i) (sym (ap (λ u. u.db) same4 ∙ db3)) ∙ sym looked ∙ is_found in
      let selected =
        &&_both (stop.id == i) (stop.trip == trip.id) (
          first-some (λ p. p.id) (λ p. p.id == i && p.trip == trip.id) s.db.trip_stops stop
            there) in
      record {
        trip = trip;
        loaded = s3;
        of_session = ap (session_trip env session) (sym start) ∙ e3;
        found = ap (λ j. find_stop trip.id j s.db) ((==_iff stop.id i).0 selected.0) ∙ there;
        same_db = ap (λ u. u.db) (same ∙ same5 ∙ same4) ∙ db3;
      }

  save_stop-found :
      (f : TripStop → TripStop) (trip : ℕ) (stop : TripStop) (s : State) {x : Unit {0}} {t : State}
      → ((p : TripStop) → (f p).id ≡ p.id)
      → ((p : TripStop) → (f p).trip ≡ p.trip)
      → find_stop trip stop.id s.db ≡ some stop
      → save_stop env tenant session stop.id f s ≡ (ok x, t)
      → find_stop trip stop.id t.db ≡ some (f stop)
  unfolding save_stop modify
  save_stop-found f trip stop s same_id same_trip found h =
      ap (λ p. find_stop trip stop.id p.1.db) (sym h)
      ∙ first-update_where (λ p. p.id) (λ p. p.id == stop.id && p.trip == trip)
          (λ p. p.id == stop.id) f s.db.trip_stops same_id (λ p. rw (same_id p, same_trip p) refl)
          (λ p q. (&&_both (p.id == stop.id) (p.trip == trip) q).0)
      ∙ ap (Option.map f) found

  -- An arrival that returns has found a stop of the session's trip; the same query finds it again
  -- with its status arrived and the arrival that it had, or the event's instant where it had none, and
  -- nothing else of it changed.
  pub handle_stop_arrive-marks :
      (event : Event) (s : State) (report : Report) (t : State)
      → handle_stop_arrive env tenant session event s ≡ (ok report, t)
      → (trip : Trip) × (loaded : State) × (stop : TripStop) × (session_trip env session s
          ≡ (ok trip, loaded))
        × (find_stop trip.id stop.id s.db ≡ some stop)
        × (find_stop trip.id stop.id t.db
            ≡ some (record stop {
              ata = or_else stop.ata (some event.created_at_local);
              status = StopStatus.arrived;
            }))
  unfolding handle_stop_arrive
  handle_stop_arrive-marks event s report t h =
      let (stop, s1, e1, h1) = bind-eq-ok _ _ s h in
      let (x, s2, e2, h2) = bind-eq-ok _ _ s1 h1 in
      let r = resolve_stop-eq-ok event s e1 in
      (
        r.trip,
        r.loaded,
        stop,
        r.of_session,
        r.found,
        ap (λ u. find_stop r.trip.id stop.id u.db) (pure-eq-ok _ s2 h2).1
            ∙ save_stop-found (mark_arrival event.created_at_local) r.trip.id stop s1 (λ p. refl)
                (λ p. refl) (ap (find_stop r.trip.id stop.id) r.same_db ∙ r.found) e2
            ∙ ap some (mark_arrival-first event.created_at_local stop),
      )

  -- A departure that returns has found a stop of the session's trip; the same query finds it again
  -- with its status departed, and with the event's instant where it had no departure yet.
  pub handle_stop_depart-marks :
      (event : Event) (s : State) (report : Report) (t : State)
      → handle_stop_depart env tenant session event s ≡ (ok report, t)
      → (trip : Trip) × (loaded : State) × (stop : TripStop) × (session_trip env session s
          ≡ (ok trip, loaded))
        × (find_stop trip.id stop.id s.db ≡ some stop)
        × (find_stop trip.id stop.id t.db ≡ some (mark_departure event.created_at_local stop))
  unfolding handle_stop_depart
  handle_stop_depart-marks event s report t h =
      let (stop, s1, e1, h1) = bind-eq-ok _ _ s h in
      let (x, s2, e2, h2) = bind-eq-ok _ _ s1 h1 in
      let r = resolve_stop-eq-ok event s e1 in
      (
        r.trip,
        r.loaded,
        stop,
        r.of_session,
        r.found,
        ap (λ u. find_stop r.trip.id stop.id u.db) (pure-eq-ok _ s2 h2).1
            ∙ save_stop-found (mark_departure event.created_at_local) r.trip.id stop s1 (λ p. refl)
                (λ p. refl) (ap (find_stop r.trip.id stop.id) r.same_db ∙ r.found) e2,
      )

-- Marks sent again at other instants: an arrival or a departure already marked keeps its first
-- instant, a departure keeps the arrival that was marked before it, and an arrival the departure.
pub marks-first_wins :
    (a b : ℕ) (stop : TripStop)
    → (mark_arrival b (mark_arrival a stop) ≡ mark_arrival a stop)
      × (mark_departure b (mark_departure a stop) ≡ mark_departure a stop)
      × ((mark_departure b (mark_arrival a stop)).ata ≡ first_mark stop.ata a)
      × ((mark_arrival b (mark_departure a stop)).atd ≡ first_mark stop.atd a)
marks-first_wins a b stop = (ground arith, ground arith, refl, refl)
