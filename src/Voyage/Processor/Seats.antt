-- ===== src/Voyage/Processor/Seats.antt =====
-- The constraint on seats, across the processing of any list of events.
use toupac.Prelude.{ℕ, ◌≡◌, ◌∙◌, true, List}
use toupac.Json.{Json}
use toupac.Voyage.Models.{ControlSession}
use toupac.Voyage.Db.{Db, seats_unique}
use toupac.Voyage.Tx.{State, Env}
use toupac.Voyage.Signals.Cascade.{cascade_rows-seats_unique}
use toupac.Voyage.Handlers.Frame.{Business}
use toupac.Voyage.Processor.{process_all}
use toupac.Voyage.Processor.Moves.{process_all-Moves}

-- the constraint holds afterwards if it held before
abbrev KeepsSeats : Db → Db → Type 0
KeepsSeats d d' = seats_unique d.reservations ≡ true → seats_unique d'.reservations ≡ true

KeepsSeats-business : Business KeepsSeats
KeepsSeats-business = record {
  order = record { reflexive = λ d h. h; transitive = λ a b c p q h. q (p h) };
  trips = λ d xs h. h;
  trip_stops = λ d xs h. h;
  passengers = λ d xs h. h;
  reservations = λ d xs unique h. unique;
  cascade = λ d trip at h. cascade_rows-seats_unique trip at d.reservations ∙ h;
  anomalies = λ d xs h. h;
  incidents = λ d xs h. h;
  cash_entries = λ d xs h. h;
  parcels = λ d xs h. h;
}

-- While other transactions keep every seat of a trip with one active reservation at most, so does
-- the processing of any list of events, on all its paths, whether it ends or an exception escapes.
pub process_all-seats_unique :
    (env : Env) (tenant : ℕ) (session : ControlSession) (events : List Json) (s : State)
    → ((n : ℕ) (d : Db)
        → seats_unique d.reservations ≡ true
        → seats_unique (env.others n d).reservations ≡ true)
    → seats_unique s.db.reservations ≡ true
    → seats_unique (process_all env tenant session events s).1.db.reservations ≡ true
process_all-seats_unique env tenant session events s others h =
    (process_all-Moves env
        (record { business = KeepsSeats-business; events = λ d xs k. k; others = others }) tenant
        session events).at
      s h
