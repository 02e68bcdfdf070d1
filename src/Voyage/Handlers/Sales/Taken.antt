-- ===== src/Voyage/Handlers/Sales/Taken.antt =====
-- A sale on a seat that an active reservation holds.
use toupac.Prelude.{
  refl, List, none, not, ◌&&◌, ◌==◌, str_eq, ◌⊎◌, inl, inr, Bool-cases, ℕ, String, ◌≡◌, sym, ◌∙◌,
  ap, ap₂, Bool, true, false, some, [], ◌∷◌, ◌++◌, any, if◌then◌else◌,
}
use toupac.Json.{Json, Fields, get}
use toupac.Voyage.Codes.{seat_already_taken}
use toupac.Voyage.Models.{
  Trip, RouteStop, Anomaly, ControlSession, Passenger, Reservation, ReservationStatus, booked,
  checked_in, boarded, no_show, is_void,
}
use mathlib.Core.Path.{subst}
use toupac.Voyage.Host.{Result, ok}
use toupac.Voyage.Db.{Db}
use toupac.Voyage.Tx.{State, Env, Failure, Tx, pure, modify, ◌>>=◌}
use toupac.Voyage.Tx.Inversion.{bind-eq-ok, pure-eq-ok, gets-eq-ok, new_id-eq-ok, fault_if-eq-ok}
use toupac.Voyage.Events.{Event, Report, serialize_anomaly}
use toupac.Voyage.Anomalies.{create_anomaly}
use toupac.Voyage.Handlers.Sales.{holds_seat, refuse_taken_seat, sell, sell_free_seat}

-- one more anomaly, and nothing else
abbrev pub with_anomaly : Anomaly → Db → Db
with_anomaly a d = record d { anomalies = d.anomalies ++ a ∷ [] }

pub create_anomaly-eq-ok :
    (env : Env) (row : ℕ → Anomaly) (s : State) {a : Anomaly} {t : State}
    → create_anomaly env row s ≡ (ok a, t)
    → t.db ≡ with_anomaly a s.db
unfolding create_anomaly modify
create_anomaly-eq-ok env row s h =
    let (i, s1, e1, h1) = bind-eq-ok _ _ s h in
    let (taken, s2, e2, h2) = bind-eq-ok _ _ s1 h1 in
    let (x, s3, e3, h3) = bind-eq-ok _ _ s2 h2 in
    let (y, s4, e4, h4) = bind-eq-ok _ _ s3 h3 in
    let (made, last) = pure-eq-ok (row i) s4 h4 in
    let same : s3.db ≡ s.db =
      ap (λ u. u.db) ((fault_if-eq-ok _ _ s2 e3).1 ∙ (gets-eq-ok _ s1 e2).1)
      ∙ new_id-eq-ok env s e1 in
    ap (λ u. u.db) last ∙ ap (λ p. p.1.db) (sym e4) ∙ ap₂ with_anomaly (sym made) same

run_true :
    {A : Type 0} (b : Bool) (m n : Tx A) (s : State) {r : Result Failure A × State}
    → b ≡ true
    → (if b then m else n) s ≡ r
    → m s ≡ r
run_true true m n s p h = h
run_true false m n s p h = cc

run_false :
    {A : Type 0} (b : Bool) (m n : Tx A) (s : State) {r : Result Failure A × State}
    → b ≡ false
    → (if b then m else n) s ≡ r
    → n s ≡ r
run_false true m n s p h = cc
run_false false m n s p h = h

-- What an action returns, when it does, satisfies `P`.
record Yields {A : Type 0} (P : A → Type 0) (m : Tx A) : Type 0 where
  at : {s t : State} {a : A} → m s ≡ (ok a, t) → P a

bind-Yields :
    {A B : Type 0} {P : B → Type 0} (m : Tx A) (f : A → Tx B)
    → ((a : A) → Yields P (f a))
    → Yields P (m >>= f)
bind-Yields m f h = record {
  at = λ {s} e. let (a, u, _, rest) = bind-eq-ok m f s e in (h a).at rest;
}

pure-Yields : {A : Type 0} {P : A → Type 0} (a : A) → P a → Yields P (pure a)
pure-Yields {P} a h = record { at = λ {s} e. subst P (sym (pure-eq-ok a s e).0) h }

abbrev IsAccepted : Report → Type 0
IsAccepted report = (report.accepted ≡ true) × (report.rejection_code ≡ none)

-- a reservation in one of these statuses keeps its seat
abbrev pub keeps_seat : ReservationStatus → Bool
keeps_seat booked = true
keeps_seat checked_in = true
keeps_seat boarded = true
keeps_seat no_show = true
keeps_seat ReservationStatus.refused = false
keeps_seat ReservationStatus.cancelled = false

abbrev pub occupies : ℕ → ℕ → String → Reservation → Bool
occupies tenant trip seat r =
    r.tenant == tenant && r.trip == trip && str_eq r.seat_label seat && keeps_seat r.status

keeps_seat-is_void : (st : ReservationStatus) → not (is_void st) ≡ keeps_seat st
keeps_seat-is_void booked = refl
keeps_seat-is_void checked_in = refl
keeps_seat-is_void boarded = refl
keeps_seat-is_void no_show = refl
keeps_seat-is_void ReservationStatus.refused = refl
keeps_seat-is_void ReservationStatus.cancelled = refl

any-occupies :
    (env : Env) (tenant : ℕ) (session : ControlSession) (trip : Trip) (seat : String)
    (rows : List Reservation)
    → any (holds_seat env tenant session trip seat) rows ≡ any (occupies tenant trip.id seat) rows
any-occupies env tenant session trip seat [] = refl
any-occupies env tenant session trip seat (r ∷ rows) =
    rw (keeps_seat-is_void r.status, any-occupies env tenant session trip seat rows) refl

module _ (env : Env) (tenant : ℕ) (session : ControlSession) (event : Event) (trip : Trip) where
  -- A refusal for the seat, with its anomaly as the one row that was written.
  abbrev pub Refused : State → Report → State → Type 0
  Refused s report t =
      (a : Anomaly) × (report.accepted ≡ false)
      × (report.rejection_code ≡ some seat_already_taken)
      × (report.anomaly ≡ some (serialize_anomaly env.host a))
      × (t.db ≡ with_anomaly a s.db)

  refuse_taken_seat-eq-ok :
      (seat_label : Json) (s : State) {report : Report} {t : State}
      → refuse_taken_seat env tenant session event trip seat_label s ≡ (ok report, t)
      → (a : Anomaly) × (report.accepted ≡ false)
        × (report.rejection_code ≡ some seat_already_taken)
        × (report.anomaly ≡ some (serialize_anomaly env.host a))
        × (t.db ≡ with_anomaly a s.db)
  unfolding refuse_taken_seat
  refuse_taken_seat-eq-ok seat_label s h =
      let (a, s1, e1, h1) = bind-eq-ok _ _ s h in
      let (same, last) = pure-eq-ok _ s1 h1 in
      (
        a,
        ap (λ r. r.accepted) same,
        ap (λ r. r.rejection_code) same,
        ap (λ r. r.anomaly) same,
        ap (λ u. u.db) last ∙ create_anomaly-eq-ok env _ s e1,
      )

  sell-Yields :
      (seat_label amount_xof : Json) (payment_method : String) (passenger : Passenger)
      (stops : RouteStop × RouteStop)
      → Yields IsAccepted
          (sell env tenant session event trip seat_label amount_xof payment_method passenger stops)
  unfolding sell
  sell-Yields seat_label amount_xof payment_method passenger (origin, destination) =
      bind-Yields _ _ λ seat. bind-Yields _ _ λ amount. bind-Yields _ _ λ method.
        bind-Yields _ _ λ r. bind-Yields _ _ λ jwt.
          bind-Yields _ _
            λ saved. bind-Yields _ _ λ c. bind-Yields _ _ λ counted. pure-Yields _ (refl, refl)

  sold :
      (payload passenger_data : Fields) (first_name last_name payment_method : String)
      (stops : RouteStop × RouteStop) (s : State) {report : Report} {t : State}
      → any
          (holds_seat env tenant session trip (env.text (get payload "seat_label")))
          s.db.reservations
        ≡ false
      → sell_free_seat env tenant session event trip payload passenger_data first_name last_name
          payment_method stops s
        ≡ (ok report, t)
      → IsAccepted report
  unfolding sell_free_seat
  sold payload passenger_data first_name last_name payment_method stops s free h =
      let (taken, s1, e1, h1) = bind-eq-ok _ _ s h in
      let (looked, _) = gets-eq-ok _ s e1 in
      let rest = run_false taken _ _ s1 (looked ∙ free) h1 in
      (bind-Yields _ _ λ phone. bind-Yields _ _ λ passenger.
          sell-Yields (get payload "seat_label") (get payload "amount_xof") payment_method passenger
            stops).at
        rest

  refused :
      (payload passenger_data : Fields) (first_name last_name payment_method : String)
      (stops : RouteStop × RouteStop) (s : State) (report : Report) (t : State)
      → any
          (holds_seat env tenant session trip (env.text (get payload "seat_label")))
          s.db.reservations
        ≡ true
      → sell_free_seat env tenant session event trip payload passenger_data first_name last_name
          payment_method stops s
        ≡ (ok report, t)
      → Refused s report t
  unfolding sell_free_seat
  refused payload passenger_data first_name last_name payment_method stops s report t held h =
      let (taken, s1, e1, h1) = bind-eq-ok _ _ s h in
      let (looked, same) = gets-eq-ok _ s e1 in
      subst (λ u. Refused u report t) same
        (refuse_taken_seat-eq-ok (get payload "seat_label") s1
          (run_true taken _ _ s1 (looked ∙ held) h1))

  -- A sale that passes its checks and returns. Where a reservation of the tenant on this trip and seat
  -- is booked, checked in, boarded or a no-show, it is refused with the seat's own code, and the
  -- anomaly that it answers with is the one row that it writes: no passenger, no reservation, no
  -- cash. Otherwise it is accepted.
  pub sell_free_seat-taken :
      (payload passenger_data : Fields) (first_name last_name payment_method : String)
      (stops : RouteStop × RouteStop) (s : State) (report : Report) (t : State)
      → sell_free_seat env tenant session event trip payload passenger_data first_name last_name
          payment_method stops s
        ≡ (ok report, t)
      → let taken =
          any (occupies tenant trip.id (env.text (get payload "seat_label"))) s.db.reservations in
        ((taken ≡ true) × Refused s report t)
        ⊎ ((taken ≡ false) × (report.accepted ≡ true) × (report.rejection_code ≡ none))
  sell_free_seat-taken payload passenger_data first_name last_name payment_method stops s report t
        h =
      let seat = env.text (get payload "seat_label") in
      let same = any-occupies env tenant session trip seat s.db.reservations in
      elim (Bool-cases (any (occupies tenant trip.id seat) s.db.reservations)) [
        | inl held ↦ inl (
          held,
          refused payload passenger_data first_name last_name payment_method stops s report t
              (same ∙ held) h,
        )
        | inr free ↦
            let accepted =
              sold payload passenger_data first_name last_name payment_method stops s (same ∙ free)
                h in
            inr (free, accepted.0, accepted.1)
      ]
