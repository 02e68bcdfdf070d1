-- ===== src/Voyage/Signals/Cascade.antt =====
-- voyage/signals.py: what the end of a trip does to its reservations.
use toupac.Prelude.{
  ℕ, ◌≡◌, refl, ◌∙◌, ap, ap₂, Bool, Bool-cases, true, false, not, ◌&&◌, ◌||◌, inl, inr, some, List,
  [], ◌∷◌, any, map, ◌==◌, if◌then◌else◌, arith,
}
use toupac.Voyage.Models.{
  Trip, TripStatus, scheduled, preparing, boarding, in_transit, at_stop, arriving, completed,
  Reservation, ReservationStatus, booked, checked_in, boarded, no_show, is_void,
  reservation_status_eq,
}
use toupac.Voyage.Db.{seats_unique, seat_clash, trip_by_pk}
use toupac.Voyage.Tx.{State, Env, ◌>>=◌}
use toupac.Voyage.Signals.{is_no_ending, cascade_rows, cascade_reservations, save_over, save_trip}

-- the status and the instant that a reservation of an ended trip has
ending : ReservationStatus → ℕ → Reservation → Reservation
ending booked at r = record r { status = no_show }
ending checked_in at r = record r { status = boarded; boarded_at = some at }
ending _ at r = r

-- what the end of a trip does to one reservation, in one pass
unfoldable pub ended : ℕ → ℕ → Reservation → Reservation
unfolding ending
ended trip at r = if r.trip == trip then ending r.status at r else r

-- a reservation of the trip that nobody has decided yet
abbrev pub is_waiting : ℕ → Reservation → Bool
is_waiting trip r =
    r.trip == trip
    && (reservation_status_eq r.status booked || reservation_status_eq r.status checked_in)

row_of_status :
    (trip at : ℕ) (st : ReservationStatus) (r : Reservation)
    → r.status ≡ st
    → cascade_rows trip at (r ∷ []) ≡ ended trip at r ∷ []
unfolding ended ending
row_of_status trip at booked r h = ground arith
row_of_status trip at checked_in r h = ground arith
row_of_status trip at boarded r h = ground arith
row_of_status trip at no_show r h = ground arith
row_of_status trip at ReservationStatus.refused r h = ground arith
row_of_status trip at ReservationStatus.cancelled r h = ground arith

head_of : {A : Type 0} → A → List A → A
head_of x [] = x
head_of x (y ∷ ys) = y

-- The two bulk updates of the cascade, one after the other, are one pass over the reservations:
-- of the ended trip, booked becomes no-show, checked-in becomes boarded at that instant, and any
-- other row stays.
pub cascade_rows-map :
    (trip at : ℕ) (rows : List Reservation) → cascade_rows trip at rows ≡ map (ended trip at) rows
unfolding head_of ended
cascade_rows-map trip at [] = refl
cascade_rows-map trip at (r ∷ rs) =
    ap₂ ◌∷◌ (ap (head_of r) (row_of_status trip at r.status r refl)) (cascade_rows-map trip at rs)

module _ (trip at : ℕ) where
  -- what one pass does to the facts about one row
  ended-facts :
      (st : ReservationStatus) (r : Reservation)
      → r.status ≡ st
      → (is_waiting trip (ended trip at r) ≡ false)
        × (is_void (ended trip at r).status ≡ is_void r.status)
        × ((ended trip at r).trip ≡ r.trip)
        × ((ended trip at r).seat_label ≡ r.seat_label)
        × ((later : ℕ) → ended trip later (ended trip at r) ≡ ended trip at r)
  unfolding ended ending
  ended-facts booked r h =
      (ground arith, ground arith, ground arith, ground arith, λ later. ground arith)
  ended-facts checked_in r h =
      (ground arith, ground arith, ground arith, ground arith, λ later. ground arith)
  ended-facts boarded r h =
      (ground arith, ground arith, ground arith, ground arith, λ later. ground arith)
  ended-facts no_show r h =
      (ground arith, ground arith, ground arith, ground arith, λ later. ground arith)
  ended-facts ReservationStatus.refused r h =
      (ground arith, ground arith, ground arith, ground arith, λ later. ground arith)
  ended-facts ReservationStatus.cancelled r h =
      (ground arith, ground arith, ground arith, ground arith, λ later. ground arith)

  ended-not_waiting :
      (rows : List Reservation) → any (is_waiting trip) (map (ended trip at) rows) ≡ false
  ended-not_waiting [] = refl
  ended-not_waiting (r ∷ rs) = ground (arith, (ended-facts r.status r refl).0, ended-not_waiting rs)

  ended-clash :
      (r q : Reservation) → seat_clash (ended trip at r) (ended trip at q) ≡ seat_clash r q
  ended-clash r q =
      let (_, void_r, trip_r, seat_r, _) = ended-facts r.status r refl in
      let (_, void_q, trip_q, seat_q, _) = ended-facts q.status q refl in
      rw (void_r, trip_r, seat_r, void_q, trip_q, seat_q) refl

  ended-any_clash :
      (r : Reservation) (rows : List Reservation)
      → any (seat_clash (ended trip at r)) (map (ended trip at) rows) ≡ any (seat_clash r) rows
  ended-any_clash r [] = refl
  ended-any_clash r (q ∷ qs) = ap₂ ◌||◌ (ended-clash r q) (ended-any_clash r qs)

  ended-seats_unique :
      (rows : List Reservation) → seats_unique (map (ended trip at) rows) ≡ seats_unique rows
  ended-seats_unique [] = refl
  ended-seats_unique (r ∷ rs) =
      ap₂ (λ a b. not a && b) (ended-any_clash r rs) (ended-seats_unique rs)

  -- The end of a trip frees no seat and takes none: the constraint on seats holds of the table
  -- after it exactly when it holds before.
  pub cascade_rows-seats_unique :
      (rows : List Reservation) → seats_unique (cascade_rows trip at rows) ≡ seats_unique rows
  cascade_rows-seats_unique rows =
      ap seats_unique (cascade_rows-map trip at rows) ∙ ended-seats_unique rows

  ended-again :
      (later : ℕ) (rows : List Reservation)
      → map (ended trip later) (map (ended trip at) rows) ≡ map (ended trip at) rows
  ended-again later [] = refl
  ended-again later (r ∷ rs) =
      ap₂ ◌∷◌ ((ended-facts r.status r refl).4 later) (ended-again later rs)

  -- The cascade run again, at any later instant, changes nothing.
  pub cascade_rows-idempotent :
      (later : ℕ) (rows : List Reservation)
      → cascade_rows trip later (cascade_rows trip at rows) ≡ cascade_rows trip at rows
  cascade_rows-idempotent later rows =
      rw (cascade_rows-map trip at rows, cascade_rows-map trip later (map (ended trip at) rows))
        (ended-again later rows)

-- a trip that is over, whatever ended it
abbrev pub is_over : TripStatus → Bool
is_over completed = true
is_over TripStatus.cancelled = true
is_over scheduled = false
is_over preparing = false
is_over boarding = false
is_over in_transit = false
is_over at_stop = false
is_over arriving = false

is_no_ending-is_over :
    (before now : TripStatus) → is_no_ending before now ≡ not (is_over now && not (is_over before))
is_no_ending-is_over before now = ground arith

module _ (env : Env) (trip : Trip) where
  cascade_reservations-rows :
      (original : TripStatus) (s : State)
      → (cascade_reservations env trip original s).1.db.reservations ≡ (
          if is_over trip.status && not (is_over original)
          then map (ended trip.id (env.clock s.samples)) s.db.reservations
          else s.db.reservations)
  unfolding cascade_reservations ◌>>=◌
  cascade_reservations-rows original s =
      elim (Bool-cases (is_over trip.status && not (is_over original))) [
        | inl e ↦
            rw (is_no_ending-is_over original trip.status, e)
              (cascade_rows-map trip.id (env.clock s.samples) s.db.reservations)
        | inr e ↦ rw (is_no_ending-is_over original trip.status, e) refl
      ]

  save_over-reservations :
      (columns : Trip → Trip) (row : Trip) (s : State)
      → (save_over env trip columns (some row) s).1.db.reservations ≡ (
          if is_over trip.status && not (is_over row.status)
          then map (ended trip.id (env.clock s.samples)) s.db.reservations
          else s.db.reservations)
  unfolding save_over ◌>>=◌
  save_over-reservations columns row s = cascade_reservations-rows row.status _

  -- A save of a trip's row that makes it completed or cancelled, where the row was neither, ends the
  -- reservations of the trip, each in one pass; any other save leaves the reservations alone.
  pub save_trip-reservations :
      (columns : Trip → Trip) (row : Trip) (s : State)
      → trip_by_pk trip.id s.db ≡ some row
      → (save_trip env trip columns s).1.db.reservations ≡ (
          if is_over trip.status && not (is_over row.status)
          then map (ended trip.id (env.clock s.samples)) s.db.reservations
          else s.db.reservations)
  unfolding save_trip ◌>>=◌
  save_trip-reservations columns row s found = rw found (save_over-reservations columns row s)

  -- A save that makes a trip completed or cancelled, where its row was neither, leaves no
  -- reservation of the trip booked or checked in.
  pub save_trip-none_waiting :
      (columns : Trip → Trip) (row : Trip) (s : State)
      → trip_by_pk trip.id s.db ≡ some row
      → is_over row.status ≡ false
      → is_over trip.status ≡ true
      → any (is_waiting trip.id) (save_trip env trip columns s).1.db.reservations ≡ false
  save_trip-none_waiting columns row s found open_before over =
      rw (save_trip-reservations columns row s found, open_before, over)
        (ended-not_waiting trip.id (env.clock s.samples) s.db.reservations)
