-- ===== src/Voyage/TripStops/Once.antt =====
-- The stops of a trip made a second time, and the offsets of a route's stop after a save.
use toupac.Prelude.{
  ℕ, ◌≡◌, refl, sym, ◌∙◌, ap, Bool, true, false, ◌||◌, or_right, ◌⊎◌, inl, inr, List, [], ◌∷◌, ◌++◌,
  any, any-append, length, ◌==◌, ==_refl, if◌then◌else◌, arith,
}
use toupac.Voyage.Models.{Trip, TripStop, RouteStop}
use toupac.Voyage.Host.{ok}
use toupac.Voyage.Tx.{State, Env, pure, modify, ◌>>=◌}
use toupac.Voyage.Tx.Inversion.{bind-eq-ok, pure-eq-ok}
use toupac.Voyage.TripStops.{
  planned_stops, create_stops, stops_of_route, materialize_trip_stops, synchronised,
}

-- a stop of the trip is in the table
abbrev pub has_stops : Trip → List TripStop → Bool
has_stops trip rows = any (λ p. p.trip == trip.id) rows

module _ (env : Env) (trip : Trip) where
  planned_stops-first :
      (rs : RouteStop) (rest : List RouteStop) (s : State) {stops : List TripStop} {t : State}
      → planned_stops env trip (rs ∷ rest) s ≡ (ok stops, t)
      → has_stops trip stops ≡ true
  unfolding planned_stops
  planned_stops-first rs rest s h =
      let (i, s1, e1, h1) = bind-eq-ok _ _ s h in
      let (more, s2, e2, h2) = bind-eq-ok _ _ s1 h1 in
      ap (has_stops trip) (pure-eq-ok _ s2 h2).0
      ∙ ap (λ b. b || has_stops trip more) (==_refl trip.id)

  create_stops-made :
      (rs : RouteStop) (rest : List RouteStop) (s : State) {n : ℕ} {t : State}
      → create_stops env trip (rs ∷ rest) s ≡ (ok n, t)
      → (n ≡ length (rs ∷ rest)) × (has_stops trip t.db.trip_stops ≡ true)
  unfolding create_stops modify
  create_stops-made rs rest s h =
      let (stops, s1, e1, h1) = bind-eq-ok _ _ s h in
      let (taken, s2, e2, h2) = bind-eq-ok _ _ s1 h1 in
      let (x, s3, e3, h3) = bind-eq-ok _ _ s2 h2 in
      let (y, s4, e4, h4) = bind-eq-ok _ _ s3 h3 in
      let (count, last) = pure-eq-ok _ s4 h4 in
      let made : has_stops trip (s3.db.trip_stops ++ stops) ≡ true =
        any-append (λ p. p.trip == trip.id) s3.db.trip_stops stops
        ∙ or_right _ _ (planned_stops-first rs rest s e1) in
      (
        count,
        ap (λ u. has_stops trip u.db.trip_stops) last
            ∙ ap (λ p. has_stops trip p.1.db.trip_stops) (sym e4)
            ∙ made,
      )

  create_stops-once :
      (route_stops : List RouteStop) (s : State) {n : ℕ} {t : State}
      → create_stops env trip route_stops s ≡ (ok n, t)
      → (n ≡ length route_stops)
        × ((has_stops trip t.db.trip_stops ≡ true) ⊎ ((route_stops ≡ []) × (t ≡ s)))
  unfolding create_stops
  create_stops-once [] s h = let (count, same) = pure-eq-ok _ s h in (count, inr (refl, same))
  create_stops-once (rs ∷ rest) s h =
      let (count, made) = create_stops-made rs rest s h in (count, inl made)

  again_if :
      (there : Bool) (route_stops : List RouteStop) (t : State)
      → (there ≡ true) ⊎ (route_stops ≡ [])
      → (if there then pure 0 else create_stops env trip route_stops) t ≡ (ok 0, t)
  unfolding create_stops pure
  again_if true route_stops t h = refl
  again_if false route_stops t (inl h) = cc
  again_if false route_stops t (inr h) = rw h refl

  first_if :
      (there : Bool) (route_stops : List RouteStop) (s : State) {n : ℕ} {t : State}
      → has_stops trip s.db.trip_stops ≡ there
      → (if there then pure 0 else create_stops env trip route_stops) s ≡ (ok n, t)
      → (n ≡ (if there then 0 else length route_stops))
        × ((has_stops trip t.db.trip_stops ≡ true) ⊎ ((route_stops ≡ []) × (t ≡ s)))
  first_if true route_stops s p h =
      let (count, same) = pure-eq-ok 0 s h in
      (count, inl (ap (λ u. has_stops trip u.db.trip_stops) same ∙ p))
  first_if false route_stops s p h = create_stops-once route_stops s h

  carried :
      (s t : State)
      → (has_stops trip t.db.trip_stops ≡ true)
        ⊎ ((stops_of_route trip.route s.db.route_stops ≡ []) × (t ≡ s))
      → (has_stops trip t.db.trip_stops ≡ true) ⊎ (stops_of_route trip.route t.db.route_stops ≡ [])
  carried s t (inl h) = inl h
  carried s t (inr (none_there, same)) =
      inr (ap (λ u. stops_of_route trip.route u.db.route_stops) same ∙ none_there)

  -- The second run makes nothing and writes nothing, whatever the first one found; and the first
  -- one's count is that of the route's stops, or zero where the trip had stops already.
  pub materialize_trip_stops-once :
      (s : State) (n : ℕ) (t : State)
      → materialize_trip_stops env trip s ≡ (ok n, t)
      → (n ≡ (
          if has_stops trip s.db.trip_stops
          then 0
          else length (stops_of_route trip.route s.db.route_stops)))
        × (materialize_trip_stops env trip t ≡ (ok 0, t))
  unfolding materialize_trip_stops ◌>>=◌
  materialize_trip_stops-once s n t h =
      let (count, after) =
        first_if (has_stops trip s.db.trip_stops) (stops_of_route trip.route s.db.route_stops) s
          refl h in
      (
        count,
        again_if (has_stops trip t.db.trip_stops) (stops_of_route trip.route t.db.route_stops) t
            (carried s t after),
      )

-- A save leaves the old offset the mirror of the departure's; the departure's is the old offset where
-- that is the only one set, and stays otherwise; and a second save changes nothing.
pub synchronised-mirrors :
    (p : RouteStop)
    → ((synchronised p).offset_minutes ≡ (synchronised p).departure_offset_minutes)
      × ((synchronised p).departure_offset_minutes ≡ (
          if p.departure_offset_minutes == 0 then p.offset_minutes else p.departure_offset_minutes))
      × (synchronised (synchronised p) ≡ synchronised p)
unfolding synchronised
synchronised-mirrors p = (ground arith, ground arith, ground arith)
