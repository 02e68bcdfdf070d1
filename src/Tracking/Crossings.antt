-- ===== src/Tracking/Crossings.antt =====
-- The journal of the crossings against the position of the vehicle.
use toupac.Prelude.{
  ℕ, ◌<◌, ◌≡◌, refl, ap, ◌∙◌, Bool, true, false, not, ◌&&◌, neither, not-true, &&_both, some, List,
  [], ◌∷◌, ◌++◌, All, select, any, ◌==◌, ==_refl, ==_sym, append-nil, select-append, arith,
}
use toupac.Tracking.{
  Geofence, GeofenceEvent, EventType, enter, exit, latest, later_of, entered, is_about, was_inside,
  crossing, crossings, check_fences, active_fences, check_position,
}

-- All events of a list are before an instant.
abbrev pub Before : ℕ → List GeofenceEvent → Type 0
Before now = All (λ e. e.event_at < now)

latest-Before :
    (now : ℕ) (es : List GeofenceEvent) (e : GeofenceEvent)
    → Before now es
    → latest es ≡ some e
    → e.event_at < now
latest-Before now [] e h k = cc
latest-Before now (f ∷ []) e h k = ground arith
latest-Before now (f ∷ g ∷ es) e h k =
    ground (arith, latest-Before now (g ∷ es) (later_of g (latest es)) h.1 refl)

-- an event after all others is the latest
latest-append_last :
    (es : List GeofenceEvent) (e : GeofenceEvent)
    → Before e.event_at es
    → latest (es ++ e ∷ []) ≡ some e
latest-append_last [] e h = refl
latest-append_last (f ∷ es) e h = rw (latest-append_last es e h.1) (ground arith)

module _ (tenant vehicle : ℕ) where
  is_about-crossing :
      (now fence : ℕ) (type : EventType)
      → is_about tenant vehicle fence (crossing tenant vehicle now fence type) ≡ true
  is_about-crossing now fence type = rw (==_refl tenant, ==_refl fence, ==_refl vehicle) refl

  latest-crossing :
      (now fence : ℕ) (es : List GeofenceEvent) (type : EventType)
      → Before now (select (is_about tenant vehicle fence) es)
      → latest (
          select
            (is_about tenant vehicle fence)
            (es ++ crossing tenant vehicle now fence type ∷ []))
        ≡ some (crossing tenant vehicle now fence type)
  latest-crossing now fence es type h =
      rw
        (
          select-append (is_about tenant vehicle fence) es
              (crossing tenant vehicle now fence type ∷ []),
          is_about-crossing now fence type,
        )
        (latest-append_last (select (is_about tenant vehicle fence) es)
          (crossing tenant vehicle now fence type) h)

  own_crossing :
      (now fence : ℕ) (es : List GeofenceEvent) (inside was : Bool)
      → Before now (select (is_about tenant vehicle fence) es)
      → was_inside tenant vehicle fence es ≡ was
      → was_inside tenant vehicle fence (es ++ crossings tenant vehicle now fence inside was)
        ≡ inside
  unfolding was_inside
  own_crossing now fence es true false h e = rw (latest-crossing now fence es enter h) refl
  own_crossing now fence es false true h e = rw (latest-crossing now fence es exit h) refl
  own_crossing now fence es true true h e = ap (was_inside tenant vehicle fence) (append-nil es) ∙ e
  own_crossing now fence es false false h e =
      ap (was_inside tenant vehicle fence) (append-nil es) ∙ e

  is_about-other :
      (now fence other : ℕ) (type : EventType)
      → (other == fence) ≡ false
      → is_about tenant vehicle fence (crossing tenant vehicle now other type) ≡ false
  is_about-other now fence other type h = ground arith

  other_crossing :
      (now fence other : ℕ) (es : List GeofenceEvent) (inside was : Bool)
      → (other == fence) ≡ false
      → select (is_about tenant vehicle fence) (es ++ crossings tenant vehicle now other inside was)
        ≡ select (is_about tenant vehicle fence) es
  other_crossing now fence other es true false h =
      rw
        (
          select-append (is_about tenant vehicle fence) es
              (crossing tenant vehicle now other enter ∷ []),
          is_about-other now fence other enter h,
        )
        (append-nil _)
  other_crossing now fence other es false true h =
      rw
        (
          select-append (is_about tenant vehicle fence) es
              (crossing tenant vehicle now other exit ∷ []),
          is_about-other now fence other exit h,
        )
        (append-nil _)
  other_crossing now fence other es true true h =
      ap (select (is_about tenant vehicle fence)) (append-nil es)
  other_crossing now fence other es false false h =
      ap (select (is_about tenant vehicle fence)) (append-nil es)

-- No identifier stands twice in a list.
abbrev pub distinct : List ℕ → Bool
distinct [] = true
distinct (i ∷ is) = not (any (λ j. j == i) is) && distinct is

module _ {Point : Type 0} (contains : ℕ → Point → Bool) (tenant vehicle : ℕ) where
  -- the loop leaves the journal of the other fences as it is
  check_fences-others :
      (now : ℕ) (point : Point) (fence : ℕ) (fences : List ℕ) (es : List GeofenceEvent)
      → any (λ j. j == fence) fences ≡ false
      → select
          (is_about tenant vehicle fence)
          (check_fences contains tenant vehicle now point fences es).1
        ≡ select (is_about tenant vehicle fence) es
  unfolding check_fences
  check_fences-others now point fence [] es h = refl
  check_fences-others now point fence (other ∷ fences) es h =
      let both = neither (other == fence) _ h in
      check_fences-others now point fence fences _ both.1
      ∙ other_crossing tenant vehicle now fence other es (contains other point)
          (was_inside tenant vehicle other es) both.0

  abbrev pub Agrees : Point → List GeofenceEvent → List ℕ → Type 0
  Agrees point es = All (λ fence. was_inside tenant vehicle fence es ≡ contains fence point)

  abbrev pub AllBefore : ℕ → List GeofenceEvent → List ℕ → Type 0
  AllBefore now es = All (λ fence. Before now (select (is_about tenant vehicle fence) es))

  AllBefore-others :
      (now fence : ℕ) (inside was : Bool) (fences : List ℕ) (es : List GeofenceEvent)
      → any (λ j. j == fence) fences ≡ false
      → AllBefore now es fences
      → AllBefore now (es ++ crossings tenant vehicle now fence inside was) fences
  AllBefore-others now fence inside was [] es h before = tt
  AllBefore-others now fence inside was (g ∷ fences) es h before =
      let both = neither (g == fence) _ h in
      (
        rw (other_crossing tenant vehicle now g fence es inside was (==_sym fence g ∙ both.0))
            before.0,
        AllBefore-others now fence inside was fences es both.1 before.1,
      )

  check_fences-Agrees :
      (now : ℕ) (point : Point) (fences : List ℕ) (es : List GeofenceEvent)
      → distinct fences ≡ true
      → AllBefore now es fences
      → Agrees point (check_fences contains tenant vehicle now point fences es).1 fences
  unfolding check_fences was_inside
  check_fences-Agrees now point [] es d h = tt
  check_fences-Agrees now point (fence ∷ fences) es d h =
      let next =
        es
        ++ crossings tenant vehicle now fence (contains fence point)
            (was_inside tenant vehicle fence es) in
      let apart = &&_both (not (any (λ j. j == fence) fences)) _ d in
      (
        ap (λ l. entered (latest l))
              (check_fences-others now point fence fences next (not-true _ apart.0))
            ∙ own_crossing tenant vehicle now fence es (contains fence point)
                (was_inside tenant vehicle fence es) h.0 refl,
        check_fences-Agrees now point fences next apart.1 (
            AllBefore-others now fence (contains fence point) (was_inside tenant vehicle fence es)
              fences es (not-true _ apart.0) h.1),
      )

  crossings-quiet : (now fence : ℕ) (b : Bool) → crossings tenant vehicle now fence b b ≡ []
  crossings-quiet now fence true = refl
  crossings-quiet now fence false = refl

  check_fences-quiet :
      (now : ℕ) (point : Point) (fences : List ℕ) (es : List GeofenceEvent)
      → Agrees point es fences
      → check_fences contains tenant vehicle now point fences es ≡ ([], es)
  unfolding check_fences
  check_fences-quiet now point [] es h = refl
  check_fences-quiet now point (fence ∷ fences) es h =
      rw (h.0, crossings-quiet now fence (contains fence point), append-nil es)
        (check_fences-quiet now point fences es h.1)

  -- A check of a position later than all that the journal has of the vehicle leaves a journal that
  -- agrees with the position at each active fence of the company; another check of the same position,
  -- at any time, creates nothing. No two fences have the same identifier.
  pub check_position-Agrees :
      (now later : ℕ) (point : Point) (fences : List Geofence) (es : List GeofenceEvent)
      → distinct (active_fences tenant fences) ≡ true
      → AllBefore now es (active_fences tenant fences)
      → let after = (check_position contains tenant vehicle now point fences es).1 in
        Agrees point after (active_fences tenant fences)
        × (check_position contains tenant vehicle later point fences after ≡ ([], after))
  unfolding check_position
  check_position-Agrees now later point fences es d before =
      let ids = active_fences tenant fences in
      let agrees = check_fences-Agrees now point ids es d before in
      (
        agrees,
        check_fences-quiet later point ids (check_fences contains tenant vehicle now point ids es).1
            agrees,
      )
