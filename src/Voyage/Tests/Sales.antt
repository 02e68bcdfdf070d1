-- ===== src/Voyage/Tests/Sales.antt =====
-- A sale on a seat that is taken, on the small company of the tests.
use toupac.Prelude.{◌≡◌, refl, false, true, some, none, any, ◌⊎◌}
use toupac.Prelude.Int.{pos}
use toupac.Prelude.Text.{concat, slice_to}
use toupac.Json.{Fields, str, int, field, end}
use toupac.Voyage.Codes.{seat_already_taken}
use toupac.Voyage.Tx.{State, ◌>>=◌}
use toupac.Voyage.Events.{Report, AnomalyView, refuse}
use toupac.Voyage.Anomalies.{create_anomaly}
use toupac.Voyage.Handlers.Sales.{refuse_taken_seat, sell_free_seat}
use toupac.Voyage.Handlers.Sales.Taken.{occupies, Refused, sell_free_seat-taken}
use toupac.Voyage.Tests.World.{env, start, session, moving, trip, route_stop}

abbrev sale : Fields
sale = field "seat_label" (str "A1") (field "amount_xof" (int (pos 10_000)) end)

abbrev passenger_data : Fields
passenger_data = field "first_name" (str "Awa") (field "last_name" (str "Diop") end)

abbrev conflict : AnomalyView
conflict = record {
  id = "new";
  type = str "seat_conflict";
  severity = str "moderate";
  title = str "Siège A1 déjà attribué — DKR-BKO-1";
  description =
      str
        "Vente à bord refusée : le siège A1 du voyage DKR-BKO-1 porte déjà une réservation active.";
}

abbrev refusal : Report
refusal = refuse seat_already_taken "Siège A1 déjà occupé sur ce voyage." (some conflict)

abbrev after : State
after =
    (sell_free_seat env 1 session moving trip sale passenger_data "Awa" "Diop" "cash"
      (route_stop 2 1, route_stop 1 2) start).1

sell_free_seat-taken_example :
    let taken = any (occupies 1 1 "A1") start.db.reservations in
    ((taken ≡ true) × Refused env 1 session moving trip start refusal after)
    ⊎ ((taken ≡ false) × (refusal.accepted ≡ true) × (refusal.rejection_code ≡ none))
unfolding sell_free_seat refuse_taken_seat create_anomaly concat slice_to ◌>>=◌
sell_free_seat-taken_example =
    sell_free_seat-taken env 1 session moving trip sale passenger_data "Awa" "Diop" "cash"
      (route_stop 2 1, route_stop 1 2) start refusal after refl
