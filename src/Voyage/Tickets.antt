-- ===== src/Voyage/Tickets.antt =====
-- voyage/services/qr_jwt.py: the claims of a ticket. PyJWT signs them.
use toupac.Prelude.{ℕ, ◌+◌, ◌-◌, ◌/◌, String, [], ◌∷◌}
use toupac.Prelude.Text.{concat}
use toupac.Json.{Json}
use toupac.Voyage.Models.{Trip, Passenger, Reservation}
use toupac.Voyage.Host.{Host, TicketClaims}
use toupac.Voyage.Tx.{Env, Tx, lift, now, ◌>>=◌}

-- microseconds from the first instant of `datetime` to the Unix epoch, and in a day
abbrev unix_epoch : ℕ
unix_epoch = 62_135_596_800

abbrev pub microseconds_per_day : ℕ
microseconds_per_day = 86_400_000_000

-- `int(instant.timestamp())` of an instant after 1970
abbrev pub timestamp : ℕ → ℕ
timestamp instant = instant / 1_000_000 - unix_epoch

-- `_expiry_for` of a trip that has a time
abbrev pub expiry_for : ℕ → ℕ
expiry_for scheduled_at = scheduled_at + microseconds_per_day

-- Passenger.full_name
abbrev full_name : Passenger → String
full_name p = concat (p.first_name ∷ " " ∷ p.last_name ∷ [])

-- `seat` is the label as the reservation's instance holds it
abbrev pub ticket_claims : Host → Reservation → Json → Trip → Passenger → ℕ → TicketClaims
ticket_claims host r seat trip passenger issued_at = record {
  sub = host.show_uuid r.id;
  trip = host.show_uuid r.trip;
  seat = seat;
  pax = full_name passenger;
  tenant = host.show_uuid r.tenant;
  iat = timestamp issued_at;
  exp = timestamp (expiry_for trip.scheduled_at);
}

-- sign_ticket_jwt
unfoldable pub sign_ticket_jwt : Env → Reservation → Json → Trip → Passenger → Tx String
sign_ticket_jwt env r seat trip passenger = do
  issued_at ← now env
  lift (env.sign (ticket_claims env.host r seat trip passenger issued_at))
