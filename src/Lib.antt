-- ===== src/Lib.antt =====
-- The server of a transport platform: the offline control of trips, one-time codes, notifications,
-- numbers, prices, dispatch, geofences and the company of a request.
--
-- A controller works on board without network. His phone records events (a passenger boarded, a
-- ticket sold, a stop reached, the trip moved on) and sends them later as a batch. The server
-- answers each event with a verdict; a batch may be sent again, after a lost answer, and then has
-- to be recognised. Most of this library models that path of the application, from the raw JSON of a
-- batch to the rows of the database. The other parts are the services around it: the codes of the
-- client login, the announcement of events to the people they concern, the sequential numbers of
-- invoices and orders, prices and invoices, the dispatch of orders, the fences that vehicles cross,
-- the scopes of the keys of platform services, and the middleware that says which company a request
-- is about.
--
-- Parts, and the code they follow:
--   Prelude                  lists, tests, texts, decimals, results and signed integers that the
--                            other modules share
--   Json                     a decoded JSON value with the dynamic behaviour of Python
--   Voyage/Codes             voyage/services/exceptions.py, RejectionCode and EventRejected
--   Voyage/Models            voyage/models.py and colis/models.py, the rows
--   Voyage/Db                the tables, the queries and the uniqueness constraints
--   Voyage/Host              the interpreter, Django, PyJWT and the machine, as parameters
--   Voyage/Tx                code that runs against the database: transaction.atomic, savepoints,
--                            exceptions; Tx/Moves and Tx/Inversion reason about it
--   Voyage/Drafts            voyage/services/event_processor.py, the guards on a raw event
--   Voyage/Verdicts          the same file, _verdict, _duplicate_verdict, _details_for
--   Voyage/Processor         the same file, _process_single_event, _dispatch
--   Voyage/Batch             the same file, process_batch
--   Voyage/Handlers/...      voyage/services/handlers/, one module for each file; Sales and
--                            SaleChecks share sales.py, Resolutions is anomalies.py
--   Voyage/Anomalies         voyage/services/anomaly_detectors.py
--   Voyage/SeatLabels        voyage/services/seat_map.py
--   Voyage/Tickets           voyage/services/qr_jwt.py, sign_ticket_jwt
--   Voyage/Signals           voyage/signals.py, the cascade at the end of a trip
--   Voyage/TripStops         voyage/services/trip_stops.py, and RouteStop.save
--   Voyage/Session           session.trip, which Django loads once and keeps on the instance
--   Voyage/Tests             a small company on which the theorems are applied
--   Cache                    django.core.cache, an interface with its documented laws as a record
--                            that clients take; Cache/Memory is a store that keeps them
--   Iam/Otp                  iam/otp.py; Otp/Judged, Otp/Guesses and Otp/Masks reason about it
--   Iam/Platform             iam/platform_scopes.py and platform_permissions.py, and the
--                            READ_ACTIONS of scopes.py; Platform/Writes reasons about them
--   Notifications/Models     notifications/models.py, channels.py, and the values of a context
--   Notifications/Catalog    notifications/catalog.py (registration and validation) and the
--                            categories of preferences.py
--   Notifications/Rendering  notifications/rendering.py
--   Notifications/Outbox     the tables, the queue of the worker, and notifications/retries.py
--   Notifications/Service    notifications/services.py and idempotency.py: emit; Service/Desk has the
--                            tables and the report that its steps add to, Service/Delivery the
--                            delivery to one recipient; the others reason about it
--   Notifications/Tasks      notifications/tasks.py, the delivery of a log and its retries
--   Numbering                the numbers of billing/services.py and colis/services.py
--   Billing/Pricing          billing/services.py, PricingEngine; Billing/Prices reasons about it
--   Billing/Invoicing        billing/services.py, InvoiceGenerator; Billing/Issued reasons about it
--   Colis                    colis/services.py, DispatchService and InternalIdGenerator
--   Tracking                 tracking/services.py, GeofenceChecker
--   Tenancy                  core/middleware.py, TenantMiddleware
--   .../Tests                small examples on which the theorems of a part are applied
--
-- How they interact. Batch sorts the raw events and hands each to Processor, which looks for a row
-- with the same client's identifier, checks the fields (Drafts), opens a transaction, inserts the
-- event's row, runs its handler inside a savepoint, and settles the row with the outcome. The
-- handlers read and write the tables through Tx; a write of reservations goes through the seat
-- constraint (Signals.write_reservations), a save of a trip through the cascade (Signals.save_trip).
-- Iam/Otp and Notifications/Service each keep their entries in a Cache. An emission looks for its key,
-- finds the recipients, writes a log for each channel of each of them and hands it to Tasks, later
-- or at once. Billing and Colis take their numbers from Numbering; a new invoice goes through the
-- constraint on the numbers of its company.
--
-- State. Db is a record of tables, each a list of rows in no particular order; a query that takes
-- the first row takes the one with the least primary key, as Django orders it. State adds the number
-- of samples that the clock and the random source have given, and the instance of session.trip. An
-- action gives a result or a failure with the state in both cases, so that what was written before
-- an exception is there until a transaction or a savepoint takes it back. A foreign key that a
-- payload can forge is checked at the commit, as PostgreSQL does for a deferred constraint. Other
-- transactions (Env.others) run between the lookup of an event and its insertion.
-- The cache is a state of its own, with the instant of each call as an argument. Outbox has the
-- tables of notifications with the tasks queued and the calls made to providers; Progress adds the
-- report of the emission under way. The other parts take the rows they read and return those they
-- leave.
--
-- Parameters. Voyage/Host has the conversions of Django's fields, uuid.UUID, parse_datetime,
-- jwt.encode, the texts of exceptions, and the samples of uuid4 and the clock. Nothing is assumed of them; the
-- theorems hold for any host, and the tests use a concrete one. The cache has its documented laws,
-- which are a hypothesis where a theorem needs them. The hash, uuid4 and randbelow of the codes,
-- Django's templates, the resolvers of recipients, the providers, the broker, the containment of
-- PostGIS, and the decoding of tokens and identifiers are parameters too; what a theorem asks of one
-- of them stands in its statement.
--
-- Bounds. Notifications/Tasks.work, a worker that tries a log again until it has ended, takes fuel,
-- four attempts, the first and the three retries that the policies allow at most. The count of the
-- decimal digits of n takes n as its fuel, and each digit divides n by ten. Every other loop walks a
-- list, a JSON value or a count. Instants are microseconds, or the unit of a part's own arguments;
-- identifiers are the numbers of their UUIDs. Texts are ordered by code points. A number's last part
-- is read as ASCII digits. A weight is a numeral with its decimal places, a rate is in hundredths.
--
-- Not modelled: created_at and updated_at, columns that no operation here touches, the overflow of
-- an integer column (integer_field may refuse it), the length limits of the text columns of
-- notifications other than the journal's recipient (they hold declared codes or texts that the
-- code cuts), the choice and the verification of the signing key, logging. One call reads the
-- clock once where the code may read it twice. No other request runs between the lookup of a cache
-- entry and its write. Left out whole: the declarations of the catalog's events,
-- send_notification_async (it only calls emit), the resolvers and the providers,
-- TrackingNumberGenerator (a random search that nothing bounds), TraccarBridge, the views,
-- serializers and admin forms of every application, the authentication of requests and the scopes
-- of the keys of companies, the summary of a trip, fleet, geo, workflow and developers, and the
-- demonstration data.
pub mod Billing
pub mod Cache
pub mod Colis
pub mod Iam
pub mod Json
pub mod Notifications
pub mod Numbering
pub mod Prelude
pub mod Tenancy
pub mod Tracking
pub mod Voyage
