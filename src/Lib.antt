-- ===== src/Lib.antt =====
-- Verification library of mu_strategy, the MU strategy research and signal review package.
--
-- The program watches one instrument, decides on entries, turns an accepted entry into an order
-- intent, and keeps an execution database that says which intent of a business action is selected
-- and which mutations of the exchange (leverage, submission, cancellation) are reserved for it.
--
-- Files and the code that they model (paths from the repository's root):
--   Base          names shared by all: Boolean tests, texts, tables as lists, and `Exec`, a Python
--                 method as a function from a database to a result and a database. What was written
--                 before a raise stays written; `transaction` rolls it back.
--   Runtime       what the code uses of hashlib, json and decimal: the digest of a JSON value, and
--                 decimals, as the fields of a record that every definition takes. JSON texts are
--                 represented by the value that they are the canonical text of
--                 (mu_strategy/canonical.py), its keys in the order of the text.
--   Entry         the catalogue of entry decisions of mu_strategy/models.py.
--   Execution     mu_strategy/execution: Intent (intents.py) with its dictionary form (Codec),
--                 validation (Laws) and revisions (Revision); Reservation and Audit (audit.py);
--                 Store (store.py) with the tables and SQL statements, the mutation identities
--                 (Identity), the checked reads (Load), record_intent (Operations),
--                 reserve_mutation and transition_reservation (Mutations), and sequences of calls
--                 (Requests). Sample has a concrete runtime and intents; each Tests module holds
--                 runs and instances.
--   Notification  mu_strategy/notifications: Event (events.py) with its round trip (Laws), and
--                 Outbox (store.py) with the methods (Outbox, Operations), the delivery state
--                 machine (Moves), the proof that each method is a move of it (Reading,
--                 Refinement, Claiming), and what reachable outboxes satisfy (Unique, Sound,
--                 Ledger, Laws), how an attempt begins and is
--                 put off (Claim, Due, Backoff) and what a repeated
--                 reminder does (Again). Observation is the interface to
--                 mu_strategy/observations.py, which is not modelled: a codec and two facts of an
--                 observation, of which nothing is assumed.
--   Calendar      mu_strategy/core/trading_calendar.py: the sessions and windows of a day (Calendar,
--                 Minutes), over the Eastern date and time that zoneinfo gives for a time, when a
--                 time is allowed (Laws) and the cash hours (Hours). A missing time zone database and a
--                 time beyond the range of datetime are not modelled.
--   Position      mu_strategy/strategies/position_rules.py: the position and its configuration
--                 (Position), tighten_stop (Stop), decide_pyramid_add (Pyramid), that a stop only
--                 rises (Laws) and what confirms an addition (Adding); and evaluate_exit of
--                 mu_strategy/live_exit.py (Exit). Floats are an interface
--                 (Runtime/Floats), of which only the order is assumed.
--   Market        mu_strategy/market_data/trusted_data/policy.py, with the states of contracts.py:
--                 the trust decision, snapshot usability and freshness (Policy, Laws). A duration
--                 that is negative in the source is an `Age` ahead.
--   Ledger        mu_strategy/manual_positions.py: `_decimal` and `_number` over 10⁻¹² units
--                 (Decimal), the form of a fill (Fill, Form), `_project` and `_current_state`
--                 (Replay), the tables and `_read` (Store), `save` with `entry_source` (Save, Form),
--                 which reads the outbox of Notification, `save_state` (Confirm), sequences of calls
--                 (Requests), the proof that each call is one of five moves (Rules, Moves), and what
--                 follows from that (Readable, Once, Stale, Balance). Externals is the standard
--                 library that it uses. `save_management` and its table are not modelled.
--   Service       mu_strategy/service_health.py: the health records (Health), the tests that a state
--                 passes before it is written or used (Valid, Facts), their `to_dict` and the limit of
--                 size (Document), `problems`, `events_since` and `health_view` (View). mu_strategy/signal_service.py: `_refresh` and `_scan`
--                 (Children), `_event` and `_phase` (Memory), `run` and `recover_interrupted`
--                 (Supervisor), over a world of clocks, child processes and health.json (World). The size of a JSON text is a
--                 parameter. Proofs are in Written, Covered, Completes, Recovery, Journal, Events
--                 and Healthy. The monotonic clock is read in whole milliseconds; the locks are not
--                 modelled.
--
-- Correspondence. A record is a dataclass or a table row, a data type an enum; a method of
-- SQLiteExecutionStore is an `Exec Db StoreError`, one of NotificationStore an
-- `Exec Outbox NotifyError`, one of ManualPositionLedger an `Exec Ledger LedgerError`, one of
-- SignalService an `Exec World ServiceError`, composed in the order of the source, each guard from
-- its condition. Error messages are not kept, only the class of the exception; sqlite3's
-- IntegrityError is an error of the INSERT statements, which test the PRIMARY KEY, UNIQUE, FOREIGN
-- KEY and CHECK constraints of the schema. Type tests (`isinstance`) are the types; times and
-- counts are natural numbers, so the guards against negative ones are met by the type.
--
-- Loops recur on a list, a table or a number of cycles, so no fuel is needed; the printing of a
-- number `n` takes `n` rounds of fuel, more than it has digits.
--
-- Not modelled: what json.loads refuses by itself (a key that stands twice, a number that is not
-- finite), and digits beyond ASCII where the source calls int; opening and locking of files, PRAGMAs, the comparison of the stored schema, the
-- JSON form of audit events, the making of an intent from an observation, and the rest of the
-- package (market data, strategy, backtest, the notification service, views): it is I/O, rendering
-- or work that is still to come.
pub mod Base
pub mod Runtime
pub mod Entry
pub mod Execution
pub mod Notification
pub mod Calendar
pub mod Position
pub mod Market
pub mod Ledger
pub mod Service
