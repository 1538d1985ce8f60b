-- ===== src/Lib.antt =====
-- The concert-ticketing backend (concert-ticketing/): seats are locked for a user on a Redis server,
-- orders are made from locked seats in a database and expire by delayed messages, and a waiting
-- room lets a limited number of users in at once.
--
-- The parts and their files:
--   * Redis, Prisma, Messaging: what the program relies on and does not contain. `Redis.Redis` is any
--     server whose commands have their documented effect (Redis/Commands) on what a client can
--     observe; `Prisma.Table` is any table whose queries and writes do what Prisma documents, where
--     every write may also be rejected; `Messaging.Broker` is any broker that keeps the messages that
--     it confirms. Each has a Reference instance, which shows that the laws can be met. Messaging
--     also models concert-ticketing/src/common/messaging, with its connection over any client library
--     (Connection, Attempts, Consumers), and the expiration adapter of orders. A run of `connect` is taken apart at
--     the calls that it awaits, between which anything else may happen.
--   * Common: identifiers, exceptions, and `Action`, a call that changes a state and may throw.
--   * SeatLock: concert-ticketing/src/booking/seat-lock. The Lua scripts and their adapter (Adapter),
--     the audit rows (Audit), the use cases (UseCases) and the routes (Controller). Spec says what the
--     scripts do to the keys; Locking says what a client is answered.
--   * SeatHold: the scripts by which an order checks, extends and releases holds
--     (concert-ticketing/src/booking/order/adapters/redis-seat-hold.adapter.ts).
--   * Holding: histories of the calls of SeatLock and SeatHold with time passing between them.
--   * Order: concert-ticketing/src/booking/order. The repository, the use cases (Attempt and Creation for a new order) and the timeout handler,
--     over the holds, the database and the broker: a state is ((holds, database), broker).
--   * Queue: concert-ticketing/src/queue. The three Lua scripts, the rooms in the database, the use cases,
--     the scheduler, and histories of calls.
--   * Auth: concert-ticketing/src/auth. The codes and counters on the server (Keys), the service and the
--     check of revoked tokens (Service), guessing of codes (Codes), logins and logouts (Sessions),
--     registrations (Registration, Confirmation), and the guard of the routes in
--     concert-ticketing/src/common/guards (Guard).
--   * Catalog: the rows of organizers, events, ticket types and zones of
--     concert-ticketing/prisma/schema.prisma, and the search for an event of a user, which the
--     services of the organizers share.
--   * Events: concert-ticketing/src/events/events.service.ts. The writes of events (Events), which of
--     them are refused (Permission, Guards), what may become of an event (Evolution, History), and what everybody
--     may read (Listing).
--   * Seats: concert-ticketing/src/seats/seats.service.ts. The seats of a section and their labels
--     (Labels, Numbering), the check of ticket types (Ownership), the creation of seat maps and zones
--     (Transaction, Creation, Zones) and their change and reading (Layouts).
--   * Users: concert-ticketing/src/users/users.service.ts. The texts on the server (Keys), the service
--     (Users), when an address is changed (Guards), the code that confirms it (Codes, Guesses), and
--     that addresses stay distinct (Addresses).
--   * Organizer: concert-ticketing/src/organizer/organizer.service.ts, the sales that an organizer sees
--     (Sales) and the profile (Profile).
--   * TicketTypes: concert-ticketing/src/ticket-types/ticket-types.service.ts, the operations of an
--     organizer on the ticket types of an event, and what a sale fixes (Guards).
--   * Tests: the theorems at concrete inputs.
--
-- Correspondence: a function has the name of its method in the other spelling (`markExpiredIfPending`
-- is `mark_expired_if_pending`); a Lua script is atomic and is one function on the state of the
-- server (`ACQUIRE_LUA` is `acquire_lua`). A Redis key is a constructor with the arguments of its
-- template. Identifiers are numbers that are only compared, amounts are counted in cents, times are
-- milliseconds or seconds that come in as arguments, and so do the ids that the database draws.
--
-- Fuel: the loop of `ADMIT_LUA` runs on fuel, one more than the entries of the queue, since each
-- round takes one entry; that it suffices is a theorem. The digits of a number run on fuel equal to
-- the number, and a lemma shows that they denote it. All other loops are structural.
--
-- Texts: a text that the program only stores or compares is a native String; one that it takes apart
-- or prints a number into is a list of UTF-16 code units (Prelude/Codes).
--
-- Requests: a field of a request that changes a row may be left out, be the JSON null, which
-- @IsOptional lets through, or have a value (`Catalog.Field`). A null for a column that must have a
-- value makes Prisma refuse the write; other validation is done before the services are called.
--
-- Not modelled: the framework's wiring, validation and documentation decorators, and logging. Failures of the Redis connection and of
-- database reads are not modelled either, nor is the order in which a query without `orderBy` or a page of one with it returns rows.
pub mod Prelude
pub mod Redis
pub mod Prisma
pub mod Common
pub mod SeatLock
pub mod SeatHold
pub mod Holding
pub mod Queue
pub mod Order
pub mod Messaging
pub mod Auth
pub mod Catalog
pub mod Events
pub mod Seats
pub mod Users
pub mod Organizer
pub mod TicketTypes
pub mod Tests
