-- ===== src/Lib.antt =====
-- gp-connect-server: a verification library for the missions and the accounts of the server.
--
-- The program is a NestJS server on a Prisma client. Carriers publish advertisements; shippers and
-- carriers talk in conversations, where one makes an offer and the other accepts it. An accepted
-- offer engages a mission, which two one-time codes move on (pickup, delivery), and which a party
-- may cancel or dispute. A user signs in with a code or through an external provider, and a carrier
-- proves an identity before it may be engaged. Every request is a handler: it reads rows, tests guards, writes rows
-- (several of them in a transaction) and emits events.
--
-- Modules:
--   Common       Boolean tests, equality as an interface, and names of the libraries.
--   Schema       the enumerations and rows of prisma/schema.prisma.
--   Prisma       the database. `Interface` states what the services rely on of a Prisma delegate;
--                `Client` is `DatabaseService` with the tables of the schema; `Locks` and `Unique`
--                draw consequences (optimistic locks, `@@unique`), `Replace` and `Absence` others on deletions; `InMemory` is a concrete client.
--   Handler      handlers as a state and exception monad, their queries, and how a chain ended.
--   Missions     src/missions/missions.service.ts: the state machine of the status, its side
--                effects, and the operations on missions and their packages.
--   Offers       src/offers/offers.service.ts: acceptance and rejection of offers.
--   Proofs       src/proof/proof.service.ts and src/common/utils/otp.util.ts: codes, their guards
--                and what a verified code does.
--   MissionRoutes  src/missions/missions.controller.ts: the guards of each route.
--   Disputes     src/disputes/disputes.service.ts: opening and settling a dispute.
--   Conversations  src/conversations/conversations.service.ts and the route that opens one.
--   Messages     src/messages/messages.service.ts and its controller, without media messages.
--   Appointments  src/appointments/appointments.service.ts: decisions.
--   Ratings, Transactions, Reports, Blocks   the services of these names under src/.
--   Verification  src/users/user-verification.service.ts: codes and links that prove a channel.
--   Identity     src/identity/identity.service.ts: sessions with the identity provider, its events
--                and the badge that the acceptance of offers asks for.
--   Users        src/users/users.service.ts: accounts, changes of a profile, deletion.
--   Auth         src/auth/auth.service.ts and src/auth/guards/role.guard.ts: logins with codes and
--                through Google, Apple and Facebook, and the role of a route.
--   Csrf         src/common/guards/csrf.guard.ts: requests forged across sites.
--   Advertisements  src/advertisements/advertisements.service.ts: creation, updates, deletion, and
--                the public search with its pages.
--   Gateway      src/chat/chat.gateway.ts: the sockets of the chat, their rooms and their cookies.
--   Examples     the handlers on a small database, and each theorem at a concrete input.
--
-- Correspondence. A method `fooBar` is the handler `foo_bar`; a name that two services share takes
-- the noun with it (`create_mission`, `create_dispute`). A handler takes the time, the ids that the
-- database draws, and what a random generator or `bcrypt` returns as arguments. Where a method
-- reads, tests and then writes, its parts are handlers of their own (`load_…`, `…_guards`,
-- `commit_…`), so that the theorems on races put any database between the read and the write.
-- `$transaction` is `transaction`; events, mails and tickets are appended to `effects`.
--
-- Prisma and PostgreSQL are a parameter (`Prisma`, a record of delegates with their documented
-- behaviour): the rows of a table differ in their key, `updateMany` changes the rows that its
-- `where` selects, and so on. A statement runs by itself, and a transaction as a whole: interleaving
-- is between the statements of different requests outside transactions, as the handlers are cut.
-- A promise that is not awaited (`background`) runs after the reply, and what it throws is dropped.
-- `bcrypt`, sha256, the signatures of tokens, the parser of URLs, the comparison of addresses without
-- case, the SMS gateway, the mailer, the identity provider and the ticket tracker are parameters or
-- effects too. Headers of sockets are lists of code units; other texts are only compared.
--
-- Numbers: ids are numbers, since they are only compared; dates are milliseconds; prices and
-- weights are whole numbers of their smallest unit. No arithmetic of the modelled code can overflow
-- or lose precision: it adds 15 minutes to a date and 1 to a counter that guards keep small. There
-- is no loop but over lists, so no fuel.
--
-- Not modelled: reads that only serialise rows for the client (lists, includes), the
-- validation of request bodies by class-validator, and the services that the
-- manifest of this library names as such.
pub mod Common
pub mod Schema
pub mod Prisma
pub mod Handler
pub mod Missions
pub mod Advertisements
pub mod Offers
pub mod Proofs
pub mod MissionRoutes
pub mod Disputes
pub mod Verification
pub mod Identity
pub mod Users
pub mod Auth
pub mod Csrf
pub mod Gateway
pub mod Examples
pub mod Appointments
pub mod Ratings
pub mod Transactions
pub mod Reports
pub mod Blocks
pub mod Conversations
pub mod Messages
