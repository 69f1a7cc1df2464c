-- ===== src/Lib.antt =====
-- A model of the core of rem0te's API server, and the theorems that make it correct.
--
-- The server decides who may reach which computer, follows support sessions by the evidence that
-- machines and people send, queues requests for support, and rolls out updates to the computers it
-- manages. Its parts, and the files that model them:
--
-- Prelude        Boolean tests, lists, texts and JSON values that the parts share.
-- Schedule       apps/api/src/rbac/schedule.ts. `parse_schedule` is `parseSchedule`, with its errors
--                as results; `stored_schedule_allows`, `is_within_schedule` and `is_within_dates`
--                are the functions of those names. Week describes a window as an interval on the
--                circle of the week.
-- Rbac           apps/api/src/rbac. Capability (capabilities.ts), Permission (permissions.map.ts),
--                Technician and Expiry (technician-access.service.ts), Actor
--                (actor-resolver.service.ts and `buildActorContext`), Access, Visibility and Platform
--                (access-control.service.ts, platform-permissions.ts). Technician asks Schedule
--                whether a grant counts, Actor takes its scopes from Technician, Access decides for
--                the actor. A Prisma `where` is the test that it stands for on one row.
-- Session        apps/api/src/sessions. State and Machine are session-state.ts: a patch is a list of
--                column changes, `after` applies it. Store, Events and Reconcile are
--                session-events.service.ts: `record_event` is `record` and
--                `reconcile_endpoint_signal` the heartbeat's entry. Service is sessions.service.ts,
--                what a technician asks of a session, and Sweep its sweeps.
-- Rollout        apps/api/src/admin/update-rollout.service.ts: Data the tables, Plan `create`,
--                Operate what an operator does, Tick the work of each minute, Engine attempts and
--                evidence, Heartbeat the dispatch and the fetch of an installer. Version is
--                apps/api/src/common/agent-contract.ts. Heartbeat asks Schedule for the
--                maintenance window.
-- Auth           apps/api/src/auth and apps/api/src/apikeys. Revocation is session-revocation.ts,
--                StepUp step-up.service.ts, Jwt strategies/jwt.strategy.ts, ApiKeys the service and the
--                guard of API keys. Jwt and ApiKeys give a request the actor that Access of Rbac
--                judges. SignIn is auth.service.ts: Mint its tokens, and Lockout the attempts on an
--                account in any order.
-- Connect        apps/api/src/endpoints/endpoints.service.ts: `authorize_connect` is
--                `authorizeConnect`, which asks Access for the actor, and `live_actor` rebuilds that
--                actor from the rows of the moment. Grant has `createConnectionGrant` and
--                `redeemConnectionGrant`, whose reads and whose claim are apart, so that Single can
--                put steps of other requests and of offboarding
--                (apps/api/src/offboarding/offboarding.service.ts) between them. Launcher is
--                apps/api/src/launcher/launcher.service.ts, and Quick the switches of
--                apps/api/src/quick-connect/quick-connect.service.ts. A redeemed launcher token is an
--                event of `record_event`.
-- Support        apps/api/src/support-requests/support-requests.service.ts: Form, Intake,
--                StatusLink, Queue and Retention the operations, Lifecycle their steps in any order.
--                An operation reads one state of the table and updates another, later one.
-- Presence       apps/api/src/enrollment/hbbs-presence.ts: the frames of a request and of a reply
--                and, in Fields, their protobuf and the query itself, on buffers as lists of bytes.
--
-- State and time. A table is a list of rows, and each operation takes the tables and returns them.
-- An instant is its number of milliseconds since the epoch, and the clock, random nonces, the digest
-- `sha256`, GitHub's and hbbs's answers are arguments. What other requests do between a read and the
-- conditional update that follows is the argument `others` of `record_rounds`. Its bound is the
-- three rounds of the code, and past them it answers what the code answers. `varint_on` has five
-- rounds, which hold the 32 bits of the code's shifts, `get_field_on` as many as the buffer has
-- bytes, of which each round reads one or more, and `query_chunks` as many as there are ids. Every
-- other loop is structural recursion over the list that the code loops over.
--
-- Assumptions. What the platform's `Intl` knows of time zones is the record `Intl`. Identifiers are
-- not empty. The characters of a text are its code points, and lengths count those. A message is the
-- constructor that stands for it, names and e-mail addresses that are only shown are left out, and
-- the columns of a row that no modelled operation reads are too. A number in JSON is a natural
-- number or one `other_number`, so a zero with a sign or an exponent is a natural number like any
-- other. An occurrence time that is no date is stored on the timeline as such, where the database
-- would refuse it. The presence server gives one answer for all the jobs of one heartbeat.
--
-- Not modelled: `describeSchedule`, the editing of pilot groups and the lists for display; the audit
-- entries of Auth, Support, the session service and the launcher; the socket of the presence query;
-- the registration and the editing of a profile, passkeys, single sign-on and the enrollment of a
-- second factor; one-click Connect and the sessions of Quick Connect; enrollment and the
-- administration of computers: services over the database that the parts above do not depend on; the
-- web application and the database itself. That requests to sign in overlap is not modelled either:
-- an attempt is one step.
pub mod Auth
pub mod Connect
pub mod Prelude
pub mod Presence
pub mod Rbac
pub mod Rollout
pub mod Schedule
pub mod Session
pub mod Support
