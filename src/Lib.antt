-- ===== src/Lib.antt =====
-- Entryva lets residents of an estate invite visitors and lets the officers at its gate check them.
-- A resident creates an invitation, and its holder shows a QR code or types a display code at the
-- gate; an officer's scan is verified, then the entry and later the exit are recorded. People who
-- come often have recurring passes, which a resident keeps and changes. An estate signs itself up,
-- and its admin invites the residents. This development models these paths, the rules around them,
-- the gate devices that work offline, sessions, alarms, announcements, calls and messages between
-- officers, and live positions.
--
-- Parts, and the code that they model (paths from the root of the repository):
--   Base                lists, text, numbers and tests that the parts share
--   Effects             an action on the database that may throw; a transaction
--   Store               the tables of backend/prisma/schema.prisma, `log` and `dispatch`
--   Tokens              `deriveDisplayCode` of backend/src/common/crypto/token.util.ts
--   Calendar            dates and local moments of recurring-pass.rules.ts and recurring-qr.ts, and
--                       the JavaScript dates that they use
--   RecurringPass       backend/src/modules/recurring-passes/recurring-pass.rules.ts
--   ResidentPasses      backend/src/modules/recurring-passes/recurring-passes.service.ts: the changes
--                       of a pass in Change, the page of its holder in Link
--   Extension           backend/src/modules/invitation-extensions/extension.rules.ts
--   PassExtension       backend/src/modules/invitation-extensions/invitation-extensions.service.ts
--   Invitations         backend/src/modules/invitations/invitations.service.ts and
--                       backend/src/common/time/visit-window.util.ts
--   Verification        backend/src/modules/verification/verification.service.ts
--   EntryExit           backend/src/modules/entry-exit/entry-exit.service.ts
--   InvitationExpiry    backend/src/modules/invitation-expiry/invitation-expiry.service.ts
--   OfflineSync         backend/src/modules/offline-sync/offline-sync.service.ts
--   OfflineDevice       frontend/src/offline (verify-offline, db, manifest and sync-queue)
--   PassQr              backend/src/modules/recurring-passes/recurring-qr.ts
--   PassStanding        what a scan reads in recurring-scan.service.ts beside it
--   RecurringScan       the scan itself in recurring-scan.service.ts
--   Emergency           backend/src/modules/alerts/emergency.service.ts and alert-recipients.ts
--   Accounts            backend/src/modules/auth/auth.service.ts
--   Signup              backend/src/modules/signup/signup.service.ts
--   ResidentInvites     backend/src/modules/resident-invites/resident-invites.service.ts
--   Calls               backend/src/modules/realtime/calls.gateway.ts
--   LiveTracking        backend/src/modules/live-location/live-location.ts
--   Messages            backend/src/modules/messages/messages.service.ts
--   Announcements       backend/src/modules/alerts/announcements.service.ts
--   Administration      the residents in
--                       backend/src/modules/administration/administration.service.ts
--   Lifecycle           the operations that write visits or what admits an invitation, in sequence
--   Tests               a small estate and examples
-- A definition has the name of the code's function in snake case. A part's child modules hold what
-- is proved of it, by subject. Sequences of requests to one part stand in ResidentPasses/Requests,
-- Signup/Once, ResidentInvites/MovedIn, Administration/Requests, Messages/Unread and Calls/Relay, and
-- the abstract machine that recurring passes are compared with in ResidentPasses/Machine.
--
-- A service method is an action: a function from the database to a result and the database after it.
-- A table is a list with its newest row first; `findFirst` and `findUnique` are `find`, `updateMany`
-- is `update_where` with `count_where`, and the rows that `include` joins stand in the invitation;
-- which of several rows `findFirst` takes in `login`, which asks for no order, is a parameter. An
-- exception is a value of `Exception` and stops the action; what was written before it stays, unless
-- it was thrown in a transaction, which runs alone. The clock and the identifier of a new row come
-- with each request (`Env`), so a sequence of requests is a list. Times are milliseconds since the
-- epoch, minutes of a day and identifiers natural numbers. Where the code subtracts below zero a
-- comment says why the result is the same. There is no fuel: every loop runs over a list.
--
-- Parameters stand for what is outside of the code: SHA-256 (`hash`, `digest`), HMAC (`hmac_hex`), the
-- clocks of time zones (`local_moment`, `format_to_parts`), luxon's reading of a local time
-- (`from_iso`), bcrypt (`hash_password`, `compare_password`), the tokens of a session
-- (`issue_tokens`), the check of a JWT in a cookie, and the signature of a manifest entry (`sign`,
-- `verify`, of which it is assumed that what the server signs passes the check). Fresh random tokens
-- and what became of a mail come with a request. The order of names in the database (`before`) is
-- one too. Where a theorem assumes that HMAC gives hexadecimal
-- digits, or a clock dates of the calendar, its hypotheses say so.
--
-- Not modelled: controllers and DTO validation, the push to phones, socket.io itself, the guards and
-- the JWT strategy (the user of a request is an argument), the administration of estates, buildings,
-- apartments and officers, and the user interface; concurrent requests beyond the atomic updates and
-- transactions of the database; letters outside of ASCII in `toUpperCase` and `trim`.
pub mod Base
pub mod Calendar
pub mod RecurringPass
pub mod Effects
pub mod Extension
pub mod Store
pub mod Tokens
pub mod Verification
pub mod EntryExit
pub mod Invitations
pub mod InvitationExpiry
pub mod PassExtension
pub mod OfflineSync
pub mod OfflineDevice
pub mod PassQr
pub mod PassStanding
pub mod RecurringScan
pub mod ResidentPasses
pub mod Accounts
pub mod Signup
pub mod ResidentInvites
pub mod Calls
pub mod LiveTracking
pub mod Messages
pub mod Announcements
pub mod Administration
pub mod Emergency
pub mod Lifecycle
pub mod Tests
