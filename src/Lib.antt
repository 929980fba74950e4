-- ===== src/Lib.antt =====
-- Verification of the Ludora backend, a NestJS service over PostgreSQL by which people find others
-- to play sports with.
--
-- The program has one service class for each part, which reads and writes the database through the
-- Prisma client, throws Nest's exceptions, and emits events. The parts modelled, and their files:
--   World              the tables of prisma/schema that the services use (World/Schema), the Prisma
--                      client (World/PrismaClient), and the monad of a service method (World/Monad)
--   Users, Accounts    src/users/users.service.ts: findOne, and accounts, passwords, emails, deletion
--   Friends            src/friends/friends.service.ts: create, findOne, update, remove
--   Moderation         src/moderation/moderation.service.ts: blockUser, unblockUser, createReport
--   Social             sequences of calls of Friends and Moderation
--   SessionPlayers     src/sessions/services/session-players.service.ts: joinSession,
--                      addPlayerToSession, leaveSession, switchPlayerToAnotherTeam,
--                      verifyPlayerEligibilityBeforeJoin, updateRatingStatus,
--                      checkIfUsersArePlayers
--   SessionInvitations src/sessions/services/session-invitations.service.ts: createMany, update
--   Sessions           src/sessions/services/sessions.service.ts: findOne, getPlayersPerTeamData,
--                      incrementViewCount
--   SessionCreation    create of the same service, createDefaultTeams of
--                      src/sessions/services/session-teams.service.ts, createSessionConversation of
--                      src/conversations/services/conversations.service.ts
--   ConversationMembers src/conversations/services/conversation-members.service.ts
--   Messages           src/conversations/services/messages.service.ts
--   Conversations      src/conversations/services/conversations.service.ts:
--                      createPrivateConversation, createMessage, hasUnreadMessages, findByUserUids
--   Tokens             src/auth/services/auth-b2c.service.ts: refreshToken, logout, googleLogin,
--                      verifyToken
--   Guards             src/auth/guards and src/auth/services/websocket-auth.service.ts
--   Verification       the codes of src/auth/services/auth-b2c.service.ts, and the passwords that
--                      they reset
--   Registration       register and login of src/auth/services/auth-b2c.service.ts and
--                      auth-b2b.service.ts
--   Webhooks           src/webhooks/webhooks.service.ts
--   Pagination         the pages of users.service.ts, friends.service.ts and messages.service.ts
--   Preferences        src/user-preferences/services
--   Devices            src/devices/devices.service.ts
--   Lifecycle          src/user-lifecycle/user-lifecycle.service.ts
--   Fields             src/fields/services/fields.service.ts: findOne, and
--                      src/fields/services/field-slots.service.ts: create, findOne, markAsReserved
--   Dates              src/shared/utils/date.utils.ts: checkValidityForCreation
--   Ratings            src/ratings/ratings.service.ts and src/ratings/mappers/ratings.mapper.ts
--   Tests              runs at concrete inputs
-- Functions and fields keep the source's names, in snake case. Friends and SessionPlayers ask Users;
-- SessionInvitations, SessionCreation and Ratings call SessionPlayers, which calls
-- ConversationMembers; a block written by Moderation is read by Users, Friends, SessionPlayers and
-- SessionInvitations, and by Conversations, which sends through Messages. Registration and
-- Verification give out the tokens of Tokens, which Guards look up; Accounts and Lifecycle change
-- the accounts that they belong to.
--
-- State. `World` holds the tables as lists of rows and the events emitted. A method is an `Action`:
-- it takes the world, and gives a result, a value or an exception, and the next world. What was
-- written before an exception stays, except in a transaction, which restores the tables but not the
-- events. A call is one step: interleavings of two calls are not modelled.
--
-- The Prisma client is not part of the repository. It is the parameter `Client`, whose laws say by
-- numbers of rows what each operation reads or writes; nothing relies on the order of rows. The
-- instance `list_client` meets the laws, and the runs use it. Unique and foreign keys are
-- written out, from prisma/schema, in the operation that they guard, except those that the steps
-- before it ensure.
--
-- Numbers. Ids (cuids) are natural numbers, since they are only compared; a date is its number of
-- milliseconds; ids that the database generates and the time of a call are arguments. A price is a
-- natural number, since it is only stored. Numbers are unbounded, and the loops of the source run
-- over lists. A token is a number, too. Fuel bounds only the number of pages that a client asks
-- for, in Pagination: as many as there are rows, and one more, are enough.
--
-- Not modelled. The formatting by luxon, the object storage, `Date.getDay`, JSON web tokens, the
-- hash of passwords, the case of texts, Apple, Stripe and Firebase are parameters; a mail is an
-- event. Log lines, Swagger and the validation of requests by decorators are left out, as are the
-- event of getMessages, most reads, deletions that cascade, and the parts chat, payment,
-- notifications, partners and metrics.
-- Columns that no modelled method reads are left out of the rows.
pub mod Prelude
pub mod World
pub mod Users
pub mod Friends
pub mod Moderation
pub mod Social
pub mod ConversationMembers
pub mod Messages
pub mod Conversations
pub mod Tokens
pub mod Guards
pub mod Accounts
pub mod Verification
pub mod Registration
pub mod Webhooks
pub mod Pagination
pub mod Preferences
pub mod Devices
pub mod Lifecycle
pub mod SessionPlayers
pub mod Sessions
pub mod SessionInvitations
pub mod Ratings
pub mod Dates
pub mod Fields
pub mod SessionCreation
pub mod Tests
