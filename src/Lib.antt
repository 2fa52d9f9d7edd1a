-- ===== src/Lib.antt =====
-- The core of the seatwaves server: what the services of a ticket marketplace do with money,
-- bookings, loyalty points, accounts and recurring events, and its guards and locks.
--
-- Parts and files
-- - Common: names of the libraries passed on, Boolean tests (Tests), lists under tests (Lists),
--   integers over the native numbers (Int), calls that change a state or throw (Http), those that
--   throw only exceptions of the framework (Exceptions), and those that keep a predicate (Keeps).
-- - Database: a prisma model is the list of its rows. Table has findUnique and update by a unique
--   id; Queries is what prisma leaves open, as a parameter: the row that findFirst returns, the
--   order of rows with equal keys, the id of a new row, and whether the settings of a user can be
--   read when a notice is made.
-- - Points: src/points/points.service.ts. Award is awardPoints with calcPointsFromRule, Redeem is
--   redeemPoints, Expire is expireJob, Tier is recalcTier; Ledger holds the invariant of the
--   balances and batches (Holdings), its proofs, and the choice of a tier (Tiers).
-- - Orders: the tables of prisma/schema.prisma that bookings and payments use (Data), and the state
--   that the services share (Store). What is sent and never read is kept in its outbox.
-- - Webhook: src/webhook/webhook.service.ts. Job is enqueueWebhookEvent and processWebhookJob,
--   Handlers the handlers of checkout sessions and payment intents, Transfers those of fees,
--   transfers and refunds; Laws has a child for jobs, payments, checkouts and notices
--   (createAndQueueNotification of src/notification/notification.service.ts).
-- - Stripe: src/stripe/stripe.service.ts. Api is the record of Stripe's calls, Refund is
--   resolvePaymentIntentId and processRefund, Refunds what they leave alone, and Rollback composes
--   what calls guarantee.
-- - Bookings: src/booking/booking.service.ts. Status is updateStatus and updateSellerStatus, Cancel
--   is cancelByGuest, Code is generateBookingCode and generateMixedOTP, Verify is
--   verifyBookingCode; Laws has a child for each.
-- - Recurrence: src/event/recurrence.ts over src/common/utc.ts. Utc and Rules are the helpers,
--   Expand is expandWindowUTC and nextOccurrenceUTC, Reference what a rule means, day by day; Daily,
--   Start, Days, Left, Weekly, Align, Branches and Named prove the loops, Window and Next the whole.
-- - Auth: src/auth/auth.service.ts. Otps is resendOtp, resend2fa, forgotPassword and the block
--   check, SignIn is signIn, signInWeb and checkLoginAttempts, SignUp is signUp and socialLogin,
--   Codes is verifyEmail, verifyOtp, verify2fa, resetPassword, changePassword, refreshTokens and
--   logout; bcrypt and JWT are a parameter (Crypto). Laws has a child for each topic.
-- - Locks: src/common/services/distributed-lock.service.ts. Redis is the record of its commands,
--   Lock is acquireLock, releaseLock and withLock, Schedule the steps of callers in any order,
--   Exclusion and Laws the proofs.
-- - Guards: src/common/guards/rate-limit.guard.ts. Counter is the record of the commands of Redis,
--   RateLimit is canActivate, Window the proofs.
-- - Access: src/common/guards/permissions.guard.ts over src/common/services/cache.service.ts. Guard
--   is canActivate and getOrSet, Freshness the steps of a server and how old a cached list may be.
-- - Roles: src/role/role.service.ts and src/common/guards/roles.guard.ts. Service is the service with
--   what it drops from the caches, Guard the two guards on its tables, Calls what callers see and
--   Plain the same without a cache; Joins, Writes, Coherence and Factories lead to Refinement. Seller
--   is updateBusinessInfoStatus of src/users/users.service.ts, Sellers what it changes.
-- - Events: src/event/event.service.ts. Service is createEvent, addticketToEvent, updateticket and
--   deleteTicket, Chunks the loops that write tickets, Bulk is createEventsBulk, Collections is
--   createCollections and deleteCollection. Writing and Loop are about the chunks, Creation and
--   Ownership about Service, Growth, Uploads and Summaries about Bulk, Tidy about Collections.
-- - Transactions: src/transaction/transaction.service.ts. Service is createTransaction and
--   updateTransactionStatus, Flows is processBookingPayment, processHostPayout and processRefund,
--   Decisions is approveTransaction and rejectTransaction, Calls any sequence of them; Links, Sound,
--   Paid and PaidOut are about how the rows fit each other.
--
-- How they interact: the webhook handlers and the booking service write the same Store; the
-- checkout handler calls Points.Award on the loyalty tables of the store; the booking service
-- calls Stripe.Refund on the store with Stripe's state beside it (System). The role service drops what
-- the guards of Access and Roles cached.
--
-- Conventions: a call is a function from the state to a result with the state it leaves
-- (Common.Http.Action); an exception is a value of HttpError, and `failure` is any error that is
-- no exception of the framework. `prisma.$transaction` restores the database on an exception and
-- nothing at Stripe. Amounts of money are cents, points are integers, instants are milliseconds,
-- ids of rows are natural numbers. The current time is an argument, read once for a call. A random
-- draw of generateMixedOTP is a function of the round; the codes of Auth are arguments. Loops are
-- structural recursion on the rows or rounds; that of acquireLock has as many rounds as attempts.
-- Only those of expandWindowUTC take fuel, a round for each day up to the end and one more
-- (Recurrence.Expand.rounds): every round moves on by a day at least. The loop over chunks has as
-- many turns as there are rows, each of which passes two hundred. JavaScript numbers and dates are
-- parameters (Numbers, Money, Calendar), and so are Stripe, Redis, bcrypt and JWT, with the laws
-- that are used. What zod lets through is the input of a call, or nothing. Rows of Events and
-- Transactions take their ids from a counter, that of a new role is an argument.
--
-- What can fail is part of the model where the code goes on from it: a notice (Queries.can_read), the
-- closing transaction of cancelByGuest and of verifyBookingCode (their argument `fails`), a deletion
-- of an entry of a cache (Roles.Data.State.can_delete), a call of Stripe, and the rows that a
-- constraint refuses. Which of the payments of a booking processHostPayout reads is an argument, as
-- its query has no order.
--
-- Not modelled: the settings by which a user turns notices off; logs, texts of messages and mails, descriptions of transactions, requests that
-- only read; concurrent calls on the database; the retries of the queue, which Webhook.Job
-- describes by one job at a time; the roles of a user, the pages that a sign in redirects to and
-- the network address of a login (Auth); dates before 4 January 1970 (Recurrence); a guard that
-- reads the tables while a change of the roles commits (Roles); the other calls of the users
-- service, and the other services (content, dashboard, messages).

pub mod Common
pub mod Database
pub mod Points
pub mod Orders
pub mod Webhook
pub mod Stripe
pub mod Bookings
pub mod Auth
pub mod Access
pub mod Roles
pub mod Events
pub mod Transactions
pub mod Guards
pub mod Locks
pub mod Recurrence
