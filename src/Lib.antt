-- ===== src/Lib.antt =====
-- go_ticket_booking_app: a verification library of the ticket booking service (Go, PostgreSQL,
-- Redis). The router puts the rate limiter, Authenticate and RequireAdmin in front of the handlers.
-- A handler of internal/handler calls a service of internal/service; the services keep nothing
-- themselves and act through the repositories on the tables of PostgreSQL and on Redis.
--
-- Files and the code that they follow:
--   Base      lists, signed integers and 32 and 64 bit ranges, Go strings as bytes, rows with keys,
--             strconv's Itoa and Atoi (Decimal), the loops of package strings (Strings)
--   Domain    internal/domain: User, Event, Booking, UserClaims, AuditLog, the constants (one
--             module for each type), and the error values with errors.Is and errors.As
--   World     the state of a call: the tables, the session that BeginTx opens, the number of
--             statements sent, the cache server; calls as a monad of state and error, with
--             `if err != nil` (on_error), defer (deferred) and dropped errors (ignored)
--   World/Calls      how a statement reaches the database: pgxpool's and pgx.Tx's QueryRow, Exec,
--             Begin, Commit, Rollback and SendBatch
--   Postgres/Schema  migrations/: enumerations, column types and CHECK constraints
--   Postgres/BookingRepo, EventRepo, AuditRepo, UserRepo   internal/repository/postgres: one
--             function for each SQL statement, over the tables, and one for each method
--   Postgres/Effects, Cancelling, Integrity, Capacity   lemmas on the statements and the tables
--   Postgres/Queries   the methods that list rows: EventRepo.List, BookingRepo.ListByUser,
--             AuditRepo.GetHistory; Order has the promise of ORDER BY, Answers what they return
--   Cache     internal/repository/cache as the services call it: a record of operations, whatever
--             they do, over any state of the cache server
--   Cache/Redis, RedisRepo   redis_repo.go: the commands of Redis with their documented laws, and
--             over them the methods of RedisRepo with both Lua scripts; redis_cache fills the record
--   Cache/Lock, Window, Availability   the lock under any interleaving of its clients, the sliding
--             window, the cached availability; Memory a server in memory that keeps the laws
--   Config    internal/config/config.go: Load and its helpers
--   Service/Audit    internal/service/audit_service.go: ToMap, ComputeDiff; AuditDiff its lemmas
--   Service/Booking  internal/service/booking_service.go: BookTicket, CancelBooking, BatchBook,
--             cut into named suffixes (book_event is BookTicket from step 4 on, and so on)
--   Service/Booking/Locking, Address   BookTicket over RedisRepo, and with an address that is none
--   Service/Auth     internal/service/auth_service.go: Register, Login, ValidateToken; Accounts and
--             Users what they do to the table, Access who gets in, Plain an instance of the laws
--   Service/Event    internal/service/event_service.go: validation, Create, Update, Delete,
--             BatchCreate
--   Service/Maintains, History   sequences of calls of both services
--   Service/LostUpdate   a cancellation between the read and the write of an update
--   Middleware       internal/middleware: RateLimiter (extractIP, pathGroup, the handler), Rbac
--             (Authenticate, RequireAdmin, RequireRole and their chain)
--   Handler   internal/handler: Answers (helper.go), Booking, Event, Account (auth_handler.go),
--             Audit, Inputs (client address, query numbers); Statuses, Updates and Logins the answers
--             against the tables
--   Router    internal/router/router.go: the rate limiter, the gates of the routes and the handlers;
--             Guarded who reaches the database, Stock and Arrivals any sequence of requests
--   Concurrent   calls of both services at the same time: Steps.step is the next statement of a
--             call, with the rows that it must wait for; Locks, Invariant and Stepping what a step keeps
--             for its own call and for the others, Leaks its locks, Sale, Return, Rewrite and Insertion the changes of the
--             tables, BookStep, CancelStep and EventStep the steps; System any interleaving, Safety,
--             Commits and Locked what holds of it
--   Startup   cmd/api/main.go, NewPool and RunMigrations of postgres/db.go, NewRedisRepo and Close of
--             redis_repo.go: a trace of what the process does, over the answers of the libraries;
--             Readiness when the server starts, and what is closed
--   Samples   the small database on which the examples of the Tests modules run
--
-- State and time. A UUID is a number and uuid.Nil is 0; a time in the tables is a number of
-- nanoseconds, cut off at microseconds where a parameter is stored (to_microseconds); a Go int is an
-- integer, and the one product the code makes in int64 wraps at 64 bits. Statements are numbered in
-- the order in which they are sent, and NOW(), gen_random_uuid() and the fate of each statement are
-- functions of that number: it arrives, is lost before it runs, or runs and its reply is lost. A
-- parameter Env gives these functions and what the code leaves to libraries (whether a text fits a
-- column, the printing of UUIDs, times and values). A statement runs whole or not at all, and a
-- failed one aborts its transaction: documented behaviour of PostgreSQL.
--
-- The services' modules run one call at a time. Concurrent runs any number of them, in any order of
-- their statements, under READ COMMITTED: the row versions that a transaction has written stay with
-- its call until COMMIT puts them into the tables; a statement that needs a row which another
-- transaction has locked, or clashes with its uncommitted index entry, waits, so that its call makes
-- no step; a call that ends runs its deferred Rollback, and a session without an open transaction
-- holds no locks; a call may be aborted at every point, as by a lost connection or to end a deadlock.
-- These are documented rules of PostgreSQL. The locks of foreign keys are left out, since they only
-- clash with FOR UPDATE on the same row, which the call itself has locked; two audit records in
-- flight with the same generated id are left out too. The lock in Redis is not taken there, so what
-- is shown does not rest on it. A client of an update first reads the event, and names that version.
-- BatchBook is its BookTicket calls, one after the other, each of them a call there.
--
-- Redis is any state with the commands that the code sends and the laws of Cache/Redis. A command
-- or its reply may be lost like a statement. A lock's time to live ends in a step of its own
-- (expires); the expiry of a sorted set is left out, since the script itself removes every entry that
-- is a window old. bcrypt and jwt are functions of AuthEnv with the laws of Service/Auth/Access.
--
-- Loops (BatchBook, ComputeDiff, the pass of an UPDATE over its rows, BatchCreate, the loops of
-- package strings) are structural recursion on their lists. Only the digits of a number run on fuel, a
-- step more than the number, and any fuel beyond the number gives the same digits (digits_fuel).
-- Machine bounds are those of INT and BIGINT columns: 32 bits, checked by the statements; int64 for
-- the price and for Atoi; int32 for the sizes of the connection pool.
--
-- Not modelled: matching paths and JSON decoding (library calls, whose results are parameters), the
-- constructors that only store their arguments, the format of the log, and registration and login
-- among concurrent calls, which touch the table of users alone.
pub mod Base
pub mod Domain
pub mod World
pub mod Postgres
pub mod Cache
pub mod Config
pub mod Service
pub mod Middleware
pub mod Handler
pub mod Router
pub mod Concurrent
pub mod Startup
pub mod Samples
