-- ===== src/Lib.antt =====
-- A model of ops-composer, a service that runs Ansible commands and playbooks on hosts over SSH.
-- An API process stores runs in PostgreSQL; workers claim them, lock their hosts, execute them and
-- report what came of them. Users may also open a Web Shell on a host, which takes the same lock.
-- Paths below are from backend/src/ops_composer.
--
-- Prelude: tests, tables as lists of rows (Rows) with laws of SQL statements on them, sets of texts
--   (Texts), the characters of a text (Chars), an ℤ over ℕ.
-- Domain: the enumerations, records and exceptions of domain/ and auth/models.py, a file each; Assets
--   has the reads of repositories/assets.py as a record of functions.
-- Db: the tables and a unit of work (uow/unit.py), a function of the database that returns or fails.
-- Locks: host_execution_locks, which the run queue and the Web Shells share; Upsert has its laws.
-- Audit: the audit log (services/audit.py, repositories/audit.py).
-- Queue: the run queue. Store, Claim, Lifecycle and Events have the operations of RunRepository
--   (repositories/runs.py), each under its own name, statement by statement. Coordinator has the
--   methods of WorkerCoordinator and Service those of RunService that read and cancel runs
--   (services/runs.py). HostLocks, Fifo, Sequence, Reports, Released and Cancels are about single
--   operations; Settled, Creates, Keeps and Ends about the invariant of the two tables of a run; Steps,
--   Moves, Machine and Once about every order of operations, with what the callers of the repository
--   see to as premises of the steps. Submit has `RunService._create` (services/runs.py) for requests without a
--   playbook of the database: look_up is its first unit of work and persist its second; Idempotent,
--   Confirmed, Stored and Replays are about it.
-- Auth: the guard of auth/service.py that the services call; Totp has one-time codes
--   (auth/security.py, auth/repository.py). Users has the statements on users and activation tokens
--   (auth/repository.py), Sessions how sessions and challenges are issued and resolved, Admin the
--   methods of AuthService that create, activate, change and reset users (auth/service.py); committed
--   is a unit of work under the deferred trigger of db/migrations/governance.py. BreakGlass has what
--   the command line does for the sole owner, and logout. Steps puts these units of work in a row;
--   Frame, Owners, Versions and Stale are about them. RateLimits has the attempts that are counted in
--   fixed windows, Login the login (auth/service.py); Lockout and Verified are about them.
-- Worker: worker.py, the output that is kept of a target (add_output) and how the statuses of targets
--   and run are settled (resolve); Outcome is about them.
-- Keys: master keys. Keyring has the keyring and its envelopes (services/crypto.py), Store the statements
--   of repositories/encryption.py, Service the methods of EncryptionService (services/encryption.py).
--   Built is about the constructor of a keyring, Secrets and Reencrypt about a record that is encrypted
--   again, Vault, Tables and Rotation about what a batch keeps, Remaining, Progress, Shrinks, Readable,
--   Settles, Jobs and Liveness about how batches come to an end, Requests, Failures and Startup about
--   requests, batches that raise and the start of the service.
-- Migrations: db/migration_engine.py. Visit has ordered_migrations, Runner the methods of
--   MigrationRunner; Steps, Fuel and Order are about the order, Applied and Current about `up`.
-- WebShell: Store has the operations of PostgresWebShellRepository (repositories/web_shell.py),
--   Service the methods of WebShellService (services/web_shell.py), with `create` and `claim` in
--   parts (admit, resolve, open_session; launch). Steps has the statements on sessions in any order;
--   Create, Limits, Claims, Ticket and Recovery are about them.
-- Samples and the modules named Examples: small databases, and the theorems at them.
--
-- A UUID and a time are natural numbers, times in microseconds. SQL NULL is `none`. `utc_now()` and
-- `uuid4()` are arguments. A statement reads and writes the whole database; a violated key is
-- `database_error`, and an exception ends the unit of work and undoes it. Transactions are taken one
-- after the other; the rows that others hold under FOR UPDATE SKIP LOCKED are an argument (`skipped`),
-- and claim_row and lock_hosts, the two parts of a claim, are definitions of their own. Arguments are
-- also the collation of host names, the UTF-8 codec, the cipher and the HMAC of a one-time code, and
-- whether a best-effort audit record is written. An audit event has no metadata and takes nothing from
-- the log context, and its source is that of a service of the API; the known_hosts of a Web Shell are
-- the list of keys. Arguments are also `lower` of PostgreSQL, `canonical_username`, the hashes of
-- passwords, tokens and requests, the tokens that are drawn, the JSON documents about the hosts of a
-- run, and what a migration's SQL does. Recursion is on lists, but for `visit` of the migrations, which
-- takes fuel: one more than there are migrations, since each call but the last is in a new one.
--
-- Of keys, AES-GCM, base64, json and the texts that name what is encrypted are the fields of `Packages`,
-- and IsLawful what is relied on; the advisory lock and the rows that others hold are a `Contention`; the
-- order of secret names is that of their characters. `batches` are rounds of the worker's loop, without
-- a bound.
--
-- Not modelled: HTTP routes, SSH and Ansible processes, settings, logging and the SQL of the
-- migrations, which are I/O or library calls; and playbooks of the database in a new run, the retry of
-- runs, the completion of MFA and the change of passwords, assets and the playbook service.
pub mod Prelude
pub mod Domain
pub mod Db
pub mod Locks
pub mod Audit
mod Samples
pub mod Queue
pub mod Auth
pub mod WebShell
pub mod Worker
pub mod Migrations
pub mod Keys
