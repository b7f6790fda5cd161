-- ===== src/Lib.antt =====
-- SigardaPanel: the checks that stand between a request and commands run by root, who may make a
-- request, and the background jobs.
--
-- The panel takes requests over HTTP. internal/apihttp decides who may make them, internal/siteinput
-- which values they may carry. What they ask for becomes a job in the table of internal/store/jobs.go;
-- the worker of internal/jobs claims jobs and sends them to an agent, which runs as root on a server.
-- The agent (internal/agenthttp) does not trust the panel and checks names and paths again.
--
-- Common        names shared by all modules, Boolean tests, lists, Go's int and strconv.Atoi
-- Regex         regular expressions, decided by derivatives, with what their matches can contain
-- Text          Go strings as lists of bytes, with the functions of package strings that are called
-- Path          filepath.Clean on slash-separated paths, and what lies under what
-- SiteInput     internal/siteinput/siteinput.go: Domain is Values.domain, DockerVolume is
--               Docker.docker_volume, RootPathAllowed is Paths.root_path_allowed, and so on
-- AgentPaths    internal/agenthttp/validate.go: isAllowedSitePath is Sites.is_allowed_site_path,
--               resolveBackupFile is Backups.resolve_backup_file, sqlQuote is Sql.sql_quote
-- Auth          internal/auth (Roles), internal/store/sessions.go (Sessions), the middleware of
--               internal/apihttp/middleware.go (Guard, Features), internal/features (Features), the
--               login limits of internal/apihttp/auth.go (Limits), internal/apihttp/csrf.go (Csrf),
--               internal/auth/password.go (Password), and the login handler of internal/apihttp/auth.go
--               with internal/store/twofa.go (Login)
-- Jobs          internal/jobmodel/jobs.go (Model), internal/store/jobs.go (Table) and
--               internal/jobs/worker.go (Backoff, Success, Worker)
-- Backups       internal/store/backups.go: the statements (Table, Retention, Expiry)
-- Sites         internal/apihttp/filemanager.go: safePath is Files.safe_path, and the loop of
--               ensureNoSymlinkEscape is Files.climb; canAccess and checkSitePermission of
--               internal/apihttp/sites.go with internal/store/user_sites.go (Access); and the IP rules of
--               internal/apihttp/ip_restrictions.go and internal/store/ip_restrictions.go (Rules); and the
--               search for a port of internal/store/sites.go (Ports)
-- Units         internal/agenthttp/app_process.go: the unit of an application (File) and the tasks that
--               write and run it, as lists of commands (Tasks)
-- Commands      internal/executor/executor.go: RunShell is Run.run_shell, RunAsUser is Run.run_as_user
-- Orders        internal/store/orders.go and internal/store/plans.go (Table), internal/apihttp/orders.go with
--               its routes (Handlers; orders_route is GET /api/v1/orders behind Auth.Guard.require_auth) and
--               internal/apihttp/plans.go (Plans); Consistency.execute runs any handler that writes
--
-- A validator gives ok or the error's text. A table is a list of rows by id, a statement a function
-- on it; a statement that the database refuses is not modelled, save that queries of Auth, Sites and
-- Orders can fail, and that Orders knows the keys of its tables. One round of the worker gives the
-- new table of jobs and, as a list of effects, what it does to other tables, files, the agent and
-- notifications, in order. Times are numbers: seconds in tables and limits, nanoseconds where the
-- source adds durations or compares with time.Now(). What is not part of the repository, or only
-- reads the outside, is a parameter: encoding/json, the secrets, the agent, the file system
-- (Jobs.Outside, AgentPaths.Backups.FileSystem, Sites.Files.Links), the executor
-- (Units.Tasks.Executor), argon2, base64 and Sscanf (Auth.Password.Primitives), how the database
-- compares a column with the text of a bound time (is_before), and the clock, the hashes and the one-
-- time codes (Auth.Login.Outside).
--
-- Regular expressions need no fuel. Limits.format_int has fuel one more than the number itself, and each
-- digit divides it by ten. Sites.Files.climb has fuel one more than the length of the path, and each round
-- takes away a name. The delay of a retry is computed modulo 2^64.
--
-- Not modelled: DBPrivileges (Unicode letters), copying and walking trees of files, the loops around
-- a round of the worker, the mutexes of the login limits (each method is one step), request decoding,
-- the other handlers and stores, running a process, and programs in other languages.
pub mod Common
pub mod Regex
pub mod Text
pub mod Path
pub mod SiteInput
pub mod AgentPaths
pub mod Auth
pub mod Jobs
pub mod Backups
pub mod Sites
pub mod Units
pub mod Commands
pub mod Orders
