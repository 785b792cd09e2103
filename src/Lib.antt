-- ===== src/Lib.antt =====
-- telemux is a panel for a cluster of telemt nodes. It keeps the wanted users in a store, compares
-- them with the users of a node through the node's machine API, and sends the node the operations
-- that are missing. A web panel, behind a login, shows the state and starts what an administrator
-- asks for. The binary updates itself from the releases of the project.
--
-- How the parts hang together: `SyncNode` reads the wanted users and the users of the node, asks
-- `ComputeDiff` for the operations and the guard for permission, and applies them one by one with the
-- revision of the configuration in If-Match; after a conflict it starts again. The node is reached
-- through the API client, whose errors classify themselves for the loop. The panel's handlers call
-- the server, whose middleware lets a request pass by its path and its session.
--
-- Files, and what they model (paths from the root of the repository):
--   Base         what the parts share: equality tests, lists, integers, Go maps, results, texts.
--   Diff         internal/telemtsync/diff.go: `ComputeDiff` as `compute_diff`, with its maps
--                (`remote_by_name`, `desired_by_name`), its two loops (`scan_desired`, `scan_remote`)
--                and `patchFieldsFor`, `expirationEquals`, `intPtrEqual`. Diff.Safety has the guard
--                (`ComputeSafety`, `IsMassDelete`). Diff.Scan states the loops without accumulators,
--                Diff.Node says what a node does with an operation, Sync.Shared how it
--                acts while others change it, Telemt.Received what it makes of a request; the others
--                are proofs.
--   Role         internal/role/role.go.
--   Sync         internal/sync/sync.go: `SyncNode` as `sync_node`, one attempt as `attempt`, the loop
--                over the operations as `apply_ops`. The interfaces `DesiredSource` and `NodeAPI` are
--                records of functions that act on a world.
--   Telemt       internal/telemt: the requests of `ApplyOp` (`op_request`), `mutate` (`mutated`),
--                `get`, `ListUsers`, `Health`, and the classification of `APIError`. `client_api` is
--                the client as the `NodeAPI` of Sync.
--   Auth         internal/server/auth.go: sessions, the middleware `wrap`, login, logout and me.
--   Store        internal/store: the tables as lists of rows, the statements on them (Store.Table),
--                users_crud.go and `ListDesired` (Store.Users), nodes.go (Store.Cluster). The other
--                modules are proofs: the table as a map, failures, tokens, pages, the wanted users.
--   Server       internal/server/users.go: the five routes that change users (`handle`), with
--                `requireMaster` and the signal of `markDirty`, and the list of users with
--                `atoiDefault` (Server.Query); cluster.go: its four routes (`serve`) and
--                `reportHeartbeat` (Server.Cluster); `runSync` and its status (Server.Runs), the
--                routes of server.go (Server.Routes); the patterns of all routes (Server.Mux) and
--                `handleIndex` (Server.Index).
--   Update       internal/selfupdate/selfupdate.go: `Update` (Update.Run), `ParseChecksums`
--                (Update.Checksums), `swapBinary` and `Rollback` (Update.Files).
--   Web          internal/server/web/src: api.ts (Web.Api), the state of the dashboard and the parts
--                of its handlers between two awaits (Web.Dashboard), and the panel as a machine of
--                events and handlers that wait for an answer (Web.App, `step`). The types of the
--                answers are tests in Web.Types, what is rendered is a tree in Web.View.
--   System       the parts together: the store as what the server and the synchronisation ask for
--                (System.Panel, System.Reconcile), the routes that write next to the background loop
--                of internal/server/server.go as a step relation (System.Loop), and joining nodes.
--                System.Http is the whole server, `Handler` as `handler`: the middleware, then the
--                mux, then the route (`dispatch`) over one state; System.Answers the JSON of its
--                replies, System.Serve its set-up by `runServe`. System.Guarded, System.Outsiders
--                and System.Closed are about requests without a session; System.Keeps lifts what every
--                method of the store keeps to every request, for System.Unique, and
--                System.Marks is about the signal for the loop; System.Commands about what the routes that
--                write do to the map of users; System.Reads, System.Typed, System.Calls and
--                System.Expired about what the panel's client gets from the server.
--   Cli          cmd/telemux/main.go: the choice of the command, `envOr`, and the commands that end by
--                themselves, with their exit codes.
--   Tests        concrete parameters, and the theorems at concrete data.
--
-- State and failure. Go code that changes something takes the state and returns it: the world of the
-- node, the session table, the files. An error is the second case of `Result`. A system call of the
-- update may fail, by `Faults`; a request may fail, by the answer that the world gives.
--
-- Loops and bounds. All loops are structural. The attempts of a synchronisation are counted down from
-- the number that the loop makes, one more than `MaxConflictRetries` and four for the default, so no
-- fuel is added that the code does not have. Counters are natural numbers; Go's `int` would need more
-- than 2^63 operations to differ. Times are numbers of nanoseconds or seconds.
--
-- Parameters. `time.Parse` is a partial function from texts to instants, float64 a record of the
-- operations that the guard uses, `IsIeee` what it relies on. The node is a record, `IsLawful` what
-- the sources document of it: it does what an operation asks, except that it may refuse to delete its
-- last user (last_user_forbidden). HTTP, JSON decoding, SHA-256, `encodeURIComponent`, the clock, session
-- tokens and names of temporary files are arguments. http.ServeMux is a function from a method and an
-- escaped path to a route, of which `IsSound` says that it only finds routes whose pattern fits; the
-- cookies, the query and the body of a request are given as the handlers read them.
--
-- Simplified: the texts of errors leave out the parts that Go adds to them (method, path, nested
-- error). Lower case of a checksum is that of ASCII letters. A lock makes each access to the session
-- table one step. React throws at a child that is an object, and otherwise shows a value or passes
-- over it (`mounted`).
--
-- Database. A statement is one step on the tables. The list `failures` says which of the next
-- statements fail, and one that writes fails on a replica. A statement that fails has no effect: a
-- commit whose confirmation is lost, so that the code sees an error for a row that has changed, is left
-- out. `collates` is the order of texts, and
-- `format_time` the format of times. A number of connections outside the column INTEGER is an error.
--
-- Not modelled: the start and the end of the HTTP server, opening the database, how the package flag
-- reads arguments, what the command line prints, the text of the pages and files that the server
-- sends for the panel, and requests that the server handles at once. Tests, styles, build files and
-- the built bundle of the panel are no part of the program's logic.
pub mod Base
pub mod Diff
pub mod Role
pub mod Sync
pub mod Telemt
pub mod Auth
pub mod Store
pub mod Server
pub mod Update
pub mod Web
pub mod System
pub mod Cli
pub mod Tests
