-- ===== src/Lib.antt =====
-- A model of WeKan Go: the HTTP reads of the REST API, login and logout, client addresses, API
-- usage, the event log and the schema upgrade of a Go server that stands in for WeKan's Meteor
-- server over the same MongoDB database.
--
-- The parts, and the files that model them:
-- - internal/api/api.go, login_security.go: a request is authenticated by a token (Api/Auth), a
--   login passes a throttle per client address (Api/Throttle), decodes its body (Api/Credentials),
--   checks the account and its password and stores a token (Api/Login), a logout removes tokens
--   (Api/Logout). The mutex of `service` makes `begin` and `finish` steps of a transition system
--   (Api/Throttle/Exclusion).
-- - internal/api/board_reads.go, user_reads.go, user_boards.go: the read handlers. Each first
--   checks access (Api/Access) and then reads boards (Api/Boards), lists and swimlanes
--   (Api/Lists), cards (Api/Cards) or users (Api/Users). The error answers are in Api/Errors.
-- - `New` of internal/api/api.go and the two functions that register routes: Api/Router, the
--   composition of all handlers with the accounting of internal/api/usage.go (Api/Usage). A request
--   is one step on the throttle, the usage reporter and the world.
-- - `jsonDocument` and the other functions on values of any type: Bson, with its folder.
-- - internal/clientip/clientip.go: Clientip.
-- - internal/eventlog/usage.go: Eventlog/Usage, with the conversions in Eventlog/Values and
--   Eventlog/Numbers. internal/eventlog/reporter.go: Eventlog/Reporter, the worker as a step
--   relation among the steps of other goroutines, and Eventlog/Reporter/Flush for what a flush
--   folds. internal/eventlog/geo.go: Eventlog/Geo.
-- - internal/eventlog/summary.go: Eventlog/Summary for addresses and actors, and its Updates for
--   what a summary row gets for an event. internal/eventlog/writer.go: Eventlog/Writer, a fold as
--   one step on the caches and the world.
-- - internal/eventlog/security.go, security_format.go, security_catalog.go: Eventlog/Security, for
--   the stored document, the blocking of accounts and the reporter.
-- - `eventID`, `fieldRandomID` and `structuralID`: Random.
-- - internal/migrations/upgrade.go: Migrations/Runner for the state and Migrations/Runner/Run for
--   `Run` and its loop.
-- - internal/migrations/fields.go: Migrations/Fields, for the repairs of archived flags, board
--   defaults, permissions and sort values, its Flags for member flags, and Migrations/Items for
--   custom fields and the items of checklists. A cursor is the list of what it gives.
-- - internal/migrations/checklist.go: Migrations/Checklist.
-- - internal/migrations/structure.go: Migrations/Structure, with its Lanes for the swimlanes,
--   Lanes/Repair for boards without one and cards that lost their list, and its Merge for lists that
--   were split by swimlane. A map that the code ranges over is visited in the order of its entries.
--   Structure/Trace turns any database into one that records the writes it is asked for.
-- - Base holds what the parts share, and Tests the runs on concrete data.
--
-- Correspondence: a function, method or type keeps its name, in snake case or upper camel case;
-- pieces of a long function body are definitions of their own. A call of the driver, the clock or
-- the random source is a field of `Env` and passes a `World` on; an error return is a `Result`,
-- and a handler is an `Exec`, whose errors are the early answers. A `bson.M`, `bson.D` or
-- `map[string]any` is a list of fields with a mark of its type. Times are nanoseconds since Go's
-- zero time, and a `float64` is its bit pattern, with arithmetic from `Floats`.
--
-- Fuel: the printing of a number runs on one more than the number, which is enough since each round
-- divides it by ten. A random identifier runs on a number of rounds, and says when they did not
-- suffice (`out_of_rounds` in the steps of the upgrade); they do once the source has given
-- seventeen bytes below the limit. All other loops are structural.
--
-- Not modelled: the vendored projects under internal/compat, the kinds of attachments and the file
-- steps of the schema upgrade, the folding of stored events in `FoldEvents`, the start of the
-- database, the command-line tools, the transport and configuration. Cryptography, the choice of
-- `net/http` among patterns, date and number parsing, `fmt.Sprint`, JSON encoding and the decoding
-- of documents into structs are parameters.
pub mod Base
pub mod Bson
pub mod Env
pub mod Random
pub mod Clientip
pub mod Api
pub mod Eventlog
pub mod Migrations
pub mod Tests
