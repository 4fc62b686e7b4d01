-- ===== src/Lib.antt =====
-- Coggo: a personal knowledge store. A peer (a did:key with a name) owns entities and relations, which
-- one SQLite database keeps for all peers beside a log of events. Clients send federation messages to
-- a router, which gives each to the handler of the target peer; the handler appends an event and then
-- writes the record. Tokens say which peers a client of the MCP server may name.
--
-- The files follow the program's packages.
--   Types: internal/types/types.go. Times are nanoseconds since Go's zero time, so no time is before
--     it. A payload is the value that was marshalled into it, or marks text that is no JSON; Types.Json,
--     Types.Decode, Types.Struct and Types.Encode say what `json.Unmarshal` and `json.Marshal` do with the values that
--     the program gives them. Numbers inside JSON and float32 vectors are opaque.
--   Store: internal/store/sqlite.go. The five tables are lists of rows in a record; a method takes the
--     database and returns its result with the database that it leaves. Rowid order is the order of
--     the list. Stamp is formatTime and parseTime: a text is its whole seconds and the digits of its
--     fraction, compared as SQLite compares the texts of years with four digits. `json_extract`, `LIKE`
--     and the nearest neighbours of sqlite-vec are parameters, in the record Sqlite. Limits are natural
--     numbers: a negative limit acts as 0.
--   Schema: internal/schema/resolver.go, and internal/schema/seed.go, with the loops
--     of internal/cli/runtime.go that register the seed types. Whether a text is
--     an RFC 3339 time is a parameter.
--   Cli: internal/cli/runtime.go. Runtime is Setup and AddPeerToRuntime, Definitions the type definitions
--     that are read back from the store, Calls is FedCall with its helpers. Prompts is internal/cli/prompt.go
--     with the loops that ask, on the list of the input's lines, and Commands are the commands of
--     entities.go, relations.go and types.go that write; the loop of `type add` has a turn more than lines.
--     Admin are those of peers.go and tokens.go, and Init is init.go. Backup is backup.go over files by
--     their path: a record says which calls of the package `os` fail.
--   Federation: internal/federation/handler.go and router.go. A call takes the store and the resolver and
--     returns an outcome with what it leaves: a reply with Go's error beside it, or a nil dereference.
--     The clock and the identifiers that a call draws are its argument Env, one time for each call.
--   Auth: internal/auth/tokens.go. The memory and the file are kept apart, and a flag says whether the
--     call's flush succeeds. SHA-256 is a parameter, and so are the random id and secret.
--   Peer: internal/peer/registry.go. The two maps hold pointers into a list of peers, since a rename
--     through one of them shows in the other; Reached has the steps of a run, `Open` among them. Base58 and Did are internal/peer/did.go: bytes are numbers
--     below 256, a big.Int is a number, and the loops that divide it run on as many rounds as the number
--     says, which is more than they take. ed25519 key generation is a parameter.
--   Gateway: cmd/coggo-oauth-gateway. Validator is google_validator.go: a call of Validate is two
--     critical sections with Google's reply between them, and Interleavings are the states that the
--     sections of concurrent calls lead to. RateLimit is ratelimit.go over the token bucket of
--     golang.org/x/time/rate, which is a parameter. Serve is the chain of handlers that main.go builds,
--     and Config is loadConfig with what `run` makes of it: floating-point numbers are opaque, and the
--     OAuth server's own endpoints are a parameter.
--   Mcp: Authorize is authorizeForPeer and clientIDFromToken of internal/mcp/auth.go, Session its injectAuth,
--     which Gateway.Upstream puts behind the gateway. Tools is
--     internal/mcp/tools.go: a handler reads its arguments, asks for the authorization and decides on one
--     federation call, which is then routed; the result holds the reply's payload and the fields that the
--     projection keeps of it. The `touch` that the authorization starts is a step of Auth and no part of
--     what a tool leaves here; CrossPeer is the one tool that asks several peers. mcp-go's accessors on the arguments are parameters. Projection is
--     internal/mcp/projection.go on the value that is parsed from a payload.
--   Prelude: lists, dictionaries for Go's maps, orders and sorting, results for Go's errors.
--   Tests: data, and the theorems at concrete inputs.
--
-- The other loops are structural. Each method that holds its lock from the first to the last access
-- is one step; `touch`, which Verify starts on its own thread, is a step of its own. Go
-- ranges over maps in random order; where the result is not sorted, the order of insertion stands for
-- it (the file of the registry, the issues about unknown fields, and the names of a projection).
--
-- Not modelled: errors of SQLite other than a repeated event id, logging, contexts, the briefing,
-- internal/config, the other commands of internal/cli, and the gateway's listening.
pub mod Prelude
pub mod Types
pub mod Store
pub mod Schema
pub mod Federation
pub mod Cli
pub mod Gateway
pub mod Auth
pub mod Peer
pub mod Mcp
pub mod Tests
