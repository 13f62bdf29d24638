-- ===== src/Lib.antt =====
-- fastmcp: a server for the Model Context Protocol, and the middlewares in front of it. A program
-- registers tools, resources, resource templates and prompts on a Server; a transport hands each
-- JSON-RPC request to Dispatch, which routes it by its method to a handler that reads the
-- registries, runs a callback of the program, or changes a session's subscriptions. Broadcasts
-- write notifications to the connected sessions. The middleware package composes functions around
-- Dispatch. The mount package registers on a server tools, resources and prompts that send
-- requests to another server in the process; the auth package guards an HTTP handler.
--
-- The files, and the code that each is about:
-- - Prelude, Prelude/*: strings as lists of bytes, outcomes (a value, an error or a panic), maps
--   as association lists, integers, Boolean tests.
-- - Rpc, Rpc/Codes, Rpc/Contents: the types and constructors of jsonrpc.go, content.go,
--   content_extra.go and prompt.go; Value is what this package puts into an any.
-- - Session, Session/Broadcast: session.go and the session set of server.go. A World has every
--   session object by its address, the addresses in Server.sessions, and a state of the program's
--   own handlers; what a session wrote is a list of messages.
-- - Session/Requests, Session/Requests/Delivery: session.request and session.deliver of
--   session.go, as the steps of interleaved goroutines.
-- - Server: the registries and the operations that register (New, registerTool, Resource,
--   ResourceTemplate, Prompt, CompletePrompt, CompleteResourceTemplate) of server.go, tool.go,
--   resource.go, prompt.go and completion.go.
-- - Server/Registry, Server/Registry/History: the invariant of the maps and order lists, and
--   sequences of registrations.
-- - Server/Template, Server/Template/Compile, Server/Template/Matching: compileURITemplate and
--   resourceTemplateEntry.match of resource.go.
-- - Server/Listing, Server/Listing/Laws: handleInitialize and the list methods of dispatch.go.
-- - Server/Logging: the log records of context.go, and newRequestContext of session.go.
-- - Server/Dispatch, Server/Dispatch/*: Dispatch, route and the other methods of dispatch.go,
--   handleComplete of completion.go and toContent of content.go.
-- - Middleware, Middleware/Chain: Chain.Then, wrap, Func, Base and the Dispatcher of
--   middleware/middleware.go.
-- - Middleware/Recovery, Middleware/ErrorHandling, Middleware/Metrics, Middleware/RateLimit:
--   middleware/errorhandling.go, middleware/metrics.go and middleware/ratelimit.go.
--   Middleware/Reporting: middleware/timing.go and middleware/logging.go.
-- - Mcplog, Mcplog/Names, Mcplog/Filter: the levels and the Logger of mcplog/mcplog.go; a level
--   is the bit pattern of its int8.
-- - Mcperror, Mcperror/Codes: the protocol errors of mcperror/mcperror.go.
-- - Bulk, Bulk/Sequential: CallToolsBulk of contrib/bulk.go without Parallel: callSequential,
--   invoke and the results.
-- - Retry, Retry/Attempts, Retry/Outcomes: Retry of contrib/helpers.go. Mixin: contrib/mixin.go.
-- - Elicit, Elicit/Struct, Elicit/Reflection: elicit/schema.go. Elicit/Request, Elicit/Outcomes:
--   elicit/elicit.go, elicit/typed.go.
-- - Client, Client/*: client/client.go. Client has its types and what it answers the server,
--   Client/Requests its requests, of which Client/Fresh and Client/Ids are about the ids.
-- - Proxy, Proxy/*: proxy/proxy.go. Proxy has the options and the texts, Proxy/Forward New and
--   the handlers, Proxy/Relays a call that is passed on. The client of the backend is a Slot of
--   the proxy's world.
-- - JsonSchema, JsonSchema/Refs: jsonschema/refs.go. JsonSchema/Validate, JsonSchema/Validate/*:
--   jsonschema/validate.go; Keywords, Checks and Validate have the code, Satisfies what it
--   decides. JsonSchema/Unused, JsonSchema/Unused/*: pruneUnusedDefs of jsonschema/transform.go.
--   JsonSchema/Dereference, JsonSchema/Dereference/*: hasCircularDefRef and inlineDefs of
--   jsonschema/refs.go.
-- - Openapi: the classification of routes of openapi/routemap.go.
-- - Uri, Uri/*: uritemplate/fastmcp.go. Uri/Encoding is about fmEncode and pathUnescape,
--   Uri/Placeholders has BuildRegex, MatchURITemplate and ExpandURITemplate, and Uri/RoundTrip,
--   Uri/Splitting and Uri/Tokens are about them.
-- - Rfc6570, Rfc6570/*: uritemplate/uritemplate.go: Parse, Names and the encoding, Expand in
--   Rfc6570/Expand, and Match in Rfc6570/Match; Rfc6570/Match/Captures and Rfc6570/Match/Parts
--   are about what it accepts.
-- - Json: JSON values, of which auth reads the claims of a token.
-- - Auth, Auth/Scopes: auth/token.go. Auth/Jwt, Auth/Jwt/*: auth/jwt.go. Auth/Bearer,
--   Auth/Bearer/*: auth/middleware.go. Auth/Protect: auth/metadata.go.
-- - Http, Http/Batches, Http/Single: the POST of http.go.
-- - Mount, Mount/Names, Mount/Delegate, Mount/Delegate/Faithful, Mount/Compose, Mount/Compose/*:
--   mount/mount.go and mount/delegate.go. A child is a Server whose world is a Slot of the
--   parent's; a delegated call runs the child's POST.
-- - Tests, Tests/*: runs at concrete inputs.
--
-- A handler of the program is an action on the world: it may write to sessions and keep state,
-- return an error, or panic. Every operation that changes state is a function from the state to
-- an outcome and the next state, composed as the code composes them; locks are not modelled, so
-- an operation is one step. encoding/json and encoding/base64 are a parameter, the record Codec
-- of Server/Codec, of which the theorems assume nothing. Other libraries are parameters of the
-- same kind: the decoders of a POST (HttpCodec), the codecs of delegated calls (Wire), the
-- cryptography of a token (Crypto), a client's call of a tool (Caller); a theorem that relies on
-- them has what it relies on as a hypothesis, such as CarriesCall of Mount/Delegate/Faithful. A
-- middleware's own state is a Slot of the chain's state, with the laws of reading back what was
-- written.
--
-- Bounds: the counters of Metrics are modulo 2 ^ 64. The token buckets count in given floats,
-- whose operations round, and in nanoseconds. The compiler of templates has the length of the
-- template as fuel, which is enough since each round uses up a character: the pieces make up the
-- whole text; the matcher recurs on the pieces and on the length of a segment. The tokens of a
-- template of uritemplate/fastmcp.go and the loop of Parse have the length of its path as fuel,
-- which is enough for the same reason. The loop of Retry recurs on the attempts that are left.
-- Validate recurs to the depth of its schema, and any greater depth gives the same answer. The
-- rounds of pruneUnusedDefs, the search of hasCircularDefRef and the nesting of inlineDefs have
-- as fuel one more than the names that can be met: each adds one to a set.
--
-- Not modelled: reflection on tool functions (tool.go, schema.go; a tool is its entry), the
-- stream of a GET, stdio.go and transport, the rest of session.go (handle, parseProgressToken),
-- the other methods of Context, the values that middlewares attach to a request, the transports
-- of client, the builder of jsonschema, its discriminators and its pruning of parameters and
-- titles, of openapi all but the route maps, and of contrib the parallel batches and the tool
-- caller.
pub mod Prelude
pub mod Rpc
pub mod Session
pub mod Server
pub mod Middleware
pub mod Mcplog
pub mod Mcperror
pub mod Bulk
pub mod Uri
pub mod Json
pub mod Auth
pub mod Http
pub mod Mount
pub mod Retry
pub mod Rfc6570
pub mod Mixin
pub mod Openapi
pub mod Elicit
pub mod JsonSchema
pub mod Client
pub mod Proxy
pub mod Tests
