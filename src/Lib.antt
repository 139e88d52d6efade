-- ===== src/Lib.antt =====
-- The server of Furnace, a local identity provider (server/internal): its stores, the scoping of the
-- stores to tenants, the login flow, the OpenID Connect endpoints, the SCIM server, the policy engine,
-- the settings, and what stands before the API.
--
-- How the parts interact. A login is a flow, kept in a flow store. The login handlers
-- (server/internal/httpapi/flow_login.go) read a flow, consult the transition table
-- (server/internal/flow/state_machine.go) and the user's scenario, and write the flow back. A flow
-- that is complete is given an auth code, which is redeemed once for tokens. Stores are reached by
-- interfaces (server/internal/store/interfaces.go); the in-memory ones implement them, and with more
-- than one tenant a wrapper that puts the tenant's name before each key stands between.
--
-- Which file models what.
--   Domain: the structs of server/internal/domain/models.go.
--   Store: the interfaces, as records of operations over a state that is passed on, and what they
--     promise (IsCrud): a partial map that each method reads and writes at one key.
--   Store/Memory: server/internal/store/memory, one module for each file; Ring is audit.go and
--     scimevents.go. Laws and Crud compare them with the promise, RingList and RingHistory compare
--     the ring buffers with the list of all that was appended, Redeem is about auth codes,
--     Tokens about refresh tokens, Expiry about expired flows.
--   Store/Tenanted: server/internal/store/tenanted/tenanted.go. The wrappers of users, groups, flows
--     and sessions have the same text, so they are one definition over a type with an ID.
--   Flow: the state machine; Flow/Transitions compares it with a relation.
--   Flow/Login: the functions of flow_login.go that change flows or users, with their error
--     answers; Effects and Safety are about sequences of requests, Scenarios about
--     where a picked user is led, Mfa about the second factor under the user's scenario, Progress about how
--     a login ends.
--   Store/Sqlite: the hash chain of server/internal/store/sqlite/audit.go, whose `Append` is two statements; Chain
--     is about calls one after the other, Forks about two at once, Tampering about changed rows.
--   Oidc: server/internal/oidc/router.go and pkce.go, with the handlers of the authorize, complete and
--     token endpoints in Endpoints. Pkce is about verifiers, Grants about the code grant, Codes about the way from a finished login
--     to tokens, Rotation about refresh tokens. Issue is tokens.go, IssueClaims what the tokens say.
--     Mint is MintForUser and the handler that calls it, MintLaws compares it with a login. Keys is keys.go, KeyLife
--     about tokens under rotation. Userinfo has the endpoints that read tokens, Answers and Introspection are about
--     what they answer.
--   Http: server/internal/httpapi/middleware.go: Limiter is the rate limiter, Idempotency the replay of
--     responses, ApiKeys the check of keys and the choice of a tenant and its stores. KeyHandlers is
--     api_key_handlers.go, over Store/Sqlite/ApiKeys (server/internal/store/sqlite/api_keys.go); Revoked is
--     about the life of a key.
--   Personality: server/internal/personality/personality.go.
--   Scim: server/internal/scim/scim.go, the SCIM 2.0 server: the resources in Scim, how they are shown in
--     Render, the PATCH operations in Patch and GroupPatch, the handlers in Users and Groups. Members is
--     about the members of groups, Safety about what a PATCH cannot change, Served and GroupsServed
--     about the handlers over any store that keeps its promise.
--   Opa: server/internal/opa, the policy engine: Opa has the limits and one evaluation, Log the decision log,
--     Input the input documents, Requests what the handlers read and answer, Evaluate, Batch and Tokens the handlers that evaluate, Diff and Validate
--     those of policy documents, Policies those of stored policies. Limits, Decisions, Deadlines, Redaction, Hidden,
--     Counts, Shaping and DiffLaws prove what they promise.
--   Store/Sqlite/Policies: server/internal/store/sqlite/policies.go and signer.go.
--   Config: server/internal/config/config.go: the settings and their defaults; Merge is what the file says, Env
--     what the environment and the command line say, Validate the checks and the whole load, Sane what holds
--     of loaded settings, DecisionLog what the file does to the decision log. A statement that changes the settings is a step, and mergeYAML, applyEnv and
--     applyRuntime are lists of steps.
--   Common: Go's maps, texts and slices; Domain/Json: json.Marshal.
--
-- Conventions. A Go map is an association list in the order in which `range` visits it; theorems are
-- about every list, so about every order. A mutex makes a method atomic, so concurrent calls are
-- sequences of calls. A `time.Time` is a number of nanoseconds and the clock is an argument; so are
-- random values, digests, the parsing of an address and the signing of tokens. Loops of the source run
-- over a list or a counter and need no fuel; the decimal form of a time is built of at most 19 digits,
-- which a 64-bit time has.
--
-- Not modelled: HTTP requests and pages, the other SQLite stores, signatures, SAML,
-- WS-Federation, the wiring of the parts and the clients. The Rego library, which compiles and evaluates policies, is
-- an argument of the policy engine.
pub mod Common
pub mod Config
pub mod Domain
pub mod Flow
pub mod Http
pub mod Oidc
pub mod Opa
pub mod Personality
pub mod Scim
pub mod Store
