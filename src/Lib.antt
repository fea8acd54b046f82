-- ===== src/Lib.antt =====
-- better-token: login tokens, refresh tokens, one-time numbers, sessions and authorities for Go
-- services.
--
-- The program is a manager (core/manager.go, core/refresh.go, core/nonce.go, core/online.go) over
-- a store of token states and sessions that it knows by two ports (core/store.go). The store in
-- memory (storage/memory/store.go) fills both. The manager publishes events on a bus
-- (core/event.go), or on one with a queue and workers (core/async_event.go), and asks an authorizer
-- (core/authorizer.go, rbac/authorizer.go) what a login may do. The plugins (plugins) find the token of
-- a request by one lookup and have the manager check it. Package token makes the tokens that a client
-- of the manager may use, and signs and reads JSON web tokens.
--
-- What the files model:
--   Text, Time, Errors      strings as code points with strings.TrimSpace, instants in nanoseconds since
--                           Go's zero time with saturated differences, and the errors of core/errors.go
--   State                   core/token_state.go, core/state_lifetime.go, core/login_subject.go: TokenState,
--                           its marks (MarkRevoked is mark_revoked, and so on), IsExpired, Normalize
--   Session                 core/session.go: the values of a session
--   Store                   core/store.go: Store is StoreOps, AtomicStore is AtomicOps
--   Memory                  storage/memory/store.go: the maps, and the helpers under the lock; Tokens has
--                           the operations on tokens (SaveTokenState is save_state none, CompareAndSwap is
--                           compare_and_swap), Sessions those on sessions, Ops the two ports
--   Options, Event, Config, Context, Authorizer, Rbac
--                           pkg/option/option.go, core/event.go, core/config.go, core/context.go,
--                           core/authorizer.go and rbac/authorizer.go
--   Run                     the world that the methods of the manager run in: the store, the events
--                           published, and what the n-th question to the environment is answered
--   Manager                 core/manager.go and its helpers; New has NewManager and its options, and
--                           Nonce, Access, Refresh, Online, Sessions and Authorities have the methods
--                           (Login is login, Refresh is Refresh/Flow.refresh)
--   Event/Async             core/async_event.go: the operations of the bus cut where a goroutine may be
--                           interrupted (Publish is begin_publish and then enqueue or abandon, Close is
--                           begin_close, end_flush or give_up, and end_close); Steps says when each runs
--   Rand                    pkg/rand/rand.go, over what crypto/rand reads and draws
--   Token                   token/generator.go; Style has the styles (GenerateToken is generate), Jwt has
--                           token/jwt.go (ParseToken is parse_token), Format what fmt and hex print
--   Plugins                 plugins/authenticate.go; Lookup is plugins/lookup.go, Http the package
--                           plugins/http and the middleware of plugins/gin, Http/Cookie its cookies, Grpc
--                           the package plugins/grpc
-- The proofs stand in child modules of what they are about: Memory/Index, Invariant, Sweep and
-- Calls for the invariant of the store, Effects, Subject and Search for what its operations do,
-- Consumption, Spent and Once for one-time use, Gone for deletions; Manager/OnMemory for the
-- manager over the store in memory, Manager/Nonce/Replay, Manager/Refresh/Claim,
-- Manager/Access/Reading, Stored, LoggedOut and KickedOut, and Manager/Authorities/Laws for its
-- methods, with the rules of Run/Inversion and Manager/Holds. Memory/View is an abstract store of
-- two functions, of the tokens and of the subjects, and its children compare the store in memory
-- with it; on both an expired token counts as not stored, for a consumption too, where the comment
-- on ConsumeTokenState in core/store.go promises its snapshot. Event/Async/Sound, Safety, Start,
-- Drain, Order and Reports are about the bus, Rand/Lengths about random texts, Token/Style/Laws,
-- Token/Jwt/Laws and Own about tokens, Rbac/Passes and Listing about the list of authorities,
-- Plugins/Lookup/Sources about the order of the sources of a token, and each other Laws under
-- Plugins about its plugin. Tests has the concrete inputs.
--
-- An operation of a store is a function of a reading (two readings of the clock and the error of
-- the call's context), as the lock makes each operation one step; clients that run at once are an
-- interleaving of such steps; the reads that take the lock twice are one step too. A method of the
-- manager is a sequence of steps, and each asks the environment afresh, so the clock may go
-- backwards and a context may end at any call. What crypto/sha256 makes of a token is a parameter,
-- as is what the random source returns. Loops are structural recursion; only the decimal digits of a
-- number n are on fuel, of which n + 1 is enough.
--
-- On the bus a step is what one goroutine does between two points at which it may wait; a call of
-- Publish holds the lock for reading from its look at `closed` to the end of its select. A context only
-- tells whether a call may give up, so giving up is a step that may be taken at any time. Listeners are
-- taken to return: their own calls of the bus are steps of other callers. The JWT libraries, package
-- net/http's check of a cookie and the folding of cases are parameters.
--
-- A map is an association list in some order, as Go walks a map in any order. What a pointer
-- aliases is not modelled: the code clones what it keeps and what it hands out, and clones are
-- equal values.
--
-- Not modelled: the stores on Redis and on a database (storage/redis, storage/database), which are
-- calls of other libraries; writing the response of a request, and the wrapping of gRPC calls and
-- streams; the integers and the JSON of a session; the options of the stores; and examples. WithEventBus
-- and WithRuntime choose the bus and the clock of the world in which the methods run.
pub mod Base
pub mod Text
pub mod Time
pub mod Errors
pub mod Rand
pub mod Token
pub mod Plugins
pub mod State
pub mod Session
pub mod Store
pub mod Memory
pub mod Options
pub mod Event
pub mod Config
pub mod Context
pub mod Authorizer
pub mod Rbac
pub mod Run
pub mod Manager
pub mod Tests
