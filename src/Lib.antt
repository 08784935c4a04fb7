-- ===== src/Lib.antt =====
-- The server of RadioPx, a push-to-talk radio for drivers: users join channels near them, one user at
-- a time speaks on a channel, and the audio of the last seconds is kept so that a client that lost its
-- connection can hear it again.
--
-- The parts, and the files of this development that model them:
--   backend/internal/voice/service.go: who speaks on which channel. Voice has VoiceHub and the
--     methods (StartTransmission is start_transmission, and so on); Voice/Floor is about single
--     calls, Voice/Calls about histories of calls, and Voice/Leases about the table of leases that
--     the service stands for.
--   backend/internal/voice/buffer_service.go, buffer_model.go: the audio of each channel, bounded in
--     time and bytes. Buffer has the methods; Buffer/Trim, Retention, Sequence, Numbering, History,
--     Replay and Status are about them.
--   backend/internal/voice/buffer_manager.go: the replay after a reconnection, on top of the buffer.
--     Manager, and Manager/Handover.
--   backend/pkg/websocket/hub.go: clients, rooms and the delivery of messages. Hub has one function
--     for each case of the select in Run and for each method; `heap` is what the clients' pointers
--     refer to, and a panic is a result. Hub/Broadcast, Rooms, Crash, Coherence, Departure.
--   backend/pkg/websocket/client.go, backend/internal/voice/buffer_adapter.go: what the messages of a
--     connected client do. Client has World, the state of the hub, the voice service and the buffer,
--     and a function for handleMessage and what it calls; Client/Speech is about audio, Client/Replay
--     about sendReplay, Client/Release about a client that goes.
--   backend/internal/middleware/ratelimit.go: RateLimit, and RateLimit/Window.
--   backend/internal/location/distance.go: Location, over a record of floating-point operations.
--   backend/internal/channel: Channel (model.go), Channel/Store (memory_store.go), Channel/Repository
--     (repository.go, over the tables of PostgreSQL), Channel/Service (service.go), Channel/Handler
--     (handler.go), with Channel/Store/Members, Channel/Repository/Rows, Agreement, Refinement, Reads and
--     History, Channel/Service/Sort, Nearby, Validity and Limit, and Channel/Handler/Paths and
--     Outcomes.
--   backend/internal/user: User (model.go), User/Store (memory_store.go), User/Repository
--     (repository.go), User/Service (service.go), User/Handler (handler.go), with User/Store/Validity,
--     User/Repository/Validity and User/Service/Validity, Spares, History and Access.
--   backend/internal/middleware/auth.go and the routes of backend/cmd/server/main.go: Session has the
--     middleware and the injectors, and Session/Identity is about the user that a request is from.
--     Server has registration, login, refresh and the adapter of accounts, Server/Routes the protected
--     routes, Server/Entry is about opening a session, and Server/Anonymous about requests that name
--     no user.
--   backend/internal/admin/handler.go: Admin; Admin/Safety is about the handler and Admin/Gate about
--     the chain in front of it.
--   backend/internal/voice/handler.go: Voice/Handler, and Voice/Handler/Handshake.
--   Http and Http/Text have what the handlers use of packages net/http and strings.
--   backend/internal/auth/service.go: Auth, and Auth/Tokens.
-- The services of channels and users call their stores; the manager calls the buffer; the
-- authentication service calls the service of users through an interface, which is the record
-- UserService here and which the server's adapter fills. A client calls the hub, the voice service and
-- the buffer; a handler of requests is a function from the request and the state to the state and the
-- response, and a middleware wraps one. Prelude has what the files share: Go's maps as association lists in the order in
-- which a loop visits them, its sets, int64, and lists over the native numbers. Tests applies the
-- theorems to concrete inputs.
--
-- Conventions. A mutex makes a method one step. Clock readings, in nanoseconds, generated identifiers
-- and salts are arguments. `none` stands for nil, and a second component of type Option for an error.
-- Sequence numbers are Go's int64 and wrap around (Prelude/Int); lengths and durations are numbers
-- without a bound, as a sum of the lengths of slices in memory does not reach 2^63. No definition needs
-- fuel: the loops run over lists, the sort for as many rounds as there are items.
--
-- Parameters: the floating-point operations (Location.Floats, with the order laws of IEEE 754), the
-- functions of strings, net/mail and bcrypt (User.Service.Accounts), golang-jwt (Auth.Jwt), the coding
-- of JSON and base64 (Client.Encoding), strconv (Channel.Handler.Numbers), and net.SplitHostPort and the
-- answer of gorilla/websocket as arguments; what columns of PostgreSQL do with times and names
-- (Channel.Repository.Columns). Package strings on ASCII texts is written out in Http/Text,
-- where a handler cuts a path or a header. A body reaches a handler decoded, `none` where it does not
-- decode.
--
-- Not modelled: the input and output of connections, and other goroutines between the calls of one
-- message's handling; statements of PostgreSQL that fail for another reason than a constraint or the
-- length of a channel's name, what the columns of users do with times and lengths, and the
-- memberships of a deleted user; the database connection and migrations, the middleware for CORS and
-- logging, backend/pkg/security and backend/pkg/utils, which the server does not call; the reading of
-- the environment and the start of the services in backend/cmd/server; the pages of the admin and the
-- mobile application, which are static files and another program.
pub mod Prelude
pub mod Http
pub mod Voice
pub mod Buffer
pub mod Manager
pub mod Hub
pub mod Client
pub mod RateLimit
pub mod Location
pub mod Channel
pub mod User
pub mod Auth
pub mod Session
pub mod Admin
pub mod Server
pub mod Tests
