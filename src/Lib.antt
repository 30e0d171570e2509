-- ===== src/Lib.antt =====
-- A model of miuturn, a STUN and TURN server, and the theorems about it. Paths are those of the
-- repository.
--
-- The program's parts. A datagram or a message of a stream from a client is a STUN message
-- (`src/message.rs`), or a ChannelData message on a bound channel. The server (`src/server.rs`)
-- checks the credentials of a request against the users and the access rules (`src/auth.rs`) and
-- its own nonces, and hands it to the handler of its method. An Allocate request makes an entry of
-- the allocation table (`src/allocation.rs`): a port is taken from the bitmap of relay ports, a
-- socket is bound to it, and the bandwidth manager (`src/bandwidth.rs`) gets a tracker. What peers
-- send to that port goes to the client, on a channel where the channel table has one for the peer
-- and as a Data Indication otherwise; what the client sends goes out where the allocation permits
-- the peer. `src/main.rs` fills the users and rules from the configuration (`src/config.rs`), and
-- the HTTP server (`src/health.rs`) changes them and writes them back. A control plane can send the
-- certificates for TLS (`src/sds.rs`).
--
-- The files. Each has the names of the source's functions and types, in this spelling.
-- - Common and its children: lists, options, maps as association lists, and the digits of a number,
--   which the bit operations act on.
-- - Net: the socket addresses of the standard library. Errors: `src/errors.rs`.
-- - Message: `src/message.rs`. Types, AttrType, Header, Attribute, Codec and Address are the source;
--   RoundTrip, Addresses and Responses are about it.
-- - Ports: `PortAllocator` of `src/allocation.rs`. Bitmap is the source. Word is about the choice in
--   one word, Allocator and Effects about the digits of the bitmap, Outcome about `allocate` and
--   `release`, Count and Calls about sequences of calls.
-- - Channels: `ChannelTable` of `src/allocation.rs`. Table is the source; Laws and Histories are
--   about it.
-- - Bandwidth: `src/bandwidth.rs`. Limiter, Trackers and Threads are the source; Rate, Race and
--   Manager are about it.
-- - Allocations: `Allocation`, `AllocationTable` and the receiving branch of the task of an
--   allocation in `src/allocation.rs`. Table, Create, Permissions and Relay are the source (the
--   theorem on permissions stands with them); Binding, Ownership, Preserves, Histories and Relaying
--   are about it.
-- - Server: `src/server.rs`. Frame is the framing of messages on a stream, and Framing and Loop are
--   about it. State, Start, Integrity, Verify, Handlers, Requests and Dispatch are the server's
--   state, its construction, the checks of a request, the handlers of the messages, and what is
--   done with a datagram or a message of a stream. Branches, Clients, Tables, Permits and Preserves
--   show what each handler keeps, Histories is about any sequence of events, Login about the
--   checks, Panics and Lifetimes about where the code does not do what it means to.
-- - Auth: Manager and Acl are `src/auth.rs`, and Priority is about its rules; ShortTerm is
--   `src/short_term.rs`, and Credentials is about it; Oauth is `src/oauth.rs`, and Tokens is about
--   it.
-- - Config: Types is `src/config.rs`, Load what `src/main.rs` makes of it, Save how
--   `src/health.rs` writes users and rules back. Restore and Passwords are about them.
-- - Metrics: `src/metrics.rs`; Counts is about it.
-- - Health: `src/health.rs`. State, Access, Edits, Urls and Routes are the source. Outcomes says what
--   any request does, Guarded is about who may change what, and Saved about the file.
-- - Sds: `src/sds.rs`. Types, Subscription, Extract and Watch are the source; Selected is about the
--   extraction and Acknowledged about a watch.
-- - Tls: `src/tls.rs`. Pem, Cache and Load are the source; Holds and Cached are about the
--   cache.
-- A file Tests holds runs on fixed inputs.
--
-- How the code is read. Bytes, texts and transaction ids are lists of numbers. A machine integer is
-- a number whose wrap-around is written out; a subtraction that the source saturates is that of the
-- numbers. An instant is a number of nanoseconds that each call is given, and a random draw, the
-- outcome of binding a socket or of sending, and the text that the standard library prints for an
-- address or an error are arguments too. A `HashMap` is an association list in its order of
-- iteration, whatever that is. A lock that is held for a whole operation makes it one step.
--
-- Requests. A handler is given the server, a `Moment` with the time, the draws and the outcomes of
-- the call, and `Externals`, the functions of the libraries (the hash functions, the printing of an
-- address). It gives the answer, the bytes that are sent on, the new server, or that it panics. An
-- `Event` is a datagram, a message of a stream, a round of a clean-up task or a change of the users,
-- and a history is a list of events. Two handlers that run at once are read one after the other.
--
-- Threads. `PortAllocator::allocate` and `BandwidthLimiter::try_consume` retry an exchange. The
-- loops of the first (`choose`, `fallback`) and `consume_loop` take the values that failing
-- exchanges observe; a whole call is read without disturbance. Bandwidth/Threads reads `try_consume`
-- one access to the shared values at a time, for two calls whose accesses come in any order that is
-- given. Bandwidth/Rate is about calls one after another, and Bandwidth/Race about two that meet.
--
-- Bounds and fuel. The scan over the attributes has one step more than there are bytes, which is
-- enough since each attribute takes at least four. The loop over the frames of a stream has a step
-- for each byte, where a frame takes at least four. The scan over the words of the bitmap has a
-- round for each word, and the search for a port that can be bound has the source's 100 attempts.
-- `PortAllocator::new` wraps its number of ports to 0 for the range of all 65536; ranges are
-- narrower here.
--
-- Not modelled: the accept loops, the worker queues, the dump of the statistics and the constructors
-- of the server that `src/main.rs` does not use; the registry of transports and the messages of a
-- task's channel, which pass data to sockets; the reading and writing of TOML, JSON, forms, protocol
-- buffers and PEM; the order of a certificate from Let's Encrypt, the objects of the TLS libraries
-- and the tasks that update them (`src/tls.rs`); the text of the pages of the HTTP server; logging
-- and start-up.
pub mod Common
pub mod Net
pub mod Message
pub mod Bandwidth
pub mod Errors
pub mod Channels
pub mod Allocations
pub mod Auth
pub mod Config
pub mod Metrics
pub mod Health
pub mod Sds
pub mod Tls
pub mod Ports
pub mod Server
