-- ===== src/Lib.antt =====
-- Codewire: persistent terminal sessions on a node, which clients attach to, watch and message, and
-- a relay that connects nodes and clients of one network with short-lived signed credentials.
--
-- Terminal (internal/terminal) works on the bytes between a client and the program of a session.
-- Terminal.Kitty and Terminal.Detach are detach.go: `DetachDetector.Feed` is one function for each
-- detector state and `FeedBuf` a loop over the buffer. Terminal.Ansi is ansi.go: a position in the
-- text is the suffix that starts there, and a loop skips what a sequence takes. Terminal.OutputState
-- is output_state.go.
--
-- Protocol (internal/protocol/protocol.go) is the framing of the socket between client and node:
-- a reader is the bytes that will arrive and how they end, and `io.ReadFull` is a function on it.
--
-- NetworkAuth (internal/networkauth) is types.go; NetworkAuth.Token is runtime.go (the `Sign`
-- functions in NetworkAuth.Token.Issue), with base64, Ed25519
-- and JSON as parameters (records `Crypto` and `Base.Json`) and random identifiers as arguments, and
-- NetworkAuth.Replay is replay.go and NetworkAuth.BundleCache is cache.go. Times are nanoseconds and are passed in, as in the code.
--
-- Session (internal/session) is the node's side of a session. Session.KvStore is kvstore.go: a store is
-- the map of its namespaces with the clock, the pending timers and the callbacks that wait for the
-- mutex. Session.Manager is the state of `SessionManager` in session.go, Session.Messages its
-- messages and their logs, Session.Messages.Requests its requests and replies, and Session.Names its
-- names, `Kill`, the end of a process and the exit hook. Session.Events is events.go. `sendReplyWithMetadata` has two lock sections, `check_reply` and `claim`, between which
-- other operations run. Random identifiers are arguments.
--
-- Relay is the relay's side of networks. Its storage is an interface (Relay: the records and the methods
-- of internal/store/store.go that the handlers call), which Relay.Sqlite implements: the tables and methods of
-- internal/store/sqlite.go, as lists of rows (Relay.Rows). Relay.Membership is
-- internal/relay/membership.go, Relay.Groups and Relay.Groups.Handlers are internal/relay/groups.go: a
-- handler is a function of the parts of its request, the time and the storage to an answer or an HTTP error,
-- and the storage. Relay.Grants and Relay.Grants.Handlers are the access grants of
-- internal/relay/access.go and the issuer state of internal/relay/network_auth.go, Relay.Credentials
-- has the handlers of network_auth.go, Relay.AccessEvents is
-- access_events.go and Relay.Hub is hub.go there.
--
-- Client.AccessCache (internal/client/access_cache.go) is the file of the access grants that a client
-- accepted, with the file system, JSON and the relay's answers as parameters;
-- Client.AccessCache.Resolve has the two operations that ask the relay. Each is a function from the state
-- of the disk to a result or an error, and the state of the disk (Base.Action).
--
-- GuestAgent is the channel between a host and the agent in its virtual machine: the messages of
-- internal/guestagent/protocol.go, with JSON as a parameter (GuestAgent), client.go
-- (GuestAgent.Client) and cmd/cw-guest-agent/main.go (GuestAgent.Agent), whose process is a
-- parameter: what it writes, in the order in which it is read, and how it ends. The loops of Exec and
-- of the agent's connection are on fuel, one for each message; a message takes four bytes at least, so
-- that as much fuel as there are bytes, and one, is enough.
--
-- Base holds what these share: Boolean tests, lists, maps as association lists, texts as lists of
-- byte values with the functions of package strings, and the result of a fallible function.
--
-- All other loops are structural recursions on the input, without fuel and bounds on sizes; byte
-- values are numbers, and the theorems that need them below 256 say so. Locks are not modelled: an
-- operation is one step, and an interleaving is a sequence of steps.
-- Terminals, processes, sockets, the other HTTP handlers and tables of the relay, and the command line are
-- not modelled.
pub mod Base
pub mod Client
pub mod GuestAgent
pub mod NetworkAuth
pub mod Protocol
pub mod Relay
pub mod Session
pub mod Terminal
