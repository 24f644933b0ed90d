-- ===== src/Lib.antt =====
-- A verification library for the AeroNyx privacy network's server.
--
-- The server authenticates a client by a signed challenge, gives it an address of its private
-- subnet and a session key, and then carries packets between the client's connection and a TUN
-- device. The parts, and the modules that stand for them:
--
-- - Network.Ipv4, Network.Subnet and Network.IpPool: src/network/ip_pool.rs, the pool of addresses
--   and their leases.
-- - Auth.Acl, Auth.Challenge and Auth.Manager: src/auth/acl.rs, src/auth/challenge.rs and
--   src/auth/manager.rs. The manager asks the challenges first and then the access list, and counts
--   failed attempts.
-- - Crypto.Padding, Crypto.Encryption and Crypto.Flexible: src/crypto/encryption.rs and
--   src/crypto/flexible_encryption.rs. Crypto.SessionKeys: src/crypto/session.rs.
--   Crypto.SecretKeyCache: the cache of src/crypto/keys.rs, and the calls of its key manager.
-- - Protocol.Types, Protocol.Session, Protocol.Validation and Protocol.Serialization:
--   src/protocol/types.rs, src/protocol/validation.rs and src/protocol/serialization.rs.
-- - Server.Sessions: src/server/session.rs. Server.Router: src/server/routing.rs. Server.Client: the
--   message loop of src/server/client.rs, which uses the protocol, the session keys and the replay
--   test. Server.Tun: one turn of src/server/packet.rs, which finds the session of a packet's
--   destination, takes its key, and has the router encrypt the packet.
-- - Server.Lifecycle: the state of the server in src/server/core.rs, as steps of the calls and tasks
--   that share it.
-- - Remote.Path: the part of `std::path` that the two modules of remote commands use. Remote.Command:
--   src/remote_command_handler.rs, with a child for each kind of command (Execute, Files, Listing) and
--   the choice among them (Dispatch). Remote.Management: src/remote_management.rs, its limiter and
--   history, what its commands do (Actions), and the choice among them (Dispatch).
-- - Terminals.Manager: src/terminal_manager.rs, a table of remote terminals with a limit for each
--   user. Terminals.Pty: src/terminal/mod.rs, the table that the registered node uses, the handler
--   of terminal messages, what it does to shells, and the task that reads a terminal (Reader).
-- - Registration.Messages: src/registration/websocket/handlers.rs, what a node does with a message of
--   the server that it is registered at; it calls Remote.Command.Dispatch and Terminals.Pty.
--   Registration.Connection: src/registration/websocket/connection.rs, the loop around it, with its
--   heartbeats.
-- - Config.Settings: src/config/settings.rs, the settings, their validation, and where they come from
--   (Args).
-- - Utils.Validator, Utils.Patterns and Utils.RateLimiter: src/utils/security.rs.
--
-- A method that changes `self` is a function from the state to a result and the next state. What
-- several locks guard is one record, and a method is one step on it, also where it takes the locks
-- one after another (Auth.Manager, Utils.RateLimiter, Crypto.SecretKeyCache); where the steps
-- between them matter, they are apart (Server.Lifecycle, Terminals.Manager). The clock, random
-- draws and outcomes of the connection are arguments. A `HashMap` is an association list
-- (Base.HashMap), a `String` the list of its bytes (Base.Eq), an error the constructor of a result
-- (Base.Outcome). `u64` sums wrap, as in a release build. The loops of the code run over lists that
-- are given, so that no fuel is needed; a listing of directories recurs on the levels that the
-- depth limit of the source leaves. Remote commands take the answers of the operating system as a
-- record and return the changes that they ask it for as a list of effects.
--
-- The crates are parameters: `solana_sdk` (Auth.Solana), the ciphers (Crypto.Encryption), `serde_json`
-- (Protocol.Serialization), `ipnetwork` (Network.Subnet), `base64` (Remote.Command.Files).
-- Their laws are fields of the records, and Fixtures or the tests have an instance of each.
--
-- Not modelled: files, sockets, the TUN device, the command line, logging; the chat messages behind a
-- JSON payload and the handshake of src/server/client.rs; the commands of remote management that only
-- read the state of the system; the texts of a registration server that are no `ServerMessage`; the
-- requests of a registration, hardware fingerprints and the zero-knowledge proofs.
pub mod Base
pub mod Utils
pub mod Network
pub mod Auth
pub mod Crypto
pub mod Protocol
pub mod Server
pub mod Remote
pub mod Terminals
pub mod Registration
pub mod Config
pub mod Fixtures
