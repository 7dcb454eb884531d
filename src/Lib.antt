-- ===== src/Lib.antt =====
-- A model of the DHCP daemon ndhcpd, with the theorems that make it correct.
--
-- The daemon has four tasks around one database. The DHCP server
-- (crates/ndhcpd/src/dhcp/server.rs) reads datagrams, asks the database for static addresses,
-- leases, subnets and ranges, and answers with packets of the crate crates/dhcp-proto, in a UDP
-- datagram or in a raw Ethernet frame. A background task removes expired leases. The Router
-- Advertisement server (crates/ndhcpd/src/ra) sends the IPv6 prefixes of the database. The REST
-- API (crates/ndhcpd/src/handlers) lets an administrator change the tables, behind the
-- middleware of crates/ndhcpd/src/auth. All of them see the database through the trait
-- `Database` (crates/ndhcpd/src/db/mod.rs).
--
-- Each file names the source that it models. The tree follows the source:
--
-- * Proto models crates/dhcp-proto/src: `Proto.Packet` packet.rs, `Proto.Options` option.rs,
--   `Proto.Mac` mac.rs, `Proto.MessageType` message_type.rs; `Proto.Packet.Checked` is
--   `DhcpPacket::parse` again, with its index and a panic for each access out of range,
--   `Proto.Utf8` is the standard library's `from_utf8_lossy`.
-- * Models and Config are crates/ndhcpd/src/models.rs and config.rs; `Models.DnsServers` and
--   `Models.Ipv6Servers` are the column texts of the DNS servers, in models.rs, and
--   `Models.Fits` the bounds of its types.
-- * In Db, `Db.Interface` is the trait of db/mod.rs as a record of operations on a state,
--   `Db.Calls` its updates as data, `Db.Memory` the implementation of db/memory.rs and
--   `Db.Sqlite` that of db/sqlite.rs, one function for each method. `Db.Sql` has the statements
--   of SQL that db/sqlite.rs runs, with the engine as a parameter (`Db.Sql.Engine`),
--   `Db.LeaseLaws` what the DHCP server relies on, and `Db.Memory.Leases` and
--   `Db.Sqlite.LeaseTable` the proofs that the two databases keep it.
-- * Net is crates/ndhcpd/src/utils/network.rs: subnet masks and overlap, the IP checksum, raw
--   frames.
-- * Dhcp is dhcp/server.rs: `Dhcp.Discover` handle_discover, `Dhcp.Request` handle_request and
--   handle_release, `Dhcp.Reply` the packets sent and their destination, `Dhcp.Server`
--   handle_packet, one round of listen_loop and of the cleanup task, `Dhcp.History` sequences of
--   such rounds.
-- * Ra is crates/ndhcpd/src/ra: `Ra.Packet` packet.rs, `Ra.Filter` and `Ra.Server` server.rs.
-- * Handlers is crates/ndhcpd/src/handlers: `Handlers.Subnets` subnets.rs, `Handlers.Tokens`
--   tokens.rs, `Handlers.Others` the other handlers, `Handlers.Routes` mod.rs, and
--   `Handlers.Routes.Changes` the calls that a request can make of any database. Auth is
--   auth/mod.rs and auth/token.rs.
-- * System puts the tasks of crates/ndhcpd/src/main.rs together: `System.Run` is a run of the
--   daemon over a database, a round of a task or a request at a time, and `System.Startup` what
--   main decides before it starts them.
-- * Cli is crates/ndhcp-cli/src: `Cli.Client` client.rs, `Cli.Requests` the commands of main.rs
--   and commands, `Cli.Routed` their place in the route table of handlers/mod.rs, `Cli.run` a
--   command against the Unix socket of the daemon.
-- * Common, Bytes and Addr have what the parts share: searches, list lemmas, big-endian numbers,
--   texts as bytes, addresses as numbers and their text form. The modules named Tests run the
--   definitions on small inputs.
--
-- State is passed explicitly: a handler takes a state to a new state and its answer. The
-- database is a parameter of the servers, and the theorems about leases hold for each database
-- that meets `LeaseLaws`. The readings of the clock are arguments, one for each time the source
-- reads it, as are the addresses of the interface. An error is a value, and what the source only
-- logs is left out. A round of a task is one step: that calls of two tasks interleave within a
-- round is not modelled.
--
-- An unsigned number of w bits is a number with its wrap-around written out, with that of a
-- release build where a debug build would panic. An address is its value as a number, a text the
-- list of its UTF-8 bytes; row ids and times, which are never negative, are numbers.
--
-- Loops are structural recursion, with three exceptions. `parse_options` has the length of its
-- input as fuel, and each round takes a byte; `fold_carries` has three rounds, where two are
-- enough for every sum of 32 bits. `number_text` prints at most 19 digits, as many as an `i64`
-- has.
--
-- Parameters stand for code of other packages: Argon2's two calls in `Auth`, the order in which
-- a HashSet is walked in `Ra.Packet`, the text form of an IPv6 address in `Models.Ipv6Servers`,
-- the matching of a request to a route in `Cli.run`, and the engine of SQL in `Db.Sql.Engine`.
-- The laws of the engine say what SQLite documents of single statements: which rows a query
-- finds, what a statement does to its table, and that it leaves the other tables alone, but for
-- the rows that ON DELETE CASCADE takes. A new row has NULL for the last use of a token that the
-- INSERT does not name, as the migrations of the table say. A statement may fail at any time.
-- `Db.Sql.Store` is a small engine of lists that meets the laws; nothing but the tests uses it.
--
-- Slices of a packet are `take` and `drop`, which have no panic; `Proto.Packet.Checked` has one
-- for each access of `parse`.
--
-- The queries of db/sqlite.rs unwrap what they read from a row. Where that panics in the source,
-- the model answers the error `other`.
--
-- Not modelled are the opening of the SQLite file and its migrations, sockets and system calls,
-- the reading of YAML and JSON, the random draw of tokens, logging, the binding of the listeners
-- (main.rs), and of the command line client the parsing of its options and its printing.
pub mod Common
pub mod Bytes
pub mod Addr
pub mod Proto
pub mod Net
pub mod Models
pub mod Config
pub mod Db
pub mod Dhcp
pub mod Handlers
pub mod Auth
pub mod Ra
pub mod System
pub mod Cli
