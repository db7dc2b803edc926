-- ===== src/Lib.antt =====
-- rabbit-mtcp-ws-socks5 carries many proxied TCP connections over several websocket tunnels at
-- once. This library models the program's logic and proves what makes it correct.
--
-- The parts and how they interact. On the client, a SOCKS5 server (client/client.go) takes a
-- target and asks its peer for a connection (connection/inbound_connection.go). What is written to
-- this connection is cut into numbered blocks (block/block.go, connection/block_processor.go),
-- which the connection pool (connection_pool/pool.go) hands to the tunnel pool
-- (tunnel_pool/pool.go). Any tunnel of the peer (tunnel_pool/tunnel.go) sends the block, over an
-- encrypted stream (tunnel/tunnel.go). On the server the tunnel's receiving relay puts it on the
-- queue of its peer (peer/peer_group.go), whose connection pool finds or opens the connection of
-- the block's id; the block processor there puts the blocks, which come over several tunnels and
-- in any order, back into order, and the connection (connection/outbound_connection.go) writes
-- their bytes to the target. The other direction is the same with the two kinds of connection
-- exchanged. The managers (tunnel_pool/manager.go) dial tunnels until the client's pool is full,
-- and remove a server's peer that stays without tunnels.
--
-- The files:
--   Prelude and its children: shared names, lists and numbers, little-endian words, a result type
--     and the chaining of fallible code over a state, byte strings. Io: io.ReadFull over a stream
--     that ends in an error. NatMap: Go's maps from uint32 keys, as association lists.
--   Block: block/block.go, each constructor and the wire format under its Go name in snake case
--     (NewDataBlocks is new_data_blocks). Codec: round trip. Reader: every stream, short ones
--     included. Split: cutting a payload.
--   Connection.RingBuffer: connection/ring_buffer.go. Connection.Processor: block_processor.go.
--     Arrivals, Receiving, Relay, Delivery: what OrderedRelay sends. Connection.Inbound:
--     inbound_connection.go with baseConnection's methods of connection.go. Reading, ReadLoops,
--     ReadWait, Read: Read. Write: Write and Close. Connection.Outbound: outbound_connection.go.
--     OutboundRelays, OutboundEnd, LastReads: its relays. AnyOrder: from a client's Write to the
--     server's target.
--   Tunnel.Nonce and Tunnel.Crypt: the nonce, the writer and the reader of tunnel/tunnel.go;
--     Records and RoundTrip: their theorems. Tunnel.Conn: its streamConn. Tunnel.Cipher:
--     tunnel/cipher.go and tunnel/aead.go. Tunnel.Websocket: a tunnel's connection, with a cipher
--     or without one.
--   TunnelPool.Countdown and TunnelPool.Dial: the two managers of tunnel_pool/manager.go;
--     Endpoints, DialTurns and Filling: the dialing loop. TunnelPool.Pool: tunnel_pool/pool.go;
--     Members and Removal: its invariants. TunnelPool.Exchange and TunnelPool.Relay:
--     tunnel_pool/tunnel.go; Receive, Deliver and PingPong: its receiving relay and its pings.
--     Sending: its sending loop, as steps; Priority: the order it sends in. EndToEnd: from the
--     sending loop of one end to the receiving relay of the other.
--   Pools.ConnectionPool: connection_pool/pool.go, with Entries, Routing and Counting. Pools.Dial:
--     Dial of peer/client.go. Pools.PeerGroup: peer/peer_group.go and peer/server.go, with Owners.
--   Client.Socks: the SOCKS5 server of client/client.go, with Accept and Login. Client.Serving:
--     its listeners, and Guard: who gets through and where to. Client.Relay: relay and biRelay,
--     with Copying and Failing.
--   Stats: the counters of stats/stats.go; History: what their window holds. Stats.Report:
--     GetStats. Stats.Metrics: the gauges of cmd/rabbit.go that its values set.
--   Websocket: the WebsocketConnAdapter of tunnel/tunnel.go, of which tunnel_pool/tunnel.go and
--     server/server.go have copies. Reading: one Read of it. AsStream: io.ReadFull over it, which
--     is why a tunnel's connection is elsewhere a stream of bytes.
--   Server: server/server.go with AddTunnelFromConn of peer/peer_group.go. Address: the addresses
--     it listens on. Admission: the requests that become tunnels.
--   Status: the status server of cmd/rabbit.go with its list of networks. Access: the texts it is
--     configured by. Guard: who gets a document. Documents: what the documents list, with Listed.
--     Helpers: the functions on strings of cmd/rabbit.go, with Search and Splitting.
--   Config: the configuration of cmd/rabbit.go, with Checks. Main: main of cmd/rabbit.go.
--     Starting: how the tunnels that it starts are encrypted. Logger: logger/logger.go, with
--     Writers.
--   Every Tests module holds runs on concrete values and the theorems at concrete inputs.
--
-- How the code is read. A struct is a record and a method a function from the state to the result
-- and the new state. A goroutine's loop is a function over the list of what it receives, reads or
-- is told, one turn for each element; a select is the choice of the element. Channels are lists:
-- their capacity is not modelled, a send on a full channel waits and then goes on. Numbers are
-- natural, and a w-bit counter is reduced modulo 2^w where the code lets it wrap. The clock is an
-- argument. Strings are lists of bytes, in the configuration texts. A read deadline is an error of
-- the stream, a failing write an error of the connection. crypto's AEAD, MD5 and HKDF, the random
-- salt, yaml.Unmarshal, and the change of case of strings are parameters; an AEAD has the laws
-- that Open undoes Seal and that Seal adds Overhead bytes, MD5 gives 16 bytes. The websocket
-- library's reader, package net's parsers, url.Parse and float64 are parameters too; the library's
-- reader gives the bytes of the messages in order, url.Parse keeps the schema. Of package strings,
-- Split, Index, Contains and TrimSpace are defined, for ASCII texts.
--
-- Bounds and fuel. Cutting a payload runs on its length as fuel, and the theorems show that it
-- gives a result. WriteTo runs on fuel, and one record more than there are bytes is enough. kdf's
-- loop runs on the key's length, as each round adds bytes. Read's loops may go on without end
-- after Close, and their result type says so. io.ReadFull over a websocket runs on fuel, and a
-- bound on its turns is proved. split runs on the length of its text, and is shown to end. All
-- other loops recur on a list or on the rounds that are left.
--
-- What is not modelled: sockets, TLS, HTTP and websocket framing; the contents of the status
-- server's documents but for the counters and the lists of tunnels, pools and connections, their
-- JSON, and the registration of the gauges; the loggers on Windows, the calls of loggers in the
-- other parts, the reading of files and flags, the shutdown at a signal, and the getters of
-- connections. Neither are the data races of the program: each operation is one step.
pub mod Prelude
pub mod Io
pub mod Block
pub mod NatMap
pub mod Connection
pub mod Tunnel
pub mod TunnelPool
pub mod Pools
pub mod Stats
pub mod Logger
pub mod Main
pub mod Server
pub mod Status
pub mod Helpers
pub mod Websocket
pub mod Client
pub mod Config
