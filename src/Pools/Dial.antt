-- ===== src/Pools/Dial.antt =====
-- Dial of peer/client.go, and what the server does with the block it sends.
use rabbit_mtcp_ws_socks.Prelude.{
  ℕ, ◌^◌, ◌<◌, ◌≡◌, refl, ◌∙◌, inl, true, Option, none, some, List, [], ◌∷◌, ◌++◌, arith, ◌==◌,
  if◌then◌else◌, eq→==, ok, length,
}
use rabbit_mtcp_ws_socks.Io.{IoError}
use rabbit_mtcp_ws_socks.NatMap.{lookup}
use rabbit_mtcp_ws_socks.Block.{
  Block, type_connect, pack, new_block_from_reader, new_connect_block, next_id,
}
use rabbit_mtcp_ws_socks.Block.Codec.{IsBlock, new_block_from_reader-pack}
use rabbit_mtcp_ws_socks.Connection.Inbound.{new_inbound_connection, send_connect}
use rabbit_mtcp_ws_socks.Connection.Processor.{pack_connect}
use rabbit_mtcp_ws_socks.Pools.ConnectionPool.{
  ConnectionPool, new_connection, add_connection, recv_relay,
}
use rabbit_mtcp_ws_socks.Pools.Entries.{Keyed, queue_of, blocks_for}
use rabbit_mtcp_ws_socks.Pools.Routing.{recv_relay_routes}

-- `Dial`: a new connection of the pool sends a block with the address.
pub dial : (id now : ℕ) → List ℕ → ConnectionPool → ConnectionPool
dial id now address p =
    let c = send_connect now (new_inbound_connection id now) address in
    let p' = new_connection id p in record p' { send_queue = p'.send_queue ++ c.send_queue }

-- The address that `RecvBlock` of an outbound connection connects to, if the block asks for it.
pub connects_to : Block → Option (List ℕ)
connects_to b = if b.block_type == type_connect then some b.block_data else none

new_connect_block-IsBlock :
    (id now : ℕ) (address : List ℕ)
    → id < 2 ^ 32
    → now < 2 ^ 64
    → length address < 2 ^ 32
    → IsBlock (new_connect_block now id 0 address)
unfolding new_connect_block
new_connect_block-IsBlock id now address h k l = record {
  type_in = omega arith;
  connection_in = h;
  time_in = k;
  id_in = omega arith;
  length_in = omega arith;
  data_length = omega arith;
  packed_fresh = inl refl;
}

dial_queue :
    (id now : ℕ) (address : List ℕ) (p : ConnectionPool)
    → (dial id now address p).send_queue ≡ p.send_queue ++ (new_connect_block now id 0 address ∷ [])
unfolding dial new_connection add_connection send_connect pack_connect new_inbound_connection
    next_id
dial_queue id now address p = refl

fresh_queue :
    (id : ℕ) (b : Block) (q : ConnectionPool)
    → Keyed q
    → q.accept_new_connection ≡ true
    → lookup id q.connection_mapping ≡ none
    → b.connection_id ≡ id
    → queue_of id (recv_relay (b ∷ []) q) ≡ b ∷ []
unfolding blocks_for
fresh_queue id b q k a h own =
    recv_relay_routes id (b ∷ []) q k ∙ rw (h, a, eq→== b.connection_id id own)

-- Dialing reaches the server: a client's Dial puts one block on the queue of its pool, behind what was
-- there; the server's reader gives this block back from its packed bytes; the receiving relay of a
-- pool that accepts new connections and has none of this id opens one, whose only block it is; and
-- that connection connects to the address that was dialed.
pub dial_reaches_server :
    (id now : ℕ) (address rest : List ℕ) (e : IoError) (p q : ConnectionPool)
    → id < 2 ^ 32
    → now < 2 ^ 64
    → length address < 2 ^ 32
    → Keyed q
    → q.accept_new_connection ≡ true
    → lookup id q.connection_mapping ≡ none
    → (b : Block) × ((dial id now address p).send_queue ≡ p.send_queue ++ (b ∷ []))
      × (new_block_from_reader (record { bytes = (pack b).0 ++ rest; ends = e })
          ≡ (ok b, record { bytes = rest; ends = e }))
      × (queue_of id (recv_relay (b ∷ []) q) ≡ b ∷ [])
      × (connects_to b ≡ some address)
unfolding connects_to new_connect_block
dial_reaches_server id now address rest e p q h k l keyed accepts fresh =
    let b = new_connect_block now id 0 address in
    (
      b,
      dial_queue id now address p,
      new_block_from_reader-pack b rest e (new_connect_block-IsBlock id now address h k l),
      fresh_queue id b q keyed accepts fresh refl,
      refl,
    )
