-- ===== src/Connection/Processor.antt =====
-- connection/block_processor.go: blocks are put in order, and blocks to send are numbered.
use rabbit_mtcp_ws_socks.Prelude.{
  ℕ, zero, suc, ◌+◌, ◌%◌, ◌^◌, Bool, true, false, not, Option, none, some, List, [], ◌∷◌, ◌++◌, ltb,
  ◌==◌, if◌then◌else◌, length,
}
use rabbit_mtcp_ws_socks.Block.{
  Block, new_connect_block, next_id, new_data_blocks, new_disconnect_block, new_ping_block,
  new_pong_block,
}
use rabbit_mtcp_ws_socks.NatMap.{lookup, insert, delete}

-- The relay's context and logger are left out; what the context does comes in as an `Event`.
pub record Processor : Type 0 where
  pub cache : List (ℕ × Block)
  pub send_block_id : ℕ
  pub recv_block_id : ℕ
  pub last_recv_block_id : ℕ

abbrev pub new_processor : Processor
new_processor = record { cache = []; send_block_id = 0; recv_block_id = 0; last_recv_block_id = 0 }

-- `x.recvBlockID++` on a uint32.
abbrev pub succ32 : ℕ → ℕ
succ32 n = (n + 1) % 2 ^ 32

-- The loop that sends cached blocks while the next one is there: the blocks sent, the cache and the
-- next id. `none` is for fuel that ran out.
unfoldable pub send_cached : ℕ → List (ℕ × Block) → ℕ → Option (List Block × List (ℕ × Block) × ℕ)
send_cached zero cache recv = elim (lookup recv cache) [
  | none ↦ some ([], cache, recv)
  | some blk ↦ none
]
send_cached (suc fuel) cache recv = elim (lookup recv cache) [
  | none ↦ some ([], cache, recv)
  | some blk ↦ elim (send_cached fuel (delete recv cache) (succ32 recv)) [
    | none ↦ none
    | some (out, cache', recv') ↦ some (blk ∷ out, cache', recv')
  ]
]

unfoldable pub update_last : Processor → Block → Processor
update_last x blk =
    if ltb x.last_recv_block_id (succ32 blk.block_id)
    then record x { last_recv_block_id = succ32 blk.block_id }
    else x

-- The block that is next is sent on, with those behind it that the cache holds. Each round of the
-- inner loop takes an entry out, so the number of entries is fuel enough.
unfoldable pub send_direct : Processor → Block → Option (List Block × Processor)
send_direct x blk = elim (send_cached (length x.cache) x.cache (succ32 x.recv_block_id)) [
  | none ↦ none
  | some (out, cache, recv) ↦ some (blk ∷ out, record x { cache = cache; recv_block_id = recv })
]

-- The first case of the select: a block came in.
unfoldable pub receive : Processor → Block → Option (List Block × Processor)
receive x0 blk =
    let x = update_last x0 blk in
    if x.recv_block_id == blk.block_id
    then send_direct x blk
    else (if ltb blk.block_id x.recv_block_id
        then some ([], x)
        else some ([], record x { cache = insert blk.block_id blk x.cache }))

-- The second case: no block came in time. True is a call of `removeFromPool`.
unfoldable pub wait_exceeded : Processor → Bool
wait_exceeded x = not (x.recv_block_id == x.last_recv_block_id)

pub data Event : Type 0 where
  arrived : Block → Event
  timed_out : Event
  cancelled : Event

-- `OrderedRelay`, with what it has sent and how often it has called `removeFromPool`.
pub record Relay : Type 0 where
  pub processor : Processor
  pub ordered : List Block
  pub removals : ℕ
  pub stopped : Bool

abbrev pub new_relay : Relay
new_relay = record { processor = new_processor; ordered = []; removals = 0; stopped = false }

unfoldable pub relay_receive : Relay → Option (List Block × Processor) → Option Relay
relay_receive r none = none
relay_receive r (some (out, x)) = some (record r { processor = x; ordered = r.ordered ++ out })

-- One round of the loop; a relay that has returned takes no more events.
unfoldable pub relay_event : Relay → Event → Option Relay
unfolding relay_receive
relay_event r (arrived blk) =
    if r.stopped then some r else relay_receive r (receive r.processor blk)
relay_event r timed_out =
    if r.stopped
    then some r
    else some
        (record r { removals = if wait_exceeded r.processor then r.removals + 1 else r.removals })
relay_event r cancelled = some (record r { stopped = true })

unfoldable pub ordered_relay : Relay → List Event → Option Relay
ordered_relay r [] = some r
ordered_relay r (e ∷ es) = elim (relay_event r e) [ none ↦ none | some r' ↦ ordered_relay r' es ]

-- The blocks that the connection sends, numbered by the counter.
unfoldable pub pack_data :
    (now : ℕ → ℕ) → Processor → List ℕ → (conn_id : ℕ) → Option (List Block × Processor)
pack_data now x payload conn_id = elim (new_data_blocks now conn_id x.send_block_id payload) [
  | none ↦ none
  | some (counter, blocks) ↦ some (blocks, record x { send_block_id = counter })
]

unfoldable pub pack_connect : (now : ℕ) → Processor → List ℕ → (conn_id : ℕ) → Block × Processor
pack_connect now x address conn_id =
    let (counter, id) = next_id x.send_block_id in
    (new_connect_block now conn_id id address, record x { send_block_id = counter })

unfoldable pub pack_disconnect :
    (now : ℕ) → Processor → (conn_id shutdown_type : ℕ) → Block × Processor
pack_disconnect now x conn_id shutdown_type =
    let (counter, id) = next_id x.send_block_id in
    (new_disconnect_block now conn_id id shutdown_type, record x { send_block_id = counter })

unfoldable pub pack_ping : (now conn_id latency : ℕ) → Block
pack_ping now conn_id latency = new_ping_block now conn_id 0 latency

unfoldable pub pack_pong : (now conn_id timestamp : ℕ) → Block
pack_pong now conn_id timestamp = new_pong_block now conn_id 0 timestamp
