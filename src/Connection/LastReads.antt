-- ===== src/Connection/LastReads.antt =====
-- RecvRelay of connection/outbound_connection.go with the select after each read, and the last reads
-- of a connection that was cancelled.
use rabbit_mtcp_ws_socks.Prelude.{
  ℕ, ◌+◌, ◌%◌, ◌^◌, ◌≡◌, Bool, true, false, ◌||◌, Option, none, some, List, [], ◌∷◌, ◌++◌, length,
  All,
}
use rabbit_mtcp_ws_socks.Block.{Block}
use rabbit_mtcp_ws_socks.Block.Split.{joined, IsPiece}
use rabbit_mtcp_ws_socks.Connection.Outbound.{
  Outbound, send_data, ReadResult, got, at_end, timed_out, failed, recv_turn,
}
use rabbit_mtcp_ws_socks.Connection.OutboundEnd.{together}

-- The loop after the context was cancelled: a read each 100 milliseconds, until one fails. The
-- timer of 5 seconds, which is set anew in each round, never comes first.
unfoldable pub last_reads : (ℕ → ℕ) → List ReadResult → Outbound → Option (Outbound × Bool)
last_reads now [] c = some (c, false)
last_reads now (got payload ∷ rs) c = elim (send_data now c payload) [
  | none ↦ none
  | some c1 ↦
      last_reads now rs (record c1 { recv_bytes = (c1.recv_bytes + length payload) % 2 ^ 64 })
]
last_reads now (at_end ∷ rs) c = some (c, true)
last_reads now (timed_out ∷ rs) c = some (c, true)
last_reads now (failed ∷ rs) c = some (c, true)

unfoldable pub results : List (ReadResult × Bool) → List ReadResult
results [] = []
results ((r, done) ∷ rs) = r ∷ results rs

-- `RecvRelay` over the results of its reads, each with whether the context is cancelled from
-- elsewhere when the relay looks at it. The result says if the relay has returned.
unfoldable pub recv_relay_until :
    (ℕ → ℕ) → List (ReadResult × Bool) → Outbound → Option (Outbound × Bool)
recv_relay_until now [] c = some (c, false)
recv_relay_until now ((r, done) ∷ rs) c = elim (recv_turn now r c) [
  | none ↦ none
  | some (c1, true) ↦ some (c1, true)
  | some (c1, false) ↦ elim (done || c1.cancelled) [
    | true ↦ last_reads now (results rs) c1
    | false ↦ recv_relay_until now rs c1
  ]
]

-- Reads that all give bytes.
unfoldable pub got_all : List (List ℕ × Bool) → List (ReadResult × Bool)
got_all [] = []
got_all ((p, done) ∷ xs) = (got p, done) ∷ got_all xs

unfoldable pub pieces : List (List ℕ × Bool) → List (List ℕ)
pieces [] = []
pieces ((p, done) ∷ xs) = p ∷ pieces xs

abbrev counted : List ℕ → Outbound → Outbound
counted p x = record x { recv_bytes = (x.recv_bytes + length p) % 2 ^ 64 }

-- The two ways to go on after the bytes were queued.
abbrev turned : List ℕ → Option Outbound → Option (Outbound × Bool)
turned p o = elim o [ none ↦ none | some x ↦ some (counted p x, false) ]

abbrev read_on : (ℕ → ℕ) → List ReadResult → List ℕ → Option Outbound → Option (Outbound × Bool)
read_on clock rs p o = elim o [ none ↦ none | some x ↦ last_reads clock rs (counted p x) ]

-- What the relay has done with these bytes: it has not returned, and has queued data blocks of the
-- connection that carry them.
abbrev pub Sent : Outbound → List (List ℕ) → Option (Outbound × Bool) → Type 0
Sent c ps r =
    (c' : Outbound) × (blocks : List Block) × (r ≡ some (c', false))
    × (c'.send_queue ≡ c.send_queue ++ blocks)
    × (joined blocks ≡ together ps)
    × All (IsPiece c.connection_id) blocks
