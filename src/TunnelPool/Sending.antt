-- ===== src/TunnelPool/Sending.antt =====
-- OutboundRelay of tunnel_pool/tunnel.go: the loop that sends the blocks of two queues, as steps.
use rabbit_mtcp_ws_socks.Prelude.{◌≡◌, ◌≢◌, ◌⊎◌, Bool, true, false, List, [], ◌∷◌, ◌++◌}
use rabbit_mtcp_ws_socks.Block.{Block}
use rabbit_mtcp_ws_socks.TunnelPool.Relay.{Link, pack_then_send, close_then_cancel}

-- Where the loop stands: before one of its three selects, or it has returned.
pub data Phase : Type 0 where
  check : Phase
  retry : Phase
  normal : Phase
  ended : Phase

-- The tunnel with the two queues, which other tunnels and the connections use too.
pub record Sender : Type 0 where
  pub link : Link
  pub retry_queue : List Block
  pub normal_queue : List Block
  pub retry_closed : Bool
  pub normal_closed : Bool
  pub phase : Phase

-- The phase after a select that sent a block.
abbrev pub after_send : Phase → Phase
after_send retry = normal
after_send check = check
after_send normal = check
after_send ended = ended

abbrev pub move : Phase → Sender → Sender
move phase s = record s { phase = phase }

-- The block at the head of the retry queue is sent, in the second select or in the third.
unfoldable pub send_retry : (requeue : Bool) → Block → List Block → Sender → Sender
send_retry requeue b rest s = record s {
  link = pack_then_send true requeue b s.link;
  retry_queue = rest;
  phase = after_send s.phase;
}

-- The block at the head of the normal queue is sent.
unfoldable pub send_normal : (requeue : Bool) → Block → List Block → Sender → Sender
send_normal requeue b rest s = record s {
  link = pack_then_send true requeue b s.link;
  normal_queue = rest;
  phase = after_send s.phase;
}

-- A step of the loop. Where several cases of a select are ready, each is a step.
pub data Step : Sender → Sender → Type 0 where
  stops : (s : Sender) → s.phase ≢ ended → s.link.tun.cancelled ≡ true → Step s (move ended s)
  goes_on : (s : Sender) → s.phase ≡ check → s.link.tun.cancelled ≡ false → Step s (move retry s)
  retries :
      (s : Sender) (requeue : Bool) (b : Block) (rest : List Block)
      → (s.phase ≡ retry) ⊎ (s.phase ≡ normal)
      → s.retry_queue ≡ b ∷ rest
      → Step s (send_retry requeue b rest s)
  no_retry :
      (s : Sender)
      → s.phase ≡ retry
      → s.retry_queue ≡ []
      → s.retry_closed ≡ false
      → s.link.tun.cancelled ≡ false
      → Step s (move normal s)
  sends :
      (s : Sender) (requeue : Bool) (b : Block) (rest : List Block)
      → s.phase ≡ normal
      → s.normal_queue ≡ b ∷ rest
      → Step s (send_normal requeue b rest s)
  retry_ends :
      (s : Sender)
      → (s.phase ≡ retry) ⊎ (s.phase ≡ normal)
      → s.retry_queue ≡ []
      → s.retry_closed ≡ true
      → Step s (move ended s)
  normal_ends :
      (s : Sender)
      → s.phase ≡ normal
      → s.normal_queue ≡ []
      → s.normal_closed ≡ true
      → Step s (move ended s)

-- What the rest of the program does meanwhile: blocks are put on the queues, other tunnels take
-- some, and the tunnel is cancelled.
pub data Meanwhile : Sender → Sender → Type 0 where
  put_retry :
      (s : Sender) (b : Block) → Meanwhile s (record s { retry_queue = s.retry_queue ++ (b ∷ []) })
  put_normal :
      (s : Sender) (b : Block)
      → Meanwhile s (record s { normal_queue = s.normal_queue ++ (b ∷ []) })
  takes_retry :
      (s : Sender) (b : Block) (rest : List Block)
      → s.retry_queue ≡ b ∷ rest
      → Meanwhile s (record s { retry_queue = rest })
  takes_normal :
      (s : Sender) (b : Block) (rest : List Block)
      → s.normal_queue ≡ b ∷ rest
      → Meanwhile s (record s { normal_queue = rest })
  cancels : (s : Sender) → Meanwhile s (record s { link = close_then_cancel s.link })
