-- ===== src/TunnelPool/Deliver.antt =====
-- The whole run of InboundRelay of tunnel_pool/tunnel.go over a connection that ends.
use rabbit_mtcp_ws_socks.Prelude.{
  ℕ, ◌+◌, ◌%◌, ◌^◌, ◌≤◌, ◌≡◌, refl, sym, ap, ◌∙◌, true, false, List, [], ◌∷◌, ◌++◌, append-nil,
  append_assoc, arith, err, length, All, length-append,
}
use rabbit_mtcp_ws_socks.Io.{IoError, Stream, short_error}
use rabbit_mtcp_ws_socks.Block.{Block, pack, new_block_from_reader}
use rabbit_mtcp_ws_socks.Block.Reader.{new_block_from_reader_lem}
use rabbit_mtcp_ws_socks.TunnelPool.Relay.{
  Link, next, ended, inbound_turn, inbound_relay, close_then_cancel, drained, received, plus64,
}
use rabbit_mtcp_ws_socks.TunnelPool.Receive.{
  turn_lem, reading_turn, last_turn, Sound, delivered, delivered_all, packed_all,
}

empty_lem :
    (e : IoError)
    → new_block_from_reader (record { bytes = []; ends = e })
      ≡ (err e, record { bytes = []; ends = e })
unfolding short_error
empty_lem e = new_block_from_reader_lem (record { bytes = []; ends = e })

relay_next :
    (now : ℕ) (times : List ℕ) (l l' : Link)
    → inbound_turn now l ≡ next l'
    → inbound_relay (now ∷ times) l ≡ inbound_relay times l'
unfolding inbound_relay
relay_next now times l l' h = rw (h, inbound_relay)

relay_ended :
    (now : ℕ) (times : List ℕ) (l l' : Link)
    → inbound_turn now l ≡ ended l'
    → inbound_relay (now ∷ times) l ≡ ended l'
unfolding inbound_relay
relay_ended now times l l' h = rw (h, inbound_relay)

sum64 :
    (a n m r x : ℕ)
    → r ≡ (a + n) % 2 ^ 64
    → x % 2 ^ 64 ≡ (r + m) % 2 ^ 64
    → x % 2 ^ 64 ≡ (a + (n + m)) % 2 ^ 64
sum64 a n m r x h k = omega arith

-- Two more turns end the relay of a connection that has no more bytes.
relay_end :
    (t u : ℕ) (times : List ℕ) (l : Link) (e : IoError)
    → l.tun.cancelled ≡ false
    → l.incoming ≡ record { bytes = []; ends = e }
    → (l' : Link) × (inbound_relay (t ∷ u ∷ times) l ≡ ended l')
      × (l'.output ≡ l.output)
      × (l'.tun.cancelled ≡ true)
      × (l'.tun.recv_bytes ≡ l.tun.recv_bytes)
      × (l'.retried ≡ l.retried)
unfolding received drained close_then_cancel
relay_end t u times l e c i =
    let s : Stream = record { bytes = []; ends = e } in
    let l1 = close_then_cancel (record l { incoming = s }) in
    let h = reading_turn t l (err e, s) c (ap new_block_from_reader i ∙ empty_lem e) in
    let k = last_turn u l1 (err e, s) refl (empty_lem e) in
    (
      record l1 { incoming = s },
      relay_next t (u ∷ times) l l1 h ∙ relay_ended u times l1 (record l1 { incoming = s }) k,
      refl,
      refl,
      refl,
      refl,
    )

-- Over a connection that carries sound blocks (a ping or a pong holding at least eight bytes) and
-- then ends in an error, the relay of a tunnel that is not cancelled returns within two turns more
-- than there are blocks, without a panic. It has put on the receive queue, in order, exactly the
-- blocks that are neither pings nor pongs, has cancelled the tunnel, retried no block, and counted
-- all received bytes, modulo 2^64.
pub inbound_relay_delivers :
    (bs : List Block) (times : List ℕ) (l : Link) (e : IoError)
    → All Sound bs
    → l.tun.cancelled ≡ false
    → l.incoming ≡ record { bytes = packed_all bs; ends = e }
    → length bs + 2 ≤ length times
    → (l' : Link) × (inbound_relay times l ≡ ended l')
      × (l'.output ≡ l.output ++ delivered_all bs)
      × (l'.tun.cancelled ≡ true)
      × (l'.retried ≡ l.retried)
      × (l'.tun.recv_bytes % 2 ^ 64 ≡ (l.tun.recv_bytes + length (packed_all bs)) % 2 ^ 64)
unfolding delivered_all packed_all plus64
inbound_relay_delivers bs [] l e h c i lt = absurd (omega arith)
inbound_relay_delivers [] (t ∷ []) l e h c i lt = absurd (omega arith)
inbound_relay_delivers [] (t ∷ u ∷ times) l e h c i lt =
    let (l', r, o, k, n, q) = relay_end t u times l e c i in
    (
      l',
      r,
      o ∙ sym (append-nil l.output),
      k,
      q,
      ap (λ x. x % 2 ^ 64) n ∙ ap (λ x. x % 2 ^ 64) {y = l.tun.recv_bytes + 0} (omega arith),
    )
inbound_relay_delivers (b ∷ bs) (t ∷ times) l e (hb, hbs) c i lt =
    let (l1, r1, o1, c1, n1, q1, i1) = turn_lem t b l (packed_all bs) e hb c i in
    let (l', r, o, k, q, n) = inbound_relay_delivers bs times l1 e hbs c1 i1 (omega arith) in
    (
      l',
      relay_next t times l l1 r1 ∙ r,
      o
          ∙ ap (λ x. x ++ delivered_all bs) o1
          ∙ append_assoc l.output (delivered b) (delivered_all bs),
      k,
      q ∙ q1,
      sum64 l.tun.recv_bytes (length (pack b).0) (length (packed_all bs)) l1.tun.recv_bytes
            l'.tun.recv_bytes n1 n
          ∙ ap (λ x. (l.tun.recv_bytes + x) % 2 ^ 64)
              (sym (length-append (pack b).0 (packed_all bs))),
    )
