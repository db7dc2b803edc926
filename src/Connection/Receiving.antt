-- ===== src/Connection/Receiving.antt =====
-- What OrderedRelay of connection/block_processor.go does with a block that arrives.
use rabbit_mtcp_ws_socks.Prelude.{
  ℕ, ◌+◌, ◌^◌, ◌<◌, ◌≡◌, refl, sym, ap, ◌∙◌, inl, inr, none, some, List, [], ◌∷◌, ◌++◌, append-nil,
  append_assoc, arith, ltb, ◌==◌, ltb→lt, ltb→le, ==→eq, ==→ne, eq→==, ne→==, Bool-cases, length,
}
use rabbit_mtcp_ws_socks.Block.{Block}
use rabbit_mtcp_ws_socks.NatMap.{lookup, insert, lookup-insert}
use rabbit_mtcp_ws_socks.Connection.Processor.{
  Processor, succ32, send_cached, update_last, send_direct, receive,
}
use rabbit_mtcp_ws_socks.Connection.Arrivals.{
  top, first, first_next, Holds, send_cached_lem, Holds-old, Holds-next_came, Holds-cached,
}

send_direct_run :
    (x : Processor) (blk : Block) (m' : ℕ) (out : List Block) (cache : List (ℕ × Block)) (recv : ℕ)
    → succ32 x.recv_block_id ≡ m'
    → send_cached (length x.cache) x.cache m' ≡ some (out, cache, recv)
    → send_direct x blk ≡ some (blk ∷ out, record x { cache = cache; recv_block_id = recv })
unfolding send_direct
send_direct_run x blk m' out cache recv q run =
    ground (arith, ap (λ k. send_cached (length x.cache) x.cache k) q, run)

receive_direct :
    (x0 x : Processor) (blk : Block)
    → update_last x0 blk ≡ x
    → x.recv_block_id ≡ blk.block_id
    → receive x0 blk ≡ send_direct x blk
unfolding receive
receive_direct x0 x blk e q = rw (e, eq→== x.recv_block_id blk.block_id q)

module _ (sent : ℕ → Block) (total : ℕ) (small : total < 2 ^ 32)
    (numbered : (i : ℕ) → i < total → (sent i).block_id ≡ i) where
  -- The state of a relay to which the blocks of `seen` have come, in any order and as often.
  pub record InOrder (seen : List ℕ) (x : Processor) (ordered : List Block) : Type 0 where
    pub holds : Holds sent total seen x.recv_block_id x.cache
    pub no_next : lookup x.recv_block_id x.cache ≡ none
    pub sent_on : ordered ≡ first sent x.recv_block_id
    pub last : x.last_recv_block_id ≡ top seen

  update_last_lem :
      (seen : List ℕ) (x : Processor) (i : ℕ)
      → i < total
      → x.last_recv_block_id ≡ top seen
      → update_last x (sent i) ≡ record x { last_recv_block_id = top (i ∷ seen) }
  unfolding update_last top
  update_last_lem seen x i hi e = ground (arith, numbered i hi)

  send_direct_lem :
      {seen : List ℕ} (x : Processor) (ordered : List Block)
      → Holds sent total seen (x.recv_block_id + 1) x.cache
      → ordered ≡ first sent x.recv_block_id
      → x.last_recv_block_id ≡ top seen
      → (out : List Block) × (y : Processor) × (send_direct x (sent x.recv_block_id)
          ≡ some (out, y))
        × InOrder seen y (ordered ++ out)
  send_direct_lem {seen} x ordered v e l =
      let m = x.recv_block_id in
      let (out, cache, m', run, whole, none_left, w) =
        send_cached_lem sent total small (length x.cache) v (omega arith) in
      let step : succ32 m ≡ m + 1 = omega (arith, v.within) in
      (
        sent m ∷ out,
        record x { cache = cache; recv_block_id = m' },
        send_direct_run x (sent m) (m + 1) out cache m' step run,
        record {
          holds = w;
          no_next = none_left;
          sent_on =
              ap (λ t. t ++ (sent m ∷ out)) e
              ∙ sym (append_assoc (first sent m) (sent m ∷ []) out)
              ∙ ap (λ t. t ++ out) (first_next sent m)
              ∙ whole;
          last = l;
        },
      )

  receive_next :
      {seen : List ℕ} {x : Processor} {ordered : List Block}
      → InOrder seen x ordered
      → x.recv_block_id < total
      → (out : List Block) × (y : Processor) × (receive x (sent x.recv_block_id) ≡ some (out, y))
        × InOrder (x.recv_block_id ∷ seen) y (ordered ++ out)
  receive_next {seen} {x} {ordered} v h =
      let m = x.recv_block_id in
      let (out, y, run, w) =
        send_direct_lem {seen = m ∷ seen} (record x { last_recv_block_id = top (m ∷ seen) }) ordered
          (Holds-next_came sent total small v.holds v.no_next h) v.sent_on refl in
      (
        out,
        y,
        receive_direct x (record x { last_recv_block_id = top (m ∷ seen) }) (sent m)
              (update_last_lem seen x m h v.last) (sym (numbered m h))
            ∙ run,
        w,
      )

  pub receive_lem :
      {seen : List ℕ} {x : Processor} {ordered : List Block} (i : ℕ)
      → InOrder seen x ordered
      → i < total
      → (out : List Block) × (y : Processor) × (receive x (sent i) ≡ some (out, y))
        × InOrder (i ∷ seen) y (ordered ++ out)
  unfolding receive
  receive_lem {seen} {x} {ordered} i v hi =
      let m = x.recv_block_id in
      let x' : Processor = record x { last_recv_block_id = top (i ∷ seen) } in
      elim (Bool-cases (m == i)) [
        | inl q ↦ let e : m ≡ i = ==→eq m i q in rw (← e) (receive_next v (omega arith))
        | inr q ↦ elim (Bool-cases (ltb i m)) [
          | inl old ↦ (
            [],
            x',
            rw (update_last_lem seen x i hi v.last, numbered i hi, q, old),
            record {
              holds = Holds-old sent total small i v.holds (ltb→lt i m old);
              no_next = v.no_next;
              sent_on = append-nil ordered ∙ v.sent_on;
              last = refl;
            },
          )
          | inr new ↦ (
            [],
            record x' { cache = insert i (sent i) x.cache },
            rw (update_last_lem seen x i hi v.last, numbered i hi, q, new),
            record {
              holds =
                  Holds-cached sent total small i v.holds
                    (omega (arith, ltb→le i m new, ==→ne m i q)) hi;
              no_next = rw (lookup-insert, ne→== i m (λ p. ==→ne m i q (sym p))) v.no_next;
              sent_on = append-nil ordered ∙ v.sent_on;
              last = refl;
            },
          )
        ]
      ]
