-- ===== src/Pools/Routing.antt =====
-- The routing of blocks to connections in connection_pool/pool.go.
use rabbit_mtcp_ws_socks.Prelude.{
  ℕ, ◌≡◌, refl, sym, ap, ◌∙◌, Bool, true, false, ◌&&◌, ◌||◌, Option, none, some, List, [], ◌∷◌,
  ◌++◌, append-nil, append_assoc, arith, ◌==◌, if◌then◌else◌,
}
use rabbit_mtcp_ws_socks.NatMap.{lookup}
use rabbit_mtcp_ws_socks.Block.{Block}
use rabbit_mtcp_ws_socks.Pools.ConnectionPool.{
  Connection, ConnectionPool, add_connection, new_connection, put_block, recv_block, recv_relay,
}
use rabbit_mtcp_ws_socks.Pools.Entries.{
  Keyed, queue_in, is_known, queue_of, known, blocks_for, entry_after, recv_entry,
}

recv_accept :
    (b : Block) (p : ConnectionPool)
    → (recv_block b p).accept_new_connection ≡ p.accept_new_connection
unfolding recv_block put_block new_connection add_connection
recv_accept b p = ground arith

entry_key :
    (accept : Bool) (id : ℕ) (b : Block) (o : Option Connection) (c : Connection)
    → ((d : Connection) → o ≡ some d → d.connection_id ≡ id)
    → entry_after accept id b o ≡ some c
    → c.connection_id ≡ id
entry_key accept id b none c h e = ground arith
entry_key accept id b (some d) c h e = let k = h d refl in ground arith

pub recv-Keyed : (b : Block) (p : ConnectionPool) → Keyed p → Keyed (recv_block b p)
recv-Keyed b p h k c e =
    entry_key p.accept_new_connection k b (lookup k p.connection_mapping) c (h k)
      (sym (recv_entry k b p h) ∙ e)

entry_queue :
    (a : Bool) (id : ℕ) (b : Block) (o : Option Connection)
    → queue_in (entry_after a id b o)
      ≡ queue_in o ++ (if (a || is_known o) && (b.connection_id == id) then b ∷ [] else [])
entry_queue a id b none = ground arith
entry_queue a id b (some c) = ground (arith, append-nil c.recv_queue)

entry_known :
    (a : Bool) (id : ℕ) (b : Block) (o : Option Connection)
    → (a || is_known (entry_after a id b o)) ≡ (a || is_known o)
entry_known a id b none = ground arith
entry_known a id b (some c) = ground arith

both_parts :
    (g e : Bool) (q rest : List Block) (b : Block)
    → (q ++ (if g && e then b ∷ [] else [])) ++ (if g then rest else [])
      ≡ q ++ (if g then (if e then b ∷ rest else rest) else [])
both_parts true true q rest b = append_assoc q (b ∷ []) rest
both_parts true false q rest b = ap (λ (x : List Block). x ++ rest) (append-nil q)
both_parts false e q rest b = append-nil (q ++ [])

nothing : (q : List Block) (g : Bool) → q ≡ q ++ (if g then [] else [])
nothing q g = ground (arith, append-nil q)

-- The receiving relay delivers to each connection exactly the blocks of its id, in the order they
-- came, behind what it had, when the pool accepts new connections or has the connection; otherwise
-- nothing is delivered under the id.
pub recv_relay_routes :
    (id : ℕ) (bs : List Block) (p : ConnectionPool)
    → Keyed p
    → queue_of id (recv_relay bs p)
      ≡ queue_of id p ++ (if p.accept_new_connection || known id p then blocks_for id bs else [])
unfolding recv_relay blocks_for
recv_relay_routes id [] p k = nothing (queue_of id p) (p.accept_new_connection || known id p)
recv_relay_routes id (b ∷ bs) p k =
    let p1 = recv_block b p in
    let a = p.accept_new_connection in
    let o = lookup id p.connection_mapping in
    let e = recv_entry id b p k in
    let guard =
      ap (λ (t : Bool). t || known id p1) (recv_accept b p)
      ∙ ap (λ (x : Option Connection). a || is_known x) e
      ∙ entry_known a id b o in
    recv_relay_routes id bs p1 (recv-Keyed b p k)
    ∙ ap (λ (t : Bool). queue_of id p1 ++ (if t then blocks_for id bs else [])) guard
    ∙ ap
        (λ (x : Option Connection).
          queue_in x ++ (if a || is_known o then blocks_for id bs else []))
        e
    ∙ ap (λ (q : List Block). q ++ (if a || is_known o then blocks_for id bs else []))
        (entry_queue a id b o)
    ∙ both_parts (a || is_known o) (b.connection_id == id) (queue_in o) (blocks_for id bs) b
