-- ===== src/Pools/Entries.antt =====
-- What one received block does to the entries of the pool, connection_pool/pool.go.
use rabbit_mtcp_ws_socks.Prelude.{
  ℕ, suc, ◌≡◌, sym, ap, ◌∙◌, inl, inr, Bool, true, false, ◌&&◌, Option, none, some, List, [], ◌∷◌,
  ◌++◌, arith, ◌==◌, if◌then◌else◌, ==→eq, Bool-cases, Option-cases,
}
use rabbit_mtcp_ws_socks.NatMap.{lookup, lookup-insert}
use rabbit_mtcp_ws_socks.Block.{Block}
use rabbit_mtcp_ws_socks.Pools.ConnectionPool.{
  Connection, ConnectionPool, add_connection, new_connection, put_block, recv_block,
}

-- A connection stands under its own id.
abbrev pub Keyed : ConnectionPool → Type 0
Keyed p = (k : ℕ) (c : Connection) → lookup k p.connection_mapping ≡ some c → c.connection_id ≡ k

abbrev pub queue_in : Option Connection → List Block
queue_in none = []
queue_in (some c) = c.recv_queue

abbrev pub is_known : Option Connection → Bool
is_known none = false
is_known (some c) = true

-- What the connection with this id has received.
abbrev pub queue_of : ℕ → ConnectionPool → List Block
queue_of id p = queue_in (lookup id p.connection_mapping)

abbrev pub known : ℕ → ConnectionPool → Bool
known id p = is_known (lookup id p.connection_mapping)

-- The blocks for a connection, in order.
unfoldable pub blocks_for : ℕ → List Block → List Block
blocks_for id [] = []
blocks_for id (b ∷ bs) = if b.connection_id == id then b ∷ blocks_for id bs else blocks_for id bs

abbrev grown : Block → Connection → Connection
grown b c = record c { recv_queue = c.recv_queue ++ (b ∷ []) }

-- What a block does to the entry of `id`.
abbrev pub entry_after : Bool → ℕ → Block → Option Connection → Option Connection
entry_after accept id b none =
    if b.connection_id == id && accept
    then some (record { connection_id = id; recv_queue = b ∷ [] })
    else none
entry_after accept id b (some c) = if b.connection_id == id then some (grown b c) else some c

put_lookup :
    (id : ℕ) (b : Block) (c : Connection) (p : ConnectionPool)
    → lookup id (put_block b c p).connection_mapping
      ≡ (if c.connection_id == id then some (grown b c) else lookup id p.connection_mapping)
unfolding put_block
put_lookup id b c p = lookup-insert c.connection_id id (grown b c) p.connection_mapping

pub recv_known :
    (b : Block) (c : Connection) (p : ConnectionPool)
    → lookup b.connection_id p.connection_mapping ≡ some c
    → recv_block b p ≡ put_block b c p
unfolding recv_block
recv_known b c p h = rw (h, recv_block)

pub recv_new :
    (b : Block) (p : ConnectionPool)
    → lookup b.connection_id p.connection_mapping ≡ none
    → p.accept_new_connection ≡ true
    → recv_block b p
      ≡ put_block b
          (record { connection_id = b.connection_id; recv_queue = [] })
          (new_connection b.connection_id p)
unfolding recv_block
recv_new b p h a = rw (h, a, recv_block)

pub recv_unknown :
    (b : Block) (p : ConnectionPool)
    → lookup b.connection_id p.connection_mapping ≡ none
    → p.accept_new_connection ≡ false
    → recv_block b p ≡ record p { unknown = suc p.unknown }
unfolding recv_block
recv_unknown b p h a = ground arith

new_lookup :
    (id k : ℕ) (p : ConnectionPool)
    → lookup id (new_connection k p).connection_mapping ≡ (
        if k == id
        then some (record { connection_id = k; recv_queue = [] })
        else lookup id p.connection_mapping)
unfolding new_connection add_connection
new_lookup id k p =
    lookup-insert k id (record { connection_id = k; recv_queue = [] }) p.connection_mapping

entry_other :
    (accept : Bool) (id : ℕ) (b : Block) (o : Option Connection)
    → (b.connection_id == id) ≡ false
    → entry_after accept id b o ≡ o
entry_other accept id b none e = rw e
entry_other accept id b (some c) e = rw e

entry_unknown : (id : ℕ) (b : Block) → entry_after false id b none ≡ none
entry_unknown id b = ground arith

entry_own :
    (id : ℕ) (b : Block) (c : Connection) (accept : Bool)
    → (b.connection_id == id) ≡ true
    → entry_after accept id b (some c) ≡ some (grown b c)
entry_own id b c accept e = rw e

entry_fresh :
    (id k : ℕ) (b : Block)
    → (b.connection_id == id) ≡ true
    → k ≡ id
    → some (record { connection_id = k; recv_queue = b ∷ [] }) ≡ entry_after true id b none
entry_fresh id k b e h = rw (e, h)

pub recv_entry :
    (id : ℕ) (b : Block) (p : ConnectionPool)
    → Keyed p
    → lookup id (recv_block b p).connection_mapping
      ≡ entry_after p.accept_new_connection id b (lookup id p.connection_mapping)
recv_entry id b p k = elim (Option-cases (lookup b.connection_id p.connection_mapping)) [
  | inr (c, h) ↦
      let same = k b.connection_id c h in
      let start =
        ap (λ (q : ConnectionPool). lookup id q.connection_mapping) (recv_known b c p h)
        ∙ put_lookup id b c p
        ∙ ap (λ (n : ℕ). if n == id then some (grown b c) else lookup id p.connection_mapping)
            same in
      elim (Bool-cases (b.connection_id == id)) [
        | inl e ↦
            start
            ∙ ap (λ (t : Bool). if t then some (grown b c) else lookup id p.connection_mapping) e
            ∙ sym (entry_own id b c p.accept_new_connection e)
            ∙ ap (entry_after p.accept_new_connection id b)
                (sym h ∙ ap (λ (j : ℕ). lookup j p.connection_mapping) (==→eq b.connection_id id e))
        | inr e ↦
            start
            ∙ ap (λ (t : Bool). if t then some (grown b c) else lookup id p.connection_mapping) e
            ∙ sym (entry_other p.accept_new_connection id b (lookup id p.connection_mapping) e)
      ]
  | inl h ↦ elim (Bool-cases p.accept_new_connection) [
    | inl a ↦
        let fresh : Connection = record { connection_id = b.connection_id; recv_queue = [] } in
        let start =
          ap (λ (q : ConnectionPool). lookup id q.connection_mapping) (recv_new b p h a)
          ∙ put_lookup id b fresh (new_connection b.connection_id p) in
        elim (Bool-cases (b.connection_id == id)) [
          | inl e ↦
              start
              ∙ ap
                  (λ (t : Bool).
                    if t
                    then some (grown b fresh)
                    else lookup id (new_connection b.connection_id p).connection_mapping)
                  e
              ∙ entry_fresh id b.connection_id b e (==→eq b.connection_id id e)
              ∙ ap (entry_after true id b) (
                  sym h
                  ∙ ap (λ (j : ℕ). lookup j p.connection_mapping) (==→eq b.connection_id id e))
              ∙ ap (λ (t : Bool). entry_after t id b (lookup id p.connection_mapping)) (sym a)
          | inr e ↦
              start
              ∙ ap
                  (λ (t : Bool).
                    if t
                    then some (grown b fresh)
                    else lookup id (new_connection b.connection_id p).connection_mapping)
                  e
              ∙ new_lookup id b.connection_id p
              ∙ ap (λ (t : Bool). if t then some fresh else lookup id p.connection_mapping) e
              ∙ sym (entry_other p.accept_new_connection id b (lookup id p.connection_mapping) e)
        ]
    | inr a ↦
        let start =
          ap (λ (q : ConnectionPool). lookup id q.connection_mapping) (recv_unknown b p h a) in
        elim (Bool-cases (b.connection_id == id)) [
          | inl e ↦
              let gone =
                sym (ap (λ (j : ℕ). lookup j p.connection_mapping) (==→eq b.connection_id id e))
                ∙ h in
              start
              ∙ gone
              ∙ sym (entry_unknown id b)
              ∙ ap (entry_after false id b) (sym gone)
              ∙ ap (λ (t : Bool). entry_after t id b (lookup id p.connection_mapping)) (sym a)
          | inr e ↦
              start
              ∙ sym (entry_other p.accept_new_connection id b (lookup id p.connection_mapping) e)
        ]
  ]
]
