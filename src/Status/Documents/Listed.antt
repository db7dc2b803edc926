-- ===== src/Status/Documents/Listed.antt =====
-- Which tunnels the status server of cmd/rabbit.go lists.
use rabbit_mtcp_ws_socks.Prelude.{
  subst, ℕ, ◌≡◌, refl, sym, ap, ◌∙◌, ◌↔◌, ◌⊎◌, inl, inr, none, some, List, [], ◌∷◌, ◌++◌, arith,
  ◌==◌, ==→eq, Option-cases,
}
use mathlib.Core.List.{Memᴰ}
use mathlib.Core.List.Memᴰ
use rabbit_mtcp_ws_socks.NatMap.{
  lookup, IsMap, lookup-insert, lookup-delete, insert-IsMap, delete-IsMap,
}
use rabbit_mtcp_ws_socks.TunnelPool.Pool.{
  Tunnel, TunnelPool, new_tunnel_pool, add_tunnel, count_up, with_mapping,
}
use rabbit_mtcp_ws_socks.TunnelPool.Removal.{server_ops}
use rabbit_mtcp_ws_socks.TunnelPool.Members.{add_tunnel_mapping}
use rabbit_mtcp_ws_socks.Pools.PeerGroup.{
  ServerPeer, new_server_peer, PeerGroup, new_peer_group, peer_for, give_tunnel, group_add_tunnel,
  remove_peer,
}
use rabbit_mtcp_ws_socks.Pools.Owners.{
  tunnels, GroupReach, Owned, GroupReach-Owned, pick, unknown_peer, known_peer,
}
use rabbit_mtcp_ws_socks.Status.Documents.{
  gathered, over_pools, TunnelInfo, tunnel_info, get_tunnel_conns_info, server_documents,
  ServerManager,
}

Mem-append : {A : Type 0} (a : A) (xs ys : List A) → Memᴰ a (xs ++ ys) → Memᴰ a xs ⊎ Memᴰ a ys
Mem-append a [] ys h = inr h
Mem-append a (x ∷ xs) ys (Memᴰ.head e) = inl (Memᴰ.head e)
Mem-append a (x ∷ xs) ys (Memᴰ.tail h) = elim (Mem-append a xs ys h) [
  | inl k ↦ inl (Memᴰ.tail k)
  | inr k ↦ inr k
]

lookup_rest :
    {V : Type 0} (i k : ℕ) (v : V) (w : V) (m : List (ℕ × V))
    → lookup i m ≡ none
    → lookup k m ≡ some v
    → lookup k ((i, w) ∷ m) ≡ some v
unfolding lookup
lookup_rest i k v w m h e = ground (arith, ap (λ j. lookup j m) {x = i} {y = k})

lookup_here : {V : Type 0} (i : ℕ) (w : V) (m : List (ℕ × V)) → lookup i ((i, w) ∷ m) ≡ some w
unfolding lookup
lookup_here i w m = ground arith

module _ {V A : Type 0} (f : V → List A) (a : A) where
  Mem-gathered :
      (m : List (ℕ × V))
      → IsMap m
      → Memᴰ a (gathered f m)
      → (k : ℕ) × (v : V) × (lookup k m ≡ some v) × Memᴰ a (f v)
  unfolding gathered
  Mem-gathered [] d h = absurd (Memᴰ.not-nil h)
  Mem-gathered ((i, w) ∷ m) (fresh, d) h = elim (Mem-append a (f w) (gathered f m) h) [
    | inl k ↦ (i, w, lookup_here i w m, k)
    | inr k ↦ let (j, v, e, l) = Mem-gathered m d k in (j, v, lookup_rest i j v w m fresh e, l)
  ]

  gathered-Mem :
      (k : ℕ) (v : V) (m : List (ℕ × V))
      → lookup k m ≡ some v
      → Memᴰ a (f v)
      → Memᴰ a (gathered f m)
  unfolding gathered lookup
  gathered-Mem k v [] e h = absurd (cc)
  gathered-Mem k v ((i, w) ∷ m) e h = elim (pick (i == k) w (lookup k m) v e) [
    | inl (b, q) ↦ Memᴰ.append_left (gathered f m) (subst (λ (x : V). Memᴰ a (f x)) (sym q) h)
    | inr (b, q) ↦ Memᴰ.append_right (f w) (gathered-Mem k v m q h)
  ]

over_all :
    {V A B : Type 0} (f : A → List B) (g : V → A) (m : List (ℕ × V))
    → over_pools f (gathered (λ v. g v ∷ []) m) ≡ gathered (λ v. f (g v)) m
unfolding over_pools gathered
over_all f g [] = refl
over_all f g ((k, v) ∷ m) = rw (over_all f g m)

-- A peer's tunnels are there once, and its pool knows the peer's id.
abbrev NamedPeer : ℕ → ServerPeer → Type 0
NamedPeer id p = IsMap (tunnels p) × (p.tunnel_pool.peer_id ≡ id)

abbrev Named : PeerGroup → Type 0
Named g =
    IsMap g.peer_mapping
    × ((id : ℕ) (p : ServerPeer) → lookup id g.peer_mapping ≡ some p → NamedPeer id p)

new_server_peer-NamedPeer : (id : ℕ) → NamedPeer id (new_server_peer id)
unfolding new_server_peer new_tunnel_pool
new_server_peer-NamedPeer id = (tt, refl)

peer_for-NamedPeer : (id : ℕ) (g : PeerGroup) → Named g → NamedPeer id (peer_for id g)
peer_for-NamedPeer id g (d, n) = elim (Option-cases (lookup id g.peer_mapping)) [
  | inl e ↦ subst (NamedPeer id) (sym (unknown_peer id g e)) (new_server_peer-NamedPeer id)
  | inr (p, e) ↦ subst (NamedPeer id) (sym (known_peer id g p e)) (n id p e)
]

add_tunnel_peer :
    (t : Tunnel) (p : TunnelPool ServerManager) → (add_tunnel server_ops t p).peer_id ≡ p.peer_id
unfolding add_tunnel count_up with_mapping
add_tunnel_peer t p = ground arith

give_tunnel-NamedPeer :
    (id : ℕ) (t : Tunnel) (p : ServerPeer) → NamedPeer id p → NamedPeer id (give_tunnel t p)
unfolding give_tunnel
give_tunnel-NamedPeer id t p (d, n) = (
  subst IsMap (sym (add_tunnel_mapping server_ops t p.tunnel_pool).0)
      (insert-IsMap t.tunnel_id t (tunnels p) d),
  add_tunnel_peer t p.tunnel_pool ∙ n,
)

add-Named : (t : Tunnel) (g : PeerGroup) → Named g → Named (group_add_tunnel t g)
unfolding group_add_tunnel
add-Named t g (d, n) =
    let given = give_tunnel t (peer_for t.peer_id g) in
    let named =
      give_tunnel-NamedPeer t.peer_id t (peer_for t.peer_id g)
        (peer_for-NamedPeer t.peer_id g (d, n)) in
    (
      insert-IsMap t.peer_id given g.peer_mapping d,
      λ id p e.
          elim (pick (t.peer_id == id) given (lookup id g.peer_mapping) p
            (sym (lookup-insert t.peer_id id given g.peer_mapping) ∙ e)) [
              | inl (b, q) ↦
                  subst (λ (x : ServerPeer). NamedPeer id x) q
                    (subst (λ (i : ℕ). NamedPeer i given) (==→eq t.peer_id id b) named)
              | inr (b, q) ↦ n id p q
            ],
    )

remove-Named : (i : ℕ) (g : PeerGroup) → Named g → Named (remove_peer i g)
unfolding remove_peer
remove-Named i g (d, n) = (
  delete-IsMap i g.peer_mapping d,
  λ id p e. n id p (ground (arith, lookup-delete i id g.peer_mapping, e)),
)

Reach-Named : (g : PeerGroup) → GroupReach g → Named g
unfolding new_peer_group lookup
Reach-Named _ GroupReach.started = (tt, λ id p e. absurd (cc))
Reach-Named _ (GroupReach.joined t g h) = add-Named t g (Reach-Named g h)
Reach-Named _ (GroupReach.left id g h) = remove-Named id g (Reach-Named g h)

-- That a peer of the group has a tunnel with this entry, under the id that the tunnel exchanged.
abbrev pub Holds : PeerGroup → TunnelInfo → Type 0
Holds g i =
    (id : ℕ) × (k : ℕ) × (p : ServerPeer) × (t : Tunnel) × (lookup id g.peer_mapping ≡ some p)
    × (lookup k (tunnels p) ≡ some t)
    × (i ≡ tunnel_info t.peer_id t)

all_tunnels :
    (g : PeerGroup)
    → (server_documents g).tunnels
      ≡ gathered (λ p. get_tunnel_conns_info p.tunnel_pool) g.peer_mapping
unfolding server_documents
all_tunnels g = over_all get_tunnel_conns_info (λ (p : ServerPeer). p.tunnel_pool) g.peer_mapping

only_one : {A : Type 0} (a b : A) → Memᴰ a (b ∷ []) → a ≡ b
only_one a b (Memᴰ.head e) = e
only_one a b (Memᴰ.tail h) = absurd (Memᴰ.not-nil h)

abbrev all_of : PeerGroup → List TunnelInfo
all_of g = gathered (λ (p : ServerPeer). get_tunnel_conns_info p.tunnel_pool) g.peer_mapping

listed_held : (g : PeerGroup) (i : TunnelInfo) → Named g → Owned g → Memᴰ i (all_of g) → Holds g i
listed_held g i (d, n) o m =
    let (id, p, ep, mp) =
      Mem-gathered (λ (p : ServerPeer). get_tunnel_conns_info p.tunnel_pool) i g.peer_mapping d m in
    let (dp, np) = n id p ep in
    let (k, t, et, mt) =
      Mem-gathered (λ (t : Tunnel). tunnel_info p.tunnel_pool.peer_id t ∷ []) i (tunnels p) dp mp in
    (
      id,
      k,
      p,
      t,
      ep,
      et,
      only_one i (tunnel_info p.tunnel_pool.peer_id t) mt
          ∙ ap (λ (x : ℕ). tunnel_info x t) (np ∙ sym (o id k p t ep et)),
    )

held_listed : (g : PeerGroup) (i : TunnelInfo) → Named g → Owned g → Holds g i → Memᴰ i (all_of g)
held_listed g i (d, n) o (id, k, p, t, ep, et, e) =
    gathered-Mem (λ (p : ServerPeer). get_tunnel_conns_info p.tunnel_pool) i id p g.peer_mapping ep
      (gathered-Mem (λ (t : Tunnel). tunnel_info p.tunnel_pool.peer_id t ∷ []) i k t (tunnels p) et
        (Memᴰ.head (e ∙ ap (λ (x : ℕ). tunnel_info x t) (o id k p t ep et ∙ sym ((n id p ep).1)))))

-- The status server lists the tunnels that there are: however tunnels come and peers go, an entry is
-- in the server's list of tunnels exactly if a peer has a tunnel with this entry, the peer's id in it
-- being the one that the tunnel exchanged.
pub listed_tunnels :
    (g : PeerGroup) (i : TunnelInfo)
    → GroupReach g
    → Memᴰ i (server_documents g).tunnels ↔ Holds g i
listed_tunnels g i h = (
  λ m. listed_held g i (Reach-Named g h) (GroupReach-Owned g h) (subst (Memᴰ i) (all_tunnels g) m),
  λ m.
      subst (Memᴰ i) (sym (all_tunnels g))
        (held_listed g i (Reach-Named g h) (GroupReach-Owned g h) m),
)
