-- ===== src/Pools/Owners.antt =====
-- Which peer a tunnel belongs to, peer/peer_group.go.
use rabbit_mtcp_ws_socks.Prelude.{
  ℕ, ◌≡◌, refl, sym, ap, ◌∙◌, ◌⊎◌, inl, inr, Bool, true, false, Option, none, some, List, ◌==◌,
  if◌then◌else◌, ==→eq, Option-cases,
}
use rabbit_mtcp_ws_socks.NatMap.{lookup, lookup-insert, lookup-delete}
use rabbit_mtcp_ws_socks.TunnelPool.Pool.{Tunnel, new_tunnel_pool}
use rabbit_mtcp_ws_socks.TunnelPool.Members.{add_tunnel_mapping}
use rabbit_mtcp_ws_socks.TunnelPool.Removal.{server_ops}
use rabbit_mtcp_ws_socks.Pools.PeerGroup.{
  ServerPeer, new_server_peer, PeerGroup, new_peer_group, peer_for, give_tunnel, group_add_tunnel,
  remove_peer,
}

abbrev pub tunnels : ServerPeer → List (ℕ × Tunnel)
tunnels p = p.tunnel_pool.tunnel_mapping

-- Every tunnel in a peer's pool is a tunnel of this peer.
abbrev pub Owned : PeerGroup → Type 0
Owned g =
    (id k : ℕ) (p : ServerPeer) (t : Tunnel)
    → lookup id g.peer_mapping ≡ some p
    → lookup k (tunnels p) ≡ some t
    → t.peer_id ≡ id

-- The groups that the server can come to: tunnels are added, peers are removed.
pub data GroupReach : PeerGroup → Type 0 where
  started : GroupReach new_peer_group
  joined : (t : Tunnel) (g : PeerGroup) → GroupReach g → GroupReach (group_add_tunnel t g)
  left : (id : ℕ) (g : PeerGroup) → GroupReach g → GroupReach (remove_peer id g)

new_tunnels : (id k : ℕ) → lookup k (tunnels (new_server_peer id)) ≡ none
unfolding new_server_peer new_tunnel_pool lookup
new_tunnels id k = refl

pub known_peer :
    (id : ℕ) (g : PeerGroup) (p : ServerPeer)
    → lookup id g.peer_mapping ≡ some p
    → peer_for id g ≡ p
unfolding peer_for
known_peer id g p h = rw (h, peer_for)

pub unknown_peer :
    (id : ℕ) (g : PeerGroup) → lookup id g.peer_mapping ≡ none → peer_for id g ≡ new_server_peer id
unfolding peer_for
unknown_peer id g h = rw (h, peer_for)

old_tunnel :
    (id k : ℕ) (g : PeerGroup) (u : Tunnel)
    → Owned g
    → lookup k (tunnels (peer_for id g)) ≡ some u
    → u.peer_id ≡ id
old_tunnel id k g u o h = elim (Option-cases (lookup id g.peer_mapping)) [
  | inl e ↦ absurd (
      let a = new_tunnels id k in
      let b = ap (λ (p : ServerPeer). lookup k (tunnels p)) (unknown_peer id g e) in cc)
  | inr (p, e) ↦
      o id k p u e (sym (ap (λ (q : ServerPeer). lookup k (tunnels q)) (known_peer id g p e)) ∙ h)
]

given_tunnels :
    (t : Tunnel) (p : ServerPeer) (k : ℕ)
    → lookup k (tunnels (give_tunnel t p))
      ≡ (if t.tunnel_id == k then some t else lookup k (tunnels p))
unfolding give_tunnel
given_tunnels t p k =
    ap (lookup k) (add_tunnel_mapping server_ops t p.tunnel_pool).0
    ∙ lookup-insert t.tunnel_id k t (tunnels p)

pub pick :
    {A : Type 0} (b : Bool) (x : A) (o : Option A) (y : A)
    → (if b then some x else o) ≡ some y
    → ((b ≡ true) × (x ≡ y)) ⊎ ((b ≡ false) × (o ≡ some y))
pick true x o y h = inl (refl, (cc))
pick false x o y h = inr (refl, h)

add-Owned : (t : Tunnel) (g : PeerGroup) → Owned g → Owned (group_add_tunnel t g)
unfolding group_add_tunnel
add-Owned t g o id k p u hp hu =
    let given = give_tunnel t (peer_for t.peer_id g) in
    elim (pick (t.peer_id == id) given (lookup id g.peer_mapping) p
      (sym (lookup-insert t.peer_id id given g.peer_mapping) ∙ hp)) [
        | inr (e, q) ↦ o id k p u q hu
        | inl (e, q) ↦
            elim (pick (t.tunnel_id == k) t (lookup k (tunnels (peer_for t.peer_id g))) u (
              sym (given_tunnels t (peer_for t.peer_id g) k)
              ∙ ap (λ (x : ServerPeer). lookup k (tunnels x)) q
              ∙ hu)) [
                | inl (f, r) ↦ ap (λ (x : Tunnel). x.peer_id) (sym r) ∙ ==→eq t.peer_id id e
                | inr (f, r) ↦ old_tunnel t.peer_id k g u o r ∙ ==→eq t.peer_id id e
              ]
      ]

remove-Owned : (id : ℕ) (g : PeerGroup) → Owned g → Owned (remove_peer id g)
unfolding remove_peer
remove-Owned j g o id k p u hp hu =
    o id k p u
      (kept (j == id) (lookup id g.peer_mapping) p (sym (lookup-delete j id g.peer_mapping) ∙ hp))
      hu
  where
    kept :
        (b : Bool) (x : Option ServerPeer) (p : ServerPeer)
        → (if b then none else x) ≡ some p
        → x ≡ some p
    kept true x p h = absurd (cc)
    kept false x p h = h

-- However tunnels come and peers go, a tunnel is only ever in the pool of the peer whose id it
-- exchanged: no peer's pool holds a tunnel of another.
pub GroupReach-Owned : (g : PeerGroup) → GroupReach g → Owned g
unfolding new_peer_group lookup
GroupReach-Owned _ started =
    λ (id k : ℕ) (p : ServerPeer) (t : Tunnel) (h : none ≡ some p)
        (e : lookup k (tunnels p) ≡ some t).
      absurd (cc)
GroupReach-Owned _ (joined t g h) = add-Owned t g (GroupReach-Owned g h)
GroupReach-Owned _ (left id g h) = remove-Owned id g (GroupReach-Owned g h)
