-- ===== src/Server/Admission.antt =====
-- Which requests become tunnels of server/server.go's server.
use rabbit_mtcp_ws_socks.Server.{
  Server, handle_tunnel, is_authorized, dial_header, exchanged, passive_tunnel, tunnel_added,
  upgraded, Outcome,
}
use rabbit_mtcp_ws_socks.Prelude.{
  ℕ, ◌^◌, ◌<◌, ◌≡◌, refl, ap, ◌∙◌, ◌≢◌, ◌⊎◌, inl, inr, true, Option, none, some, List, [], ◌∷◌,
  ◌++◌, ◌==◌, if◌then◌else◌, eq→==, Bool-cases, Result, ok, err,
}
use rabbit_mtcp_ws_socks.Prelude.Strings.{codes, str_eq, str_eq_refl, str_eq→eq}
use rabbit_mtcp_ws_socks.NatMap.{lookup, lookup-insert}
use rabbit_mtcp_ws_socks.Io.{IoError}
use rabbit_mtcp_ws_socks.TunnelPool.Exchange.{
  Wire, ExchangeError, wire, send_peer_id, passive_exchange_peer_id, active_exchange_peer_id,
  exchange_agrees,
}
use rabbit_mtcp_ws_socks.TunnelPool.Pool.{Tunnel}
use rabbit_mtcp_ws_socks.TunnelPool.Members.{add_tunnel_mapping}
use rabbit_mtcp_ws_socks.TunnelPool.Removal.{server_ops}
use rabbit_mtcp_ws_socks.Pools.PeerGroup.{
  ServerPeer, PeerGroup, group_add_tunnel, give_tunnel, peer_for,
}
use rabbit_mtcp_ws_socks.Pools.Owners.{tunnels}

-- A request that became a tunnel: it was authorized, upgraded, and the peer gave its id.
pub record Admitted (header : List ℕ) (conn : Option Wire) (tunnel_id : ℕ) (s s' : Server)
    : Type 0 where
  pub authorized : (s.auth_key ≡ []) ⊎ (header ≡ codes "Bearer " ++ s.auth_key)
  pub peer_id : ℕ
  pub before : Wire
  pub after : Wire
  pub upgraded_to : conn ≡ some before
  pub exchanged_id : passive_exchange_peer_id before ≡ (ok peer_id, after)
  pub joined :
      s'
      ≡ record s { peer_group = group_add_tunnel (passive_tunnel tunnel_id peer_id) s.peer_group }

-- The answer is that a tunnel was added, and it was; or it is another one, and nothing has changed.
abbrev pub Cases : List ℕ → Option Wire → ℕ → Server → Outcome × Server → Type 0
Cases header conn tunnel_id s (o, s') =
    ((o ≡ tunnel_added) × Admitted header conn tunnel_id s s') ⊎ ((o ≢ tunnel_added) × (s' ≡ s))

exchanged-Cases :
    (header : List ℕ) (tunnel_id : ℕ) (s : Server) (w : Wire) (r : Result ExchangeError ℕ × Wire)
    → (s.auth_key ≡ []) ⊎ (header ≡ codes "Bearer " ++ s.auth_key)
    → passive_exchange_peer_id w ≡ r
    → Cases header (some w) tunnel_id s (exchanged tunnel_id s r)
exchanged-Cases header tunnel_id s w (err e, w') a h = inr ((λ x. cc), refl)
exchanged-Cases header tunnel_id s w (ok id, w') a h = inl (
  refl,
  record {
    authorized = a;
    peer_id = id;
    before = w;
    after = w';
    upgraded_to = refl;
    exchanged_id = h;
    joined = refl;
  },
)

upgraded-Cases :
    (header : List ℕ) (tunnel_id : ℕ) (s : Server) (conn : Option Wire)
    → (s.auth_key ≡ []) ⊎ (header ≡ codes "Bearer " ++ s.auth_key)
    → let (o, s') = upgraded tunnel_id s conn in
      ((o ≡ tunnel_added) × Admitted header conn tunnel_id s s') ⊎ ((o ≢ tunnel_added) × (s' ≡ s))
upgraded-Cases header tunnel_id s none a = inr ((λ x. cc), refl)
upgraded-Cases header tunnel_id s (some w) a =
    exchanged-Cases header tunnel_id s w (passive_exchange_peer_id w) a refl

is_authorized-header :
    (key header : List ℕ)
    → is_authorized key header ≡ true
    → (key ≡ []) ⊎ (header ≡ codes "Bearer " ++ key)
unfolding is_authorized str_eq
is_authorized-header [] header h = inl refl
is_authorized-header (k ∷ ks) header h = inr (str_eq→eq header (codes "Bearer " ++ (k ∷ ks)) h)

-- The handler admits exactly the requests of the given kind: either the answer is that a tunnel was
-- added, and then the server has no key or the request's Authorization header is Bearer with the
-- key, the connection was upgraded, the peer gave its id, and what changed is that the group has a
-- new tunnel of this peer; or it is another answer, and the server has not changed.
pub handle_tunnel-Cases :
    (header : List ℕ) (conn : Option Wire) (tunnel_id : ℕ) (s : Server)
    → let (o, s') = handle_tunnel header conn tunnel_id s in
      ((o ≡ tunnel_added) × Admitted header conn tunnel_id s s') ⊎ ((o ≢ tunnel_added) × (s' ≡ s))
unfolding handle_tunnel
handle_tunnel-Cases header conn tunnel_id s = elim (Bool-cases (is_authorized s.auth_key header)) [
  | inl allowed ↦
      rw allowed
        (upgraded-Cases header tunnel_id s conn (is_authorized-header s.auth_key header allowed))
  | inr refused ↦ rw refused (inr ((λ x. cc), refl))
]

test_same {ℓ} : {A : Type ℓ} (k : ℕ) (x y : A) → (if k == k then x else y) ≡ x
test_same k x y = rw (eq→== k k refl)

joined_tunnel :
    (t : Tunnel) (g : PeerGroup)
    → (p : ServerPeer) × (lookup t.peer_id (group_add_tunnel t g).peer_mapping ≡ some p)
      × (lookup t.tunnel_id (tunnels p) ≡ some t)
unfolding group_add_tunnel give_tunnel
joined_tunnel t g = (
  give_tunnel t (peer_for t.peer_id g),
  lookup-insert t.peer_id t.peer_id _ g.peer_mapping ∙ test_same t.peer_id _ _,
  ap (lookup t.tunnel_id) (add_tunnel_mapping server_ops t (peer_for t.peer_id g).tunnel_pool).0
      ∙ lookup-insert t.tunnel_id t.tunnel_id t _
      ∙ test_same t.tunnel_id _ _,
)

is_authorized-dial_header : (key : List ℕ) → is_authorized key (dial_header key) ≡ true
unfolding is_authorized dial_header str_eq
is_authorized-dial_header [] = refl
is_authorized-dial_header (k ∷ ks) = str_eq_refl (codes "Bearer " ++ (k ∷ ks))

-- Client and server with the same key come together: a client dials with its Authorization header
-- and sends its 32-bit peer id; the server then adds the tunnel, which stands under its id in the
-- pool of the peer with the client's id; and the client accepts the answer that the server sent.
pub client_admitted :
    (id tunnel_id : ℕ) (rest answers : List ℕ) (e : IoError) (s : Server)
    → id < 2 ^ 32
    → let conn = wire ((send_peer_id id (wire answers e [])).1.sent ++ rest) e [] in
      let answer = (passive_exchange_peer_id conn).1.sent ++ answers in
      (p : ServerPeer) × (s' : Server) × (handle_tunnel
          (dial_header s.auth_key)
          (some conn)
          tunnel_id
          s
        ≡ (tunnel_added, s'))
      × (lookup id s'.peer_group.peer_mapping ≡ some p)
      × (lookup tunnel_id (tunnels p) ≡ some (passive_tunnel tunnel_id id))
      × ((active_exchange_peer_id id (wire answer e [])).0 ≡ none)
unfolding handle_tunnel
client_admitted id tunnel_id rest answers e s h =
    let (sent, passive, active) = exchange_agrees id rest answers [] e h in
    let (_, _, accepts) = exchange_agrees id answers answers [] e h in
    let t = passive_tunnel tunnel_id id in
    let (p, found, has) = joined_tunnel t s.peer_group in
    (
      p,
      record s { peer_group = group_add_tunnel t s.peer_group },
      rw (is_authorized-dial_header s.auth_key, sent, passive),
      found,
      has,
      rw (sent, passive, accepts),
    )
