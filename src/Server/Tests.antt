-- ===== src/Server/Tests.antt =====
-- The server of server/server.go on concrete addresses and requests.
use rabbit_mtcp_ws_socks.Server.{
  Url, Server, handle_tunnel, dial_header, is_authorized, tunnel_added, unauthorized,
  passive_tunnel,
}
use rabbit_mtcp_ws_socks.Prelude.{
  ℕ, ◌≡◌, refl, sym, ap, true, false, Option, none, some, List, [], ◌∷◌, ◌++◌, arith, if◌then◌else◌,
  drop,
}
use rabbit_mtcp_ws_socks.Prelude.Strings.{codes, str_eq, has_prefix}
use rabbit_mtcp_ws_socks.NatMap.{lookup}
use rabbit_mtcp_ws_socks.Io.{eof}
use rabbit_mtcp_ws_socks.TunnelPool.Exchange.{
  wire, send_peer_id, passive_exchange_peer_id, active_exchange_peer_id,
}
use rabbit_mtcp_ws_socks.Pools.PeerGroup.{ServerPeer, new_peer_group}
use rabbit_mtcp_ws_socks.Pools.Owners.{tunnels}
use rabbit_mtcp_ws_socks.Server.Address.{UrlLaws}
use rabbit_mtcp_ws_socks.Server.Admission.{Cases, handle_tunnel-Cases, client_admitted}

-- A parser of two schemas that takes everything behind them for the host.
cut_scheme : List ℕ → Option Url
cut_scheme s =
    if has_prefix (codes "ws://") s
    then some (record { scheme = codes "ws"; host = drop 5 s; path = [] })
    else if has_prefix (codes "wss://") s
    then some (record { scheme = codes "wss"; host = drop 6 s; path = [] })
    else none

wss-ws : (s : List ℕ) → has_prefix (codes "wss://") s ≡ true → has_prefix (codes "ws://") s ≡ false
unfolding has_prefix
wss-ws [] h = absurd (cc)
wss-ws (a ∷ []) h = ground arith
wss-ws (a ∷ b ∷ []) h = ground arith
wss-ws (a ∷ b ∷ c ∷ s) h = ground arith

same_scheme : (v u : Url) → some v ≡ some u → u.scheme ≡ v.scheme
same_scheme v u h = let e : v ≡ u = cc in ap (λ (x : Url). x.scheme) (sym e)

cut_scheme-UrlLaws : UrlLaws cut_scheme
unfolding cut_scheme
cut_scheme-UrlLaws = record {
  keeps_ws = λ s u h e. same_scheme _ u (rw h at e);
  keeps_wss = λ s u h e. same_scheme _ u (rw (wss-ws s h, h) at e);
}

abbrev keyed_server : Server
keyed_server = record {
  peer_group = new_peer_group;
  key_file = [];
  cert_file = [];
  auth_key = codes "key";
}

handle_tunnel-Cases_example :
    Cases
      (codes "Bearer key")
      (some (wire (1 ∷ 0 ∷ 0 ∷ 0 ∷ []) eof []))
      9
      keyed_server
      (handle_tunnel (codes "Bearer key") (some (wire (1 ∷ 0 ∷ 0 ∷ 0 ∷ []) eof [])) 9 keyed_server)
handle_tunnel-Cases_example =
    handle_tunnel-Cases (codes "Bearer key") (some (wire (1 ∷ 0 ∷ 0 ∷ 0 ∷ []) eof [])) 9
      keyed_server

wrong_key : (handle_tunnel (codes "Bearer k") none 9 keyed_server).0 ≡ unauthorized
unfolding handle_tunnel is_authorized str_eq
wrong_key = refl

client_admitted_example :
    let conn = wire ((send_peer_id 258 (wire [] eof [])).1.sent ++ (7 ∷ [])) eof [] in
    let answer = (passive_exchange_peer_id conn).1.sent ++ [] in
    (p : ServerPeer) × (s' : Server) × (handle_tunnel
        (dial_header (codes "key"))
        (some conn)
        9
        keyed_server
      ≡ (tunnel_added, s'))
    × (lookup 258 s'.peer_group.peer_mapping ≡ some p)
    × (lookup 9 (tunnels p) ≡ some (passive_tunnel 9 258))
    × ((active_exchange_peer_id 258 (wire answer eof [])).0 ≡ none)
client_admitted_example = client_admitted 258 9 (7 ∷ []) [] eof keyed_server (omega arith)
