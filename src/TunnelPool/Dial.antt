-- ===== src/TunnelPool/Dial.antt =====
-- ClientManager of tunnel_pool/manager.go: the loop that dials until the pool is large enough.
use rabbit_mtcp_ws_socks.Prelude.{
  ℕ, zero, suc, ◌+◌, ◌-◌, ◌*◌, ◌%◌, Bool, true, not, ◌&&◌, List, [], ◌∷◌, ◌++◌, ltb, ◌==◌,
  if◌then◌else◌, length, get_or, set,
}
use rabbit_mtcp_ws_socks.Prelude.Strings.{str_eq, contains}
use rabbit_mtcp_ws_socks.TunnelPool.Pool.{Tunnel, Manager, TunnelPool, add_tunnel}

abbrev pub ws_scheme : List ℕ
ws_scheme = b'w' ∷ b's' ∷ b':' ∷ b'/' ∷ b'/' ∷ []

abbrev pub wss_scheme : List ℕ
wss_scheme = b'w' ∷ b's' ∷ b's' ∷ b':' ∷ b'/' ∷ b'/' ∷ []

-- The prefix that an endpoint without a scheme gets.
unfoldable pub with_scheme : List ℕ → List ℕ
with_scheme e =
    if not (contains e wss_scheme) && not (contains e ws_scheme) then ws_scheme ++ e else e

-- The map of retry weights; a missing key has weight 0.
unfoldable pub weight : List ℕ → List (List ℕ × ℕ) → ℕ
weight e [] = 0
weight e ((k, w) ∷ ws) = if str_eq k e then w else weight e ws

unfoldable pub set_weight : List ℕ → ℕ → List (List ℕ × ℕ) → List (List ℕ × ℕ)
set_weight e w [] = (e, w) ∷ []
set_weight e w ((k, v) ∷ ws) = if str_eq k e then (k, w) ∷ ws else (k, v) ∷ set_weight e w ws

-- What happens in a turn of the loop: the pool is cancelled, or the dialed endpoint refuses, or the
-- exchange of peer ids fails, or there is a tunnel.
pub data Outcome : Type 0 where
  cancelled : Outcome
  dial_fails : Outcome
  exchange_fails : Outcome
  connects : Tunnel → Outcome

-- The local variables of `DecreaseNotify` with cm.endpoints and the pool; `slept` has the waits in
-- seconds.
pub record Dialer (S : Type 0) : Type 0 where
  pub endpoints : List (List ℕ)
  pub last_failed : List ℕ
  pub retry_weight : List (List ℕ × ℕ)
  pub to_create : ℕ
  pub slept : List ℕ
  pub pool : TunnelPool S

unfoldable pub cur_index : ℕ → List (List ℕ) → ℕ
cur_index to_create es = if ltb 0 (length es) then (to_create - 1) % length es else 0

-- An endpoint that fails for the second time changes places with the next one, or with the first
-- when it is the last.
unfoldable pub move_failed : ℕ → List ℕ → List (List ℕ) → List (List ℕ)
move_failed cur endpoint es =
    if cur == length es - 1
    then set (set es cur (get_or es 0 [])) 0 endpoint
    else set (set es cur (get_or es (cur + 1) [])) (cur + 1) endpoint

module _ {S : Type 0} where
  -- The branch of a dial that failed.
  unfoldable pub note_failure :
      (retry_failed : Bool) → (error_wait cur : ℕ) → List ℕ → Dialer S → Dialer S
  note_failure retry_failed error_wait cur endpoint d =
      let w = weight endpoint d.retry_weight in
      let es =
        if retry_failed
        then d.endpoints
        else if str_eq d.last_failed endpoint
        then move_failed cur endpoint d.endpoints
        else d.endpoints in
      let ws =
        if retry_failed
        then (if ltb w 5 then set_weight endpoint (w + 1) d.retry_weight else d.retry_weight)
        else set_weight endpoint 1 d.retry_weight in
      record d {
        endpoints = es;
        retry_weight = ws;
        last_failed = endpoint;
        slept = d.slept ++ (weight endpoint ws * error_wait ∷ []);
      }

  unfoldable pub note_success : List ℕ → Dialer S → Dialer S
  note_success endpoint d =
      if str_eq d.last_failed endpoint
      then record d { last_failed = []; retry_weight = set_weight endpoint 0 d.retry_weight }
      else d

  module _ (m : Manager S) (retry_failed : Bool) (error_wait : ℕ) where
    -- What a turn does with its endpoint, which is not empty.
    unfoldable pub dial : ℕ → List ℕ → Outcome → Dialer S → Dialer S
    dial cur endpoint cancelled d = d
    dial cur endpoint dial_fails d = note_failure retry_failed error_wait cur endpoint d
    dial cur endpoint exchange_fails d =
        let d' = note_success endpoint d in record d' { slept = d'.slept ++ (error_wait ∷ []) }
    dial cur endpoint (connects t) d =
        let d' = note_success endpoint d in
        record d' { pool = add_tunnel m t d'.pool; to_create = d'.to_create - 1 }

    -- An empty endpoint is not dialed.
    unfoldable pub try_dial : ℕ → List ℕ → Outcome → Dialer S → Dialer S
    try_dial cur [] o d = d
    try_dial cur (b ∷ bs) o d = dial cur (with_scheme (b ∷ bs)) o d

    -- A turn that the cancelled pool does not end.
    unfoldable pub dial_turn : Outcome → Dialer S → Dialer S
    dial_turn o d =
        let cur = cur_index d.to_create d.endpoints in try_dial cur (get_or d.endpoints cur []) o d

    -- The loop, for as many turns as there are outcomes, and whether it has ended.
    unfoldable pub decrease_loop : List Outcome → Dialer S → Dialer S × Bool
    decrease_loop [] d = (d, d.to_create == 0)
    decrease_loop (cancelled ∷ os) d = (d, true)
    decrease_loop (o ∷ os) d = elim d.to_create [
      | zero ↦ (d, true)
      | suc n ↦ decrease_loop os (dial_turn o d)
    ]

    -- `DecreaseNotify`: cm.tunnelNum less the size of the pool is what is to be created.
    unfoldable pub decrease_notify :
        (tunnel_num : ℕ) → List (List ℕ) → TunnelPool S → List Outcome → Dialer S × Bool
    decrease_notify tunnel_num es p os = decrease_loop os (record {
      endpoints = es;
      last_failed = [];
      retry_weight = [];
      slept = [];
      pool = p;
      to_create = tunnel_num - length p.tunnel_mapping;
    })
