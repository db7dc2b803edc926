-- ===== src/TunnelPool/DialTurns.antt =====
-- One turn of the dialing loop of tunnel_pool/manager.go.
use rabbit_mtcp_ws_socks.Prelude.{
  subst, ℕ, zero, suc, ◌+◌, ◌-◌, ◌<◌, ◌≡◌, refl, sym, ap, ◌≢◌, inl, inr, Bool, List, [], ◌∷◌, arith,
  ◌==◌, lt→ltb, Bool-cases, length, get_or, set, All,
}
use native.Mathlib.Nat.{mod-lt}
use rabbit_mtcp_ws_socks.TunnelPool.Pool.{Tunnel, Manager, TunnelPool, add_tunnel}
use rabbit_mtcp_ws_socks.TunnelPool.Dial.{
  Dialer, Outcome, cancelled, dial_fails, exchange_fails, connects, with_scheme, cur_index,
  move_failed, note_failure, dial, try_dial, dial_turn,
}
use rabbit_mtcp_ws_socks.TunnelPool.Endpoints.{
  with_scheme_nonempty, note_success_endpoints, note_failure_endpoints, turn_endpoints,
}

abbrev pub NonEmpty : List ℕ → Type 0
NonEmpty e = 0 < length e

All-set :
    (es : List (List ℕ)) (i : ℕ) (v : List ℕ)
    → All NonEmpty es
    → NonEmpty v
    → All NonEmpty (set es i v)
All-set [] i v h k = tt
All-set (e ∷ es) zero v (h, hs) k = (k, hs)
All-set (e ∷ es) (suc i) v (h, hs) k = (h, All-set es i v hs k)

All-get : (es : List (List ℕ)) (i : ℕ) → All NonEmpty es → i < length es → NonEmpty (get_or es i [])
All-get [] i h k = absurd (omega arith)
All-get (e ∷ es) zero (h, hs) k = h
All-get (e ∷ es) (suc i) (h, hs) k = All-get es i hs (omega arith)

move_failed-NonEmpty :
    (cur : ℕ) (e : List ℕ) (es : List (List ℕ))
    → All NonEmpty es
    → NonEmpty e
    → cur < length es
    → All NonEmpty (move_failed cur e es)
unfolding move_failed
move_failed-NonEmpty cur e es h k l = elim (Bool-cases (cur == length es - 1)) [
  | inl c ↦ rw c (
      All-set (set es cur (get_or es 0 [])) 0 e
        (All-set es cur (get_or es 0 []) h (All-get es 0 h (omega arith))) k)
  | inr c ↦ rw c (
      All-set (set es cur (get_or es (cur + 1) [])) (cur + 1) e
        (All-set es cur (get_or es (cur + 1) []) h (All-get es (cur + 1) h (ground arith))) k)
]

-- The tunnels of the first `n` dials that succeed.
unfoldable pub new_tunnels : ℕ → List Outcome → List Tunnel
new_tunnels n [] = []
new_tunnels zero (o ∷ os) = []
new_tunnels (suc n) (connects t ∷ os) = t ∷ new_tunnels n os
new_tunnels (suc n) (o ∷ os) = new_tunnels (suc n) os

abbrev pub NotCancelled : List Outcome → Type 0
NotCancelled [] = Unit {0}
NotCancelled (o ∷ os) = (o ≢ cancelled) × NotCancelled os

module _ {S : Type 0} (m : Manager S) where
  unfoldable pub add_all : List Tunnel → TunnelPool S → TunnelPool S
  add_all [] p = p
  add_all (t ∷ ts) p = add_all ts (add_tunnel m t p)

cur_index-lt : (n : ℕ) (es : List (List ℕ)) → 0 < length es → cur_index n es < length es
unfolding cur_index
cur_index-lt n es h = rw (lt→ltb 0 (length es) h) (mod-lt (n - 1) h)

module _ {S : Type 0} (m : Manager S) (retry_failed : Bool) (error_wait : ℕ) where
  abbrev pub Effect : Outcome → Dialer S → Dialer S → Type 0
  Effect (connects t) d d' = (d'.pool ≡ add_tunnel m t d.pool) × (d'.to_create ≡ d.to_create - 1)
  Effect o d d' = (d'.pool ≡ d.pool) × (d'.to_create ≡ d.to_create)

  failure_effect :
      (cur : ℕ) (e : List ℕ) (d : Dialer S)
      → let d' = note_failure retry_failed error_wait cur e d in
        (d'.pool ≡ d.pool) × (d'.to_create ≡ d.to_create)
  unfolding note_failure
  failure_effect cur e d = (refl, refl)

  dial-Effect :
      (cur : ℕ) (e : List ℕ) (o : Outcome) (d : Dialer S)
      → All NonEmpty d.endpoints
      → NonEmpty e
      → cur < length d.endpoints
      → let d' = dial m retry_failed error_wait cur e o d in
        Effect o d d' × All NonEmpty d'.endpoints
  unfolding dial
  dial-Effect cur e cancelled d h k l = ((refl, refl), h)
  dial-Effect cur e dial_fails d h k l = (
    failure_effect cur e d,
    elim (note_failure_endpoints retry_failed error_wait cur e d) [
      | inl q ↦ subst (All NonEmpty) (sym q) h
      | inr q ↦ subst (All NonEmpty) (sym q) (move_failed-NonEmpty cur e d.endpoints h k l)
    ],
  )
  dial-Effect cur e exchange_fails d h k l =
      let (a, b, c) = note_success_endpoints e d in ((b, c), subst (All NonEmpty) (sym a) h)
  dial-Effect cur e (connects t) d h k l =
      let (a, b, c) = note_success_endpoints e d in
      ((ap (add_tunnel m t) b, ap (λ x. x - 1) c), subst (All NonEmpty) (sym a) h)

  try_dial-Effect :
      (cur : ℕ) (e : List ℕ) (o : Outcome) (d : Dialer S)
      → All NonEmpty d.endpoints
      → NonEmpty e
      → cur < length d.endpoints
      → let d' = try_dial m retry_failed error_wait cur e o d in
        Effect o d d' × All NonEmpty d'.endpoints
  unfolding try_dial
  try_dial-Effect cur [] o d h k l = absurd (omega arith)
  try_dial-Effect cur (b ∷ bs) o d h k l =
      dial-Effect cur (with_scheme (b ∷ bs)) o d h (with_scheme_nonempty b bs) l

  pub turn-Effect :
      (o : Outcome) (d : Dialer S)
      → All NonEmpty d.endpoints
      → 0 < length d.endpoints
      → let d' = dial_turn m retry_failed error_wait o d in
        Effect o d d' × All NonEmpty d'.endpoints × (0 < length d'.endpoints)
  unfolding dial_turn
  turn-Effect o d h k =
      let cur = cur_index d.to_create d.endpoints in
      let l = cur_index-lt d.to_create d.endpoints k in
      let (e, n) =
        try_dial-Effect cur (get_or d.endpoints cur []) o d h (All-get d.endpoints cur h l) l in
      (e, n, subst (λ (x : ℕ). 0 < x) (sym (turn_endpoints m retry_failed error_wait o d).1) k)
