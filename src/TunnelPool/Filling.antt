-- ===== src/TunnelPool/Filling.antt =====
-- That the dialing loop of tunnel_pool/manager.go fills the pool.
use rabbit_mtcp_ws_socks.Prelude.{
  subst, ℕ, zero, suc, ◌-◌, ◌<◌, ◌≡◌, refl, sym, ap, ◌∙◌, ◌≢◌, Bool, true, false, List, [], ◌∷◌,
  arith, length, get_or, All,
}
use rabbit_mtcp_ws_socks.TunnelPool.Pool.{Tunnel, Manager, TunnelPool, add_tunnel}
use rabbit_mtcp_ws_socks.TunnelPool.Dial.{
  Dialer, Outcome, cancelled, dial_fails, exchange_fails, connects, cur_index, try_dial, dial_turn,
  decrease_loop, decrease_notify,
}
use rabbit_mtcp_ws_socks.TunnelPool.DialTurns.{
  NonEmpty, new_tunnels, NotCancelled, add_all, turn-Effect,
}

module _ {S : Type 0} (m : Manager S) (retry_failed : Bool) (error_wait : ℕ) where
  abbrev Done : Dialer S × Bool → TunnelPool S → Type 0
  Done r p = (r.1 ≡ true) × (r.0.pool ≡ p) × (r.0.to_create ≡ 0)

  abbrev run : List Outcome → Dialer S → Dialer S × Bool
  run os d = decrease_loop m retry_failed error_wait os d

  abbrev turn : Outcome → Dialer S → Dialer S
  turn o d = dial_turn m retry_failed error_wait o d

  loop_goes :
      (o : Outcome) (os : List Outcome) (d : Dialer S) (n : ℕ)
      → o ≢ cancelled
      → d.to_create ≡ suc n
      → decrease_loop m retry_failed error_wait (o ∷ os) d
        ≡ decrease_loop m retry_failed error_wait os (dial_turn m retry_failed error_wait o d)
  unfolding decrease_loop
  loop_goes cancelled os d n h e = absurd (h refl)
  loop_goes dial_fails os d n h e = ground arith
  loop_goes exchange_fails os d n h e = ground arith
  loop_goes (connects t) os d n h e = ground arith

  loop_stops :
      (o : Outcome) (os : List Outcome) (d : Dialer S)
      → d.to_create ≡ 0
      → decrease_loop m retry_failed error_wait (o ∷ os) d ≡ (d, true)
  unfolding decrease_loop
  loop_stops cancelled os d e = refl
  loop_stops dial_fails os d e = ground arith
  loop_stops exchange_fails os d e = ground arith
  loop_stops (connects t) os d e = ground arith

  empty_run : (d : Dialer S) → d.to_create ≡ 0 → Done (run [] d) d.pool
  unfolding decrease_loop
  empty_run d e = (rw e, refl, e)

  no_endpoint : (o : Outcome) (d : Dialer S) → d.endpoints ≡ [] → turn o d ≡ d
  unfolding dial_turn try_dial
  no_endpoint o d h =
      ap
        (λ (es : List (List ℕ)).
          try_dial m retry_failed error_wait (cur_index d.to_create es)
            (get_or es (cur_index d.to_create es) []) o d)
        h

  spins :
      (os : List Outcome) (d : Dialer S) (n : ℕ)
      → d.endpoints ≡ []
      → d.to_create ≡ suc n
      → NotCancelled os
      → run os d ≡ (d, false)
  unfolding decrease_loop
  spins [] d n h e c = ap (λ (b : Bool). (d, b)) (rw e (ground arith))
  spins (o ∷ os) d n h e (c, cs) =
      loop_goes o os d n c e ∙ ap (run os) (no_endpoint o d h) ∙ spins os d n h e cs

  after_turn :
      (o : Outcome) (os : List Outcome) (ts : List Tunnel) (d : Dialer S) (n : ℕ) (p : TunnelPool S)
      → o ≢ cancelled
      → d.to_create ≡ suc n
      → (turn o d).pool ≡ p
      → Done (run os (turn o d)) (add_all m ts (turn o d).pool)
      → Done (run (o ∷ os) d) (add_all m ts p)
  after_turn o os ts d n p c e q h =
      subst (λ (r : Dialer S × Bool). Done r (add_all m ts p)) (sym (loop_goes o os d n c e))
        (subst (λ (x : TunnelPool S). Done (run os (turn o d)) (add_all m ts x)) q h)

  loop_fills :
      (os : List Outcome) (d : Dialer S) (n : ℕ)
      → d.to_create ≡ n
      → NotCancelled os
      → All NonEmpty d.endpoints
      → 0 < length d.endpoints
      → length (new_tunnels n os) ≡ n
      → Done (run os d) (add_all m (new_tunnels n os) d.pool)
  unfolding new_tunnels add_all
  loop_fills [] d zero e c h k l = empty_run d e
  loop_fills [] d (suc n) e c h k l = absurd (omega arith)
  loop_fills (o ∷ os) d zero e c h k l =
      subst (λ (r : Dialer S × Bool). Done r d.pool) (sym (loop_stops o os d e)) (refl, refl, e)
  loop_fills (cancelled ∷ os) d (suc n) e (c, cs) h k l = absurd (c refl)
  loop_fills (dial_fails ∷ os) d (suc n) e (c, cs) h k l =
      let ((p, q), a, b) = turn-Effect m retry_failed error_wait dial_fails d h k in
      after_turn dial_fails os (new_tunnels (suc n) os) d n d.pool c e p
        (loop_fills os (turn dial_fails d) (suc n) (q ∙ e) cs a b l)
  loop_fills (exchange_fails ∷ os) d (suc n) e (c, cs) h k l =
      let ((p, q), a, b) = turn-Effect m retry_failed error_wait exchange_fails d h k in
      after_turn exchange_fails os (new_tunnels (suc n) os) d n d.pool c e p
        (loop_fills os (turn exchange_fails d) (suc n) (q ∙ e) cs a b l)
  loop_fills (connects t ∷ os) d (suc n) e (c, cs) h k l =
      let ((p, q), a, b) = turn-Effect m retry_failed error_wait (connects t) d h k in
      after_turn (connects t) os (new_tunnels n os) d n (add_tunnel m t d.pool) c e p (
        loop_fills os (turn (connects t) d) n (q ∙ ap (λ x. x - 1) {y = suc n} e ∙ omega arith) cs a
          b (omega arith))

  -- DecreaseNotify fills the pool: with at least one endpoint and none empty, while the pool is not
  -- cancelled and enough dials succeed, the loop ends, having added to the pool the tunnels of the
  -- first dials that succeed, as many as the pool had fewer than tunnel_num, and no others.
  pub decrease_notify_fills :
      (tunnel_num : ℕ) (es : List (List ℕ)) (p : TunnelPool S) (os : List Outcome)
      → All NonEmpty es
      → 0 < length es
      → NotCancelled os
      → length (new_tunnels (tunnel_num - length p.tunnel_mapping) os)
        ≡ tunnel_num - length p.tunnel_mapping
      → let r = decrease_notify m retry_failed error_wait tunnel_num es p os in
        (r.1 ≡ true)
        × (r.0.pool ≡ add_all m (new_tunnels (tunnel_num - length p.tunnel_mapping) os) p)
  unfolding decrease_notify
  decrease_notify_fills tunnel_num es p os h k c l =
      let n = tunnel_num - length p.tunnel_mapping in
      let (a, b, z) =
        loop_fills os
          (record {
            endpoints = es;
            last_failed = [];
            retry_weight = [];
            slept = [];
            pool = p;
            to_create = n;
          })
          n refl c h k l in
      (a, b)

  -- Without an endpoint the loop neither dials nor waits nor returns: a pool that lacks tunnels, and
  -- is not cancelled, keeps it running with nothing done.
  pub decrease_notify_spins :
      (tunnel_num : ℕ) (p : TunnelPool S) (os : List Outcome)
      → NotCancelled os
      → length p.tunnel_mapping < tunnel_num
      → let r = decrease_notify m retry_failed error_wait tunnel_num [] p os in
        (r.1 ≡ false) × (r.0.pool ≡ p) × (r.0.slept ≡ [])
  unfolding decrease_notify
  decrease_notify_spins tunnel_num p os c h =
      let n = tunnel_num - length p.tunnel_mapping in
      let e =
        spins os
          (record {
            endpoints = [];
            last_failed = [];
            retry_weight = [];
            slept = [];
            pool = p;
            to_create = n;
          })
          (n - 1) refl (omega arith) c in
      (
        ap (λ (r : Dialer S × Bool). r.1) e,
        ap (λ (r : Dialer S × Bool). r.0.pool) e,
        ap (λ (r : Dialer S × Bool). r.0.slept) e,
      )
