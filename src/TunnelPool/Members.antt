-- ===== src/TunnelPool/Members.antt =====
-- The members of a tunnel pool, tunnel_pool/pool.go, and how many they are.
use rabbit_mtcp_ws_socks.Prelude.{
  subst, ℕ, ◌+◌, ◌%◌, ◌^◌, ◌≡◌, refl, sym, ap, ◌∙◌, inl, inr, Bool, none, some, List, [], ◌∷◌,
  arith, if◌then◌else◌, Option-cases, length,
}
use rabbit_mtcp_ws_socks.NatMap.{
  lookup, insert, delete, IsMap, insert-IsMap, delete-IsMap, length-insert_new,
  length-delete_present, lookup-insert, lookup-delete,
}
use rabbit_mtcp_ws_socks.TunnelPool.Pool.{
  Tunnel, Manager, TunnelPool, increment32, decrement32, add_tunnel, remove_tunnel, count_up,
  count_down, with_mapping,
}

-- Every tunnel stands under its id, and is of the mode.
abbrev pub Ids : Bool → List (ℕ × Tunnel) → Type 0
Ids c [] = Unit {0}
Ids c ((k, t) ∷ m) = (t.tunnel_id ≡ k) × (t.is_client_mode ≡ c) × Ids c m

insert-Ids :
    (c : Bool) (k : ℕ) (t : Tunnel) (m : List (ℕ × Tunnel))
    → t.tunnel_id ≡ k
    → t.is_client_mode ≡ c
    → Ids c m
    → Ids c (insert k t m)
unfolding insert
insert-Ids c k t [] e f h = (e, f, tt)
insert-Ids c k t ((i, u) ∷ m) e f h = ground (arith, insert-Ids c k t m)

delete-Ids : (c : Bool) (k : ℕ) (m : List (ℕ × Tunnel)) → Ids c m → Ids c (delete k m)
unfolding delete
delete-Ids c k [] h = tt
delete-Ids c k ((i, u) ∷ m) h = ground (arith, delete-Ids c k m)

lookup-Ids :
    (c : Bool) (k : ℕ) (m : List (ℕ × Tunnel)) (t : Tunnel)
    → Ids c m
    → lookup k m ≡ some t
    → (t.tunnel_id ≡ k) × (t.is_client_mode ≡ c)
unfolding lookup
lookup-Ids c k [] t h e = absurd (cc)
lookup-Ids c k ((i, u) ∷ m) t h e = ground (arith, lookup-Ids c k m t)

abbrev pub count_of : {S : Type 0} → Bool → TunnelPool S → ℕ
count_of c p = if c then p.client_tunnels else p.server_tunnels

-- The members have their ids, once each, and the counter of their mode counts them.
abbrev pub WellFormed : {S : Type 0} → Bool → TunnelPool S → Type 0
WellFormed c p =
    IsMap p.tunnel_mapping
    × Ids c p.tunnel_mapping
    × (count_of c p ≡ length p.tunnel_mapping % 2 ^ 32)

module _ {S : Type 0} (m : Manager S) where
  pub add_tunnel_mapping :
      (t : Tunnel) (p : TunnelPool S)
      → ((add_tunnel m t p).tunnel_mapping ≡ insert t.tunnel_id t p.tunnel_mapping)
        × (count_of t.is_client_mode (add_tunnel m t p) ≡ increment32 (count_of t.is_client_mode p))
        × ((add_tunnel m t p).manager
            ≡ m.notify (length (insert t.tunnel_id t p.tunnel_mapping)) p.manager)
  unfolding add_tunnel count_up with_mapping
  add_tunnel_mapping t p = ground arith

  pub remove_tunnel_mapping :
      (t t1 : Tunnel) (p : TunnelPool S)
      → lookup t.tunnel_id p.tunnel_mapping ≡ some t1
      → ((remove_tunnel m t p).tunnel_mapping ≡ delete t1.tunnel_id p.tunnel_mapping)
        × (count_of t1.is_client_mode (remove_tunnel m t p)
            ≡ decrement32 (count_of t1.is_client_mode p))
        × ((remove_tunnel m t p).manager
            ≡ m.notify (length (delete t1.tunnel_id p.tunnel_mapping)) p.manager)
  unfolding remove_tunnel count_down with_mapping
  remove_tunnel_mapping t t1 p h = ground arith

  pub remove_tunnel-none :
      (t : Tunnel) (p : TunnelPool S)
      → lookup t.tunnel_id p.tunnel_mapping ≡ none
      → remove_tunnel m t p ≡ p
  unfolding remove_tunnel
  remove_tunnel-none t p h = rw (h, remove_tunnel)

pub up_lem : (n l l' : ℕ) → n ≡ l % 2 ^ 32 → l' ≡ l + 1 → increment32 n ≡ l' % 2 ^ 32
unfolding increment32
up_lem n l l' h e = omega arith

pub down_lem : (n l l' : ℕ) → n ≡ l % 2 ^ 32 → l ≡ l' + 1 → decrement32 n ≡ l' % 2 ^ 32
unfolding decrement32
down_lem n l l' h e = omega arith

module _ {S : Type 0} (m : Manager S) where
  -- Adding a tunnel of the pool's mode, under an id that is free, keeps the members and the counter
  -- in step, and the tunnel is then found under its id.
  pub add_tunnel-WellFormed :
      (t : Tunnel) (p : TunnelPool S)
      → lookup t.tunnel_id p.tunnel_mapping ≡ none
      → WellFormed t.is_client_mode p
      → WellFormed t.is_client_mode (add_tunnel m t p)
        × (lookup t.tunnel_id (add_tunnel m t p).tunnel_mapping ≡ some t)
  add_tunnel-WellFormed t p fresh (d, ids, n) =
      let (e, f, g) = add_tunnel_mapping m t p in
      let k = t.tunnel_id in
      let c = t.is_client_mode in
      (
        (
          subst IsMap (sym e) (insert-IsMap k t p.tunnel_mapping d),
          subst (Ids c) (sym e) (insert-Ids c k t p.tunnel_mapping refl refl ids),
          f
              ∙ up_lem (count_of c p) (length p.tunnel_mapping)
                  (length (insert k t p.tunnel_mapping)) n
                  (length-insert_new k t p.tunnel_mapping fresh)
              ∙ ap (λ (l : List (ℕ × Tunnel)). length l % 2 ^ 32) (sym e),
        ),
        ap (lookup k) e ∙ lookup-insert k k t p.tunnel_mapping ∙ ground arith,
      )

  -- Removing any tunnel keeps the members and the counter in step, and no tunnel is then found
  -- under its id.
  pub remove_tunnel-WellFormed :
      (t : Tunnel) (c : Bool) (p : TunnelPool S)
      → WellFormed c p
      → WellFormed c (remove_tunnel m t p)
        × (lookup t.tunnel_id (remove_tunnel m t p).tunnel_mapping ≡ none)
  remove_tunnel-WellFormed t c p (d, ids, n) =
      elim (Option-cases (lookup t.tunnel_id p.tunnel_mapping)) [
        | inl h ↦
            let e = remove_tunnel-none m t p h in
            (
              subst (WellFormed c) (sym e) (d, ids, n),
              ap (λ (q : TunnelPool S). lookup t.tunnel_id q.tunnel_mapping) e ∙ h,
            )
        | inr (t1, h) ↦
            let (e, f, g) = remove_tunnel_mapping m t t1 p h in
            let (i, j) = lookup-Ids c t.tunnel_id p.tunnel_mapping t1 ids h in
            let k = t1.tunnel_id in
            (
              (
                subst IsMap (sym e) (delete-IsMap k p.tunnel_mapping d),
                subst (Ids c) (sym e) (delete-Ids c k p.tunnel_mapping ids),
                subst (λ (b : Bool). count_of b (remove_tunnel m t p) ≡ decrement32 (count_of b p))
                      j f
                    ∙ down_lem (count_of c p) (length p.tunnel_mapping)
                        (length (delete k p.tunnel_mapping)) n
                        (sym (
                          length-delete_present k p.tunnel_mapping {u = t1} d
                            (ap (λ (q : ℕ). lookup q p.tunnel_mapping) i ∙ h)))
                    ∙ ap (λ (l : List (ℕ × Tunnel)). length l % 2 ^ 32) (sym e),
              ),
              ap (lookup t.tunnel_id) e
                  ∙ lookup-delete k t.tunnel_id p.tunnel_mapping
                  ∙ ground (arith, i),
            )
      ]
