-- ===== src/TunnelPool/Endpoints.antt =====
-- The endpoints of the dialing loop of tunnel_pool/manager.go: reordered, never lost.
use rabbit_mtcp_ws_socks.Prelude.{
  subst, ℕ, zero, suc, ◌+◌, ◌-◌, ◌<◌, ◌≡◌, refl, sym, ap, ◌∙◌, ◌⊎◌, inl, inr, Bool, true, not, ◌&&◌,
  List, [], ◌∷◌, ◌++◌, arith, ◌==◌, if◌then◌else◌, Bool-cases, length, get_or, set,
}
use rabbit_mtcp_ws_socks.Prelude.Strings.{str_eq, contains, has_prefix-append, contains_prefix}
use rabbit_mtcp_ws_socks.TunnelPool.Pool.{Manager}
use rabbit_mtcp_ws_socks.TunnelPool.Dial.{
  Dialer, Outcome, cancelled, dial_fails, exchange_fails, connects, with_scheme, ws_scheme,
  wss_scheme, cur_index, move_failed, note_failure, note_success, dial, dial_turn, try_dial,
  decrease_loop,
}

-- The number of endpoints that are dialed as `x`.
unfoldable pub same : List ℕ → List ℕ → ℕ
same e x = if str_eq (with_scheme e) x then 1 else 0

unfoldable pub occurrences : List ℕ → List (List ℕ) → ℕ
occurrences x [] = 0
occurrences x (e ∷ es) = same e x + occurrences x es

scheme_kept : (e : List ℕ) → contains e ws_scheme ≡ true → with_scheme e ≡ e
unfolding with_scheme
scheme_kept e h = ground arith

with_scheme_twice : (e : List ℕ) → with_scheme (with_scheme e) ≡ with_scheme e
unfolding with_scheme
with_scheme_twice e =
    elim (Bool-cases (not (contains e wss_scheme) && not (contains e ws_scheme))) [
      | inl h ↦ rw h (
          scheme_kept (ws_scheme ++ e)
            (contains_prefix (ws_scheme ++ e) ws_scheme (has_prefix-append ws_scheme e)))
      | inr h ↦ rw (h, h)
    ]

pub with_scheme_nonempty : (b : ℕ) (bs : List ℕ) → 0 < length (with_scheme (b ∷ bs))
unfolding with_scheme
with_scheme_nonempty b bs = ground arith

same_twice : (e x : List ℕ) → same (with_scheme e) x ≡ same e x
unfolding same
same_twice e x = rw (with_scheme_twice e)

occurrences-set :
    (x v : List ℕ) (es : List (List ℕ)) (i : ℕ)
    → i < length es
    → occurrences x (set es i v) + same (get_or es i []) x ≡ occurrences x es + same v x
unfolding occurrences
occurrences-set x v [] i h = absurd (omega arith)
occurrences-set x v (e ∷ es) zero h = omega arith
occurrences-set x v (e ∷ es) (suc i) h = omega (arith, occurrences-set x v es i (omega arith))

pub length-set : (es : List (List ℕ)) (i : ℕ) (v : List ℕ) → length (set es i v) ≡ length es
length-set [] i v = refl
length-set (e ∷ es) zero v = refl
length-set (e ∷ es) (suc i) v = ap suc (length-set es i v)

get_or-set :
    (es : List (List ℕ)) (i j : ℕ) (v : List ℕ) → v ≡ get_or es j [] → get_or (set es i v) j [] ≡ v
get_or-set [] i j v h = sym h
get_or-set (e ∷ es) zero zero v h = refl
get_or-set (e ∷ es) zero (suc j) v h = sym h
get_or-set (e ∷ es) (suc i) zero v h = sym h
get_or-set (e ∷ es) (suc i) (suc j) v h = get_or-set es i j v h

swap_lem :
    (x endpoint : List ℕ) (es : List (List ℕ)) (i j : ℕ)
    → i < length es
    → j < length es
    → endpoint ≡ with_scheme (get_or es i [])
    → occurrences x (set (set es i (get_or es j [])) j endpoint) ≡ occurrences x es
swap_lem x endpoint es i j hi hj e =
    let es1 = set es i (get_or es j []) in
    let a = occurrences-set x (get_or es j []) es i hi in
    let b =
      occurrences-set x endpoint es1 j
        (subst (λ (l : ℕ). j < l) (sym (length-set es i (get_or es j []))) hj) in
    let c = ap (λ (z : List ℕ). same z x) (get_or-set es i j (get_or es j []) refl) in
    let d = ap (λ (z : List ℕ). same z x) e ∙ same_twice (get_or es i []) x in omega arith

move_failed-occurrences :
    (x endpoint : List ℕ) (es : List (List ℕ)) (cur : ℕ)
    → cur < length es
    → endpoint ≡ with_scheme (get_or es cur [])
    → (occurrences x (move_failed cur endpoint es) ≡ occurrences x es)
      × (length (move_failed cur endpoint es) ≡ length es)
unfolding move_failed
move_failed-occurrences x endpoint es cur h e = elim (Bool-cases (cur == length es - 1)) [
  | inl c ↦ rw c (
    swap_lem x endpoint es cur 0 h (omega arith) e,
    length-set (set es cur (get_or es 0 [])) 0 endpoint ∙ length-set es cur (get_or es 0 []),
  )
  | inr c ↦ rw c (
    swap_lem x endpoint es cur (cur + 1) h (ground arith) e,
    length-set (set es cur (get_or es (cur + 1) [])) (cur + 1) endpoint
        ∙ length-set es cur (get_or es (cur + 1) []),
  )
]

module _ {S : Type 0} where
  pub note_failure_endpoints :
      (retry_failed : Bool) (error_wait cur : ℕ) (endpoint : List ℕ) (d : Dialer S)
      → let d' = note_failure retry_failed error_wait cur endpoint d in
        (d'.endpoints ≡ d.endpoints) ⊎ (d'.endpoints ≡ move_failed cur endpoint d.endpoints)
  unfolding note_failure
  note_failure_endpoints retry_failed error_wait cur endpoint d = ground arith

  pub note_success_endpoints :
      (endpoint : List ℕ) (d : Dialer S)
      → let d' = note_success endpoint d in
        (d'.endpoints ≡ d.endpoints) × (d'.pool ≡ d.pool) × (d'.to_create ≡ d.to_create)
  unfolding note_success
  note_success_endpoints endpoint d = ground arith

-- Two lists have the same endpoints, up to their order and the scheme they are dialed with.
abbrev pub SameEndpoints : List (List ℕ) → List (List ℕ) → Type 0
SameEndpoints es es' =
    ((x : List ℕ) → occurrences x es' ≡ occurrences x es) × (length es' ≡ length es)

by_endpoints : {es es' : List (List ℕ)} → es' ≡ es → SameEndpoints es es'
by_endpoints h = ((λ (x : List ℕ). ap (occurrences x) h), ap length h)

pub in_range :
    (es : List (List ℕ)) (i b : ℕ) (bs : List ℕ) → b ∷ bs ≡ get_or es i [] → i < length es
in_range [] i b bs h = absurd (cc)
in_range (e ∷ es) zero b bs h = omega arith
in_range (e ∷ es) (suc i) b bs h = omega (arith, in_range es i b bs h)

module _ {S : Type 0} (m : Manager S) (retry_failed : Bool) (error_wait : ℕ) where
  dial_endpoints :
      (cur : ℕ) (endpoint : List ℕ) (o : Outcome) (d : Dialer S)
      → cur < length d.endpoints
      → endpoint ≡ with_scheme (get_or d.endpoints cur [])
      → SameEndpoints d.endpoints (dial m retry_failed error_wait cur endpoint o d).endpoints
  unfolding dial
  dial_endpoints cur endpoint cancelled d h e = by_endpoints refl
  dial_endpoints cur endpoint dial_fails d h e =
      elim (note_failure_endpoints retry_failed error_wait cur endpoint d) [
        | inl k ↦ by_endpoints k
        | inr k ↦ (
          (λ (x : List ℕ).
              ap (occurrences x) k ∙ (move_failed-occurrences x endpoint d.endpoints cur h e).0),
          ap length k ∙ (move_failed-occurrences [] endpoint d.endpoints cur h e).1,
        )
      ]
  dial_endpoints cur endpoint exchange_fails d h e =
      by_endpoints (note_success_endpoints endpoint d).0
  dial_endpoints cur endpoint (connects t) d h e =
      by_endpoints (note_success_endpoints endpoint d).0

  try_dial_endpoints :
      (cur : ℕ) (e : List ℕ) (o : Outcome) (d : Dialer S)
      → e ≡ get_or d.endpoints cur []
      → SameEndpoints d.endpoints (try_dial m retry_failed error_wait cur e o d).endpoints
  unfolding try_dial
  try_dial_endpoints cur [] o d h = by_endpoints refl
  try_dial_endpoints cur (b ∷ bs) o d h =
      dial_endpoints cur (with_scheme (b ∷ bs)) o d (in_range d.endpoints cur b bs h)
        (ap with_scheme h)

  pub turn_endpoints :
      (o : Outcome) (d : Dialer S)
      → SameEndpoints d.endpoints (dial_turn m retry_failed error_wait o d).endpoints
  unfolding dial_turn
  turn_endpoints o d =
      try_dial_endpoints (cur_index d.to_create d.endpoints)
        (get_or d.endpoints (cur_index d.to_create d.endpoints) []) o d refl

  pub loop_step :
      (o : Outcome) (os : List Outcome) (d : Dialer S)
      → let r = decrease_loop m retry_failed error_wait (o ∷ os) d in
        (r ≡ (d, true))
        ⊎ (r ≡ decrease_loop m retry_failed error_wait os (dial_turn m retry_failed error_wait o d))
  unfolding decrease_loop
  loop_step cancelled os d = inl refl
  loop_step dial_fails os d = ground arith
  loop_step exchange_fails os d = ground arith
  loop_step (connects t) os d = ground arith

  -- Whatever happens to the dials, the loop only reorders the endpoints: it keeps their number,
  -- and how often each occurs, up to the scheme that is put in front of one that has none.
  pub decrease_loop_endpoints :
      (os : List Outcome) (d : Dialer S)
      → SameEndpoints d.endpoints (decrease_loop m retry_failed error_wait os d).0.endpoints
  unfolding decrease_loop
  decrease_loop_endpoints [] d = by_endpoints refl
  decrease_loop_endpoints (o ∷ os) d = elim (loop_step o os d) [
    | inl h ↦ by_endpoints (ap (λ (r : Dialer S × Bool). r.0.endpoints) h)
    | inr h ↦
        let d' = dial_turn m retry_failed error_wait o d in
        let (t, u) = turn_endpoints o d in
        let (f, g) = decrease_loop_endpoints os d' in
        (
          (λ (x : List ℕ). ap (λ (r : Dialer S × Bool). occurrences x r.0.endpoints) h ∙ f x ∙ t x),
          ap (λ (r : Dialer S × Bool). length r.0.endpoints) h ∙ g ∙ u,
        )
  ]
