-- ===== src/TunnelPool/Countdown.antt =====
-- ServerManager of tunnel_pool/manager.go: the countdown to the removal of a peer without tunnels.
use rabbit_mtcp_ws_socks.Prelude.{
  ℕ, ◌≡◌, refl, ap, ◌∙◌, ◌⊎◌, Bool, true, false, not, ◌&&◌, ◌||◌, List, [], ◌∷◌, arith, ◌==◌,
  if◌then◌else◌,
}

-- The goroutine of the latest countdown, and cancelCountDownFunc: `idle` while that is nil.
pub data Countdown : Type 0 where
  idle : Countdown
  running : Countdown
  cancelled : Countdown
  expired : Countdown

pub record ServerManager : Type 0 where
  pub triggered : Bool
  pub countdown : Countdown
  -- removePeerFunc was called.
  pub removed : Bool

abbrev pub new_server_manager : ServerManager
new_server_manager = record { triggered = false; countdown = idle; removed = false }

unfoldable pub cancel_countdown : Countdown → Countdown
cancel_countdown running = cancelled
cancel_countdown c = c

unfoldable pub start_countdown : ℕ → ServerManager → ServerManager
start_countdown count sm =
    if (count == 0) && not sm.triggered
    then record sm { triggered = true; countdown = running }
    else sm

unfoldable pub stop_countdown : ℕ → ServerManager → ServerManager
stop_countdown count sm =
    if not (count == 0) && sm.triggered
    then record sm { triggered = false; countdown = cancel_countdown sm.countdown }
    else sm

-- `Notify` with the number of tunnels in the pool.
unfoldable pub notify : ℕ → ServerManager → ServerManager
notify count sm = stop_countdown count (start_countdown count sm)

-- EmptyPoolDestroySec seconds have passed since the countdown was started.
unfoldable pub elapse : ServerManager → ServerManager
elapse sm = elim sm.countdown [
  | running ↦ record sm { countdown = expired; removed = true }
  | other ↦ sm
]

pub data Event : Type 0 where
  count_is : ℕ → Event
  timer : Event

unfoldable pub handle : Event → ServerManager → ServerManager
handle (count_is n) sm = notify n sm
handle timer sm = elapse sm

unfoldable pub run : List Event → ServerManager → ServerManager
run [] sm = sm
run (e ∷ es) sm = run es (handle e sm)

-- What the manager promises: whether the pool was still empty, as last notified, when a timer
-- ended. `empty` is whether the last notification was of no tunnel.
unfoldable pub stayed_empty : Bool → List Event → Bool
stayed_empty empty [] = false
stayed_empty empty (count_is n ∷ es) = stayed_empty (n == 0) es
stayed_empty empty (timer ∷ es) = empty || stayed_empty empty es

-- How the state shows the last notification.
abbrev Shows : Bool → ServerManager → Type 0
Shows empty sm =
    (sm.triggered ≡ empty)
    × (sm.countdown ≡ running → empty ≡ true)
    × (empty ≡ true → (sm.countdown ≡ running) ⊎ ((sm.countdown ≡ expired) × (sm.removed ≡ true)))

notify-Shows :
    (b : Bool) (n : ℕ) (sm : ServerManager)
    → Shows b sm
    → Shows (n == 0) (notify n sm) × ((notify n sm).removed ≡ sm.removed)
unfolding notify start_countdown stop_countdown cancel_countdown
notify-Shows b n sm h = ground arith

elapse-Shows :
    (b : Bool) (sm : ServerManager)
    → Shows b sm
    → Shows b (elapse sm) × ((elapse sm).removed ≡ (b || sm.removed))
unfolding elapse
elapse-Shows b sm h = ground arith

or_shift : (b c r r' : Bool) → r' ≡ (b || r) → (c || r') ≡ ((b || c) || r)
or_shift b c r r' h = ground arith

run-Shows :
    (es : List Event) (b : Bool) (sm : ServerManager)
    → Shows b sm
    → (run es sm).removed ≡ (stayed_empty b es || sm.removed)
unfolding run handle stayed_empty
run-Shows [] b sm h = refl
run-Shows (count_is n ∷ es) b sm h =
    let (s, r) = notify-Shows b n sm h in
    run-Shows es (n == 0) (notify n sm) s ∙ ap (λ x. stayed_empty (n == 0) es || x) r
run-Shows (timer ∷ es) b sm h =
    let (s, r) = elapse-Shows b sm h in
    run-Shows es b (elapse sm) s ∙ or_shift b (stayed_empty b es) sm.removed (elapse sm).removed r

or_false : (c : Bool) → (c || false) ≡ c
or_false c = ground arith

-- From a new manager, and whatever sizes it is notified of and whenever timers end, removePeerFunc
-- has been called exactly when some timer ended while the last size notified was zero.
pub run_removes : (es : List Event) → (run es new_server_manager).removed ≡ stayed_empty false es
run_removes es =
    run-Shows es false new_server_manager
      (refl, (λ (h : idle ≡ running). absurd (cc)), λ (h : false ≡ true). absurd (cc))
    ∙ or_false (stayed_empty false es)
