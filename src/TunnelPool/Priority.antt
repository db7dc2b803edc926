-- ===== src/TunnelPool/Priority.antt =====
-- The order in which OutboundRelay of tunnel_pool/tunnel.go sends, and what it has sent.
use rabbit_mtcp_ws_socks.Prelude.{
  subst, ℕ, ◌+◌, ◌≤◌, ◌≡◌, refl, sym, ◌≢◌, ◌⊎◌, inl, inr, List, [], ◌∷◌, ◌++◌, arith,
}
use rabbit_mtcp_ws_socks.Block.{Block}
use rabbit_mtcp_ws_socks.TunnelPool.Sending.{
  Phase, Sender, Step, Meanwhile, send_normal, after_send,
}

-- How many normal blocks were sent past the waiting retry blocks: none if there are none.
abbrev pub past : List Block → ℕ → ℕ
past [] n = 0
past (b ∷ bs) n = n

-- The runs of the loop from `s0`, with what happens meanwhile.
pub data Run (s0 : Sender) : Sender → Type 0 where
  starts : Run s0 s0
  steps : {s t : Sender} → Run s0 s → Step s t → Run s0 t
  meanwhile : {s t : Sender} → Run s0 s → Meanwhile s t → Run s0 t

-- The block that a step sends.
unfoldable pub sent_by : {s t : Sender} → Step s t → List Block
sent_by (Step.retries s requeue b rest h e) = b ∷ []
sent_by (Step.sends s requeue b rest h e) = b ∷ []
sent_by other = []

-- The blocks that a run sent, in order.
unfoldable pub sent_in : {s0 s : Sender} → Run s0 s → List Block
sent_in starts = []
sent_in (steps r st) = sent_in r ++ sent_by st
sent_in (meanwhile r m) = sent_in r

-- How many normal blocks were sent since a retry block was sent last, or none was waiting.
unfoldable pub overtakes : {s t : Sender} → Step s t → ℕ → ℕ
overtakes (Step.retries s requeue b rest h e) n = 0
overtakes (Step.sends s requeue b rest h e) n = past s.retry_queue (n + 1)
overtakes other n = n

unfoldable pub overtaken : {s0 s : Sender} → Run s0 s → ℕ
overtaken starts = 0
overtaken (steps r st) = overtakes st (overtaken r)
overtaken (meanwhile {t = t} r m) = past t.retry_queue (overtaken r)

-- A block that was overtaken is waiting, and is next.
abbrev IsNext : Phase → List Block → ℕ → Type 0
IsNext phase q n = (n ≡ 0) ⊎ ((n ≡ 1) × (q ≢ []) × (phase ≢ Phase.normal))

past-IsNext :
    (phase : Phase) (q q' : List Block) (n : ℕ) → IsNext phase q n → IsNext phase q' (past q' n)
past-IsNext phase q [] n h = inl refl
past-IsNext phase q (b ∷ q') n (inl z) = inl z
past-IsNext phase q (b ∷ q') n (inr (one, some_, other)) = inr (one, (λ e. cc), other)

other-IsNext :
    (phase phase' : Phase) (q : List Block) (n : ℕ)
    → phase' ≢ Phase.normal
    → IsNext phase q n
    → IsNext phase' q n
other-IsNext phase phase' q n ne (inl z) = inl z
other-IsNext phase phase' q n ne (inr (one, some_, _)) = inr (one, some_, ne)

none-IsNext :
    (phase phase' : Phase) (q : List Block) (n : ℕ) → q ≡ [] → IsNext phase q n → IsNext phase' q n
none-IsNext phase phase' q n e (inl z) = inl z
none-IsNext phase phase' q n e (inr (one, some_, _)) = absurd (some_ e)

-- A normal block is only sent when none was overtaken.
sent-IsNext :
    (phase : Phase) (q : List Block) (n : ℕ)
    → phase ≡ Phase.normal
    → IsNext phase q n
    → IsNext (after_send phase) q (past q (n + 1))
sent-IsNext phase [] n e h = inl refl
sent-IsNext phase (b ∷ q) n e (inl z) = rw e (inr (omega arith, (λ empty. cc), (λ same. cc)))
sent-IsNext phase (b ∷ q) n e (inr (one, _, other)) = absurd (other e)

Step-IsNext :
    {s t : Sender} (st : Step s t) (n : ℕ)
    → IsNext s.phase s.retry_queue n
    → IsNext t.phase t.retry_queue (overtakes st n)
unfolding overtakes send_normal
Step-IsNext (Step.stops s p c) n h = other-IsNext s.phase Phase.ended s.retry_queue n (λ same. cc) h
Step-IsNext (Step.goes_on s p c) n h =
    other-IsNext s.phase Phase.retry s.retry_queue n (λ same. cc) h
Step-IsNext (Step.retries s requeue b rest p e) n h = inl refl
Step-IsNext (Step.no_retry s p e open_ c) n h = none-IsNext s.phase Phase.normal s.retry_queue n e h
Step-IsNext (Step.sends s requeue b rest p e) n h = sent-IsNext s.phase s.retry_queue n p h
Step-IsNext (Step.retry_ends s p e c) n h = none-IsNext s.phase Phase.ended s.retry_queue n e h
Step-IsNext (Step.normal_ends s p e c) n h =
    other-IsNext s.phase Phase.ended s.retry_queue n (λ same. cc) h

kept_phase : {s t : Sender} → Meanwhile s t → t.phase ≡ s.phase
kept_phase (Meanwhile.put_retry s b) = refl
kept_phase (Meanwhile.put_normal s b) = refl
kept_phase (Meanwhile.takes_retry s b rest e) = refl
kept_phase (Meanwhile.takes_normal s b rest e) = refl
kept_phase (Meanwhile.cancels s) = refl

Run-IsNext : {s0 s : Sender} (r : Run s0 s) → IsNext s.phase s.retry_queue (overtaken r)
unfolding overtaken
Run-IsNext starts = inl refl
Run-IsNext (steps r st) = Step-IsNext st (overtaken r) (Run-IsNext r)
Run-IsNext (meanwhile {s = s} {t = t} r m) =
    subst (λ p. IsNext p t.retry_queue (past t.retry_queue (overtaken r))) (sym (kept_phase m))
      (past-IsNext s.phase s.retry_queue t.retry_queue (overtaken r) (Run-IsNext r))

-- Retry blocks come first: in whatever order queues fill and other tunnels take from them, and
-- whichever ready case the selects take, at most one normal block is sent while retry blocks wait,
-- before one of these is sent or none is left.
pub overtaken_once : {s0 s : Sender} (r : Run s0 s) → overtaken r ≤ 1
overtaken_once r = elim (Run-IsNext r) [ inl none_ ↦ omega arith | inr (one, _, _) ↦ omega arith ]
