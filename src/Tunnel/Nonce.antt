-- ===== src/Tunnel/Nonce.antt =====
-- The nonce counter of tunnel/tunnel.go.
use rabbit_mtcp_ws_socks.Prelude.{
  ℕ, zero, suc, ◌+◌, ◌*◌, ◌%◌, ◌^◌, ◌<◌, ◌≡◌, refl, ap, ◌∙◌, inl, inr, true, false, List, [], ◌∷◌,
  arith, ◌==◌, if◌then◌else◌, Bool-cases, length, replicate, All, length-replicate,
}
use rabbit_mtcp_ws_socks.Prelude.Bytes.{IsByte, get_le, get_le-lt}
use native.Mathlib.Nat.{pow-suc}

-- `increment`: the bytes are a little-endian number; it wraps around.
unfoldable pub increment : List ℕ → List ℕ
increment [] = []
increment (b ∷ bs) =
    let rest = increment bs in if (b + 1) % 256 == 0 then 0 ∷ rest else ((b + 1) % 256) ∷ bs

-- The nonce after `k` records' halves.
unfoldable pub increments : ℕ → List ℕ → List ℕ
increments zero nonce = nonce
increments (suc k) nonce = increment (increments k nonce)

pub length-increment : (bs : List ℕ) → length (increment bs) ≡ length bs
unfolding increment
length-increment [] = refl
length-increment (b ∷ bs) = ground (arith, length-increment bs)

pub increment-IsByte : (bs : List ℕ) → All IsByte bs → All IsByte (increment bs)
unfolding increment
increment-IsByte [] h = tt
increment-IsByte (b ∷ bs) (hb, hbs) = elim (Bool-cases ((b + 1) % 256 == 0)) [
  | inl e ↦ rw e (omega arith, increment-IsByte bs hbs)
  | inr e ↦ rw e (omega arith, hbs)
]

-- What a counter below `m` becomes.
abbrev next_of : ℕ → ℕ → ℕ
next_of m n = if n + 1 == m then 0 else n + 1

carry0 :
    (m n b : ℕ)
    → n < m
    → b < 256
    → ((b + 1) % 256 == 0) ≡ true
    → 0 + 256 * next_of m n ≡ next_of (m * 256) (b + 256 * n)
carry0 m n b h k e = ground arith

carry1 :
    (m n b : ℕ)
    → n < m
    → b < 256
    → ((b + 1) % 256 == 0) ≡ false
    → (b + 1) % 256 + 256 * n ≡ next_of (m * 256) (b + 256 * n)
carry1 m n b h k e = ground arith

-- Incrementing adds one to the number, and wraps around to 0.
pub get_le-increment :
    (bs : List ℕ) → All IsByte bs → get_le (increment bs) ≡ next_of (256 ^ length bs) (get_le bs)
unfolding increment get_le
get_le-increment [] h = ground arith
get_le-increment (b ∷ bs) (hb, hbs) = elim (Bool-cases ((b + 1) % 256 == 0)) [
  | inl e ↦
      rw (e, pow-suc, get_le-increment bs hbs)
        (carry0 (256 ^ length bs) (get_le bs) b (get_le-lt bs hbs) hb e)
  | inr e ↦ rw (e, pow-suc) (carry1 (256 ^ length bs) (get_le bs) b (get_le-lt bs hbs) hb e)
]

pub increments-IsByte : (k : ℕ) (bs : List ℕ) → All IsByte bs → All IsByte (increments k bs)
unfolding increments
increments-IsByte zero bs h = h
increments-IsByte (suc k) bs h = increment-IsByte (increments k bs) (increments-IsByte k bs h)

pub length-increments : (k : ℕ) (bs : List ℕ) → length (increments k bs) ≡ length bs
unfolding increments
length-increments zero bs = refl
length-increments (suc k) bs = length-increment (increments k bs) ∙ length-increments k bs

zeros-IsByte : (n : ℕ) → All IsByte (replicate n 0)
zeros-IsByte zero = tt
zeros-IsByte (suc n) = (omega arith, zeros-IsByte n)

get_le-zeros : (n : ℕ) → get_le (replicate n 0) ≡ 0
unfolding get_le
get_le-zeros zero = refl
get_le-zeros (suc n) = omega (arith, get_le-zeros n)

step_lem : (m k n n' : ℕ) → suc k < m → n ≡ k → n' ≡ next_of m n → n' ≡ suc k
step_lem m k n n' h e f = ground arith

-- After `k` increments of the zero nonce the counter is `k`.
pub get_le-increments : (n k : ℕ) → k < 256 ^ n → get_le (increments k (replicate n 0)) ≡ k
unfolding increments
get_le-increments n zero h = get_le-zeros n
get_le-increments n (suc k) h =
    let z = increments k (replicate n 0) in
    let hz = increments-IsByte k (replicate n 0) (zeros-IsByte n) in
    step_lem (256 ^ n) k (get_le z) (get_le (increment z)) h (get_le-increments n k (omega arith)) (
      get_le-increment z hz
      ∙ ap (λ l. next_of (256 ^ l) (get_le z))
          (length-increments k (replicate n 0) ∙ length-replicate n 0))
