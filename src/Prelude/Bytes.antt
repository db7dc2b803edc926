-- ===== src/Prelude/Bytes.antt =====
-- Bytes and little-endian words, as encoding/binary's LittleEndian writes and reads them.
use Prim.Native.Nat.{ℕ, zero, suc, ◌+◌, ◌*◌, ◌/◌, ◌%◌, ◌^◌, ◌<◌}
use mathlib.Core.Path.{◌≡◌, refl, ap}
use mathlib.Core.List.{List, [], ◌∷◌}
use native.Mathlib.Nat.{pow-suc}
use native.Mathlib.Omega.{arith}
use rabbit_mtcp_ws_socks.Prelude.Lists.{length, All}

abbrev pub IsByte : ℕ → Type 0
IsByte b = b < 256

-- The `n` low bytes of `v`, lowest first.
unfoldable pub put_le : ℕ → ℕ → List ℕ
put_le zero v = []
put_le (suc n) v = (v % 256) ∷ put_le n (v / 256)

unfoldable pub get_le : List ℕ → ℕ
get_le [] = 0
get_le (b ∷ bs) = b + 256 * get_le bs

pub length-put_le : (n v : ℕ) → length (put_le n v) ≡ n
unfolding put_le
length-put_le zero v = refl
length-put_le (suc n) v = ap suc (length-put_le n (v / 256))

pub put_le-IsByte : (n v : ℕ) → All IsByte (put_le n v)
unfolding put_le
put_le-IsByte zero v = tt
put_le-IsByte (suc n) v = (omega arith, put_le-IsByte n (v / 256))

div_lt : (v m : ℕ) → v < m * 256 → v / 256 < m
div_lt v m h = omega arith

pub get_le-put_le : (n v : ℕ) → v < 256 ^ n → get_le (put_le n v) ≡ v
unfolding put_le get_le
get_le-put_le zero v h = omega arith
get_le-put_le (suc n) v h =
    omega (arith, get_le-put_le n (v / 256) (div_lt v (256 ^ n) (rw pow-suc at h)))

pub get_le-lt : (bs : List ℕ) → All IsByte bs → get_le bs < 256 ^ length bs
unfolding get_le
get_le-lt [] h = omega arith
get_le-lt (b ∷ bs) (hb, hbs) = rw pow-suc (omega (arith, get_le-lt bs hbs))

low_byte : (b n : ℕ) → b < 256 → (b + 256 * n) % 256 ≡ b
low_byte b n h = omega arith

high_part : (b n : ℕ) → b < 256 → (b + 256 * n) / 256 ≡ n
high_part b n h = omega arith

-- Reading a word and writing it again gives back its bytes.
pub put_le-get_le : (bs : List ℕ) → All IsByte bs → put_le (length bs) (get_le bs) ≡ bs
unfolding put_le get_le
put_le-get_le [] h = refl
put_le-get_le (b ∷ bs) (hb, hbs) =
    rw (low_byte b (get_le bs) hb, high_part b (get_le bs) hb, put_le-get_le bs hbs)
