-- ===== src/Prelude/Effects.antt =====
-- Fallible code over a state: the state is kept when the code fails, as in Go.
use rabbit_mtcp_ws_socks.Prelude.Results.{Result, ok, err}

abbrev pub M : Type 0 → Type 0 → Type 0 → Type 0
M S E A = S → Result E A × S

abbrev pub bind_result :
    {S E A B : Type 0} → Result E A × S → (A → S → Result E B × S) → Result E B × S
bind_result (ok a, s) f = f a s
bind_result (err e, s) f = (err e, s)

infixl 5 ◌>>=◌ ◌>>◌
abbrev pub ◌>>=◌ : {S E A B : Type 0} → M S E A → (A → M S E B) → M S E B
◌>>=◌ m f s = bind_result (m s) f

abbrev pub ◌>>◌ : {S E B : Type 0} → M S E (Unit {0}) → M S E B → M S E B
◌>>◌ m k s = bind_result (m s) (λ _. k)

abbrev pub pure : {S E A : Type 0} → A → M S E A
pure a s = (ok a, s)

abbrev pub fail : {S E A : Type 0} → E → M S E A
fail e s = (err e, s)
