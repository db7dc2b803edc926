-- ===== src/Client/Login.antt =====
-- That nobody passes the SOCKS5 server of client/client.go without the password.
use rabbit_mtcp_ws_socks.Prelude.{
  subst, ℕ, ◌≡◌, refl, sym, ap, ◌∙◌, Bool, true, false, not, some, List, [], ◌∷◌, ◌++◌, arith, ◌==◌,
  if◌then◌else◌, ==→eq, Result, ok, err, length, get_or,
}
use rabbit_mtcp_ws_socks.Prelude.Effects.{M, bind_result, ◌>>◌, fail}
use rabbit_mtcp_ws_socks.Io.{IoError, Stream, read_full, read_full_takes}
use rabbit_mtcp_ws_socks.Prelude.Strings.{str_eq→eq}
use rabbit_mtcp_ws_socks.Client.Socks.{
  Auth, SocksError, Conn, receive, receive_with, answer, has_method, check_login,
  perform_password_auth, choose_method, socks5_handshake, auth_password, socks5_version,
  auth_password_ver, unsupported_version, unsupported_auth_version,
}

-- A chain that succeeds has a first part that does.
pub bind_inv :
    {S E A B : Type 0} (r : Result E A × S) (f : A → S → Result E B × S) (b : B) (s' : S)
    → bind_result r f ≡ (ok b, s')
    → (a : A) × (s : S) × (r ≡ (ok a, s)) × (f a s ≡ (ok b, s'))
bind_inv (ok a, s) f b s' h = (a, s, refl, h)
bind_inv (err e, s) f b s' h = absurd (cc)

received :
    (c c' : Conn) (r : Result IoError (List ℕ) × Stream) (bs : List ℕ)
    → receive_with c r ≡ (ok bs, c')
    → r ≡ (ok bs, c'.incoming)
unfolding receive_with
received c c' (ok xs, s) bs h = cc
received c c' (err e, s) bs h = absurd (cc)

receive_inv :
    (n : ℕ) (c c' : Conn) (bs : List ℕ)
    → receive n c ≡ (ok bs, c')
    → (c.incoming.bytes ≡ bs ++ c'.incoming.bytes) × (length bs ≡ n)
unfolding receive
receive_inv n c c' bs h =
    let (a, b, d) =
      read_full_takes n c.incoming {xs = bs} {s' = c'.incoming}
        (received c c' (read_full n c.incoming) bs h) in
    (a, b)

-- The bytes of a login that the server takes, the rest behind it.
abbrev pub Login : Auth → List ℕ → List ℕ → Type 0
Login auth bytes rest =
    bytes
    ≡ 1 ∷ length auth.username ∷ (auth.username ++ (length auth.password ∷ (auth.password ++ rest)))

two_bytes : (bs : List ℕ) → length bs ≡ 2 → bs ≡ get_or bs 0 0 ∷ get_or bs 1 0 ∷ []
two_bytes [] h = absurd (omega arith)
two_bytes (a ∷ []) h = absurd (omega arith)
two_bytes (a ∷ b ∷ []) h = refl
two_bytes (a ∷ b ∷ c ∷ cs) h = absurd (omega arith)

one_byte : (bs : List ℕ) → length bs ≡ 1 → bs ≡ get_or bs 0 0 ∷ []
one_byte [] h = absurd (omega arith)
one_byte (a ∷ []) h = refl
one_byte (a ∷ b ∷ bs) h = absurd (omega arith)

check_inv :
    (auth : Auth) (u p : List ℕ) (c c' : Conn)
    → check_login auth u p c ≡ (ok tt, c')
    → (u ≡ auth.username) × (p ≡ auth.password) × (c'.incoming ≡ c.incoming)
unfolding check_login answer
check_inv auth u p c c' h = ground (arith, str_eq→eq u auth.username, str_eq→eq p auth.password)

-- The four parts of a login on the stream.
Login-bytes :
    (auth : Auth) (b0 b1 b2 b3 b4 head u l p : List ℕ)
    → b0 ≡ head ++ b1
    → length head ≡ 2
    → get_or head 0 0 ≡ 1
    → b1 ≡ u ++ b2
    → length u ≡ get_or head 1 0
    → b2 ≡ l ++ b3
    → length l ≡ 1
    → b3 ≡ p ++ b4
    → length p ≡ get_or l 0 0
    → u ≡ auth.username
    → p ≡ auth.password
    → Login auth b0 b4
Login-bytes auth b0 b1 b2 b3 b4 head u l p e0 h0 v e1 h1 e2 h2 e3 h3 eu ep =
    let hd =
      two_bytes head h0
      ∙ ap (λ (x : ℕ). x ∷ get_or head 1 0 ∷ []) v
      ∙ ap (λ (x : ℕ). 1 ∷ x ∷ []) (sym h1) in
    let ld = one_byte l h2 ∙ ap (λ (x : ℕ). x ∷ []) (sym h3) in
    e0
    ∙ ap (λ (x : List ℕ). x ++ b1) hd
    ∙ ap (λ (x : List ℕ). 1 ∷ length u ∷ x)
        (e1
          ∙ ap (λ (x : List ℕ). u ++ x)
              (e2 ∙ ap (λ (x : List ℕ). x ++ b3) ld ∙ ap (λ (x : List ℕ). length p ∷ x) e3))
    ∙ ap (λ (x : List ℕ). 1 ∷ length x ∷ (x ++ (length p ∷ (p ++ b4)))) eu
    ∙ ap (λ (x : List ℕ). 1 ∷ length auth.username ∷ (auth.username ++ (length x ∷ (x ++ b4)))) ep

guard_inv :
    {A : Type 0} (b : Bool) (e : SocksError) (m : M Conn SocksError A) (a : A) (c c' : Conn)
    → (if not b then fail e else m) c ≡ (ok a, c')
    → (b ≡ true) × (m c ≡ (ok a, c'))
guard_inv true e m a c c' h = (refl, h)
guard_inv false e m a c c' h = absurd (cc)

perform_inv :
    (auth : Auth) (c c' : Conn)
    → perform_password_auth auth c ≡ (ok tt, c')
    → Login auth c.incoming.bytes c'.incoming.bytes
unfolding perform_password_auth
perform_inv auth c c' h =
    let (head, c1, r1, k1) = bind_inv (receive 2 c) _ tt c' h in
    let (v, k2) =
      guard_inv (get_or head 0 0 == auth_password_ver) (unsupported_auth_version (get_or head 0 0))
        _ tt c1 c' k1 in
    let (u, c2, r2, k3) = bind_inv (receive (get_or head 1 0) c1) _ tt c' k2 in
    let (l, c3, r3, k4) = bind_inv (receive 1 c2) _ tt c' k3 in
    let (p, c4, r4, k5) = bind_inv (receive (get_or l 0 0) c3) _ tt c' k4 in
    let (e0, h0) = receive_inv 2 c c1 head r1 in
    let (e1, h1) = receive_inv (get_or head 1 0) c1 c2 u r2 in
    let (e2, h2) = receive_inv 1 c2 c3 l r3 in
    let (e3, h3) = receive_inv (get_or l 0 0) c3 c4 p r4 in
    let (eu, ep, ei) = check_inv auth u p c4 c' k5 in
    Login-bytes auth c.incoming.bytes c1.incoming.bytes c2.incoming.bytes c3.incoming.bytes
      c'.incoming.bytes head u l p e0 h0 (==→eq (get_or head 0 0) auth_password_ver v) e1 h1 e2 h2
      (e3 ∙ ap (λ (s : Stream). p ++ s.bytes) (sym ei)) h3 eu ep

answer_inv : (bs : List ℕ) (c c' : Conn) → answer bs c ≡ (ok tt, c') → c'.incoming ≡ c.incoming
unfolding answer
answer_inv bs c c' h = ground arith

offer_inv :
    (b : Bool) (xs ys : List ℕ) (e : SocksError) (m : M Conn SocksError (Unit {0})) (c c' : Conn)
    → (if b then (answer xs >> m) else (answer ys >> fail e)) c ≡ (ok tt, c')
    → (b ≡ true) × (c1 : Conn) × (c1.incoming ≡ c.incoming) × (m c1 ≡ (ok tt, c'))
offer_inv true xs ys e m c c' h =
    let (a, c1, r, k) = bind_inv (answer xs c) _ tt c' h in (refl, c1, answer_inv xs c c1 r, k)
offer_inv false xs ys e m c c' h =
    let (a, c1, r, k) = bind_inv (answer ys c) _ tt c' h in absurd (cc)

choose_inv :
    (auth : Auth) (methods : List ℕ) (c c' : Conn)
    → choose_method (some auth) methods c ≡ (ok tt, c')
    → (has_method auth_password methods ≡ true) × Login auth c.incoming.bytes c'.incoming.bytes
unfolding choose_method
choose_inv auth methods c c' h =
    let (m, c1, i, k) =
      offer_inv (has_method auth_password methods) _ _ SocksError.no_password_auth
        (perform_password_auth auth) c c' h in
    (m, subst (λ (s : Stream). Login auth s.bytes c'.incoming.bytes) i (perform_inv auth c1 c' k))

-- Where a password is configured, the handshake succeeds only for a client that sent a greeting
-- that offers password authentication and then the configured name and password, byte by byte:
-- what it sent is this and what is left to be read.
pub handshake-Login :
    (auth : Auth) (c c' : Conn)
    → socks5_handshake (some auth) c ≡ (ok tt, c')
    → (methods : List ℕ) × (more : List ℕ) × (c.incoming.bytes
        ≡ 5 ∷ length methods ∷ (methods ++ more))
      × (has_method auth_password methods ≡ true)
      × Login auth more c'.incoming.bytes
unfolding socks5_handshake
handshake-Login auth c c' h =
    let (head, c1, r1, k1) = bind_inv (receive 2 c) _ tt c' h in
    let (v, k2) =
      guard_inv (get_or head 0 0 == socks5_version) (unsupported_version (get_or head 0 0)) _ tt c1
        c' k1 in
    let (methods, c2, r2, k3) = bind_inv (receive (get_or head 1 0) c1) _ tt c' k2 in
    let (e0, h0) = receive_inv 2 c c1 head r1 in
    let (e1, h1) = receive_inv (get_or head 1 0) c1 c2 methods r2 in
    let (m, l) = choose_inv auth methods c2 c' k3 in
    let hd =
      two_bytes head h0
      ∙ ap (λ (x : ℕ). x ∷ get_or head 1 0 ∷ []) (==→eq (get_or head 0 0) socks5_version v)
      ∙ ap (λ (x : ℕ). 5 ∷ x ∷ []) (sym h1) in
    (
      methods,
      c2.incoming.bytes,
      e0
          ∙ ap (λ (x : List ℕ). x ++ c1.incoming.bytes) hd
          ∙ ap (λ (x : List ℕ). 5 ∷ length methods ∷ x) e1,
      m,
      l,
    )
