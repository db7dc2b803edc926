-- ===== src/Server/Address.antt =====
-- The addresses of server/server.go.
use rabbit_mtcp_ws_socks.Server.{
  Url, parse_web_socket_url, with_port, with_schema, AddressError, address_parts, path_or_root,
  parsed_with,
}
use rabbit_mtcp_ws_socks.Prelude.{
  subst, ℕ, ◌≡◌, refl, ◌≢◌, ◌⊎◌, inl, inr, true, Option, none, some, List, [], ◌∷◌, ◌++◌, arith,
  Bool-cases, Result, ok, err,
}
use rabbit_mtcp_ws_socks.Prelude.Strings.{codes, str_eq, has_prefix, has_prefix-append, contains}

-- What url.Parse documents of the scheme: it is what stands before `://`.
pub record UrlLaws (url_parse : List ℕ → Option Url) : Type 0 where
  pub keeps_ws :
      (s : List ℕ) (u : Url)
      → has_prefix (codes "ws://") s ≡ true
      → url_parse s ≡ some u
      → u.scheme ≡ codes "ws"
  pub keeps_wss :
      (s : List ℕ) (u : Url)
      → has_prefix (codes "wss://") s ≡ true
      → url_parse s ≡ some u
      → u.scheme ≡ codes "wss"

contains-append : (s t sub : List ℕ) → contains t sub ≡ true → contains (s ++ t) sub ≡ true
unfolding contains
contains-append [] t sub h = h
contains-append (c ∷ s) t sub h = ground (arith, contains-append s t sub h)

-- The text that is parsed begins with one of the two schemas.
with_schema-prefix :
    (s t : List ℕ)
    → with_schema s ≡ ok t
    → (has_prefix (codes "ws://") t ≡ true) ⊎ (has_prefix (codes "wss://") t ≡ true)
unfolding with_schema
with_schema-prefix s t h = elim (Bool-cases (has_prefix (codes "ws://") s)) [
  | inl ws ↦ inl (
      let x = rw ws at h in
      let y : s ≡ t = cc in subst (λ l. has_prefix (codes "ws://") l ≡ true) y ws)
  | inr no_ws ↦ elim (Bool-cases (has_prefix (codes "wss://") s)) [
    | inl wss ↦ inr (
        let x = rw (no_ws, wss) at h in
        let y : s ≡ t = cc in subst (λ l. has_prefix (codes "wss://") l ≡ true) y wss)
    | inr no_wss ↦ elim (Bool-cases (contains s (codes "://"))) [
      | inl other ↦ absurd (let x = rw (no_ws, no_wss, other) at h in cc)
      | inr plain ↦ inl (
          let x = rw (no_ws, no_wss, plain) at h in
          let y : codes "ws://" ++ s ≡ t = cc in
          subst (λ l. has_prefix (codes "ws://") l ≡ true) y (has_prefix-append (codes "ws://") s))
    ]
  ]
]

-- The host that is listened on has a port.
with_port-port :
    (scheme host : List ℕ)
    → (scheme ≡ codes "ws") ⊎ (scheme ≡ codes "wss")
    → contains (with_port scheme host) (codes ":") ≡ true
unfolding with_port str_eq contains has_prefix
with_port-port scheme host h = elim (Bool-cases (contains host (codes ":"))) [
  | inl has ↦ rw has has
  | inr bare ↦ elim h [
    | inl ws ↦ rw (bare, ws) (contains-append host (codes ":80") (codes ":") refl)
    | inr wss ↦ rw (bare, wss) (contains-append host (codes ":443") (codes ":") refl)
  ]
]

path_or_root_ne : (p : List ℕ) → path_or_root p ≢ []
path_or_root_ne [] h = cc
path_or_root_ne (c ∷ p) h = cc

-- What an address that was read is made of.
abbrev IsReady : Result AddressError (List ℕ × List ℕ × List ℕ) → Type 0
IsReady (err e) = Unit {0}
IsReady (ok (scheme, address, path)) =
    ((scheme ≡ codes "ws") ⊎ (scheme ≡ codes "wss"))
    × (contains address (codes ":") ≡ true)
    × (path ≢ [])

address_parts-IsReady :
    (url_parse : List ℕ → Option Url) (s : List ℕ) (o : Option Url)
    → UrlLaws url_parse
    → (has_prefix (codes "ws://") s ≡ true) ⊎ (has_prefix (codes "wss://") s ≡ true)
    → url_parse s ≡ o
    → IsReady (address_parts o)
address_parts-IsReady url_parse s none laws h e = tt
address_parts-IsReady url_parse s (some u) laws h e =
    let scheme : (u.scheme ≡ codes "ws") ⊎ (u.scheme ≡ codes "wss") = elim h [
      | inl ws ↦ inl (laws.keeps_ws s u ws e)
      | inr wss ↦ inr (laws.keeps_wss s u wss e)
    ] in
    (scheme, with_port-port u.scheme u.host scheme, path_or_root_ne u.path)

parsed_with-IsReady :
    (url_parse : List ℕ → Option Url) (ws_url : List ℕ) (r : Result AddressError (List ℕ))
    → UrlLaws url_parse
    → with_schema ws_url ≡ r
    → IsReady (parsed_with url_parse r)
parsed_with-IsReady url_parse ws_url (err e) laws h = tt
parsed_with-IsReady url_parse ws_url (ok s) laws h =
    address_parts-IsReady url_parse s (url_parse s) laws (with_schema-prefix ws_url s h) refl

-- An address that ParseWebSocketURL accepts can be served: the schema is ws or wss, the host has
-- a colon (one that had none was given a port), and the path is not empty.
pub parse_web_socket_url_ready :
    (url_parse : List ℕ → Option Url) (ws_url scheme address path : List ℕ)
    → UrlLaws url_parse
    → parse_web_socket_url url_parse ws_url ≡ ok (scheme, address, path)
    → ((scheme ≡ codes "ws") ⊎ (scheme ≡ codes "wss"))
      × (contains address (codes ":") ≡ true)
      × (path ≢ [])
unfolding parse_web_socket_url
parse_web_socket_url_ready url_parse ws_url scheme address path laws h =
    subst IsReady h (parsed_with-IsReady url_parse ws_url (with_schema ws_url) laws refl)
