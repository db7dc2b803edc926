-- ===== src/Config/Checks.antt =====
-- What parseFlags of cmd/rabbit.go lets through.
use rabbit_mtcp_ws_socks.Prelude.{
  ℕ, ◌≡◌, sym, ap, ◌∙◌, inl, inr, Bool, true, false, not, ◌&&◌, ◌||◌, Option, none, some, arith,
  if◌then◌else◌, Option-cases, ok,
}
use Prim.Native.String.{String}
use text.Mathlib.Text.{◌==◌ as str_eq, starts_with}
use rabbit_mtcp_ws_socks.Config.{
  Config, Mode, client_mode, server_mode, negsuc, is_zero, default_password, Flags, absent, given,
  apply_flags, load_config, new_default_config, mode_of, check_client, check_all, parse_flags,
}

abbrev pub is_server : Mode → Bool
is_server client_mode = false
is_server server_mode = true

-- A configuration for a client that can work.
abbrev pub serves : Config → Bool
serves c =
    not (str_eq c.listen "")
    && ((starts_with c.listen "socks5://" || not (str_eq c.dest "")) && not (is_zero c.tunnel_n))

three_checks :
    (b1 b2 b3 b4 : Bool)
    → (if b4 then false else if not b2 && b3 then false else if b1 then false else true)
      ≡ (not b1 && ((b2 || not b3) && not b4))
three_checks b1 b2 b3 b4 = ground arith

check_client_lem : (c : Config) → check_client c ≡ serves c
unfolding check_client
check_client_lem c =
    three_checks (str_eq c.listen "") (starts_with c.listen "socks5://") (str_eq c.dest "")
      (is_zero c.tunnel_n)

check_all_lem :
    (e d : Bool) (m : Mode) (k : Bool)
    → check_all e d m k ≡ (not e && (not d && (is_server m || k)))
unfolding check_all
check_all_lem e d m k = ground arith

check_all_default : (e : Bool) (m : Mode) (k : Bool) → check_all e true m k ≡ false
unfolding check_all
check_all_default e m k = ground arith

check_all_client :
    (e d k : Bool) → check_all e d client_mode k ≡ true → (e ≡ false) × (d ≡ false) × (k ≡ true)
unfolding check_all
check_all_client e d k h = ground arith

parsed :
    (m : Mode) (c : Config)
    → mode_of c.mode_name ≡ some m
    → parse_flags c ≡ (
      check_all
          (str_eq c.password "")
          (str_eq c.password default_password)
          m
          (check_client (record c { mode = m })),
      record c { mode = m },
    )
unfolding parse_flags
parsed m c h = rw (h, parse_flags)

refused : (c : Config) → mode_of c.mode_name ≡ none → parse_flags c ≡ (false, c)
unfolding parse_flags
refused c h = rw (h, parse_flags)

-- A configuration with a known mode passes exactly when its password is neither empty nor the
-- default one and, for a client, it has an address to listen on, a destination unless that address
-- is a socks5:// one, and a number of tunnels that is not zero. The mode is then the one it names.
pub parse_flags_passes :
    (m : Mode) (c : Config)
    → mode_of c.mode_name ≡ some m
    → ((parse_flags c).0 ≡ (
        not (str_eq c.password "")
        && (not (str_eq c.password default_password) && (is_server m || serves c))))
      × ((parse_flags c).1 ≡ record c { mode = m })
parse_flags_passes m c h =
    let e = parsed m c h in
    (
      ap (λ (r : Bool × Config). r.0) e
          ∙ check_all_lem (str_eq c.password "") (str_eq c.password default_password) m
              (check_client (record c { mode = m }))
          ∙ ap
              (λ (k : Bool).
                not (str_eq c.password "")
                && (not (str_eq c.password default_password) && (is_server m || k)))
              (check_client_lem (record c { mode = m })),
      ap (λ (r : Bool × Config). r.1) e,
    )

default_fails : (c : Config) → c.password ≡ default_password → (parse_flags c).0 ≡ false
default_fails c h = elim (Option-cases (mode_of c.mode_name)) [
  | inl e ↦ ap (λ (r : Bool × Config). r.0) (refused c e)
  | inr (m, e) ↦
      ap (λ (r : Bool × Config). r.0) (parsed m c e)
      ∙ ap
          (λ (p : String).
            check_all (str_eq c.password "") (str_eq p default_password) m
              (check_client (record c { mode = m })))
          h
      ∙ check_all_default (str_eq c.password "") m (check_client (record c { mode = m }))
]

loaded :
    (to_lower : String → String) (f : Flags) (c : Config)
    → load_config to_lower f absent ≡ ok c
    → apply_flags to_lower f new_default_config ≡ c
unfolding load_config
loaded to_lower f c e = cc

kept_password :
    (to_lower : String → String) (f : Flags) (c : Config)
    → f.password ≡ none
    → load_config to_lower f absent ≡ ok c
    → c.password ≡ default_password
unfolding apply_flags new_default_config given
kept_password to_lower f c h e =
    sym (ap (λ (x : Config). x.password) (loaded to_lower f c e))
    ∙ ap (λ (o : Option String). given o default_password) h

-- Without a password from the command line or a configuration file the program refuses to start,
-- whatever else is configured.
pub default_password_refused :
    (to_lower : String → String) (f : Flags) (c : Config)
    → f.password ≡ none
    → load_config to_lower f absent ≡ ok c
    → (parse_flags c).0 ≡ false
default_password_refused to_lower f c h e = default_fails c (kept_password to_lower f c h e)

still_serves :
    (l s d z : Bool)
    → (not l && ((s || not d) && not z)) ≡ true
    → (not l && ((s || not d) && not false)) ≡ true
still_serves l s d z h = ground arith

accepted : (e d k : Bool) → e ≡ false → d ≡ false → k ≡ true → check_all e d client_mode k ≡ true
unfolding check_all
accepted e d k h i j = ground arith

-- A number of tunnels below zero is let through: a client that passes still does with it.
pub negative_tunnels_pass :
    (n : ℕ) (c : Config)
    → mode_of c.mode_name ≡ some client_mode
    → (parse_flags c).0 ≡ true
    → (parse_flags (record c { tunnel_n = negsuc n })).0 ≡ true
negative_tunnels_pass n c h e =
    let c1 = record c { mode = client_mode } in
    let c2 = record c { tunnel_n = negsuc n } in
    let c3 = record c2 { mode = client_mode } in
    let (a, b, k) =
      check_all_client (str_eq c.password "") (str_eq c.password default_password) (check_client c1)
        (sym (ap (λ (r : Bool × Config). r.0) (parsed client_mode c h)) ∙ e) in
    ap (λ (r : Bool × Config). r.0) (parsed client_mode c2 h)
    ∙ accepted (str_eq c.password "") (str_eq c.password default_password) (check_client c3) a b (
        check_client_lem c3
        ∙ still_serves (str_eq c.listen "") (starts_with c.listen "socks5://") (str_eq c.dest "")
            (is_zero c.tunnel_n) (sym (check_client_lem c1) ∙ k))
