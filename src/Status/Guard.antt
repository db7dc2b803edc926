-- ===== src/Status/Guard.antt =====
-- Who gets a document of cmd/rabbit.go's status server.
use rabbit_mtcp_ws_socks.Status.{
  Net, Request, is_ip_in_subnets, Document, parse_acl, status_server, document, Verdict,
  config_handler, guarded, same_login, Response, check_basic_auth, status_handler, admit,
  parse_login, config, status_document,
}
use rabbit_mtcp_ws_socks.Prelude.{
  ℕ, ◌≡◌, refl, inl, inr, Bool, true, false, ◌&&◌, ◌||◌, Option, none, some, List, [], ◌∷◌, ◌++◌,
  Bool-cases,
}
use rabbit_mtcp_ws_socks.Prelude.Strings.{codes, str_eq, str_eq→eq, has_prefix}
use rabbit_mtcp_ws_socks.Status.Access.{Without, parse_login_lem, parse_login_no_colon}

both : (a b : Bool) → (a && b) ≡ true → (a ≡ true) × (b ≡ true)
both true b h = (refl, h)
both false b h = absurd (cc)

module _ (n : Net) where
  open n use {Ip, Cidr, NetError, split_host_port, parse_ip, parse_cidr, cidr_contains}

  abbrev pub any_contains : List Cidr → Ip → Bool
  any_contains [] ip = false
  any_contains (c ∷ cs) ip = cidr_contains c ip || any_contains cs ip

  admit-document :
      (logged_in : Bool) (v : Verdict n) (answer : Response) (d : Document)
      → admit n logged_in v answer ≡ document d
      → (logged_in ≡ true) × (v ≡ (true, none))
  admit-document logged_in (v, some e) answer d h = absurd (cc)
  admit-document logged_in (false, none) answer d h = absurd (cc)
  admit-document true (true, none) answer d h = (refl, refl)
  admit-document false (true, none) answer d h = absurd (cc)

  -- A document is only given behind the checks.
  behind_checks :
      (listen acl : List ℕ) (r : Request) (d : Document)
      → status_server n listen acl r ≡ document d
      → (answer : Response) × (guarded n (parse_login listen) (parse_acl acl) r answer ≡ document d)
  unfolding status_server config_handler status_handler
  behind_checks listen acl r d h = elim (Bool-cases (str_eq r.path (codes "/config"))) [
    | inl config_ ↦ (document config, rw config_ at h)
    | inr other ↦ elim (Bool-cases (has_prefix (codes "/status/") r.path)) [
      | inl status_ ↦ (status_document r.path, rw (other, status_) at h)
      | inr neither ↦ absurd (let x = rw (other, neither) at h in cc)
    ]
  ]

  same_login-eq :
      (user pass : List ℕ) (o : Option (List ℕ × List ℕ))
      → same_login user pass o ≡ true
      → o ≡ some (user, pass)
  same_login-eq user pass none h = absurd (cc)
  same_login-eq user pass (some (u, p)) h =
      let (a, b) = both (str_eq u user) (str_eq p pass) h in
      rw (str_eq→eq u user a, str_eq→eq p pass b)

  -- A document is given only to a request with a name and password that are those configured, and
  -- from an address that the list of networks admits: let the address to listen on be configured as
  -- user:password@address, where the name is not empty and has neither a colon nor an @, and the
  -- password has no @; then the status server, of the client or of the server, gives a request a
  -- document only if both hold.
  pub documents_guarded :
      (u : ℕ) (us pass addr acl : List ℕ) (r : Request) (d : Document)
      → Without 58 (u ∷ us)
      → Without 64 (u ∷ us)
      → Without 64 pass
      → status_server n (((u ∷ us) ++ (58 ∷ pass)) ++ (64 ∷ addr)) acl r ≡ document d
      → (r.basic_auth ≡ some (u ∷ us, pass))
        × (is_ip_in_subnets n r.remote_addr (parse_acl acl) ≡ (true, none))
  unfolding guarded str_eq check_basic_auth
  documents_guarded u us pass addr acl r d h k l e =
      let (answer, e1) = behind_checks (((u ∷ us) ++ (58 ∷ pass)) ++ (64 ∷ addr)) acl r d e in
      let e2 = rw (parse_login_lem u us pass addr h k l) at e1 in
      let (a, b) =
        admit-document _ (is_ip_in_subnets n r.remote_addr (parse_acl acl)) answer d e2 in
      (same_login-eq (u ∷ us) pass r.basic_auth a, b)

  -- Where the address to listen on is configured as user@address, without a colon, the name and the
  -- password of a request do not matter: the status server answers as it does without any.
  pub no_password_no_check :
      (u : ℕ) (us addr acl : List ℕ) (r : Request)
      → Without 58 (u ∷ us)
      → Without 64 (u ∷ us)
      → let listen = (u ∷ us) ++ (64 ∷ addr) in
        status_server n listen acl r ≡ status_server n listen acl (record r { basic_auth = none })
  unfolding guarded str_eq check_basic_auth status_server config_handler status_handler
  no_password_no_check u us addr acl r h k = rw (parse_login_no_colon u us addr h k)
