-- ===== src/Status.antt =====
-- The status server of cmd/rabbit.go: who may see its documents.
pub mod Access
pub mod Guard
pub mod Documents
mod Tests
use rabbit_mtcp_ws_socks.Prelude.{
  subst, ℕ, zero, suc, ◌+◌, ◌-◌, ◌*◌, ◌/◌, ◌%◌, ◌^◌, ◌≤◌, ◌<◌, min, max, ◌≡◌, refl, sym, ap, ◌∙◌,
  ◌≢◌, ◌↔◌, ◌⊎◌, inl, inr, Bool, true, false, not, ◌&&◌, ◌||◌, Option, none, some, List, [], ◌∷◌,
  ◌++◌, map, append-nil, append_assoc, arith, ltb, leb, ◌==◌, if◌then◌else◌, ltb→lt, lt→ltb, ltb→le,
  le→ltb, ==→eq, ==→ne, eq→==, ne→==, Bool-cases, Option-cases, Result, ok, err, Result-cases,
  length, take, drop, replicate, get_or, set, All, length-append, take-append-drop, length-take,
  length-drop, length-replicate, take-append, drop-append, take_all, drop_all, drop-nil, drop-drop,
  All-append, drop-take, take-min,
}
use rabbit_mtcp_ws_socks.Prelude.Strings.{codes, str_eq, has_prefix, contains, split_at, index_of}
use rabbit_mtcp_ws_socks.Helpers.{std_trim}

-- What the code uses of package net. net.SplitHostPort gives a host and, on failure, an error too;
-- net.ParseIP gives nil on failure.
pub record Net : Type 1 where
  pub Ip : Type 0
  pub Cidr : Type 0
  pub NetError : Type 0
  pub split_host_port : List ℕ → List ℕ × Option NetError
  pub parse_ip : List ℕ → Option Ip
  pub parse_cidr : List ℕ → Result NetError Cidr
  pub cidr_contains : Cidr → Ip → Bool

module _ (n : Net) where
  open n use {Ip, Cidr, NetError, split_host_port, parse_ip, parse_cidr, cidr_contains}

  -- The loop over the parts of an entry with commas: a part that is no network is passed over.
  pub any_part : Ip → List (List ℕ) → Bool
  any_part ip [] = false
  any_part ip (s ∷ ss) = elim (parse_cidr s) [
    | err e ↦ any_part ip ss
    | ok cidr ↦ let rest = any_part ip ss in if cidr_contains cidr ip then true else rest
  ]

  abbrev pub Verdict : Type 0
  Verdict = Bool × Option NetError

  -- An entry that is one network, by what net.ParseCIDR gave.
  abbrev pub one_network : Ip → Verdict → Result NetError Cidr → Verdict
  one_network ip rest (err e) = (false, some e)
  one_network ip rest (ok cidr) = if cidr_contains cidr ip then (true, none) else rest

  -- The loop over the entries.
  pub any_subnet : Ip → List (List ℕ) → Verdict
  any_subnet ip [] = (false, none)
  any_subnet ip (s ∷ ss) =
      let rest = any_subnet ip ss in
      if contains s (codes ",")
      then (if any_part ip (split_at 44 s) then (true, none) else rest)
      else one_network ip rest (parse_cidr s)

  -- The address that is looked up: SplitHostPort's host, trimmed when there was an error.
  abbrev pub looked_up : List ℕ × Option NetError → List ℕ
  looked_up (host, none) = host
  looked_up (host, some e) = std_trim host

  abbrev pub check_ip : List (List ℕ) → Option NetError → Option Ip → Verdict
  check_ip subnets e none = (false, e)
  check_ip subnets e (some ip) = any_subnet ip subnets

  -- `IsIPInSubnets`.
  pub is_ip_in_subnets : List ℕ → List (List ℕ) → Verdict
  is_ip_in_subnets ip_str [] = (true, none)
  is_ip_in_subnets ip_str (s ∷ ss) =
      let r = split_host_port ip_str in check_ip (s ∷ ss) r.1 (parse_ip (looked_up r))

-- An entry of the list of networks; one without a `/` is an address.
pub acl_entry : List ℕ → List ℕ
acl_entry acl = if not (contains acl (codes "/")) then acl ++ codes "/32" else acl

abbrev pub entries : List (List ℕ) → List (List ℕ)
entries acls = map acl_entry acls

-- An empty text allows every IPv4 address.
abbrev pub all_if_empty : List (List ℕ) → List (List ℕ)
all_if_empty [] = []
all_if_empty (a ∷ []) = (if str_eq a [] then codes "0.0.0.0/0" else a) ∷ []
all_if_empty (a ∷ b ∷ acls) = a ∷ b ∷ acls

-- The list of networks of a configured text.
pub parse_acl : List ℕ → List (List ℕ)
unfolding acl_entry
parse_acl acl = entries (all_if_empty (split_at 44 acl))

pub record Login : Type 0 where
  pub username : List ℕ
  pub password : List ℕ
  pub listen : List ℕ

-- The name and the password of what stands before the `@`.
abbrev pub auth_part : List ℕ → Option ℕ → List ℕ → Login
auth_part part (some (suc i)) listen = record {
  username = take (suc i) part;
  password = drop (suc i + 1) part;
  listen = listen;
}
auth_part part at_start_or_none listen = record { username = []; password = []; listen = listen }

abbrev pub login_at : List ℕ → Option ℕ → Login
login_at listen (some (suc i)) =
    let part = take (suc i) listen in
    auth_part part (index_of part (codes ":")) (drop (suc i + 1) listen)
login_at listen at_start_or_none = record { username = []; password = []; listen = listen }

-- The address to listen on, with the name and the password that may stand before it.
pub parse_login : List ℕ → Login
parse_login listen = login_at listen (index_of listen (codes "@"))

-- What a request brings: the address it comes from, the path, and the header's name and password.
pub record Request : Type 0 where
  pub remote_addr : List ℕ
  pub path : List ℕ
  pub basic_auth : Option (List ℕ × List ℕ)

pub data Document : Type 0 where
  config : Document
  status : Document
  tunnels : Document
  connections : Document
  metrics : Document

-- `unauthorized` says if a name and a password are asked for.
pub data Response : Type 0 where
  internal_server_error : Response
  unauthorized : Bool → Response
  not_found : Response
  document : Document → Response

abbrev pub same_login : List ℕ → List ℕ → Option (List ℕ × List ℕ) → Bool
same_login username password none = false
same_login username password (some (user, pass)) = str_eq user username && str_eq pass password

-- `checkBasicAuth`.
pub check_basic_auth : Request → List ℕ → List ℕ → Bool
check_basic_auth r username password = same_login username password r.basic_auth

-- The switch on the path in the handler of /status/.
pub status_document : List ℕ → Response
status_document path =
    if str_eq path (codes "/status/")
    then document status
    else if str_eq path (codes "/status/tunnels")
    then document tunnels
    else if str_eq path (codes "/status/connections")
    then document connections
    else if str_eq path (codes "/status/metrics")
    then document metrics
    else not_found

module _ (n : Net) where
  -- The checks at the head of both handlers, and what follows them.
  abbrev pub admit : Bool → Verdict n → Response → Response
  admit logged_in (v, some e) answer = internal_server_error
  admit logged_in (false, none) answer = unauthorized false
  admit logged_in (true, none) answer = if logged_in then answer else unauthorized true

  pub guarded : Login → List (List ℕ) → Request → Response → Response
  unfolding check_basic_auth
  guarded login acls r answer =
      admit (str_eq login.username [] || check_basic_auth r login.username login.password)
        (is_ip_in_subnets n r.remote_addr acls) answer

  -- The handler of /config.
  pub config_handler : Login → List (List ℕ) → Request → Response
  config_handler login acls r = guarded login acls r (document config)

  -- The handler of /status/ and of all paths below it.
  pub status_handler : Login → List (List ℕ) → Request → Response
  status_handler login acls r = guarded login acls r (status_document r.path)

  -- `statusServer1` and `statusServer2` with the address and the list of networks of the
  -- configuration: the handler that http.ServeMux chooses.
  pub status_server : List ℕ → List ℕ → Request → Response
  status_server listen acl r =
      if str_eq r.path (codes "/config")
      then config_handler (parse_login listen) (parse_acl acl) r
      else if has_prefix (codes "/status/") r.path
      then status_handler (parse_login listen) (parse_acl acl) r
      else not_found
