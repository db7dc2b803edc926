-- ===== src/Status/Tests.antt =====
-- The status server of cmd/rabbit.go on concrete requests, with an address for each network.
use rabbit_mtcp_ws_socks.Status.{
  Net, Request, parse_acl, status_server, acl_entry, config_handler, is_ip_in_subnets,
  status_handler, guarded, parse_login, check_basic_auth, any_subnet, any_part, status_document,
  tunnels, unauthorized,
}
use rabbit_mtcp_ws_socks.Prelude.{
  ℕ, ◌≡◌, refl, true, false, Option, none, some, List, [], ◌∷◌, Result, ok, err, take,
}
use rabbit_mtcp_ws_socks.Prelude.Strings.{codes, str_eq, has_prefix, contains, split_at, index_of}
use rabbit_mtcp_ws_socks.Status.Guard.{documents_guarded, no_password_no_check}

abbrev before_byte : List ℕ → Option ℕ → List ℕ × Option ℕ
before_byte s none = ([], some 1)
before_byte s (some i) = (take i s, none)

abbrev some_text : List ℕ → Option (List ℕ)
some_text [] = none
some_text (c ∷ s) = some (c ∷ s)

abbrev network : List ℕ → Option ℕ → Result ℕ (List ℕ)
network s none = err 2
network s (some i) = ok (take i s)

abbrev addresses : Net
addresses = record {
  Ip = List ℕ;
  Cidr = List ℕ;
  NetError = ℕ;
  split_host_port = λ s. before_byte s (index_of s (codes ":"));
  parse_ip = some_text;
  parse_cidr = λ s. network s (index_of s (codes "/"));
  cidr_contains = str_eq;
}

abbrev request : Option (List ℕ × List ℕ) → Request
request auth = record {
  remote_addr = codes "1.2.3.4:99";
  path = codes "/status/tunnels";
  basic_auth = auth;
}

abbrev ann : Option (List ℕ × List ℕ)
ann = some (codes "ann", codes "pw")

documents_guarded_example :
    (ann ≡ some (codes "ann", codes "pw"))
    × (is_ip_in_subnets addresses (codes "1.2.3.4:99") (parse_acl (codes "1.2.3.4")) ≡ (true, none))
unfolding index_of has_prefix contains parse_acl split_at str_eq acl_entry status_server
    config_handler status_handler guarded parse_login check_basic_auth is_ip_in_subnets any_subnet
    any_part status_document
documents_guarded_example =
    documents_guarded addresses b'a' (codes "nn") (codes "pw") (codes "[::]:80") (codes "1.2.3.4")
      (request ann) tunnels (refl, (refl, (refl, tt))) (refl, (refl, (refl, tt))) (refl, (refl, tt))
      refl

no_password_no_check_example :
    let listen = codes "ann@[::]:80" in
    status_server addresses listen (codes "1.2.3.4") (request ann)
    ≡ status_server addresses listen (codes "1.2.3.4") (request none)
no_password_no_check_example =
    no_password_no_check addresses b'a' (codes "nn") (codes "[::]:80") (codes "1.2.3.4")
      (request ann) (refl, (refl, (refl, tt))) (refl, (refl, (refl, tt)))

wrong_password :
    status_server addresses (codes "ann:pw@[::]:80") [] (request (some (codes "ann", codes "p")))
    ≡ unauthorized false
unfolding index_of has_prefix contains parse_acl split_at str_eq acl_entry status_server
    config_handler status_handler guarded parse_login check_basic_auth is_ip_in_subnets any_subnet
    any_part status_document
wrong_password = refl
