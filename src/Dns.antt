-- ===== src/Dns.antt =====
-- rust/src/lib/dns.rs: the name servers, the search list and the options of the resolver, their
-- sanitizing, and the merge of a desired state onto the current one.
pub mod Options
pub mod Accepts
pub mod Merged
pub mod Stable
use nmstate.Base.{
  if◌then◌else◌, is_none, unwrap_or, is_empty, ◌==◌, contains, Text, codes, split, ℤ, ℕ, Bool, not,
  ◌&&◌, ◌||◌, Option, none, some, List, [], ◌∷◌, ◌++◌, nat_eq, bool_eq, list_eq, option_eq, int_eq,
  pair_eq,
}
use nmstate.Error.{Result, ok, err, ◌>>=◌, new_error, fail_if, invalid_argument}
use nmstate.Ip.{is_ipv6_addr, parse_ipv4, parse_ipv6, show_ipv4, show_ipv6}

abbrev pub supported_dns_opts_no_value : List Text
supported_dns_opts_no_value =
    codes "debug"
    ∷ codes "edns0"
    ∷ codes "inet6"
    ∷ codes "ip6-bytestring"
    ∷ codes "ip6-dotint"
    ∷ codes "no-aaaa"
    ∷ codes "no-check-names"
    ∷ codes "no-ip6-dotint"
    ∷ codes "no-reload"
    ∷ codes "no-tld-query"
    ∷ codes "rotate"
    ∷ codes "single-request"
    ∷ codes "single-request-reopen"
    ∷ codes "trust-ad"
    ∷ codes "use-vc"
    ∷ []

abbrev pub supported_dns_opts_with_value : List Text
supported_dns_opts_with_value = codes "ndots" ∷ codes "timeout" ∷ codes "attempts" ∷ []

pub record DnsClientState : Type 0 where
  pub server : Option (List Text)
  pub search : Option (List Text)
  pub options : Option (List Text)
  pub priority : Option ℤ

pub record DnsState : Type 0 where
  pub running : Option DnsClientState
  pub config : Option DnsClientState

abbrev pub has_none : DnsClientState → Bool
has_none c = is_none c.server && is_none c.search && is_none c.options

abbrev pub is_null : DnsClientState → Bool
is_null c =
    is_empty (unwrap_or c.server [])
    && is_empty (unwrap_or c.search [])
    && is_empty (unwrap_or c.options [])

-- `{}%{}`
abbrev pub with_scope : Text → Text → Text
with_scope ip scope = ip ++ (b'%' ∷ scope)

-- A server with a colon, and its pieces between percent signs. With two pieces of which the first
-- is no address, the server is left out.
abbrev pub sanitize_ipv6_server : Text → List Text → Result (Option Text)
unfolding parse_ipv6
sanitize_ipv6_server srv (ip ∷ scope ∷ []) = elim (parse_ipv6 ip) [
  | some ip_addr ↦ ok (some (with_scope (show_ipv6 ip_addr) scope))
  | none ↦ ok none
]
sanitize_ipv6_server srv _ = elim (parse_ipv6 srv) [
  | some ip_addr ↦ ok (some (show_ipv6 ip_addr))
  | none ↦ err (new_error invalid_argument)
]

-- The body of the loop over the servers.
unfoldable pub sanitize_server : Text → Result (Option Text)
unfolding is_ipv6_addr sanitize_ipv6_server parse_ipv4 split
sanitize_server srv =
    if is_ipv6_addr srv then sanitize_ipv6_server srv (split b'%' srv) else elim (parse_ipv4 srv) [
      | some ip_addr ↦ ok (some (show_ipv4 ip_addr))
      | none ↦ err (new_error invalid_argument)
    ]

abbrev pub push_server : Option Text → List Text → List Text
push_server none srvs = srvs
push_server (some srv) srvs = srv ∷ srvs

unfoldable pub sanitize_servers : List Text → Result (List Text)
unfolding sanitize_server
sanitize_servers [] = ok []
sanitize_servers (srv ∷ srvs) = do
  sanitized ← sanitize_server srv
  rest ← sanitize_servers srvs
  ok (push_server sanitized rest)

-- The text before the first colon, if there is one.
unfoldable pub before_colon : Text → Option Text
before_colon [] = none
before_colon (c ∷ cs) =
    let rest = before_colon cs in
    if c == b':' then some [] else elim rest [ none ↦ none | some name ↦ some (c ∷ name) ]

unfoldable pub check_option : Text → Result (Unit {0})
unfolding before_colon
check_option opt = elim (before_colon opt) [
  | some name ↦ fail_if (not (contains supported_dns_opts_with_value name)) invalid_argument
  | none ↦ fail_if (not (contains supported_dns_opts_no_value opt)) invalid_argument
]

unfoldable pub check_options : List Text → Result (Unit {0})
unfolding check_option
check_options [] = ok tt
check_options (opt ∷ opts) = check_option opt >>= (λ done. check_options opts)

-- `DnsClientState::sanitize`: the state that it leaves behind, and its result.
unfoldable pub sanitize : DnsClientState → DnsClientState × Result (Unit {0})
unfolding sanitize_servers check_options
sanitize c = elim c.server [
  | none ↦ (c, check_options (unwrap_or c.options []))
  | some srvs ↦ elim (sanitize_servers srvs) [
    | err e ↦ (c, err e)
    | ok sanitized ↦ (record c { server = some sanitized }, check_options (unwrap_or c.options []))
  ]
]

-- `DnsState::sanitize`
unfoldable pub sanitize_state : DnsState → DnsState × Result (Unit {0})
unfolding sanitize
sanitize_state s = elim s.config [
  | none ↦ (s, ok tt)
  | some c ↦ (record s { config = some (sanitize c).0 }, (sanitize c).1)
]

pub record MergedDnsState : Type 0 where
  pub desired : Option DnsState
  pub current : DnsState
  pub servers : List Text
  pub searches : List Text
  pub options : List Text

-- `config.as_ref().and_then(|c| c.field.clone()).unwrap_or_default()`
abbrev pub field_of : (DnsClientState → Option (List Text)) → DnsState → List Text
field_of get s = elim s.config [ none ↦ [] | some c ↦ unwrap_or (get c) [] ]

-- `clear` and `extend_from_slice`, unless the configuration has no field at all.
abbrev pub merge_field :
    (DnsClientState → Option (List Text)) → Option DnsClientState → List Text → List Text
merge_field get none old = old
merge_field get (some conf) old = if has_none conf then [] else unwrap_or (get conf) old

-- `MergedDnsState::new`. An error of the current state is ignored, with what it was changed to.
unfoldable pub new : Option DnsState → DnsState → Result MergedDnsState
unfolding sanitize_state
new desired given =
    let current = (sanitize_state given).0 in
    let servers = field_of (λ c. c.server) current in
    let searches = field_of (λ c. c.search) current in
    let options = field_of (λ c. c.options) current in
    elim desired [
      | none ↦ ok (record {
        desired = none;
        current = current;
        servers = servers;
        searches = searches;
        options = options;
      })
      | some d ↦ (sanitize_state d).1 >>= (λ done. ok (record {
        desired = some (sanitize_state d).0;
        current = current;
        servers = merge_field (λ c. c.server) (sanitize_state d).0.config servers;
        searches = merge_field (λ c. c.search) (sanitize_state d).0.config searches;
        options = merge_field (λ c. c.options) (sanitize_state d).0.config options;
      }))
    ]

abbrev pub is_search_or_option_only : MergedDnsState → Bool
is_search_or_option_only m =
    is_empty m.servers && (not (is_empty m.searches) || not (is_empty m.options))

abbrev pub link_local_pieces : List Text → Result (Option (ℕ × Text))
unfolding parse_ipv6
link_local_pieces (ip ∷ scope ∷ []) = elim (parse_ipv6 ip) [
  | some ip_addr ↦ ok (some (ip_addr, scope))
  | none ↦ err (new_error invalid_argument)
]
link_local_pieces _ = err (new_error invalid_argument)

unfoldable pub parse_dns_ipv6_link_local_srv : Text → Result (Option (ℕ × Text))
unfolding link_local_pieces split
parse_dns_ipv6_link_local_srv srv =
    if contains srv b'%' then link_local_pieces (split b'%' srv) else ok none
