-- ===== src/Tests/Dns.antt =====
-- Concrete values for rust/src/lib/dns.rs.
use nmstate.Base.{
  unwrap_or, any, All, list_beq, contains, Text, codes, split_onto, split, ◌≡◌, refl, ◌↔◌, true,
  false, none, some, [], ◌∷◌, ◌++◌, nat_eq, bool_eq, list_eq, option_eq, int_eq, pair_eq,
}
use nmstate.Error.{ok}
use nmstate.Ip.{is_ipv6_addr, parse_ipv6}
use nmstate.Dns.Stable.{ArePrinted, sanitize_twice}
use nmstate.Dns.{
  DnsClientState, DnsState, MergedDnsState, new, sanitize_state, sanitize, sanitize_server,
  sanitize_servers, check_options, check_option, before_colon,
}
use nmstate.Dns.Merged.{applied, new_twice}
use nmstate.Dns.Options.{IsOption}
use nmstate.Dns.Accepts.{IsServer, sanitize-ok_dns_iff, sanitize_servers_lem}

abbrev some_options : DnsClientState
some_options = record {
  server = none;
  search = some (codes "example.org" ∷ []);
  options = some (codes "rotate" ∷ codes "ndots:2" ∷ []);
  priority = none;
}

options_accepted : (sanitize some_options).1 ≡ ok tt
unfolding sanitize check_options check_option before_colon contains any list_beq
options_accepted = refl

sanitize-ok_dns_iff_example :
    ((sanitize some_options).1 ≡ ok tt)
    ↔ (All IsServer [] × All IsOption (codes "rotate" ∷ codes "ndots:2" ∷ []))
sanitize-ok_dns_iff_example = sanitize-ok_dns_iff some_options

-- `fe80::g%eth1` is no address, and is lost.
abbrev mistyped_server : Text
mistyped_server = codes "fe80::g%eth1"

mistyped_has_colon : is_ipv6_addr mistyped_server ≡ true
unfolding is_ipv6_addr contains any
mistyped_has_colon = refl

mistyped_pieces : split b'%' mistyped_server ≡ codes "fe80::g" ∷ codes "eth1" ∷ []
unfolding split split_onto
mistyped_pieces = refl

mistyped_address : parse_ipv6 (codes "fe80::g") ≡ none
unfolding parse_ipv6
mistyped_address = refl

sanitize_servers_lem_example :
    sanitize_servers ([] ++ (mistyped_server ∷ [])) ≡ sanitize_servers ([] ++ [])
sanitize_servers_lem_example =
    sanitize_servers_lem [] mistyped_server (codes "fe80::g") (codes "eth1") [] mistyped_has_colon
      mistyped_pieces mistyped_address

abbrev desired_options : DnsState
desired_options = record { running = none; config = some some_options }

abbrev no_dns : DnsState
no_dns = record { running = none; config = none }

abbrev merged_options : MergedDnsState
merged_options = record {
  desired = some desired_options;
  current = no_dns;
  servers = [];
  searches = codes "example.org" ∷ [];
  options = codes "rotate" ∷ codes "ndots:2" ∷ [];
}

first_merge : new (some desired_options) no_dns ≡ ok merged_options
unfolding new sanitize_state sanitize check_options check_option before_colon contains any list_beq
first_merge = refl

second_merge :
    new (some desired_options) (applied none merged_options)
    ≡ ok (record merged_options { current = applied none merged_options })
unfolding new sanitize_state sanitize sanitize_servers check_options check_option before_colon
    contains any list_beq
second_merge = refl

new_twice_example :
    (merged_options.searches ≡ merged_options.searches)
    × (merged_options.options ≡ merged_options.options)
new_twice_example =
    new_twice desired_options no_dns merged_options
      (record merged_options { current = applied none merged_options }) none first_merge
      second_merge

abbrev plain_server : Text
plain_server = codes "192.0.2.1"

abbrev plain_config : DnsClientState
plain_config = record some_options { server = some (plain_server ∷ []) }

plain_no_colon : is_ipv6_addr plain_server ≡ false
unfolding is_ipv6_addr contains any
plain_no_colon = refl

plain_accepted : (sanitize plain_config).1 ≡ ok tt
unfolding sanitize sanitize_servers sanitize_server check_options check_option before_colon contains
    any list_beq
plain_accepted = refl

sanitize_twice_example :
    ArePrinted (plain_server ∷ []) (unwrap_or (sanitize plain_config).0.server [])
    × (sanitize (sanitize plain_config).0 ≡ ((sanitize plain_config).0, ok tt))
sanitize_twice_example = sanitize_twice plain_config (plain_no_colon, tt) plain_accepted
