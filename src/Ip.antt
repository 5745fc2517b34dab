-- ===== src/Ip.antt =====
-- The addresses of rust/src/lib/ip.rs: `is_ipv6_addr`, `sanitize_ip_network`,
-- `apply_ip_prefix_len` and the text form of an `InterfaceIpAddr`. An address is the number that
-- `u32::from` or `u128::from` gives.
mod Number
mod Parse
mod Print
pub mod Prefix
pub mod RoundTrip
unfoldable pub use Parse.{parse_ipv4, parse_ipv6}
unfoldable pub use Number.{parse_unsigned, parse_i32}
unfoldable pub use Print.{show_ipv4, show_ipv6, to_decimal}
use nmstate.Base.{
  ltb, leb, if◌then◌else◌, length, is_empty, ◌==◌, contains, Text, split, ℕ, ◌-◌, ◌*◌, ◌/◌, ◌^◌,
  Bool, Option, none, some, List, [], ◌∷◌, ◌++◌, nat_eq, bool_eq, list_eq, option_eq, int_eq,
  pair_eq,
}
use nmstate.Error.{Result, ok, err, ◌>>=◌, new_error, invalid_argument}

unfoldable pub is_ipv6_addr : Text → Bool
is_ipv6_addr addr = contains addr b':'

pub data IpAddr : Type 0 where
  v4 v6 : ℕ → IpAddr

-- `IpAddr::from_str`
unfoldable pub parse_ip : Text → Option IpAddr
unfolding parse_ipv4 parse_ipv6
parse_ip s = elim (parse_ipv4 s) [
  | some a ↦ some (v4 a)
  | none ↦ elim (parse_ipv6 s) [ none ↦ none | some a ↦ some (v6 a) ]
]

unfoldable pub show_ip : IpAddr → Text
unfolding show_ipv4 show_ipv6
show_ip (v4 a) = show_ipv4 a
show_ip (v6 a) = show_ipv6 a

-- `IPV6_ADDR_LEN` and `IPV4_ADDR_LEN`
abbrev pub addr_len : IpAddr → ℕ
addr_len (v4 a) = 32
addr_len (v6 a) = 128

-- `x & (MAX << k)`
abbrev pub clear_low : ℕ → ℕ → ℕ
clear_low x k = x / 2 ^ k * 2 ^ k

unfoldable pub apply_ip_prefix_len : IpAddr → ℕ → IpAddr
apply_ip_prefix_len (v4 a) prefix =
    if prefix == 0 then v4 0 else if leb 32 prefix then v4 a else v4 (clear_low a (32 - prefix))
apply_ip_prefix_len (v6 a) prefix =
    if prefix == 0 then v6 0 else if leb 128 prefix then v6 a else v6 (clear_low a (128 - prefix))

-- An `Option` as a result: `none` is an error of this kind.
abbrev pub or_invalid {ℓ} : {A : Type ℓ} → Option A → Result A
or_invalid none = err (new_error invalid_argument)
or_invalid (some a) = ok a

-- `format!("{ip}/{prefix_len}")`
unfoldable pub show_network : IpAddr → ℕ → Text
unfolding show_ip to_decimal
show_network ip prefix = show_ip ip ++ (b'/' ∷ to_decimal prefix)

usize_mod : ℕ
usize_mod = 2 ^ 64

-- The prefix length is tested after it has been applied.
abbrev checked_network : IpAddr → ℕ → Result Text
checked_network ip prefix_len =
    if ltb (addr_len ip) prefix_len
    then err (new_error invalid_argument)
    else ok (show_network ip prefix_len)

-- The case of two pieces.
unfoldable pub sanitize_with_prefix : Text → Text → Result Text
unfolding usize_mod parse_unsigned parse_ip apply_ip_prefix_len show_network
sanitize_with_prefix address prefix = do
  prefix_len ← or_invalid (parse_unsigned usize_mod prefix)
  parsed ← or_invalid (parse_ip address)
  checked_network (apply_ip_prefix_len parsed prefix_len) prefix_len

abbrev sanitize_pieces : List Text → Result Text
sanitize_pieces (address ∷ []) = do
  ip ← or_invalid (parse_ip address)
  ok (show_network ip (addr_len ip))
sanitize_pieces (address ∷ prefix ∷ []) = sanitize_with_prefix address prefix
sanitize_pieces _ = err (new_error invalid_argument)

unfoldable pub sanitize_ip_network : Text → Result Text
unfolding split sanitize_with_prefix show_network parse_ip
sanitize_ip_network ip_net = sanitize_pieces (split b'/' ip_net)

-- `InterfaceIpAddr::try_from`, and `to_string` of its result.
abbrev canonical_pieces : List Text → Result Text
canonical_pieces (address ∷ []) = do
  ip ← or_invalid (parse_ip address)
  ok (show_network ip (addr_len ip))
canonical_pieces (address ∷ prefix ∷ more) = do
  ip ← or_invalid (parse_ip address)
  length ← if is_empty prefix then ok (addr_len ip) else or_invalid (parse_unsigned 256 prefix)
  ok (show_network ip length)
canonical_pieces [] = err (new_error invalid_argument)

unfoldable pub canonical_ip_addr : Text → Result Text
unfolding parse_unsigned split parse_ip show_network
canonical_ip_addr value = canonical_pieces (split b'/' value)
