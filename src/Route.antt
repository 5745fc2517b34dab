-- ===== src/Route.antt =====
-- rust/src/lib/route.rs: a route entry, its match, its order, and the checks of desired routes.
pub mod Match
pub mod Merged
use nmstate.Base.{
  leb, if◌then◌else◌, is_some, is_none, unwrap_or, Eq, ◌==◌, Text, codes, split, ℤ, mismatch, ℕ,
  ◌/◌, ◌^◌, ◌≡◌, ◌↔◌, Bool, true, false, not, ◌&&◌, ◌||◌, Option, none, some, List, [], ◌∷◌, arith,
  nat_eq, bool_eq, list_eq, option_eq, int_eq, pair_eq,
}
use nmstate.Error.{
  Result, ok, err, ◌>>=◌, ◌>>◌, new_error, fail_if, try_all, invalid_argument,
  not_implemented_error, not_supported_error,
}
use nmstate.Ip.{
  is_ipv6_addr, parse_ip, show_ip, sanitize_ip_network, parse_ipv4, parse_i32, or_invalid,
}

abbrev pub default_table_id : ℕ
default_table_id = 254

abbrev pub loopback_iface_name : Text
loopback_iface_name = codes "lo"

pub data RouteState : Type 0 where
  absent : RouteState

pub data RouteType : Type 0 where
  blackhole unreachable prohibit : RouteType

abbrev pub route_type_beq : RouteType → RouteType → Bool
route_type_beq blackhole blackhole = true
route_type_beq unreachable unreachable = true
route_type_beq prohibit prohibit = true
route_type_beq _ _ = false

pub route_type_beq_iff : (a b : RouteType) → (route_type_beq a b ≡ true) ↔ (a ≡ b)
route_type_beq_iff a b = ground arith

instance abbrev pub route_type_eq : Eq RouteType
route_type_eq = record { beq = route_type_beq; beq_iff = route_type_beq_iff }

pub record RouteEntry : Type 0 where
  pub state : Option RouteState
  pub destination : Option Text
  pub next_hop_iface : Option Text
  pub next_hop_addr : Option Text
  pub metric : Option ℤ
  pub table_id : Option ℕ
  pub weight : Option ℕ
  pub route_type : Option RouteType
  pub cwnd : Option ℕ
  pub source : Option Text

pub record Routes : Type 0 where
  pub running : Option (List RouteEntry)
  pub config : Option (List RouteEntry)

-- `u8::from`
abbrev pub route_type_number : RouteType → ℕ
route_type_number blackhole = 6
route_type_number unreachable = 7
route_type_number prohibit = 8

unfoldable pub is_unicast : RouteEntry → Bool
is_unicast r = elim r.route_type [ none ↦ true | some t ↦ route_type_number t == 1 ]

unfoldable pub is_absent : RouteEntry → Bool
is_absent r = is_some r.state

abbrev pub option_is_ipv6 : Option Text → Bool
option_is_ipv6 none = false
option_is_ipv6 (some d) = is_ipv6_addr d

unfoldable pub is_ipv6 : RouteEntry → Bool
is_ipv6 r = option_is_ipv6 r.destination

unfoldable pub is_match : RouteEntry → RouteEntry → Bool
is_match r other =
    if is_some r.destination
      && not (r.destination == some [])
      && not (r.destination == other.destination)
    then false
    else if mismatch r.next_hop_iface other.next_hop_iface
    then false
    else if mismatch r.next_hop_addr other.next_hop_addr
    then false
    else if is_some r.table_id && not (r.table_id == some 0) && not (r.table_id == other.table_id)
    then false
    else if mismatch r.weight other.weight
    then false
    else if mismatch r.route_type other.route_type
    then false
    else if mismatch r.cwnd other.cwnd
    then false
    else if mismatch r.source other.source
    then false
    else true

-- The tuple of `sort_key`, as nested pairs.
abbrev pub SortKey : Type 0
SortKey = Bool × (Bool × (ℕ × (Text × (Text × (Text × (Text × (ℕ × ℕ)))))))

unfoldable pub sort_key : RouteEntry → SortKey
unfolding is_absent is_ipv6
sort_key r = (
  not (is_absent r),
  (
    not (is_ipv6 r),
    (
      unwrap_or r.table_id default_table_id,
      (
        unwrap_or r.next_hop_iface loopback_iface_name,
        (
          unwrap_or r.destination [],
          (
            unwrap_or r.next_hop_addr [],
            (unwrap_or r.source [], (unwrap_or r.weight 0, unwrap_or r.cwnd 0)),
          ),
        ),
      ),
    ),
  ),
)

-- The new text of a destination; an empty one is dropped.
abbrev pub sanitize_destination : Option Text → Result (Option Text)
sanitize_destination none = ok none
sanitize_destination (some []) = ok none
sanitize_destination (some (c ∷ dst)) = do new ← sanitize_ip_network (c ∷ dst); ok (some new)

abbrev pub sanitize_addr : Option Text → Result (Option Text)
sanitize_addr none = ok none
sanitize_addr (some s) = do ip ← or_invalid (parse_ip s); ok (some (show_ip ip))

abbrev pub check_weight : Option ℕ → Option Text → Result (Unit {0})
check_weight none destination = ok tt
check_weight (some weight) destination = do
  fail_if (not (leb 1 weight && leb weight 256)) invalid_argument
  fail_if (option_is_ipv6 destination) not_supported_error

abbrev pub check_cwnd : Option ℕ → Result (Unit {0})
check_cwnd none = ok tt
check_cwnd (some cwnd) = fail_if (cwnd == 0) invalid_argument

unfoldable pub sanitize : RouteEntry → Result RouteEntry
sanitize r = do
  destination ← sanitize_destination r.destination
  next_hop_addr ← sanitize_addr r.next_hop_addr
  source ← sanitize_addr r.source
  check_weight r.weight destination
  check_cwnd r.cwnd
  ok (record r { destination = destination; next_hop_addr = next_hop_addr; source = source })

-- The prefix behind a `/`, where the address begins with 0.
abbrev check_prefix : Text → Bool → Result (Unit {0})
check_prefix prefix unicast = do
  (negative, n) ← or_invalid (parse_i32 prefix)
  fail_if (not negative && leb 8 n && unicast) invalid_argument

abbrev check_zero_net : List Text → Bool → Result (Unit {0})
check_zero_net (address ∷ prefix ∷ more) unicast = check_prefix prefix unicast
check_zero_net _ unicast = fail_if unicast invalid_argument

abbrev check_ipv4_dst : List Text → Bool → Result (Unit {0})
check_ipv4_dst [] unicast = err (new_error invalid_argument)
check_ipv4_dst (address ∷ more) unicast = do
  ip ← or_invalid (parse_ipv4 address)
  if ip / 2 ^ 24 == 0 then check_zero_net (address ∷ more) unicast else ok tt

unfoldable pub validate_route_dst : RouteEntry → Result (Unit {0})
validate_route_dst route = elim route.destination [
  | none ↦ ok tt
  | some dst ↦
      if is_ipv6_addr dst then ok tt else check_ipv4_dst (split b'/' dst) (is_unicast route)
]

-- The body of the loop of `Routes::validate`.
unfoldable pub validate_entry : RouteEntry → Result (Unit {0})
unfolding validate_route_dst is_absent is_unicast
validate_entry r = do
  fail_if
      (not (is_absent r)
        && not (is_unicast r)
        && (mismatch r.next_hop_iface (some loopback_iface_name) || is_some r.next_hop_addr))
      invalid_argument
  fail_if (not (is_absent r) && is_none r.next_hop_iface && is_unicast r) not_implemented_error
  validate_route_dst r

unfoldable pub validate : Routes → Result (Unit {0})
validate routes = elim routes.config [ none ↦ ok tt | some config ↦ try_all validate_entry config ]
