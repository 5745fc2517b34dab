-- ===== src/RouteRule.antt =====
-- rust/src/lib/route_rule.rs: a route rule, its match, its order and its checks.
pub mod Match
pub mod Merged
use nmstate.Base.{
  if◌then◌else◌, is_some, is_none, unwrap_or, Eq, ◌==◌, contains, Text, ℤ, mismatch, ℕ, ◌≡◌, ◌↔◌,
  Bool, true, false, not, ◌&&◌, ◌||◌, Option, none, some, List, [], ◌∷◌, arith, pos, negsuc, nat_eq,
  bool_eq, list_eq, option_eq, int_eq, pair_eq,
}
use nmstate.Error.{Result, ok, err, ◌>>=◌, ◌>>◌, new_error, fail_if, invalid_argument}
use nmstate.Ip.{is_ipv6_addr, sanitize_ip_network, canonical_ip_addr}

-- `AddressFamily` of rust/src/lib/ip.rs.
pub data AddressFamily : Type 0 where
  ipv4 ipv6 unknown : AddressFamily

abbrev family_beq : AddressFamily → AddressFamily → Bool
family_beq ipv4 ipv4 = true
family_beq ipv6 ipv6 = true
family_beq unknown unknown = true
family_beq _ _ = false

pub family_beq_iff : (a b : AddressFamily) → (family_beq a b ≡ true) ↔ (a ≡ b)
family_beq_iff a b = ground arith

instance abbrev pub family_eq : Eq AddressFamily
family_eq = record { beq = family_beq; beq_iff = family_beq_iff }

pub data RouteRuleState : Type 0 where
  absent : RouteRuleState

pub data RouteRuleAction : Type 0 where
  blackhole unreachable prohibit : RouteRuleAction

abbrev action_beq : RouteRuleAction → RouteRuleAction → Bool
action_beq blackhole blackhole = true
action_beq unreachable unreachable = true
action_beq prohibit prohibit = true
action_beq _ _ = false

pub action_beq_iff : (a b : RouteRuleAction) → (action_beq a b ≡ true) ↔ (a ≡ b)
action_beq_iff a b = ground arith

instance abbrev pub action_eq : Eq RouteRuleAction
action_eq = record { beq = action_beq; beq_iff = action_beq_iff }

-- `u8::from`, and 0 for no action.
abbrev pub action_number : Option RouteRuleAction → ℕ
action_number none = 0
action_number (some blackhole) = 6
action_number (some unreachable) = 7
action_number (some prohibit) = 8

pub record RouteRuleEntry : Type 0 where
  pub family : Option AddressFamily
  pub state : Option RouteRuleState
  pub ip_from : Option Text
  pub ip_to : Option Text
  pub priority : Option ℤ
  pub table_id : Option ℕ
  pub fwmark : Option ℕ
  pub fwmask : Option ℕ
  pub action : Option RouteRuleAction
  pub iif : Option Text
  pub suppress_prefix_length : Option ℕ

pub record RouteRules : Type 0 where
  pub config : Option (List RouteRuleEntry)

abbrev pub use_default_priority : ℤ
use_default_priority = negsuc 0

abbrev pub use_default_route_table : ℕ
use_default_route_table = 0

abbrev pub default_route_table_id : ℕ
default_route_table_id = 254

abbrev family_of : Text → AddressFamily
family_of ip = if is_ipv6_addr ip then ipv6 else ipv4

-- The text form of an address does not fit the family.
abbrev family_differs : AddressFamily → Option Text → Bool
family_differs family none = false
family_differs family (some ip) = not (is_ipv6_addr ip == (family == ipv6))

unfoldable pub validate_ip_from_to : RouteRuleEntry → Result (Unit {0})
validate_ip_from_to r =
    if is_none r.ip_from && is_none r.ip_to && is_none r.family
    then err (new_error invalid_argument)
    else elim r.family [
      | none ↦ ok tt
      | some family ↦ do
        fail_if (family_differs family r.ip_from) invalid_argument
        fail_if (family_differs family r.ip_to) invalid_argument
    ]

unfoldable pub validate_fwmark_and_fwmask : RouteRuleEntry → Result (Unit {0})
validate_fwmark_and_fwmask r = fail_if (is_none r.fwmark && is_some r.fwmask) invalid_argument

unfoldable pub is_absent : RouteRuleEntry → Bool
is_absent r = is_some r.state

abbrev is_ipv6_text : Option Text → Bool
is_ipv6_text none = false
is_ipv6_text (some ip) = is_ipv6_addr ip

unfoldable pub is_ipv6 : RouteRuleEntry → Bool
is_ipv6 r = r.family == some ipv6 || is_ipv6_text r.ip_from || is_ipv6_text r.ip_to

-- The text that the other rule's `ip_from` or `ip_to` must have.
unfoldable pub wanted_ip : Text → Result Text
wanted_ip ip = if contains ip b'/' then ok ip else canonical_ip_addr ip

-- The tests of `ip_from` and of `ip_to`.
unfoldable pub match_ip : Option Text → Option Text → Bool
unfolding wanted_ip
match_ip none other = true
match_ip (some []) other = is_none other || other == some []
match_ip (some (c ∷ ip)) other = elim (wanted_ip (c ∷ ip)) [
  | err e ↦ false
  | ok wanted ↦ other == some wanted
]

-- A field whose default is 0, and that is given and differs.
abbrev pub number_mismatch : Option ℕ → Option ℕ → Bool
number_mismatch a b = is_some a && not (unwrap_or a 0 == unwrap_or b 0)

unfoldable pub is_match : RouteRuleEntry → RouteRuleEntry → Bool
unfolding match_ip
is_match r other =
    if not (match_ip r.ip_from other.ip_from)
    then false
    else if not (match_ip r.ip_to other.ip_to)
    then false
    else if is_some r.family && is_some other.family && not (r.family == other.family)
    then false
    else if is_some r.priority
        && not (r.priority == some use_default_priority)
        && not (r.priority == other.priority)
        && not (r.priority == some (pos 0) && is_none other.priority)
    then false
    else if is_some r.table_id
        && not (r.table_id == some use_default_route_table)
        && not (r.table_id == other.table_id)
    then false
    else if number_mismatch r.fwmark other.fwmark
    then false
    else if number_mismatch r.fwmask other.fwmask
    then false
    else if mismatch r.iif other.iif
    then false
    else if mismatch r.action other.action
    then false
    else if mismatch r.suppress_prefix_length other.suppress_prefix_length
    then false
    else true

-- The tuple of `sort_key`, as nested pairs.
abbrev pub SortKey : Type 0
SortKey = Bool × (Bool × (ℕ × (Text × (Text × (ℤ × (ℕ × (ℕ × (ℕ × ℕ))))))))

abbrev is_ipv4_key : RouteRuleEntry → Bool
is_ipv4_key r = elim r.ip_from [
  | some ip ↦ not (is_ipv6_addr ip)
  | none ↦ elim r.ip_to [
    | some ip ↦ not (is_ipv6_addr ip)
    | none ↦ elim r.family [ some family ↦ family == ipv4 | none ↦ true ]
  ]
]

unfoldable pub sort_key : RouteRuleEntry → SortKey
unfolding is_absent
sort_key r =
    let marks : ℕ × (ℕ × (ℕ × ℕ)) = (
      unwrap_or r.fwmark 0,
      (unwrap_or r.fwmask 0, (action_number r.action, unwrap_or r.suppress_prefix_length 0)),
    ) in
    let ips : Text × (Text × (ℤ × (ℕ × (ℕ × (ℕ × ℕ))))) = (
      unwrap_or r.ip_from [],
      (unwrap_or r.ip_to [], (unwrap_or r.priority use_default_priority, marks)),
    ) in
    (not (is_absent r), (is_ipv4_key r, (unwrap_or r.table_id use_default_route_table, ips)))

-- A text of an address and the family, before and after they are sanitized.
abbrev pub sanitize_ip :
    Option Text → Option AddressFamily → Result (Option Text × Option AddressFamily)
sanitize_ip none family = ok (none, family)
sanitize_ip (some []) family = ok (none, family)
sanitize_ip (some (c ∷ ip)) family = do
  new_ip ← sanitize_ip_network (c ∷ ip)
  ok (some new_ip, if is_none family then some (family_of new_ip) else family)

unfoldable pub sanitize : RouteRuleEntry → Result RouteRuleEntry
unfolding validate_ip_from_to validate_fwmark_and_fwmask
sanitize r = do
  (ip_from, family) ← sanitize_ip r.ip_from r.family
  (ip_to, family) ← sanitize_ip r.ip_to family
  validate_ip_from_to (record r { family = family; ip_from = ip_from; ip_to = ip_to })
  validate_fwmark_and_fwmask r
  ok (record r {
    family = family;
    ip_from = ip_from;
    ip_to = ip_to;
    table_id =
        if is_none r.action && is_none r.table_id then some default_route_table_id else r.table_id;
  })
