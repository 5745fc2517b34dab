-- ===== src/Route/Match.antt =====
-- `RouteEntry::is_match`: an absent route is a pattern.
use nmstate.Base.{
  Wants, WantsUnless, Wants-iff, WantsUnless-iff, chain_split, chain_join, ◌≡◌, refl, ◌↔◌, true, [],
  nat_eq, bool_eq, list_eq, option_eq, int_eq, pair_eq,
}
use nmstate.Route.{RouteEntry, is_match, route_type_eq}

pub record Matches (r other : RouteEntry) : Type 0 where
  pub destination : WantsUnless [] r.destination other.destination
  pub next_hop_iface : Wants r.next_hop_iface other.next_hop_iface
  pub next_hop_addr : Wants r.next_hop_addr other.next_hop_addr
  pub table_id : WantsUnless 0 r.table_id other.table_id
  pub weight : Wants r.weight other.weight
  pub route_type : Wants r.route_type other.route_type
  pub cwnd : Wants r.cwnd other.cwnd
  pub source : Wants r.source other.source

-- A pattern matches a route exactly when each of its fields is a wildcard or the route's: the empty
-- destination and table 0 are wildcards too, the empty next hop address is not, and state and metric
-- are not looked at.
pub is_match_iff : (r other : RouteEntry) → (is_match r other ≡ true) ↔ Matches r other
unfolding is_match
is_match_iff r o = (
  λ h.
      let (a1, h1) = chain_split _ h in
      let (a2, h2) = chain_split _ h1 in
      let (a3, h3) = chain_split _ h2 in
      let (a4, h4) = chain_split _ h3 in
      let (a5, h5) = chain_split _ h4 in
      let (a6, h6) = chain_split _ h5 in
      let (a7, h7) = chain_split _ h6 in
      let (a8, h8) = chain_split _ h7 in
      record {
        destination = (WantsUnless-iff [] r.destination o.destination).0 a1;
        next_hop_iface = (Wants-iff r.next_hop_iface o.next_hop_iface).0 a2;
        next_hop_addr = (Wants-iff r.next_hop_addr o.next_hop_addr).0 a3;
        table_id = (WantsUnless-iff 0 r.table_id o.table_id).0 a4;
        weight = (Wants-iff r.weight o.weight).0 a5;
        route_type = (Wants-iff r.route_type o.route_type).0 a6;
        cwnd = (Wants-iff r.cwnd o.cwnd).0 a7;
        source = (Wants-iff r.source o.source).0 a8;
      },
  λ m. chain_join ((WantsUnless-iff [] r.destination o.destination).1 m.destination) (
      chain_join ((Wants-iff r.next_hop_iface o.next_hop_iface).1 m.next_hop_iface) (
        chain_join ((Wants-iff r.next_hop_addr o.next_hop_addr).1 m.next_hop_addr) (
          chain_join ((WantsUnless-iff 0 r.table_id o.table_id).1 m.table_id) (
            chain_join ((Wants-iff r.weight o.weight).1 m.weight) (
              chain_join ((Wants-iff r.route_type o.route_type).1 m.route_type) (
                chain_join ((Wants-iff r.cwnd o.cwnd).1 m.cwnd)
                  (chain_join ((Wants-iff r.source o.source).1 m.source) refl))))))),
)
