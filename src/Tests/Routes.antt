-- ===== src/Tests/Routes.antt =====
-- Concrete routes for rust/src/lib/route.rs.
use nmstate.Base.{
  any, retain, All, list_beq, contains, list_cmp, Text, codes, sort_by, dedup_by, IsStrict, ◌≡◌,
  refl, ◌↔◌, true, false, none, some, List, [], ◌∷◌, Memᴰ, nat_eq, bool_eq, list_eq, option_eq,
  int_eq, pair_eq, nat_ord, bool_ord, pair_ord, list_ord,
}
use nmstate.Error.{ok, is_ok, try_map, try_all}
use nmstate.Ip.{is_ipv6_addr, sanitize_ip_network, parse_ip, show_ip, apply_ip_prefix_len}
use nmstate.Route.{
  RouteEntry, Routes, is_match, absent, validate, validate_entry, validate_route_dst, sanitize,
  is_absent, is_unicast, is_ipv6, sort_key,
}
use nmstate.Route.Match.{Matches, is_match_iff}
use nmstate.Route.Merged.{
  KernelIface, MergedRoutes, new, desired_routes, check_added, note_deleted, merge_current,
  append_desired, group_routes, sorted_routes,
}
use nmstate.Route.Merged.Group.{rows_at}
use nmstate.Route.Merged.Safety.{IsUsable, new-IsUsable}
use nmstate.Route.Merged.Placed.{key_iface}
use nmstate.Route.Merged.Complete.{IsWanted, new-IsWanted_iff}
use nmstate.Route.Merged.Refuses.{empty_destination_refused}
use nmstate.Route.Merged.Touched.{IsTouched, route_changed_ifaces_iff}
use nmstate.Route.Merged.Accepts.{IsAcceptable, new-ok_iff}

abbrev route_to : Text → Text → RouteEntry
route_to dst via = record {
  state = none;
  destination = some dst;
  next_hop_iface = some via;
  next_hop_addr = none;
  metric = none;
  table_id = none;
  weight = none;
  route_type = none;
  cwnd = none;
  source = none;
}

abbrev eth1 : Text
eth1 = codes "eth1"

abbrev wanted : RouteEntry
wanted = route_to (codes "198.51.100.0/24") eth1

abbrev kept : RouteEntry
kept = route_to (codes "203.0.113.0/24") eth1

abbrev removed : RouteEntry
removed = route_to (codes "192.0.2.0/24") eth1

abbrev pattern_of : RouteEntry → RouteEntry
pattern_of r = record r { state = some absent; next_hop_iface = none }

is_match_iff_example :
    (is_match (pattern_of removed) removed ≡ true) ↔ Matches (pattern_of removed) removed
is_match_iff_example = is_match_iff (pattern_of removed) removed

abbrev desired : Routes
desired = record { running = none; config = some (wanted ∷ pattern_of removed ∷ []) }

abbrev current : Routes
current = record { running = none; config = some (kept ∷ removed ∷ []) }

abbrev ifaces : List KernelIface
ifaces =
    record { name = eth1; is_absent = false; is_ipv4_enabled = true; is_ipv6_enabled = false } ∷ []

new-ok_iff_example : (is_ok (new desired current ifaces) ≡ true) ↔ IsAcceptable desired ifaces
new-ok_iff_example = new-ok_iff desired current ifaces

clean : desired_routes desired ≡ ok (wanted ∷ pattern_of removed ∷ [])
unfolding desired_routes sanitize try_map sanitize_ip_network parse_ip show_ip apply_ip_prefix_len
clean = refl

abbrev merged : MergedRoutes
merged = record {
  merged = (eth1, wanted ∷ kept ∷ []) ∷ [];
  route_changed_ifaces = eth1 ∷ [];
  changed_routes = record removed { state = some absent } ∷ wanted ∷ [];
  desired = desired;
  current = current;
}

merged_lem : new desired current ifaces ≡ ok merged
unfolding new desired_routes sanitize try_map sanitize_ip_network parse_ip show_ip
    apply_ip_prefix_len validate validate_entry validate_route_dst try_all is_absent is_unicast
    is_ipv6 is_match sort_key check_added note_deleted merge_current append_desired group_routes
    sorted_routes is_ipv6_addr contains any retain dedup_by list_beq sort_by list_cmp
merged_lem = refl

new-IsUsable_example :
    All
      (IsUsable ifaces current (wanted ∷ pattern_of removed ∷ []) eth1)
      (rows_at eth1 merged.merged)
    × IsStrict sort_key (rows_at eth1 merged.merged)
new-IsUsable_example =
    new-IsUsable desired current ifaces merged (wanted ∷ pattern_of removed ∷ []) eth1 merged_lem
      clean

new-IsWanted_iff_example :
    ((found : RouteEntry) × Memᴰ found (rows_at (key_iface kept) merged.merged)
      × (sort_key found ≡ sort_key kept))
    ↔ ((found : RouteEntry) × IsWanted ifaces current (wanted ∷ pattern_of removed ∷ []) found
        × (sort_key found ≡ sort_key kept))
new-IsWanted_iff_example =
    new-IsWanted_iff desired current ifaces merged (wanted ∷ pattern_of removed ∷ []) kept
      merged_lem clean

-- A pattern for all routes over an interface.
abbrev over_eth1 : RouteEntry
over_eth1 = record removed { state = some absent; destination = some [] }

abbrev desired_removal : Routes
desired_removal = record { running = none; config = some (over_eth1 ∷ []) }

empty_destination_refused_example : is_ok (new desired_removal current ifaces) ≡ false
empty_destination_refused_example =
    empty_destination_refused desired_removal current ifaces over_eth1 (Memᴰ.head refl) refl

route_changed_ifaces_iff_example :
    Memᴰ eth1 merged.route_changed_ifaces
    ↔ IsTouched (wanted ∷ pattern_of removed ∷ []) (kept ∷ removed ∷ []) eth1
route_changed_ifaces_iff_example =
    route_changed_ifaces_iff desired current ifaces merged (wanted ∷ pattern_of removed ∷ []) eth1
      merged_lem clean
