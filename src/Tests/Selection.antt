-- ===== src/Tests/Selection.antt =====
-- Concrete values for rust/src/lib/policy/route.rs.
use nmstate.Base.{
  unwrap_or, retain, list_beq, Text, codes, ◌≡◌, refl, ◌↔◌, Option, none, some, [], ◌∷◌, Memᴰ,
}
use nmstate.Error.{ok}
use nmstate.Json.{Value, null, string, object, end, field, get}
use nmstate.Route.{RouteEntry, Routes}
use nmstate.RouteRule.{RouteRuleEntry}
use nmstate.Policy.Json.{get_value_from_json, search_item, is_wanted}
use nmstate.Policy.Selection.{get_route_match, select_routes}
use nmstate.Policy.Selection.Wanted.{HoldsAt, chosen, get_route_match_iff}

abbrev route_by : Text → RouteEntry
route_by iface = record {
  state = none;
  destination = none;
  next_hop_iface = some iface;
  next_hop_addr = none;
  metric = none;
  table_id = none;
  weight = none;
  route_type = none;
  cwnd = none;
  source = none;
}

abbrev iface_key : Text
iface_key = codes "next-hop-interface"

abbrev iface_object : RouteEntry → Option Value
iface_object r = some (object (field iface_key (string (unwrap_or r.next_hop_iface [])) end))

abbrev two_routes : Routes
two_routes = record {
  running = some (route_by (codes "eth1") ∷ route_by (codes "eth2") ∷ []);
  config = none;
}

abbrev one_route : Routes
one_route = record { running = some (route_by (codes "eth2") ∷ []); config = none }

abbrev no_value : Value → Option RouteEntry
no_value v = none

abbrev no_rule : Value → Option RouteRuleEntry
no_rule v = none

abbrev null_rule : RouteRuleEntry → Option Value
null_rule r = some null

route_over_eth2 :
    get_route_match iface_object no_value null_rule no_rule
      (λ v. [])
      (codes "running" ∷ iface_key ∷ [])
      (codes "eth2")
      two_routes
      []
      0
    ≡ ok one_route
unfolding get_route_match select_routes search_item is_wanted get_value_from_json get retain
    list_beq
route_over_eth2 = refl

get_route_match_iff_example :
    Memᴰ (route_by (codes "eth2")) (chosen (codes "running") one_route) ↔ (
      Memᴰ (route_by (codes "eth2")) (chosen (codes "running") two_routes)
      × HoldsAt iface_object (λ v. []) iface_key (codes "eth2") (route_by (codes "eth2")))
get_route_match_iff_example =
    get_route_match_iff iface_object no_value null_rule no_rule (λ v. []) (codes "running")
      iface_key (codes "eth2") two_routes [] 0 one_route (route_by (codes "eth2")) route_over_eth2
