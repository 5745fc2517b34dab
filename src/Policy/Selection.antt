-- ===== src/Policy/Selection.antt =====
-- rust/src/lib/policy/route.rs and rust/src/lib/policy/route_rule.rs: the routes and the route rules
-- that a capture selects or changes. The conversions of entries to and from JSON are parameters.
pub mod Wanted
use nmstate.Base.{
  if◌then◌else◌, unwrap_or, ◌==◌, Text, codes, ℕ, Option, none, some, List, [], ◌∷◌, nat_eq,
  bool_eq, list_eq, option_eq, int_eq, pair_eq,
}
use nmstate.Error.{Result, ok, err, ◌>>=◌, new_policy_error}
use nmstate.Json.{Value}
use nmstate.Route.{RouteEntry, Routes}
use nmstate.RouteRule.{RouteRuleEntry, RouteRules}
use nmstate.Policy.Json.{search_item, update_items}

abbrev pub running_only : List RouteEntry → Routes
running_only entries = record { running = some entries; config = none }

abbrev pub config_only : List RouteEntry → Routes
config_only entries = record { running = none; config = some entries }

-- The common part of `get_route_match` and `update_routes`: `select` works on the chosen list.
unfoldable pub select_routes :
    (List Text → List RouteEntry → Result (List RouteEntry))
    → List Text
    → Routes
    → Text
    → ℕ
    → Result Routes
select_routes select (kind ∷ key ∷ []) routes line pos =
    if kind == codes "running"
    then select (key ∷ []) (unwrap_or routes.running []) >>= (λ found. ok (running_only found))
    else if kind == codes "config"
    then select (key ∷ []) (unwrap_or routes.config []) >>= (λ found. ok (config_only found))
    else err (new_policy_error line pos)
select_routes select _ routes line pos = err (new_policy_error line pos)

unfoldable pub select_route_rules :
    (List Text → List RouteRuleEntry → Result (List RouteRuleEntry))
    → List Text
    → RouteRules
    → Text
    → ℕ
    → Result RouteRules
select_route_rules select (kind ∷ key ∷ []) rules line pos =
    if kind == codes "config"
    then select (key ∷ []) (unwrap_or rules.config [])
      >>= (λ found. ok (record { config = some found }))
    else err (new_policy_error line pos)
select_route_rules select _ rules line pos = err (new_policy_error line pos)

module _ (route_to_value : RouteEntry → Option Value) (route_from_value : Value → Option RouteEntry)
    (rule_to_value : RouteRuleEntry → Option Value)
    (rule_from_value : Value → Option RouteRuleEntry) (json_text : Value → Text) where
  unfoldable pub get_route_match : List Text → Text → Routes → Text → ℕ → Result Routes
  unfolding select_routes search_item
  get_route_match prop_path value routes line pos =
      select_routes (λ path items. search_item route_to_value json_text path value items line pos)
        prop_path routes line pos

  unfoldable pub update_routes : List Text → Option Text → Routes → Text → ℕ → Result Routes
  unfolding select_routes update_items
  update_routes prop_path value routes line pos =
      select_routes
        (λ path items. update_items route_to_value route_from_value path value items line pos)
        prop_path routes line pos

  unfoldable pub get_route_rule_match : List Text → Text → RouteRules → Text → ℕ → Result RouteRules
  unfolding select_route_rules search_item
  get_route_rule_match prop_path value rules line pos =
      select_route_rules
        (λ path items. search_item rule_to_value json_text path value items line pos) prop_path
        rules line pos

  unfoldable pub update_route_rules :
      List Text → Option Text → RouteRules → Text → ℕ → Result RouteRules
  unfolding select_route_rules update_items
  update_route_rules prop_path value rules line pos =
      select_route_rules
        (λ path items. update_items rule_to_value rule_from_value path value items line pos)
        prop_path rules line pos
