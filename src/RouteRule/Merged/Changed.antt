-- ===== src/RouteRule/Merged/Changed.antt =====
-- `MergedRouteRules::is_changed`.
use nmstate.Base.{
  &&_join, ==_refl, Text, ◌≡◌, refl, true, false, Option, List, [], ◌∷◌, map, arith, nat_eq,
  bool_eq, list_eq, option_eq, int_eq, pair_eq,
}
use nmstate.RouteRule.{RouteRuleEntry, sort_key}
use nmstate.RouteRule.Merged.{MergedRouteRules, is_changed, same_rules, rules_of}

-- The rules with other incoming interfaces.
abbrev pub with_iif : (RouteRuleEntry → Option Text) → RouteRuleEntry → RouteRuleEntry
with_iif iif_of rule = record rule { iif = iif_of rule }

abbrev pub with_iifs : (RouteRuleEntry → Option Text) → List RouteRuleEntry → List RouteRuleEntry
with_iifs iif_of rules = map (with_iif iif_of) rules

same_rules-with_iifs :
    (iif_of : RouteRuleEntry → Option Text) (rules : List RouteRuleEntry)
    → same_rules (with_iifs iif_of rules) rules ≡ true
unfolding same_rules sort_key
same_rules-with_iifs iif_of [] = refl
same_rules-with_iifs iif_of (r ∷ rules) =
    &&_join (==_refl (sort_key r)) (same_rules-with_iifs iif_of rules)

-- A merge whose rules to apply are the current rules with other incoming interfaces, whatever these
-- are, is taken for unchanged.
pub is_changed-with_iifs :
    (m : MergedRouteRules) (iif_of : RouteRuleEntry → Option Text)
    → m.for_apply ≡ with_iifs iif_of (rules_of m.current)
    → is_changed m ≡ false
unfolding is_changed
is_changed-with_iifs m iif_of e =
    rw (e, same_rules-with_iifs iif_of (rules_of m.current)) (ground arith)
