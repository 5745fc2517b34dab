-- ===== src/RouteRule/Merged.antt =====
-- `MergedRouteRules` of rust/src/lib/route_rule.rs.
pub mod Priority
pub mod Applied
pub mod Changed
use nmstate.Base.{
  if◌then◌else◌, is_some, is_none, unwrap_or, any, retain, ◌==◌, contains, Text, ℤ, int_ltb,
  int_max, i64_succ, ℕ, ◌-◌, Bool, true, false, not, ◌&&◌, ◌||◌, none, some, List, [], ◌∷◌, ◌++◌,
  pos, nat_eq, bool_eq, list_eq, option_eq, int_eq, pair_eq,
}
use nmstate.Error.{Result, ok, err, ◌>>=◌, ◌>>◌, try_map}
use nmstate.RouteRule.{
  RouteRuleEntry, RouteRules, RouteRuleState, absent, is_absent, is_match, sanitize, sort_key,
  SortKey, use_default_priority,
}

pub record MergedRouteRules : Type 0 where
  pub desired : RouteRules
  pub current : RouteRules
  pub for_apply : List RouteRuleEntry
  pub for_verify : List RouteRuleEntry

abbrev pub rules_of : RouteRules → List RouteRuleEntry
rules_of rules = unwrap_or rules.config []

abbrev pub mark_absent : RouteRuleEntry → RouteRuleEntry
mark_absent rule = record rule { state = some absent }

abbrev pub is_removed : List RouteRuleEntry → RouteRuleEntry → Bool
is_removed des_absent rule = any (λ a. is_match a rule) des_absent

-- The rules to remove, and those that stay in `merged_rules`.
abbrev pub Lists : Type 0
Lists = List RouteRuleEntry × List RouteRuleEntry

-- `for_apply.push(new_rule)` and `merged_rules.push(rule.clone())`
abbrev pub push_removed : Result RouteRuleEntry → Result Lists → Result Lists
push_removed rule rest = do new_rule ← rule; (removed, stay) ← rest; ok (new_rule ∷ removed, stay)

abbrev pub push_stay : RouteRuleEntry → Result Lists → Result Lists
push_stay rule rest = do (removed, stay) ← rest; ok (removed, rule ∷ stay)

-- The loop over the current rules.
unfoldable pub split_current : List RouteRuleEntry → List RouteRuleEntry → Result Lists
split_current des_absent [] = ok ([], [])
split_current des_absent (rule ∷ rules) =
    let rest = split_current des_absent rules in
    if is_removed des_absent rule
    then push_removed (sanitize (mark_absent rule)) rest
    else push_stay rule rest

unfoldable pub get_max_rule_priority : List RouteRuleEntry → ℤ
get_max_rule_priority [] = pos 0
get_max_rule_priority (rule ∷ []) = unwrap_or rule.priority (pos 0)
get_max_rule_priority (rule ∷ next ∷ rules) =
    int_max (unwrap_or rule.priority (pos 0)) (get_max_rule_priority (next ∷ rules))

abbrev pub route_rule_default_priority : ℕ
route_rule_default_priority = 30000

unfoldable pub needs_priority : RouteRuleEntry → Bool
unfolding is_absent
needs_priority rule =
    not (is_absent rule) && (is_none rule.priority || rule.priority == some use_default_priority)

-- The loop of `set_auto_priority`.
unfoldable pub assign_priorities : ℤ → List RouteRuleEntry → List RouteRuleEntry
unfolding needs_priority
assign_priorities max_priority [] = []
assign_priorities max_priority (rule ∷ rules) =
    let next = i64_succ max_priority in
    let assigned = record rule { priority = some next } ∷ assign_priorities next rules in
    let kept = rule ∷ assign_priorities max_priority rules in
    if needs_priority rule then assigned else kept

-- The priority that the first automatic one follows.
abbrev pub base_priority : List RouteRuleEntry → ℤ
base_priority merged =
    let max_priority = get_max_rule_priority merged in
    let least = pos (route_rule_default_priority - 1) in
    if int_ltb max_priority least then least else max_priority

unfoldable pub set_auto_priority : List RouteRuleEntry → List RouteRuleEntry → List RouteRuleEntry
unfolding assign_priorities get_max_rule_priority
set_auto_priority for_apply merged = assign_priorities (base_priority merged) for_apply

-- `MergedRouteRules::new`
unfoldable pub new : RouteRules → RouteRules → Result MergedRouteRules
unfolding split_current set_auto_priority
new desired current = do
  (removed, stay) ← split_current (retain is_absent (rules_of desired)) (rules_of current)
  added ← try_map sanitize (retain (λ r. not (is_absent r)) (rules_of desired))
  ok (record {
    desired = desired;
    current = current;
    for_apply = set_auto_priority (removed ++ added) (stay ++ added);
    for_verify = removed ++ added;
  })

-- `remove_rules_to_ignored_ifaces`, on the names of the ignored interfaces that are not userspace.
unfoldable pub remove_rules_to_ignored_ifaces : List Text → MergedRouteRules → MergedRouteRules
remove_rules_to_ignored_ifaces ignored m = record m {
  for_apply =
      retain (λ rule. elim rule.iif [ none ↦ true | some iif ↦ not (contains ignored iif) ])
        m.for_apply;
}

-- `==` on lists of rules, whose own `==` is that of their keys.
unfoldable pub same_rules : List RouteRuleEntry → List RouteRuleEntry → Bool
same_rules [] [] = true
same_rules (rule ∷ rules) (other ∷ others) =
    (sort_key rule == sort_key other) && same_rules rules others
same_rules _ _ = false

unfoldable pub is_changed : MergedRouteRules → Bool
unfolding same_rules
is_changed m = is_some m.desired.config && not (same_rules m.for_apply (rules_of m.current))
