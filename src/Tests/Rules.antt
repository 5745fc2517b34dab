-- ===== src/Tests/Rules.antt =====
-- Concrete route rules for rust/src/lib/route_rule.rs.
use nmstate.Base.{
  any, retain, All, list_beq, contains, Text, codes, ℤ, IsAtMost, ℕ, ◌≤◌, ◌≡◌, refl, ◌↔◌, ◌⊎◌, true,
  false, Option, none, some, [], ◌∷◌, Memᴰ, arith, pos, nat_eq, bool_eq, list_eq, option_eq, int_eq,
  pair_eq,
}
use nmstate.Error.{ok, try_map}
use nmstate.Ip.{sanitize_ip_network, parse_ip, show_ip, apply_ip_prefix_len, is_ipv6_addr}
use nmstate.RouteRule.{
  RouteRuleEntry, RouteRules, absent, is_absent, is_match, sanitize, ipv4, validate_ip_from_to,
  validate_fwmark_and_fwmask, match_ip,
}
use nmstate.RouteRule.Merged.{
  MergedRouteRules, new, is_changed, split_current, set_auto_priority, base_priority,
  get_max_rule_priority, assign_priorities, needs_priority,
}
use nmstate.RouteRule.Match.{MatchesRule, MatchesRule-iff}
use nmstate.RouteRule.Merged.Priority.{IsAssigned, IsBelow, set_auto_priority-IsAssigned}
use nmstate.RouteRule.Merged.Applied.{IsRemoval, IsAddition, AreApplied, new-AreApplied}
use nmstate.RouteRule.Merged.Changed.{with_iif, is_changed-with_iifs}

abbrev rule_from : Text → Option ℤ → ℕ → RouteRuleEntry
rule_from ip priority table = record {
  family = some ipv4;
  state = none;
  ip_from = some ip;
  ip_to = none;
  priority = priority;
  table_id = some table;
  fwmark = none;
  fwmask = none;
  action = none;
  iif = none;
  suppress_prefix_length = none;
}

abbrev added_rule : RouteRuleEntry
added_rule = rule_from (codes "192.0.2.0/24") none 500

abbrev old_rule : RouteRuleEntry
old_rule = rule_from (codes "198.51.100.0/24") (some (pos 30004)) 501

abbrev gone_rule : RouteRuleEntry
gone_rule = rule_from (codes "203.0.113.0/24") (some (pos 100)) 502

abbrev as_absent : RouteRuleEntry → RouteRuleEntry
as_absent r = record r { state = some absent }

abbrev desired_rules : RouteRules
desired_rules = record { config = some (added_rule ∷ as_absent gone_rule ∷ []) }

abbrev current_rules : RouteRules
current_rules = record { config = some (old_rule ∷ gone_rule ∷ []) }

abbrev merged_rules : MergedRouteRules
merged_rules = record {
  desired = desired_rules;
  current = current_rules;
  for_apply = as_absent gone_rule ∷ record added_rule { priority = some (pos 30005) } ∷ [];
  for_verify = as_absent gone_rule ∷ added_rule ∷ [];
}

merged_rules_lem : new desired_rules current_rules ≡ ok merged_rules
unfolding new split_current try_map retain any is_absent is_match match_ip sanitize
    validate_ip_from_to validate_fwmark_and_fwmask set_auto_priority assign_priorities
    get_max_rule_priority needs_priority sanitize_ip_network parse_ip show_ip apply_ip_prefix_len
    is_ipv6_addr contains list_beq
merged_rules_lem = refl

new-AreApplied_example :
    (Memᴰ added_rule merged_rules.for_verify
      ↔ (IsRemoval desired_rules current_rules added_rule ⊎ IsAddition desired_rules added_rule))
    × AreApplied merged_rules.for_verify merged_rules.for_apply
new-AreApplied_example =
    new-AreApplied desired_rules current_rules merged_rules added_rule merged_rules_lem

base_is_small : IsAtMost 30004 (base_priority (old_rule ∷ added_rule ∷ []))
unfolding get_max_rule_priority
base_is_small = omega arith

set_auto_priority-IsAssigned_example :
    (low : ℕ) × IsAssigned low
      (added_rule ∷ added_rule ∷ [])
      (set_auto_priority (added_rule ∷ added_rule ∷ []) (old_rule ∷ added_rule ∷ []))
    × All (IsBelow low) (old_rule ∷ added_rule ∷ [])
    × (29999 ≤ low)
set_auto_priority-IsAssigned_example =
    set_auto_priority-IsAssigned (added_rule ∷ added_rule ∷ []) (old_rule ∷ added_rule ∷ []) 30004
      base_is_small (omega arith)

-- The old rule is desired for another interface.
abbrev moved_rules : MergedRouteRules
moved_rules = record {
  desired = record { config = some (with_iif (λ r. some (codes "eth2")) old_rule ∷ []) };
  current = record { config = some (old_rule ∷ []) };
  for_apply = with_iif (λ r. some (codes "eth2")) old_rule ∷ [];
  for_verify = with_iif (λ r. some (codes "eth2")) old_rule ∷ [];
}

moved_rules_lem : new moved_rules.desired moved_rules.current ≡ ok moved_rules
unfolding new split_current try_map retain any is_absent is_match match_ip sanitize
    validate_ip_from_to validate_fwmark_and_fwmask set_auto_priority assign_priorities
    get_max_rule_priority needs_priority sanitize_ip_network parse_ip show_ip apply_ip_prefix_len
    is_ipv6_addr contains list_beq
moved_rules_lem = refl

is_changed-with_iifs_example : is_changed moved_rules ≡ false
is_changed-with_iifs_example = is_changed-with_iifs moved_rules (λ r. some (codes "eth2")) refl

MatchesRule-iff_example :
    (is_match (as_absent gone_rule) gone_rule ≡ true) ↔ MatchesRule (as_absent gone_rule) gone_rule
MatchesRule-iff_example = MatchesRule-iff (as_absent gone_rule) gone_rule
