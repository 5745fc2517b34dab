-- ===== src/RouteRule/Merged/Priority.antt =====
-- `set_auto_priority` of rust/src/lib/route_rule.rs.
use nmstate.Base.{
  ltb, nat_beq, if◌then◌else◌, Bool-cases, unwrap_or, length, All, ℤ, int_ltb, int_max, IsAtMost, ℕ,
  ◌+◌, ◌^◌, ◌≤◌, ◌<◌, ◌≡◌, refl, subst, inl, inr, true, false, some, List, [], ◌∷◌, arith, pos,
  negsuc,
}
use nmstate.RouteRule.{RouteRuleEntry}
use nmstate.RouteRule.Merged.{
  get_max_rule_priority, needs_priority, assign_priorities, base_priority, set_auto_priority,
}

-- From `low` on, each rule that needs a priority gets one above all that were given before it, and
-- every other rule is kept.
pub data IsAssigned : ℕ → List RouteRuleEntry → List RouteRuleEntry → Type 0 where
  done : {low : ℕ} → IsAssigned low [] []
  kept :
      {low : ℕ} {rule : RouteRuleEntry} {rules out : List RouteRuleEntry}
      → needs_priority rule ≡ false
      → IsAssigned low rules out
      → IsAssigned low (rule ∷ rules) (rule ∷ out)
  assigned :
      {low : ℕ} {rule : RouteRuleEntry} {rules out : List RouteRuleEntry} (priority : ℕ)
      → needs_priority rule ≡ true
      → low < priority
      → IsAssigned priority rules out
      → IsAssigned low (rule ∷ rules) (record rule { priority = some (pos priority) } ∷ out)

assign_priorities-IsAssigned :
    (low : ℕ) (rules : List RouteRuleEntry)
    → low + length rules < 2 ^ 63
    → IsAssigned low rules (assign_priorities (pos low) rules)
unfolding assign_priorities
assign_priorities-IsAssigned low [] b = IsAssigned.done
assign_priorities-IsAssigned low (rule ∷ rules) b =
    let small : nat_beq (low + 1) (2 ^ 63) ≡ false = ground arith in
    elim (Bool-cases (needs_priority rule)) [
      | inl e ↦
          rw (e, small)
            (IsAssigned.assigned (low + 1) e (omega arith)
              (assign_priorities-IsAssigned (low + 1) rules (omega arith)))
      | inr e ↦ rw e (IsAssigned.kept e (assign_priorities-IsAssigned low rules (omega arith)))
    ]

IsAtMost-int_max :
    (low : ℕ) (a b : ℤ) → IsAtMost low (int_max a b) → IsAtMost low a × IsAtMost low b
IsAtMost-int_max low (pos a) (pos b) h = ground arith
IsAtMost-int_max low (pos a) (negsuc b) h = (h, tt)
IsAtMost-int_max low (negsuc a) (pos b) h = (tt, h)
IsAtMost-int_max low (negsuc a) (negsuc b) h = (tt, tt)

abbrev pub IsBelow : ℕ → RouteRuleEntry → Type 0
IsBelow low rule = IsAtMost low (unwrap_or rule.priority (pos 0))

get_max_rule_priority-All :
    (low : ℕ) (rules : List RouteRuleEntry)
    → IsAtMost low (get_max_rule_priority rules)
    → All (IsBelow low) rules
unfolding get_max_rule_priority
get_max_rule_priority-All low [] h = tt
get_max_rule_priority-All low (rule ∷ []) h = (h, tt)
get_max_rule_priority-All low (rule ∷ next ∷ rules) h =
    let both = IsAtMost-int_max low _ _ h in
    (both.0, get_max_rule_priority-All low (next ∷ rules) both.1)

-- The base is a natural number, not below the default priorities nor the largest priority.
raise_base :
    (top : ℤ)
    → (low : ℕ) × ((if int_ltb top (pos 29999) then pos 29999 else top) ≡ pos low)
      × IsAtMost low top
      × (29999 ≤ low)
raise_base (negsuc n) = (29999, refl, tt, omega arith)
raise_base (pos n) = elim (Bool-cases (ltb n 29999)) [
  | inl e ↦ (29999, rw e refl, ground arith, omega arith)
  | inr e ↦ (n, rw e refl, omega arith, ground arith)
]

-- If the priorities do not come to the end of the 64-bit integers: from some number on, at least
-- 29999 and at least every priority of the merged rules, each rule to apply that is present and has
-- no priority of its own gets one above all that were given before, in the order of the list; every
-- other rule stays as it is.
pub set_auto_priority-IsAssigned :
    (for_apply merged : List RouteRuleEntry) (top : ℕ)
    → IsAtMost top (base_priority merged)
    → top + length for_apply < 2 ^ 63
    → (low : ℕ) × IsAssigned low for_apply (set_auto_priority for_apply merged)
      × All (IsBelow low) merged
      × (29999 ≤ low)
unfolding set_auto_priority
set_auto_priority-IsAssigned for_apply merged top h b =
    let (low, e, bound, least) = raise_base (get_max_rule_priority merged) in
    let below : low ≤ top = subst (IsAtMost top) e h in
    (
      low,
      rw e (assign_priorities-IsAssigned low for_apply (omega arith)),
      get_max_rule_priority-All low merged bound,
      least,
    )
