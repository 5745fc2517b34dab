-- ===== src/RouteRule/Merged/Applied.antt =====
-- Which rules `MergedRouteRules::new` gives to the backend and to the verification.
use nmstate.Base.{
  Bool-cases, not-true, retain, Memᴰ-append_left, Memᴰ-append_right, Memᴰ-append, Memᴰ-retain,
  retain-Memᴰ, any-true, any-Memᴰ, ℤ, ◌≡◌, refl, sym, ap, subst, ◌↔◌, ◌⊎◌, inl, inr, true, false,
  not, some, List, [], ◌∷◌, ◌++◌, Memᴰ,
}
use nmstate.Error.{Memᴰ-try_map, try_map-Memᴰ, Result, ok, err, bind-eq-ok, try_map}
use nmstate.RouteRule.{RouteRuleEntry, RouteRules, is_absent, is_match, sanitize}
use nmstate.RouteRule.Merged.{
  MergedRouteRules, rules_of, mark_absent, is_removed, Lists, push_removed, push_stay,
  split_current, new, needs_priority, assign_priorities, base_priority, set_auto_priority, i64_succ,
}

-- A current rule that an absent desired rule matches, marked as absent and sanitized.
pub record IsRemoval (desired current : RouteRules) (out : RouteRuleEntry) : Type 0 where
  pub rule : RouteRuleEntry
  pub pattern : RouteRuleEntry
  pub rule_found : Memᴰ rule (rules_of current)
  pub pattern_found : Memᴰ pattern (rules_of desired)
  pub pattern_absent : is_absent pattern ≡ true
  pub matched : is_match pattern rule ≡ true
  pub clean : sanitize (mark_absent rule) ≡ ok out

-- A desired rule that is not absent, sanitized.
pub record IsAddition (desired : RouteRules) (out : RouteRuleEntry) : Type 0 where
  pub rule : RouteRuleEntry
  pub found : Memᴰ rule (rules_of desired)
  pub present : is_absent rule ≡ false
  pub clean : sanitize rule ≡ ok out

abbrev removals : List RouteRuleEntry → List RouteRuleEntry → Result (List RouteRuleEntry)
removals des_absent rules =
    try_map (λ r. sanitize (mark_absent r)) (retain (is_removed des_absent) rules)

push_removed-ok :
    (rule : Result RouteRuleEntry) (rest : Result Lists) (lists : Lists)
    → push_removed rule rest ≡ ok lists
    → (new_rule : RouteRuleEntry) × (inner : Lists) × (rule ≡ ok new_rule)
      × (rest ≡ ok inner)
      × (lists.0 ≡ new_rule ∷ inner.0)
push_removed-ok (err e) rest lists h = cc
push_removed-ok (ok new_rule) (err e) lists h = cc
push_removed-ok (ok new_rule) (ok (removed, stay)) lists h =
    let same : (new_rule ∷ removed, stay) ≡ lists = cc in
    (new_rule, (removed, stay), refl, refl, ap (λ l. l.0) (sym same))

push_stay-ok :
    (rule : RouteRuleEntry) (rest : Result Lists) (lists : Lists)
    → push_stay rule rest ≡ ok lists
    → (inner : Lists) × (rest ≡ ok inner) × (lists.0 ≡ inner.0)
push_stay-ok rule (err e) lists h = cc
push_stay-ok rule (ok (removed, stay)) lists h =
    let same : (removed, rule ∷ stay) ≡ lists = cc in
    ((removed, stay), refl, ap (λ l. l.0) (sym same))

-- A success of the loop over the current rules.
split_current-removals :
    (des_absent rules : List RouteRuleEntry) (lists : Lists)
    → split_current des_absent rules ≡ ok lists
    → removals des_absent rules ≡ ok lists.0
unfolding split_current try_map retain
split_current-removals des_absent [] lists h =
    let same : ([], []) ≡ lists = cc in ap (λ l. ok l.0) same
split_current-removals des_absent (rule ∷ rules) lists h =
    elim (Bool-cases (is_removed des_absent rule)) [
      | inl e ↦
          let (new_rule, inner, e1, e2, s) = push_removed-ok _ _ lists (rw e at h) in
          rw (e, e1, split_current-removals des_absent rules inner e2, s) refl
      | inr e ↦
          let (inner, e2, s) = push_stay-ok rule _ lists (rw e at h) in
          rw (e, split_current-removals des_absent rules inner e2, s) refl
    ]

IsRemoval-of :
    (desired current : RouteRules) (removed : List RouteRuleEntry) (out : RouteRuleEntry)
    → removals (retain is_absent (rules_of desired)) (rules_of current) ≡ ok removed
    → Memᴰ out removed ↔ IsRemoval desired current out
IsRemoval-of desired current removed out h = (to, from)
  where
    to : Memᴰ out removed → IsRemoval desired current out
    to m =
        let (rule, found, made) = Memᴰ-try_map _ _ removed h out m in
        let (mem, q) = Memᴰ-retain (is_removed (retain is_absent (rules_of desired))) _ found in
        let (pattern, n, matched) = any-true (λ a. is_match a rule) _ q in
        let (pattern_mem, gone) = Memᴰ-retain is_absent _ n in
        record {
          rule = rule;
          pattern = pattern;
          rule_found = mem;
          pattern_found = pattern_mem;
          pattern_absent = gone;
          matched = matched;
          clean = made;
        }

    from : IsRemoval desired current out → Memᴰ out removed
    from r =
        let q =
          any-Memᴰ (λ a. is_match a r.rule) (retain-Memᴰ is_absent r.pattern_found r.pattern_absent)
            r.matched in
        try_map-Memᴰ _ _ removed h r.rule out (retain-Memᴰ _ r.rule_found q) r.clean

IsAddition-of :
    (desired : RouteRules) (added : List RouteRuleEntry) (out : RouteRuleEntry)
    → try_map sanitize (retain (λ r. not (is_absent r)) (rules_of desired)) ≡ ok added
    → Memᴰ out added ↔ IsAddition desired out
IsAddition-of desired added out h = (to, from)
  where
    to : Memᴰ out added → IsAddition desired out
    to m =
        let (rule, found, made) = Memᴰ-try_map sanitize _ added h out m in
        let (mem, q) = Memᴰ-retain (λ r. not (is_absent r)) _ found in
        record { rule = rule; found = mem; present = not-true _ q; clean = made }

    from : IsAddition desired out → Memᴰ out added
    from r =
        try_map-Memᴰ sanitize _ added h r.rule out
          (retain-Memᴰ (λ r. not (is_absent r)) r.found (rw r.present refl)) r.clean

-- What the backend gets for a rule: the rule, unless it needs a priority; then the rule with one.
pub data IsApplied (rule out : RouteRuleEntry) : Type 0 where
  kept : needs_priority rule ≡ false → out ≡ rule → IsApplied rule out
  numbered :
      (priority : ℤ)
      → needs_priority rule ≡ true
      → out ≡ record rule { priority = some priority }
      → IsApplied rule out

-- The two lists, rule by rule.
unfoldable pub AreApplied : List RouteRuleEntry → List RouteRuleEntry → Type 0
AreApplied [] [] = Unit
AreApplied (rule ∷ rules) (out ∷ outs) = IsApplied rule out × AreApplied rules outs
AreApplied _ _ = ⊥

assign_priorities-AreApplied :
    (low : ℤ) (rules : List RouteRuleEntry) → AreApplied rules (assign_priorities low rules)
unfolding AreApplied assign_priorities
assign_priorities-AreApplied low [] = tt
assign_priorities-AreApplied low (rule ∷ rules) = elim (Bool-cases (needs_priority rule)) [
  | inl e ↦
      rw e (
        IsApplied.numbered (i64_succ low) e refl,
        assign_priorities-AreApplied (i64_succ low) rules,
      )
  | inr e ↦ rw e (IsApplied.kept e refl, assign_priorities-AreApplied low rules)
]

abbrev to_verify : Result MergedRouteRules → List RouteRuleEntry
to_verify (ok m) = m.for_verify
to_verify (err e) = []

abbrev to_apply : Result MergedRouteRules → List RouteRuleEntry
to_apply (ok m) = m.for_apply
to_apply (err e) = []

-- After a successful merge, a rule is one to verify exactly when it is a current rule that an
-- absent desired rule matches, marked as absent and sanitized, or a sanitized desired rule that is
-- not absent. The rules to apply are those to verify, one for one and in their order, each as it
-- is, or with some priority if it is present and asks for an automatic one.
pub new-AreApplied :
    (desired current : RouteRules) (m : MergedRouteRules) (out : RouteRuleEntry)
    → new desired current ≡ ok m
    → (Memᴰ out m.for_verify ↔ (IsRemoval desired current out ⊎ IsAddition desired out))
      × AreApplied m.for_verify m.for_apply
unfolding new set_auto_priority
new-AreApplied desired current m out h =
    let (lists, e1, h1) =
      bind-eq-ok (split_current (retain is_absent (rules_of desired)) (rules_of current)) _ h in
    let (added, e2, h2) =
      bind-eq-ok (try_map sanitize (retain (λ r. not (is_absent r)) (rules_of desired))) _ h1 in
    let all : m.for_verify ≡ lists.0 ++ added = sym (ap to_verify h2) in
    let given : set_auto_priority (lists.0 ++ added) (lists.1 ++ added) ≡ m.for_apply =
      ap to_apply h2 in
    let removal = IsRemoval-of desired current lists.0 out (split_current-removals _ _ lists e1) in
    let addition = IsAddition-of desired added out e2 in
    (
      (
        λ n. elim (Memᴰ-append lists.0 (subst (Memᴰ out) all n)) [
          | inl a ↦ inl (removal.0 a)
          | inr b ↦ inr (addition.0 b)
        ],
        λ either. subst (Memᴰ out) (sym all) (elim either [
          | inl a ↦ Memᴰ-append_left added (removal.1 a)
          | inr b ↦ Memᴰ-append_right lists.0 (addition.1 b)
        ]),
      ),
      rw (all, ← given)
          (assign_priorities-AreApplied (base_priority (lists.1 ++ added)) (lists.0 ++ added)),
    )
