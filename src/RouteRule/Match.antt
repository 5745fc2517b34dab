-- ===== src/RouteRule/Match.antt =====
-- `RouteRuleEntry::is_match`: an absent rule is a pattern.
use nmstate.Base.{
  is_some, is_none, unwrap_or, ◌==◌, ==_refl, ==→≡, list_beq, Text, ℤ, Wants, WantsUnless,
  Wants-iff, WantsUnless-iff, chain_split, chain_join, ℕ, ◌≡◌, refl, ◌↔◌, ◌⊎◌, inl, inr, true,
  false, not, ◌&&◌, Option, none, some, [], ◌∷◌, arith, pos, nat_eq, bool_eq, list_eq, option_eq,
  int_eq, pair_eq,
}
use nmstate.Error.{ok, err}
use nmstate.RouteRule.{
  family_beq_iff, RouteRuleEntry, AddressFamily, is_match, match_ip, wanted_ip, number_mismatch,
  use_default_priority, family_eq, action_eq,
}

-- An empty address matches only a rule without one; another is compared in its canonical form.
abbrev pub WantsIp : Option Text → Option Text → Type 0
WantsIp none b = Unit
WantsIp (some []) b = (b ≡ none) ⊎ (b ≡ some [])
WantsIp (some (c ∷ ip)) b = (wanted : Text) × (wanted_ip (c ∷ ip) ≡ ok wanted) × (b ≡ some wanted)

-- Priority -1 matches every priority, and priority 0 a missing one too.
abbrev pub WantsPriority : Option ℤ → Option ℤ → Type 0
WantsPriority none b = Unit
WantsPriority (some p) b = (p ≡ use_default_priority) ⊎ ((b ≡ some p) ⊎ ((p ≡ pos 0) × (b ≡ none)))

-- A missing mark is 0.
abbrev pub WantsNumber : Option ℕ → Option ℕ → Type 0
WantsNumber none b = Unit
WantsNumber (some n) b = unwrap_or b 0 ≡ n

-- Two families differ only if both are given.
abbrev pub AgreesWith : Option AddressFamily → Option AddressFamily → Type 0
AgreesWith (some a) (some b) = a ≡ b
AgreesWith _ _ = Unit

pub record MatchesRule (r other : RouteRuleEntry) : Type 0 where
  pub ip_from : WantsIp r.ip_from other.ip_from
  pub ip_to : WantsIp r.ip_to other.ip_to
  pub family : AgreesWith r.family other.family
  pub priority : WantsPriority r.priority other.priority
  pub table_id : WantsUnless 0 r.table_id other.table_id
  pub fwmark : WantsNumber r.fwmark other.fwmark
  pub fwmask : WantsNumber r.fwmask other.fwmask
  pub iif : Wants r.iif other.iif
  pub action : Wants r.action other.action
  pub suppress_prefix_length : Wants r.suppress_prefix_length other.suppress_prefix_length

WantsIp-iff : (a b : Option Text) → (not (match_ip a b) ≡ false) ↔ WantsIp a b
unfolding match_ip list_beq
WantsIp-iff none b = (λ _. tt, λ _. refl)
WantsIp-iff (some []) none = (λ _. inl refl, λ _. refl)
WantsIp-iff (some []) (some []) = (λ _. inr refl, λ _. refl)
WantsIp-iff (some []) (some (c ∷ s)) = (λ h. cc, λ h. elim h [ inl e ↦ cc | inr e ↦ cc ])
WantsIp-iff (some (c ∷ ip)) b =
    elim (wanted_ip (c ∷ ip))
      as (λ w.
        (not (elim w [ err e ↦ false | ok wanted ↦ b == some wanted ]) ≡ false)
        ↔ ((wanted : Text) × (w ≡ ok wanted) × (b ≡ some wanted))) [
          | err e ↦ (λ h. cc, λ h. let (x, q, r) = h in cc)
          | ok w ↦ (
            λ h. (w, refl, ==→≡ b (some w) (ground arith)),
            λ h. let (x, q, r) = h in let same : b ≡ some w = cc in rw (same, ==_refl w) refl,
          )
        ]

AgreesWith-iff :
    (a b : Option AddressFamily)
    → ((is_some a && is_some b && not (a == b)) ≡ false) ↔ AgreesWith a b
AgreesWith-iff none b = (λ _. tt, λ _. refl)
AgreesWith-iff (some a) none = (λ _. tt, λ _. refl)
AgreesWith-iff (some a) (some b) = ground (arith, family_beq_iff a b)

WantsPriority-iff :
    (a b : Option ℤ)
    → ((is_some a
          && not (a == some use_default_priority)
          && not (a == b)
          && not (a == some (pos 0) && is_none b))
        ≡ false)
      ↔ WantsPriority a b
WantsPriority-iff a b = ground arith

WantsNumber-iff : (a b : Option ℕ) → (number_mismatch a b ≡ false) ↔ WantsNumber a b
WantsNumber-iff a b = ground arith

-- A pattern matches a rule exactly when each of its fields is a wildcard or fits the rule's: an
-- empty address stands for none, an address without a prefix for the full one, table 0 and priority
-- -1 for any, and priority 0 and a missing mark for each other's default; the states are not looked
-- at.
pub MatchesRule-iff : (r other : RouteRuleEntry) → (is_match r other ≡ true) ↔ MatchesRule r other
unfolding is_match
MatchesRule-iff r o = (
  λ h.
      let (a1, h1) = chain_split _ h in
      let (a2, h2) = chain_split _ h1 in
      let (a3, h3) = chain_split _ h2 in
      let (a4, h4) = chain_split _ h3 in
      let (a5, h5) = chain_split _ h4 in
      let (a6, h6) = chain_split _ h5 in
      let (a7, h7) = chain_split _ h6 in
      let (a8, h8) = chain_split _ h7 in
      let (a9, h9) = chain_split _ h8 in
      let (a10, h10) = chain_split _ h9 in
      record {
        ip_from = (WantsIp-iff r.ip_from o.ip_from).0 a1;
        ip_to = (WantsIp-iff r.ip_to o.ip_to).0 a2;
        family = (AgreesWith-iff r.family o.family).0 a3;
        priority = (WantsPriority-iff r.priority o.priority).0 a4;
        table_id = (WantsUnless-iff 0 r.table_id o.table_id).0 a5;
        fwmark = (WantsNumber-iff r.fwmark o.fwmark).0 a6;
        fwmask = (WantsNumber-iff r.fwmask o.fwmask).0 a7;
        iif = (Wants-iff r.iif o.iif).0 a8;
        action = (Wants-iff r.action o.action).0 a9;
        suppress_prefix_length =
            (Wants-iff r.suppress_prefix_length o.suppress_prefix_length).0 a10;
      },
  λ m. chain_join ((WantsIp-iff r.ip_from o.ip_from).1 m.ip_from) (
      chain_join ((WantsIp-iff r.ip_to o.ip_to).1 m.ip_to) (
        chain_join ((AgreesWith-iff r.family o.family).1 m.family) (
          chain_join ((WantsPriority-iff r.priority o.priority).1 m.priority) (
            chain_join ((WantsUnless-iff 0 r.table_id o.table_id).1 m.table_id) (
              chain_join ((WantsNumber-iff r.fwmark o.fwmark).1 m.fwmark) (
                chain_join ((WantsNumber-iff r.fwmask o.fwmask).1 m.fwmask) (
                  chain_join ((Wants-iff r.iif o.iif).1 m.iif) (
                    chain_join ((Wants-iff r.action o.action).1 m.action) (
                      chain_join
                        ((Wants-iff r.suppress_prefix_length o.suppress_prefix_length).1
                          m.suppress_prefix_length)
                        refl))))))))),
)
