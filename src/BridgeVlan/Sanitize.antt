-- ===== src/BridgeVlan/Sanitize.antt =====
-- `BridgePortVlanConfig::sanitize`.
use nmstate.Base.{
  Option-cases, is_some, All, ◌==◌, ℕ, ◌≡◌, refl, ◌≢◌, ◌↔◌, inl, inr, true, false, not, ◌&&◌, none,
  some, List, [], arith, nat_eq, bool_eq, list_eq, option_eq,
}
use nmstate.Error.{ok}
use nmstate.BridgeVlan.{
  BridgePortVlanConfig, BridgePortTrunkTag, trunk, access, mode_eq, tag_eq,
  validate_overlap_trunk_tags, sanitize, has_tags,
}
use nmstate.BridgeVlan.Overlap.{IsBelowLimit, ArePairwiseDisjoint, validate_overlap-ok_iff}

-- What a desired configuration has to meet.
pub record IsValid (c : BridgePortVlanConfig) : Type 0 where
  -- A tag in trunk mode, other than 0, wants a native VLAN.
  pub native_tag :
      (v : ℕ) → c.mode ≡ some trunk → c.tag ≡ some v → v ≢ 0 → c.enable_native ≡ some true
  pub access_native : c.mode ≡ some access → c.enable_native ≢ some true
  pub access_tags :
      (tags : List BridgePortTrunkTag) → c.mode ≡ some access → c.trunk_tags ≡ some tags → tags ≡ []
  pub trunk_tags : c.mode ≡ some trunk → c.trunk_tags ≢ none
  pub overlap :
      (tags : List BridgePortTrunkTag) → c.trunk_tags ≡ some tags → ArePairwiseDisjoint tags

overlap_lem :
    (c : BridgePortVlanConfig)
    → ((tags : List BridgePortTrunkTag) → c.trunk_tags ≡ some tags → All IsBelowLimit tags)
    → sanitize c true ≡ ok tt
    → (tags : List BridgePortTrunkTag) → c.trunk_tags ≡ some tags
    → ArePairwiseDisjoint tags
unfolding sanitize
overlap_lem c b h tags e = (validate_overlap-ok_iff tags (b tags e)).0 (ground arith)

module _ (c : BridgePortVlanConfig) (v : IsValid c) where
  valid_tags :
      {tags : List BridgePortTrunkTag}
      → c.trunk_tags ≡ some tags
      → All IsBelowLimit tags
      → validate_overlap_trunk_tags tags ≡ ok tt
  valid_tags {tags} e b = (validate_overlap-ok_iff tags b).1 (v.overlap tags e)

  native_ok :
      (c.mode == some trunk
        && is_some c.tag
        && not (c.tag == some 0)
        && not (c.enable_native == some true))
      ≡ false
  native_ok = elim (Option-cases c.tag) [
    | inl e ↦ ground arith
    | inr (t, e) ↦ ground (arith, v.native_tag t)
  ]

  access_ok : (c.mode == some access && has_tags c.trunk_tags) ≡ false
  access_ok = elim (Option-cases c.trunk_tags) [
    | inl e ↦ ground arith
    | inr (ts, e) ↦ ground (arith, v.access_tags ts)
  ]

IsValid-sanitize :
    (c : BridgePortVlanConfig)
    → ((tags : List BridgePortTrunkTag) → c.trunk_tags ≡ some tags → All IsBelowLimit tags)
    → IsValid c
    → sanitize c true ≡ ok tt
unfolding sanitize
IsValid-sanitize c b v = elim (Option-cases c.trunk_tags) [
  | inl e ↦ ground (arith, native_ok c v, access_ok c v, v.access_native, v.trunk_tags)
  | inr (ts, e) ↦
      ground (arith, native_ok c v, access_ok c v, v.access_native, valid_tags c v e (b ts e))
]

-- A desired configuration whose tags lie below the largest `u16` is accepted exactly when it is
-- valid; one that is not desired is always accepted.
pub sanitize-ok_iff :
    (c : BridgePortVlanConfig)
    → ((tags : List BridgePortTrunkTag) → c.trunk_tags ≡ some tags → All IsBelowLimit tags)
    → ((sanitize c true ≡ ok tt) ↔ IsValid c) × (sanitize c false ≡ ok tt)
unfolding sanitize
sanitize-ok_iff c b = (
  (
    λ h. record {
      native_tag = λ v. ground arith;
      access_native = ground arith;
      access_tags = λ tags. ground arith;
      trunk_tags = ground arith;
      overlap = overlap_lem c b h;
    },
    IsValid-sanitize c b,
  ),
  refl,
)
