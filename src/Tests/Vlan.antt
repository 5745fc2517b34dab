-- ===== src/Tests/Vlan.antt =====
-- Concrete VLAN filters of rust/src/lib/ifaces/bridge_vlan.rs.
use nmstate.Base.{
  any, All, contains, ℕ, ◌≡◌, refl, subst, ◌↔◌, true, false, none, some, List, [], ◌∷◌, arith,
  nat_eq, bool_eq, list_eq, option_eq, int_eq, pair_eq,
}
use nmstate.Error.{ok, is_ok}
use nmstate.BridgeVlan.{
  BridgePortTrunkTag, BridgePortVlanConfig, id, id_range, trunk, validate_overlap_trunk_tags,
  validate_from, add_ids, tag_ids, range_ids, sanitize, count_from,
}
use nmstate.BridgeVlan.{flatten_tags}
use nmstate.BridgeVlan.Limit.{to_limit, to_limit_ignored}
use nmstate.BridgeVlan.Overlap.{ArePairwiseDisjoint, IsBelowLimit, validate_overlap-ok_iff}
use nmstate.BridgeVlan.Canonical.{normalize, IsCarried, normalize-eq_iff}
use nmstate.BridgeVlan.Sanitize.{IsValid, sanitize-ok_iff}

abbrev tags : List BridgePortTrunkTag
tags = id 10 ∷ id_range (record { min = 20; max = 22 }) ∷ []

abbrev other_tags : List BridgePortTrunkTag
other_tags = id 21 ∷ id 20 ∷ id 10 ∷ id 22 ∷ []

abbrev config_with : List BridgePortTrunkTag → BridgePortVlanConfig
config_with ts = record {
  enable_native = none;
  mode = some trunk;
  tag = none;
  trunk_tags = some ts;
}

abbrev all_below : All IsBelowLimit tags
all_below = (omega arith, (omega arith, tt))

abbrev other_below : All IsBelowLimit other_tags
other_below = (omega arith, (omega arith, (omega arith, (omega arith, tt))))

overlap_found : is_ok (validate_overlap_trunk_tags (id 21 ∷ tags)) ≡ false
unfolding validate_overlap_trunk_tags validate_from add_ids tag_ids range_ids count_from contains
    any
overlap_found = refl

validate_overlap-ok_iff_example :
    (validate_overlap_trunk_tags tags ≡ ok tt) ↔ ArePairwiseDisjoint tags
validate_overlap-ok_iff_example = validate_overlap-ok_iff tags all_below

tags_pass : validate_overlap_trunk_tags tags ≡ ok tt
unfolding validate_overlap_trunk_tags validate_from add_ids tag_ids range_ids count_from contains
    any
tags_pass = refl

other_pass : validate_overlap_trunk_tags other_tags ≡ ok tt
unfolding validate_overlap_trunk_tags validate_from add_ids tag_ids range_ids count_from contains
    any
other_pass = refl

normalize-eq_iff_example :
    ((normalize (config_with tags)).trunk_tags ≡ (normalize (config_with other_tags)).trunk_tags)
    ↔ ((v : ℕ) → IsCarried tags v ↔ IsCarried other_tags v)
normalize-eq_iff_example =
    normalize-eq_iff (config_with tags) (config_with other_tags) tags other_tags refl refl all_below
      other_below tags_pass other_pass

below_of :
    (ts : List BridgePortTrunkTag) → (config_with tags).trunk_tags ≡ some ts → All IsBelowLimit ts
below_of ts e = let same : tags ≡ ts = cc in subst (All IsBelowLimit) same all_below

sanitize-ok_iff_example :
    ((sanitize (config_with tags) true ≡ ok tt) ↔ IsValid (config_with tags))
    × (sanitize (config_with tags) false ≡ ok tt)
sanitize-ok_iff_example = sanitize-ok_iff (config_with tags) below_of

to_limit_ignored_example :
    (flatten_tags (to_limit 4000 ∷ tags) ≡ flatten_tags tags)
    × (validate_overlap_trunk_tags (to_limit 4000 ∷ tags) ≡ validate_overlap_trunk_tags tags)
to_limit_ignored_example = to_limit_ignored 4000 tags
