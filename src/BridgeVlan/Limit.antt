-- ===== src/BridgeVlan/Limit.antt =====
-- A range of tags up to the largest `u16`, for which `range.max + 1` wraps to 0.
use nmstate.Base.{ℕ, ◌-◌, ◌≡◌, refl, List, [], ◌∷◌, arith}
use nmstate.BridgeVlan.{
  BridgePortTrunkTag, id_range, range_ids, tag_ids, flatten_tags, add_ids, validate_from,
  validate_overlap_trunk_tags, count_from,
}

abbrev pub to_limit : ℕ → BridgePortTrunkTag
to_limit min = id_range (record { min = min; max = 65535 })

no_ids : (min : ℕ) → tag_ids (to_limit min) ≡ []
unfolding tag_ids range_ids count_from
no_ids min = let none_left : 0 - min ≡ 0 = omega arith in rw none_left refl

-- A range up to 65535 is dropped when the ranges are flattened, and the overlap check of the tags is
-- the same without it.
pub to_limit_ignored :
    (min : ℕ) (tags : List BridgePortTrunkTag)
    → (flatten_tags (to_limit min ∷ tags) ≡ flatten_tags tags)
      × (validate_overlap_trunk_tags (to_limit min ∷ tags) ≡ validate_overlap_trunk_tags tags)
unfolding flatten_tags validate_overlap_trunk_tags validate_from add_ids
to_limit_ignored min tags = (rw (no_ids min) refl, rw (no_ids min) refl)
