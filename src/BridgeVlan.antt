-- ===== src/BridgeVlan.antt =====
-- rust/src/lib/ifaces/bridge_vlan.rs: the VLAN filter of a bridge port. VLAN numbers are `u16`, and
-- `range.max + 1` wraps as in a release build.
pub mod Overlap
pub mod Canonical
pub mod Sanitize
pub mod Limit
use nmstate.Base.{
  if◌then◌else◌, is_some, is_none, is_empty, Eq, ◌==◌, contains, sort_by, ℕ, zero, suc, ◌+◌, ◌-◌,
  ◌%◌, compare, Ordering, ◌≡◌, ◌↔◌, Bool, true, false, not, ◌&&◌, ◌||◌, Option, none, some, List,
  [], ◌∷◌, ◌++◌, map, arith, nat_eq, bool_eq, list_eq, option_eq, nat_ord, bool_ord, pair_ord,
  list_ord,
}
use nmstate.Error.{Result, ok, err, ◌>>=◌, ◌>>◌, fail_if, new_error, invalid_argument}

pub data BridgePortVlanMode : Type 0 where
  trunk access : BridgePortVlanMode

pub record BridgePortVlanRange : Type 0 where
  pub min : ℕ
  pub max : ℕ

pub data BridgePortTrunkTag : Type 0 where
  id : ℕ → BridgePortTrunkTag
  id_range : BridgePortVlanRange → BridgePortTrunkTag

pub record BridgePortVlanConfig : Type 0 where
  pub enable_native : Option Bool
  pub mode : Option BridgePortVlanMode
  pub tag : Option ℕ
  pub trunk_tags : Option (List BridgePortTrunkTag)

abbrev mode_beq : BridgePortVlanMode → BridgePortVlanMode → Bool
mode_beq trunk trunk = true
mode_beq access access = true
mode_beq _ _ = false

pub mode_beq_iff : (a b : BridgePortVlanMode) → (mode_beq a b ≡ true) ↔ (a ≡ b)
mode_beq_iff a b = ground arith

instance abbrev pub mode_eq : Eq BridgePortVlanMode
mode_eq = record { beq = mode_beq; beq_iff = mode_beq_iff }

abbrev pub tag_beq : BridgePortTrunkTag → BridgePortTrunkTag → Bool
tag_beq (id a) (id b) = a == b
tag_beq (id_range r) (id_range s) = (r.min == s.min) && (r.max == s.max)
tag_beq _ _ = false

pub tag_beq_iff : (a b : BridgePortTrunkTag) → (tag_beq a b ≡ true) ↔ (a ≡ b)
tag_beq_iff a b = ground arith

instance abbrev pub tag_eq : Eq BridgePortTrunkTag
tag_eq = record { beq = tag_beq; beq_iff = tag_beq_iff }

abbrev pub u16_mod : ℕ
u16_mod = 65536

-- The `count` numbers from `start` on.
unfoldable pub count_from : ℕ → ℕ → List ℕ
count_from start zero = []
count_from start (suc count) = start ∷ count_from (suc start) count

-- The values of `for i in range.min..range.max + 1`.
unfoldable pub range_ids : BridgePortVlanRange → List ℕ
range_ids r = count_from r.min ((r.max + 1) % u16_mod - r.min)

abbrev pub get_vlan_tag_range : BridgePortTrunkTag → ℕ × ℕ
get_vlan_tag_range (id d) = (d, d)
get_vlan_tag_range (id_range r) = (r.min, r.max)

-- What one tag becomes in the loop of `flatten_vlan_ranges`, and what it puts into `found`.
unfoldable pub tag_ids : BridgePortTrunkTag → List ℕ
tag_ids (id d) = d ∷ []
tag_ids (id_range r) = range_ids r

unfoldable pub flatten_tags : List BridgePortTrunkTag → List BridgePortTrunkTag
flatten_tags [] = []
flatten_tags (t ∷ ts) = map id (tag_ids t) ++ flatten_tags ts

unfoldable pub flatten_vlan_ranges : BridgePortVlanConfig → BridgePortVlanConfig
flatten_vlan_ranges c = record c {
  trunk_tags = elim c.trunk_tags [ none ↦ none | some tags ↦ some (flatten_tags tags) ];
}

pub tag_cmp : BridgePortTrunkTag → BridgePortTrunkTag → Ordering
tag_cmp (id a) (id b) = compare a b
tag_cmp _ _ = Ordering.eq

unfoldable pub sort_trunk_tags : BridgePortVlanConfig → BridgePortVlanConfig
unfolding tag_cmp
sort_trunk_tags c = record c {
  trunk_tags = elim c.trunk_tags [ none ↦ none | some tags ↦ some (sort_by tag_cmp tags) ];
}

unfoldable pub is_changed : BridgePortVlanConfig → BridgePortVlanConfig → Bool
is_changed c current =
    is_some c.enable_native && not (c.enable_native == current.enable_native)
    || is_some c.mode && not (c.mode == current.mode)
    || is_some c.tag && not (c.tag == current.tag)
    || is_some c.trunk_tags && not (c.trunk_tags == current.trunk_tags)

unfoldable pub vlan_is_empty : BridgePortVlanConfig → Bool
vlan_is_empty c = is_none c.enable_native && is_none c.mode && is_none c.tag && is_none c.trunk_tags

-- The keys of `found`, and an error where a key is occupied. The tag that a key holds is used for
-- the error's text only.
unfoldable pub add_ids : List ℕ → List ℕ → Result (List ℕ)
add_ids found [] = ok found
add_ids found (i ∷ is) =
    let rest = add_ids (i ∷ found) is in
    if contains found i then err (new_error invalid_argument) else rest

unfoldable pub validate_from : List ℕ → List BridgePortTrunkTag → Result (Unit {0})
unfolding add_ids
validate_from found [] = ok tt
validate_from found (t ∷ ts) = do found' ← add_ids found (tag_ids t); validate_from found' ts

unfoldable pub validate_overlap_trunk_tags : List BridgePortTrunkTag → Result (Unit {0})
unfolding validate_from
validate_overlap_trunk_tags = validate_from []

abbrev pub has_tags : Option (List BridgePortTrunkTag) → Bool
has_tags none = false
has_tags (some tags) = not (is_empty tags)

abbrev pub validate_tags : Option (List BridgePortTrunkTag) → Result (Unit {0})
validate_tags none = ok tt
validate_tags (some tags) = validate_overlap_trunk_tags tags

unfoldable pub sanitize_desired : BridgePortVlanConfig → Result (Unit {0})
sanitize_desired c = do
  fail_if
      (c.mode == some trunk
        && is_some c.tag
        && not (c.tag == some 0)
        && not (c.enable_native == some true))
      invalid_argument
  fail_if (c.mode == some access && c.enable_native == some true) invalid_argument
  fail_if (c.mode == some access && has_tags c.trunk_tags) invalid_argument
  fail_if (c.mode == some trunk && is_none c.trunk_tags) invalid_argument
  validate_tags c.trunk_tags

unfoldable pub sanitize : BridgePortVlanConfig → Bool → Result (Unit {0})
unfolding sanitize_desired
sanitize c is_desired = if is_desired then sanitize_desired c else ok tt
