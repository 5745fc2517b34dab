-- ===== src/State.antt =====
-- rust/src/lib/state.rs: what is missing between a desired and a current JSON value, the part of
-- the desired value that differs, and the merge of the current value into the desired one.
pub mod Merge
pub mod Apply
pub mod Verify
pub mod Reported
pub mod Sound
use nmstate.Base.{
  ltb, if◌then◌else◌, ◌==◌, Text, codes, ℕ, zero, suc, ◌+◌, ◌/◌, ◌%◌, Bool, true, false, ◌&&◌, ◌||◌,
  Option, none, some, [], ◌∷◌, ◌++◌, nat_eq, bool_eq, list_eq, option_eq,
}
use nmstate.Json.{
  Value, null, bool, number, string, array, object, Items, nil, cons, Fields, end, field,
  items_length, get, insert, number_eq, value_beq,
}

-- A reference string, and the two values that differ there.
abbrev pub Difference : Type 0
Difference = Text × Value × Value

-- `NetworkState::PASSWORD_HID_BY_NMSTATE`
abbrev pub password_hid_by_nmstate : Text
password_hid_by_nmstate = codes "<_password_hid_by_nmstate>"

abbrev pub bond_options : Text
bond_options = codes "interface.link-aggregation.options"

unfoldable pub is_prefix : Text → Text → Bool
is_prefix [] s = true
is_prefix (c ∷ p) [] = false
is_prefix (c ∷ p) (d ∷ s) = (c == d) && is_prefix p s

-- `str::contains`
unfoldable pub contains_text : Text → Text → Bool
unfolding is_prefix
contains_text p [] = is_prefix p []
contains_text p (c ∷ s) = is_prefix p (c ∷ s) || contains_text p s

-- Bond options are left out of the verification.
unfoldable pub should_ignore : Text → Bool
unfolding contains_text
should_ignore reference = contains_text bond_options reference

decimal_onto : ℕ → ℕ → Text → Text
decimal_onto zero n acc = acc
decimal_onto (suc fuel) n acc =
    let digits = (b'0' + n % 10) ∷ acc in
    let rest = decimal_onto fuel (n / 10) digits in if ltb n 10 then digits else rest

-- A number in base 10: there are at most as many digits as its successor.
unfoldable pub decimal : ℕ → Text
unfolding decimal_onto
decimal n = decimal_onto (suc n) n []

-- `format!("{}[{index}]")`
unfoldable pub index_reference : Text → ℕ → Text
unfolding decimal
index_reference reference index = reference ++ (b'[' ∷ (decimal index ++ b']' ∷ []))

-- `format!("{reference}.{key}")`
unfoldable pub key_reference : Text → Text → Text
key_reference reference key = reference ++ (b'.' ∷ key)

-- The test that `get_json_value_difference` puts around `_get_json_value_difference`.
unfoldable pub unless_ignored : Option Difference → Option Difference
unfolding should_ignore
unless_ignored none = none
unless_ignored (some d) = if should_ignore d.0 then none else some d

abbrev pub or_else : Option Difference → Option Difference → Option Difference
or_else none d = d
or_else (some d) _ = some d

abbrev differ_unless : Bool → Text → Value → Value → Option Difference
differ_unless same reference desire current =
    if same then none else some (reference, desire, current)

-- `_get_json_value_difference`, and its two loops.
unfoldable mutual
  unfolding unless_ignored index_reference key_reference

  pub raw_difference : Text → Value → Value → Option Difference
  raw_difference reference null current = none
  raw_difference reference (bool des) (bool cur) =
      differ_unless (des == cur) reference (bool des) (bool cur)
  raw_difference reference (number des) (number cur) =
      differ_unless (des == cur) reference (number des) (number cur)
  raw_difference reference (string des) (string cur) =
      differ_unless (des == cur || des == password_hid_by_nmstate) reference (string des)
        (string cur)
  raw_difference reference (array des) (array cur) =
      if items_length des == items_length cur
      then items_difference reference 0 des cur
      else some (reference, array des, array cur)
  raw_difference reference (object des) (object cur) = fields_difference reference des cur
  raw_difference reference desire current = some (reference, desire, current)

  pub items_difference : Text → ℕ → Items → Items → Option Difference
  items_difference reference index (cons des more) (cons cur rest) =
      or_else (unless_ignored (raw_difference (index_reference reference index) des cur))
        (items_difference reference (index + 1) more rest)
  items_difference reference index nil cur = none
  items_difference reference index (cons des more) nil = none

  pub fields_difference : Text → Fields → Fields → Option Difference
  fields_difference reference end cur = none
  fields_difference reference (field key des more) cur =
      or_else
        (elim (get key cur) [
          | none ↦ differ_unless (value_beq des null) (key_reference reference key) des null
          | some value ↦ unless_ignored (raw_difference (key_reference reference key) des value)
        ])
        (fields_difference reference more cur)

unfoldable pub get_json_value_difference : Text → Value → Value → Option Difference
unfolding raw_difference
get_json_value_difference reference desire current =
    unless_ignored (raw_difference reference desire current)

abbrev pub object_unless_empty : Fields → Option Value
object_unless_empty end = none
object_unless_empty (field k v m) = some (object (field k v m))

-- The new `diff_map` after one key of the desired object.
abbrev pub put_diff : Text → Option Value → Fields → Fields
put_diff key none diff_map = diff_map
put_diff key (some diff) diff_map = insert key diff diff_map

unfoldable mutual
  pub gen_diff_json_value : Value → Value → Option Value
  gen_diff_json_value (object des) (object cur) = object_unless_empty (diff_fields des cur end)
  gen_diff_json_value (object des) current = some (object des)
  gen_diff_json_value desired current = if value_beq desired current then none else some desired

  pub diff_fields : Fields → Fields → Fields → Fields
  diff_fields end cur diff_map = diff_map
  diff_fields (field key des more) cur diff_map = diff_fields more cur (
      put_diff key
        (elim (get key cur) [ none ↦ some des | some value ↦ gen_diff_json_value des value ])
        diff_map)

-- `merge_json_value`: what only the current value has is copied into the desired one.
unfoldable mutual
  pub merge_json_value : Value → Value → Value
  merge_json_value (object des) (object cur) = object (merge_fields des cur)
  merge_json_value desired current = desired

  pub merge_fields : Fields → Fields → Fields
  merge_fields des end = des
  merge_fields des (field key cur more) =
      merge_fields
        (insert key (elim (get key des) [ none ↦ cur | some value ↦ merge_json_value value cur ])
          des)
        more
