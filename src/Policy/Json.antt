-- ===== src/Policy/Json.antt =====
-- rust/src/lib/policy/json.rs: values at a property path. An item of the state is a value of some
-- type with its conversions, which the serialization library derives.
pub mod Update
pub mod Retain
use nmstate.Base.{
  if◌then◌else◌, length, is_empty, retain, ◌==◌, Text, ℕ, zero, suc, ◌+◌, ◌^◌, Bool, false, Option,
  none, some, List, [], ◌∷◌, nat_eq, bool_eq, list_eq, option_eq, int_eq, pair_eq,
}
use nmstate.Error.{Result, ok, err, ◌>>=◌, new_error, new_policy_error, bug, invalid_argument}
use nmstate.Ip.{parse_unsigned}
use nmstate.Json.{
  Value, null, bool, number, string, array, object, Items, nil, cons, Fields, end, field, get,
  insert,
}
use nmstate.State.{decimal}

abbrev pub as_object : Value → Option Fields
as_object (object m) = some m
as_object _ = none

abbrev pub as_array : Value → Option Items
as_array (array xs) = some xs
as_array _ = none

-- `slice::get`
unfoldable pub get_item : ℕ → Items → Option Value
get_item i nil = none
get_item zero (cons x xs) = some x
get_item (suc i) (cons x xs) = get_item i xs

-- `parse::<usize>`
unfoldable pub parse_index : Text → Option ℕ
unfolding parse_unsigned
parse_index s = parse_unsigned (2 ^ 64) s

abbrev pub or_policy_error : Text → ℕ → Option Value → Result Value
or_policy_error line pos none = err (new_policy_error line pos)
or_policy_error line pos (some v) = ok v

-- The position behind `a.b.`.
abbrev pub behind_index : ℕ → Text → Text → ℕ
behind_index pos a b = pos + (length a + 1 + (length b + 1))

-- `get_leaf_array_value`, with the call of `get_value_from_json` on the rest of the path.
abbrev pub get_leaf_array_value :
    (Fields → ℕ → Result Value) → List Text → Value → ℕ → Text → ℕ → Result Value
get_leaf_array_value get_rest path value index line pos = elim (as_array value) [
  | none ↦ err (new_policy_error line pos)
  | some items ↦ elim (get_item index items) [
    | none ↦ err (new_policy_error line pos)
    | some item ↦ if is_empty path then ok item else elim (as_object item) [
      | none ↦ err (new_policy_error line pos)
      | some leaf ↦ get_rest leaf (pos + (length (decimal index) + 1))
    ]
  ]
]

unfoldable pub get_value_from_json : List Text → Fields → Text → ℕ → Result Value
unfolding get parse_index get_item decimal
get_value_from_json [] obj line pos = err (new_error bug)
get_value_from_json (key ∷ []) obj line pos = or_policy_error line pos (get key obj)
get_value_from_json (key ∷ next ∷ path) obj line pos = elim (get key obj) [
  | none ↦ err (new_policy_error line pos)
  | some v ↦ elim (parse_index next) [
    | some index ↦
        get_leaf_array_value (λ leaf p. get_value_from_json path leaf line p) path v index line
          (behind_index pos key next)
    | none ↦ elim (as_object v) [
      | some leaf ↦ get_value_from_json (next ∷ path) leaf line (pos + length key)
      | none ↦ err (new_policy_error line pos)
    ]
  ]
]

-- The value that is written.
abbrev pub new_value : Option Text → Value
new_value none = null
new_value (some v) = string v

-- `update_json_value`: the new map, or an error, behind which the old map is dropped.
unfoldable pub update_json_value : List Text → Option Text → Fields → Result Fields
unfolding get insert
update_json_value [] value obj = err (new_error bug)
update_json_value (key ∷ []) value obj = ok (insert key (new_value value) obj)
update_json_value (key ∷ next ∷ path) value obj = elim (get key obj) [
  | none ↦ do leaf ← update_json_value (next ∷ path) value end; ok (insert key (object leaf) obj)
  | some v ↦ elim (as_object v) [
    | none ↦ err (new_error invalid_argument)
    | some old ↦ do
      leaf ← update_json_value (next ∷ path) value old
      ok (insert key (object leaf) obj)
  ]
]

-- `Map::retain` on one key.
unfoldable pub retain_key : Text → Fields → Fields
retain_key key end = end
retain_key key (field k v m) =
    let rest = retain_key key m in if k == key then field k v rest else rest

unfoldable pub value_retain_only : Value → List Text → Value
unfolding retain_key get insert
value_retain_only (object obj) [] = object obj
value_retain_only (object obj) (key ∷ []) = object (retain_key key obj)
value_retain_only (object obj) (key ∷ next ∷ path) = elim (get key (retain_key key obj)) [
  | none ↦ object (retain_key key obj)
  | some leaf ↦ object (insert key (value_retain_only leaf (next ∷ path)) (retain_key key obj))
]
value_retain_only obj path = obj

-- `value_to_string`, with the JSON text of a value that is not a string.
abbrev pub value_to_string : (Value → Text) → Value → Text
value_to_string json_text (string s) = s
value_to_string json_text v = json_text v

module _ {ℓ} {A : Type ℓ} (to_value : A → Option Value) (json_text : Value → Text) where
  -- The test of one item in `search_item`.
  unfoldable pub is_wanted : List Text → Text → Text → ℕ → A → Bool
  unfolding get_value_from_json
  is_wanted path value line pos item = elim (to_value item) [
    | none ↦ false
    | some v ↦ elim (as_object v) [
      | none ↦ false
      | some m ↦ elim (get_value_from_json path m line pos) [
        | err e ↦ false
        | ok cur_value ↦ value_to_string json_text cur_value == value
      ]
    ]
  ]

  abbrev pub unless_none : Text → ℕ → List A → Result (List A)
  unless_none line pos [] = err (new_policy_error line pos)
  unless_none line pos (x ∷ xs) = ok (x ∷ xs)

  unfoldable pub search_item : List Text → Text → List A → Text → ℕ → Result (List A)
  unfolding is_wanted
  search_item path value items line pos =
      unless_none line pos (retain (is_wanted path value line pos) items)

module _ {ℓ} {A : Type ℓ} (to_value : A → Option Value) (from_value : Value → Option A) where
  abbrev or_bug : Option A → Result A
  or_bug none = err (new_error bug)
  or_bug (some x) = ok x

  -- One item in `update_items`: an item that is no object is left out.
  unfoldable pub update_item : List Text → Option Text → Text → ℕ → A → Result (Option A)
  unfolding update_json_value
  update_item path value line pos item = elim (to_value item) [
    | none ↦ err (new_policy_error line pos)
    | some v ↦ elim (as_object v) [
      | none ↦ ok none
      | some obj ↦ do
        updated ← update_json_value path value obj
        new_item ← or_bug (from_value (object updated))
        ok (some new_item)
    ]
  ]

  abbrev push_item : Option A → List A → List A
  push_item none xs = xs
  push_item (some x) xs = x ∷ xs

  unfoldable pub update_items : List Text → Option Text → List A → Text → ℕ → Result (List A)
  unfolding update_item
  update_items path value [] line pos = ok []
  update_items path value (item ∷ items) line pos = do
    new_item ← update_item path value line pos item
    rest ← update_items path value items line pos
    ok (push_item new_item rest)
