-- ===== src/Json/Paths.antt =====
-- Paths into a JSON value, by the keys of its objects and the positions in its arrays.
use nmstate.Base.{
  Text, ℕ, zero, suc, Option, none, some, List, [], ◌∷◌, nat_ord, bool_ord, pair_ord, list_ord,
}
use nmstate.Json.{Value, array, object, Items, nil, cons, get}

pub data Step : Type 0 where
  by_key : Text → Step
  by_index : ℕ → Step

abbrev pub item_at : ℕ → Items → Option Value
item_at i nil = none
item_at zero (cons x xs) = some x
item_at (suc i) (cons x xs) = item_at i xs

-- The value behind a path, if the path leads to one.
abbrev pub value_at : List Step → Value → Option Value
value_at [] v = some v
value_at (Step.by_key k ∷ p) (object m) = elim (get k m) [ none ↦ none | some v ↦ value_at p v ]
value_at (Step.by_index i ∷ p) (array xs) = elim (item_at i xs) [
  | none ↦ none
  | some v ↦ value_at p v
]
value_at _ _ = none

abbrev pub value_below : List Step → Option Value → Option Value
value_below p none = none
value_below p (some v) = value_at p v
