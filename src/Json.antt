-- ===== src/Json.antt =====
-- serde_json's `Value`, as rust/src/lib/state.rs and rust/src/lib/policy use it. A number is an
-- integer: no property of a network state is a float. rust/src/lib/Cargo.toml turns on
-- `preserve_order`, so an object keeps its keys in the order of insertion, and equality of objects
-- does not look at the order.
pub mod Maps
pub mod Paths
pub mod Same
use nmstate.Base.{
  if◌then◌else◌, Eq, ◌==◌, Text, ℕ, suc, ◌≡◌, ◌↔◌, Bool, true, false, ◌&&◌, Option, none, some,
  arith, nat_eq, bool_eq, list_eq, option_eq,
}

pub data Number : Type 0 where
  pos_int : ℕ → Number
  neg_int : ℕ → Number

mutual
  pub data Value : Type 0 where
    null : Value
    bool : Bool → Value
    number : Number → Value
    string : Text → Value
    array : Items → Value
    object : Fields → Value

  pub data Items : Type 0 where
    nil : Items
    cons : Value → Items → Items

  pub data Fields : Type 0 where
    end : Fields
    field : Text → Value → Fields → Fields

unfoldable pub number_beq : Number → Number → Bool
number_beq (pos_int a) (pos_int b) = a == b
number_beq (neg_int a) (neg_int b) = a == b
number_beq _ _ = false

pub number_beq_iff : (a b : Number) → (number_beq a b ≡ true) ↔ (a ≡ b)
unfolding number_beq
number_beq_iff a b = ground arith

instance abbrev pub number_eq : Eq Number
number_eq = record { beq = number_beq; beq_iff = number_beq_iff }

-- `Map::get`
unfoldable pub get : Text → Fields → Option Value
get k end = none
get k (field j v m) = if j == k then some v else get k m

-- `Map::insert`: an old key keeps its place, a new one goes to the end.
unfoldable pub insert : Text → Value → Fields → Fields
insert k v end = field k v end
insert k v (field j w m) = if j == k then field k v m else field j w (insert k v m)

-- `Vec::len` and `Map::len`
unfoldable pub items_length : Items → ℕ
items_length nil = 0
items_length (cons x xs) = suc (items_length xs)

unfoldable pub fields_length : Fields → ℕ
fields_length end = 0
fields_length (field k v m) = suc (fields_length m)

-- `Value::eq`. Maps are equal if they have as many keys, and each value of the one is equal to the
-- value that the other has for the key.
unfoldable mutual
  unfolding get fields_length

  pub value_beq : Value → Value → Bool
  value_beq null null = true
  value_beq (bool a) (bool b) = a == b
  value_beq (number a) (number b) = a == b
  value_beq (string a) (string b) = a == b
  value_beq (array a) (array b) = items_beq a b
  value_beq (object a) (object b) = fields_length a == fields_length b && fields_in a b
  value_beq _ _ = false

  pub items_beq : Items → Items → Bool
  items_beq nil nil = true
  items_beq (cons x xs) (cons y ys) = value_beq x y && items_beq xs ys
  items_beq _ _ = false

  pub fields_in : Fields → Fields → Bool
  fields_in end b = true
  fields_in (field k v m) b =
      elim (get k b) [ none ↦ false | some w ↦ value_beq v w ] && fields_in m b

abbrev mutual
  -- No object has a key twice.
  pub IsWellFormed : Value → Type 0
  IsWellFormed (array xs) = AreWellFormed xs
  IsWellFormed (object m) = IsMap m
  IsWellFormed _ = Unit

  pub AreWellFormed : Items → Type 0
  AreWellFormed nil = Unit
  AreWellFormed (cons x xs) = IsWellFormed x × AreWellFormed xs

  pub IsMap : Fields → Type 0
  IsMap end = Unit
  IsMap (field k v m) = IsWellFormed v × (get k m ≡ none) × IsMap m
