-- ===== src/Json/Same.antt =====
-- When two values are equal for serde_json.
use nmstate.Base.{
  nat_beq_iff, Bool-cases, Option-cases, &&_join, ◌==◌, ==_refl, Text, ◌≡◌, refl, ◌∙◌, subst, ◌≢◌,
  inl, inr, true, none, some, arith, nat_eq, bool_eq, list_eq, option_eq,
}
use nmstate.Json.{
  Value, null, bool, number, string, array, object, Items, nil, cons, Fields, end, field, get,
  fields_length, IsWellFormed, AreWellFormed, IsMap, value_beq, items_beq, fields_in,
  number_beq_iff,
}
use nmstate.Json.Maps.{get_head, get_rest, some_eq, length-le_of_keys}

-- Each key of `a` has an equal value in `b`.
abbrev pub IsWithin : Fields → Fields → Type 0
IsWithin a b =
    (k : Text) (v : Value)
    → get k a ≡ some v
    → (w : Value) × (get k b ≡ some w) × (value_beq v w ≡ true)

fields_in_of : (a b : Fields) → IsMap a → IsWithin a b → fields_in a b ≡ true
unfolding value_beq
fields_in_of end b h s = refl
fields_in_of (field k v m) b h s =
    let (w, e, q) = s k v (get_head k v m) in
    let rest : IsWithin m b = λ j u g. s j u (get_rest k j v m h.1 (λ n. cc) ∙ g) in
    &&_join (rw e q) (fields_in_of m b h.2 rest)

-- Maps with the same keys and equal values are equal.
pub object_eq :
    (a b : Fields)
    → IsMap a
    → IsMap b
    → IsWithin a b
    → ((k : Text) → get k b ≢ none → get k a ≢ none)
    → value_beq (object a) (object b) ≡ true
unfolding value_beq
object_eq a b ha hb s t =
    let le = length-le_of_keys a b ha (λ k n e. elim (Option-cases (get k a)) [
      | inl q ↦ n q
      | inr (v, q) ↦ let (w, r, _) = s k v q in cc
    ]) in
    let ge = length-le_of_keys b a hb t in
    let same : (fields_length a == fields_length b) ≡ true =
      (nat_beq_iff (fields_length a) (fields_length b)).1 (omega arith) in
    &&_join same (fields_in_of a b ha s)

mutual
  unfolding value_beq

  value_refl : (v : Value) → IsWellFormed v → value_beq v v ≡ true
  value_refl null h = refl
  value_refl (bool b) h = ==_refl b
  value_refl (number n) h = (number_beq_iff n n).1 refl
  value_refl (string s) h = ==_refl s
  value_refl (array xs) h = items_refl xs h
  value_refl (object m) h = object_eq m m h h (λ k v e. (v, e, values_refl m h k v e)) (λ k n. n)

  items_refl : (xs : Items) → AreWellFormed xs → items_beq xs xs ≡ true
  items_refl nil h = refl
  items_refl (cons x xs) h = &&_join (value_refl x h.0) (items_refl xs h.1)

  values_refl :
      (m : Fields) → IsMap m → (k : Text) (v : Value) → get k m ≡ some v → value_beq v v ≡ true
  values_refl end h k v e = cc
  values_refl (field j w m) h k v e = elim (Bool-cases (j == k)) [
    | inl q ↦ subst (λ u. value_beq u u ≡ true) (some_eq (rw q at e)) (value_refl w h.0)
    | inr q ↦ values_refl m h.2 k v (rw q at e)
  ]

pub value_beq_refl : (v : Value) → IsWellFormed v → value_beq v v ≡ true
value_beq_refl v h = value_refl v h
