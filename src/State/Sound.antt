-- ===== src/State/Sound.antt =====
-- What a verification without a difference says about the current value.
use nmstate.Base.{
  Bool-cases, Option-cases, ◌==◌, bool_beq_iff, ==→≡, Text, text_beq_iff, ℕ, zero, suc, ◌+◌, ◌≡◌,
  refl, sym, ap, ◌∙◌, subst, ◌≢◌, inl, inr, true, Option, none, some, List, [], ◌∷◌, arith, nat_eq,
  bool_eq, list_eq, option_eq, int_eq, pair_eq, nat_ord, bool_ord, pair_ord, list_ord,
}
use nmstate.Json.{
  Value, null, bool, number, string, array, object, Items, nil, cons, Fields, end, field,
  items_length, get, value_beq, number_beq_iff,
}
use nmstate.Json.Paths.{Step, item_at, value_at}
use nmstate.Json.Maps.{some_eq, get_end, get_first, get_later}
use nmstate.State.{
  raw_difference, items_difference, fields_difference, unless_ignored, get_json_value_difference,
  index_reference, key_reference, or_else, Difference, differ_unless, password_hid_by_nmstate,
}
use nmstate.State.Reported.{IsUnignored, AreUnignored, KeysUnignored, raw_of_unless}

-- A value that is compared as a whole, and is not the mark of a hidden password.
abbrev pub IsCompared : Value → Type 0
IsCompared (bool b) = Unit
IsCompared (number n) = Unit
IsCompared (string s) = s ≢ password_hid_by_nmstate
IsCompared _ = ⊥

or_else_left : (a b : Option Difference) → or_else a b ≡ none → (a ≡ none) × (b ≡ none)
or_else_left none b h = (refl, h)
or_else_left (some d) b h = cc

-- The test of one key, by what the current object has there.
abbrev key_difference : Text → Value → Option Value → Option Difference
key_difference r v none = differ_unless (value_beq v null) r v null
key_difference r v (some w) = unless_ignored (raw_difference r v w)

fields_step :
    (r j : Text) (u : Value) (m n : Fields)
    → or_else (key_difference (key_reference r j) u (get j n)) (fields_difference r m n)
      ≡ fields_difference r (field j u m) n
unfolding raw_difference
fields_step r j u m n = elim (Option-cases (get j n)) [ inl e ↦ rw e | inr (w, e) ↦ rw e ]

fields_at :
    (r k : Text) (m n : Fields) {v : Value}
    → KeysUnignored r m
    → fields_difference r m n ≡ none
    → get k m ≡ some v
    → IsUnignored (key_reference r k) v × (key_difference (key_reference r k) v (get k n) ≡ none)
fields_at r k end n h e q = absurd (cc (get_end k))
fields_at r k (field j u m) n {v} h e q =
    let (here, later) = or_else_left _ _ (fields_step r j u m n ∙ e) in
    elim (Bool-cases (j == k)) [
      | inl b ↦
          let i = ==→≡ j k b in
          let same = some_eq (sym (get_first j k u m b) ∙ q) in
          (
            subst (λ z. IsUnignored (key_reference r z) v) i
                (subst (IsUnignored (key_reference r j)) same h.0),
            subst (λ z. key_difference (key_reference r z) v (get z n) ≡ none) i
                (subst (λ z. key_difference (key_reference r j) z (get j n) ≡ none) same here),
          )
      | inr b ↦ fields_at r k m n h.1 later (sym (get_later j k u m b) ∙ q)
    ]

raw_leaf : (r : Text) (d c : Value) → IsCompared d → raw_difference r d c ≡ none → c ≡ d
unfolding raw_difference
raw_leaf r (bool a) (bool b) h e = ground (arith, bool_beq_iff a b)
raw_leaf r (number a) (number b) h e = ground (arith, number_beq_iff a b)
raw_leaf r (string a) (string b) h e =
    ground (arith, text_beq_iff a b, text_beq_iff a password_hid_by_nmstate)
raw_leaf r _ _ h e = ground arith

null_of : (v : Value) → value_beq v null ≡ true → v ≡ null
unfolding value_beq
null_of null e = refl
null_of _ e = cc

no_value_in_null : (p : List Step) (v : Value) → value_at p null ≡ some v → IsCompared v → ⊥
no_value_in_null [] v e s = subst IsCompared (sym (some_eq e)) s
no_value_in_null (Step.by_key k ∷ p) v e s = cc
no_value_in_null (Step.by_index i ∷ p) v e s = cc

key_sound :
    (k : Text) (p : List Step) (n : Fields) (u v : Value) (o : Option Value) (r : Text)
    → get k n ≡ o
    → key_difference r u o ≡ none
    → IsUnignored r u
    → value_at p u ≡ some v
    → IsCompared v
    → ((w : Value) → raw_difference r u w ≡ none → value_at p w ≡ some v)
    → value_at (Step.by_key k ∷ p) (object n) ≡ some v
key_sound k p n u v none r q e h a c f = elim (Bool-cases (value_beq u null)) [
  | inl b ↦ absurd (no_value_in_null p v (subst (λ x. value_at p x ≡ some v) (null_of u b) a) c)
  | inr b ↦ absurd (cc (rw b at e))
]
key_sound k p n u v (some w) r q e h a c f = rw (q, value_at) (f w (raw_of_unless r u w h e))

-- An item of an array that has no difference, and the current item at its place.
items_at :
    (r : Text) (i n : ℕ) (xs ys : Items) {v : Value}
    → AreUnignored r i xs
    → items_length xs ≡ items_length ys
    → items_difference r i xs ys ≡ none
    → item_at n xs ≡ some v
    → (s : Text) × (w : Value) × (item_at n ys ≡ some w)
      × IsUnignored s v
      × (raw_difference s v w ≡ none)
unfolding raw_difference items_length
items_at r i n nil ys h l e q = absurd (cc)
items_at r i n (cons x xs) nil h l e q = absurd (omega (arith, l))
items_at r i zero (cons x xs) (cons y ys) {v} h l e q =
    let (here, later) = or_else_left _ _ e in
    let same : x ≡ v = some_eq q in
    let s = index_reference r i in
    (
      s,
      y,
      refl,
      subst (IsUnignored s) same h.0,
      subst (λ z. raw_difference s z y ≡ none) same (raw_of_unless s x y h.0 here),
    )
items_at r i (suc n) (cons x xs) (cons y ys) h l e q =
    items_at r (i + 1) n xs ys h.1 (omega (arith, l)) (or_else_left _ _ e).1 q

array_only :
    (r : Text) (xs : Items) (c : Value)
    → raw_difference r (array xs) c ≡ none
    → (ys : Items) × (c ≡ array ys)
      × (items_length xs ≡ items_length ys)
      × (items_difference r 0 xs ys ≡ none)
unfolding raw_difference
array_only r xs (array ys) e = elim (Bool-cases (items_length xs == items_length ys)) [
  | inl q ↦ (ys, refl, ==→≡ (items_length xs) (items_length ys) q, rw (raw_difference, q) at e)
  | inr q ↦ absurd (cc (rw (raw_difference, q) at e))
]
array_only r xs _ e = absurd (cc)

object_only :
    (r : Text) (m : Fields) (c : Value)
    → raw_difference r (object m) c ≡ none
    → (n : Fields) × (c ≡ object n)
unfolding raw_difference
object_only r m (object n) e = (n, refl)
object_only r m _ e = absurd (cc)

raw_sound :
    (p : List Step) (r : Text) (d c v : Value)
    → raw_difference r d c ≡ none
    → IsUnignored r d
    → value_at p d ≡ some v
    → IsCompared v
    → value_at p c ≡ some v
raw_sound [] r d c v e h a k =
    ap some
      (subst (λ x. c ≡ x) (some_eq a) (raw_leaf r d c (subst IsCompared (sym (some_eq a)) k) e))
raw_sound (Step.by_key k ∷ p) r (object m) c v e h a s =
    let (n, q) = object_only r m c e in
    let e' : fields_difference r m n ≡ none = unfold raw_difference in rw q at e in
    elim (Option-cases (get k m)) [
      | inl g ↦ absurd (cc (rw (g, value_at) at a))
      | inr (u, g) ↦
          let (h', t) = fields_at r k m n h.1 e' g in
          rw q (
            key_sound k p n u v (get k n) (key_reference r k) refl t h' (rw (g, value_at) at a) s
              (λ w f. raw_sound p (key_reference r k) u w v f h' (rw (g, value_at) at a) s))
    ]
raw_sound (Step.by_index i ∷ p) r (array xs) c v e h a s =
    let (ys, q, l, none_differs) = array_only r xs c e in
    elim (Option-cases (item_at i xs)) [
      | inl g ↦ absurd (cc (rw (g, value_at) at a))
      | inr (u, g) ↦
          let (t, w, there, h', f) = items_at r 0 i xs ys h.1 l none_differs g in
          rw (q, value_at, there) (raw_sound p t u w v f h' (rw (g, value_at) at a) s)
    ]
raw_sound (Step.by_key k ∷ p) r _ c v e h a s = absurd (cc)
raw_sound (Step.by_index i ∷ p) r _ c v e h a s = absurd (cc)

-- Where no part of the desired value stands at a reference that the verification leaves out: if it
-- reports no difference, then each flag, number and text of the desired value, hidden passwords
-- apart, is the current value's at the same path of object keys and array positions.
pub get_json_value_difference_sound :
    (reference : Text) (desired current : Value) (path : List Step) (v : Value)
    → IsUnignored reference desired
    → get_json_value_difference reference desired current ≡ none
    → value_at path desired ≡ some v
    → IsCompared v
    → value_at path current ≡ some v
unfolding get_json_value_difference
get_json_value_difference_sound r d c p v h e a s =
    raw_sound p r d c v (raw_of_unless r d c h e) h a s
