-- ===== src/State/Reported.antt =====
-- The references of the differences that a verification reports, and what it leaves out.
use nmstate.Base.{
  if◌then◌else◌, Bool-cases, ◌==◌, Text, ℕ, ◌+◌, ◌≡◌, refl, sym, subst, inl, inr, Bool, true, false,
  Option, none, some, nat_eq, bool_eq, list_eq, option_eq, int_eq, pair_eq,
}
use nmstate.Json.{
  Value, null, bool, number, string, array, object, Items, nil, cons, Fields, end, field,
  items_length, get, value_beq,
}
use nmstate.State.{
  raw_difference, items_difference, fields_difference, unless_ignored, index_reference,
  key_reference, or_else, Difference, differ_unless, should_ignore,
}

abbrev mutual
  -- No part of the desired value stands at a reference that the verification leaves out.
  pub IsUnignored : Text → Value → Type 0
  IsUnignored r (array xs) = (should_ignore r ≡ false) × AreUnignored r 0 xs
  IsUnignored r (object m) = (should_ignore r ≡ false) × KeysUnignored r m
  IsUnignored r _ = should_ignore r ≡ false

  pub AreUnignored : Text → ℕ → Items → Type 0
  AreUnignored r i nil = Unit
  AreUnignored r i (cons x xs) = IsUnignored (index_reference r i) x × AreUnignored r (i + 1) xs

  pub KeysUnignored : Text → Fields → Type 0
  KeysUnignored r end = Unit
  KeysUnignored r (field k v m) = IsUnignored (key_reference r k) v × KeysUnignored r m

pub IsUnignored-self : (r : Text) (d : Value) → IsUnignored r d → should_ignore r ≡ false
IsUnignored-self r (array xs) h = h.0
IsUnignored-self r (object m) h = h.0
IsUnignored-self r _ h = h

-- A difference, if there is one, is at a reference that is not left out.
abbrev Reported : Option Difference → Type 0
Reported none = Unit
Reported (some d) = should_ignore d.0 ≡ false

Reported-or_else : (a b : Option Difference) → Reported a → Reported b → Reported (or_else a b)
Reported-or_else none b h k = k
Reported-or_else (some d) b h k = h

Reported-differ_unless :
    (b : Bool) (r : Text) (d c : Value) → should_ignore r ≡ false → Reported (differ_unless b r d c)
Reported-differ_unless true r d c h = tt
Reported-differ_unless false r d c h = h

Reported-unless_ignored : (a : Option Difference) → Reported (unless_ignored a)
unfolding unless_ignored
Reported-unless_ignored none = tt
Reported-unless_ignored (some d) = elim (Bool-cases (should_ignore d.0)) [
  | inl e ↦ rw e tt
  | inr e ↦ rw e e
]

Reported-key :
    (r : Text) (v : Value) (o : Option Value)
    → should_ignore r ≡ false
    → Reported (elim o [
      | none ↦ differ_unless (value_beq v null) r v null
      | some value ↦ unless_ignored (raw_difference r v value)
    ])
Reported-key r v none h = Reported-differ_unless (value_beq v null) r v null h
Reported-key r v (some w) h = Reported-unless_ignored _

items_Reported : (r : Text) (i : ℕ) (xs ys : Items) → Reported (items_difference r i xs ys)
unfolding raw_difference
items_Reported r i nil ys = tt
items_Reported r i (cons x xs) nil = tt
items_Reported r i (cons x xs) (cons y ys) =
    Reported-or_else (unless_ignored (raw_difference (index_reference r i) x y)) _
      (Reported-unless_ignored (raw_difference (index_reference r i) x y))
      (items_Reported r (i + 1) xs ys)

fields_Reported : (r : Text) (m n : Fields) → KeysUnignored r m → Reported (fields_difference r m n)
unfolding raw_difference
fields_Reported r end n h = tt
fields_Reported r (field k v m) n h =
    Reported-or_else _ _
      (Reported-key (key_reference r k) v (get k n) (IsUnignored-self (key_reference r k) v h.0))
      (fields_Reported r m n h.1)

raw_Reported : (r : Text) (d c : Value) → IsUnignored r d → Reported (raw_difference r d c)
unfolding raw_difference
raw_Reported r null c h = tt
raw_Reported r (bool a) (bool b) h = Reported-differ_unless _ r (bool a) (bool b) h
raw_Reported r (bool a) _ h = h
raw_Reported r (number a) (number b) h = Reported-differ_unless _ r (number a) (number b) h
raw_Reported r (number a) _ h = h
raw_Reported r (string a) (string b) h = Reported-differ_unless _ r (string a) (string b) h
raw_Reported r (string a) _ h = h
raw_Reported r (array xs) (array ys) h = elim (Bool-cases (items_length xs == items_length ys)) [
  | inl e ↦
      subst (λ b. Reported (if b then items_difference r 0 xs ys else some (r, array xs, array ys)))
        (sym e) (items_Reported r 0 xs ys)
  | inr e ↦
      subst (λ b. Reported (if b then items_difference r 0 xs ys else some (r, array xs, array ys)))
        (sym e) h.0
]
raw_Reported r (array xs) _ h = h.0
raw_Reported r (object m) (object n) h = fields_Reported r m n h.1
raw_Reported r (object m) _ h = h.0

unless_reported : (x : Difference) → should_ignore x.0 ≡ false → unless_ignored (some x) ≡ some x
unfolding unless_ignored
unless_reported x h = rw h

pub raw_of_unless :
    (r : Text) (d c : Value)
    → IsUnignored r d
    → unless_ignored (raw_difference r d c) ≡ none
    → raw_difference r d c ≡ none
raw_of_unless r d c h e = go (raw_difference r d c) (raw_Reported r d c h) e
  where
    go : (o : Option Difference) → Reported o → unless_ignored o ≡ none → o ≡ none
    go none k q = refl
    go (some x) k q = absurd (cc (unless_reported x k))
