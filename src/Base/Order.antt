-- ===== src/Base/Order.antt =====
-- Three-way comparison as an interface: Rust's derived `Ord` on numbers, flags, tuples and text.
use Prim.Native.Nat.{ℕ, compare, Ordering}
use mathlib.Core.Path.{◌≡◌}
use mathlib.Core.Bool.{Bool, true, false}
use mathlib.Core.Logic.{◌↔◌}
use mathlib.Core.List.{List, [], ◌∷◌}
use native.Mathlib.Omega.{arith}

-- `Ordering::reverse`
abbrev pub flip_ord : Ordering → Ordering
flip_ord Ordering.lt = Ordering.gt
flip_ord Ordering.eq = Ordering.eq
flip_ord Ordering.gt = Ordering.lt

-- `Ordering::then`
abbrev pub then_ord : Ordering → Ordering → Ordering
then_ord Ordering.eq o = o
then_ord o _ = o

pub record Ord {ℓ} (A : Type ℓ) : Type ℓ where
  pub cmp : A → A → Ordering
  pub cmp_eq : (a b : A) → (cmp a b ≡ Ordering.eq) ↔ (a ≡ b)
  pub cmp_flip : (a b : A) → cmp b a ≡ flip_ord (cmp a b)
  pub cmp_trans :
      (a b c : A) → cmp a b ≡ Ordering.lt → cmp b c ≡ Ordering.lt → cmp a c ≡ Ordering.lt

abbrev pub cmp {ℓ} : {A : Type ℓ} ⦃o : Ord A⦄ → A → A → Ordering
cmp ⦃o⦄ = o.cmp

pub nat_cmp_eq : (a b : ℕ) → (compare a b ≡ Ordering.eq) ↔ (a ≡ b)
nat_cmp_eq a b = ground arith

pub nat_cmp_flip : (a b : ℕ) → compare b a ≡ flip_ord (compare a b)
nat_cmp_flip a b = ground arith

pub nat_cmp_trans :
    (a b c : ℕ) → compare a b ≡ Ordering.lt → compare b c ≡ Ordering.lt → compare a c ≡ Ordering.lt
nat_cmp_trans a b c h k = ground arith

instance abbrev pub nat_ord : Ord ℕ
nat_ord = record {
  cmp = compare;
  cmp_eq = nat_cmp_eq;
  cmp_flip = nat_cmp_flip;
  cmp_trans = nat_cmp_trans;
}

-- `false < true`
abbrev pub bool_cmp : Bool → Bool → Ordering
bool_cmp false true = Ordering.lt
bool_cmp true false = Ordering.gt
bool_cmp true true = Ordering.eq
bool_cmp false false = Ordering.eq

pub bool_cmp_eq : (a b : Bool) → (bool_cmp a b ≡ Ordering.eq) ↔ (a ≡ b)
bool_cmp_eq a b = ground arith

pub bool_cmp_flip : (a b : Bool) → bool_cmp b a ≡ flip_ord (bool_cmp a b)
bool_cmp_flip a b = ground arith

pub bool_cmp_trans :
    (a b c : Bool)
    → bool_cmp a b ≡ Ordering.lt
    → bool_cmp b c ≡ Ordering.lt
    → bool_cmp a c ≡ Ordering.lt
bool_cmp_trans a b c h k = ground arith

instance abbrev pub bool_ord : Ord Bool
bool_ord = record {
  cmp = bool_cmp;
  cmp_eq = bool_cmp_eq;
  cmp_flip = bool_cmp_flip;
  cmp_trans = bool_cmp_trans;
}

module _ {ℓ κ} {A : Type ℓ} {B : Type κ} ⦃o : Ord A⦄ ⦃p : Ord B⦄ where
  abbrev pub pair_cmp : A × B → A × B → Ordering
  pair_cmp x y = then_ord (o.cmp x.0 y.0) (p.cmp x.1 y.1)

  pub pair_cmp_eq : (x y : A × B) → (pair_cmp x y ≡ Ordering.eq) ↔ (x ≡ y)
  pair_cmp_eq x y = ground (arith, o.cmp_eq x.0 y.0, p.cmp_eq x.1 y.1)

  pub pair_cmp_flip : (x y : A × B) → pair_cmp y x ≡ flip_ord (pair_cmp x y)
  pair_cmp_flip x y = ground (arith, o.cmp_flip x.0 y.0, p.cmp_flip x.1 y.1)

  pub pair_cmp_trans :
      (x y z : A × B)
      → pair_cmp x y ≡ Ordering.lt
      → pair_cmp y z ≡ Ordering.lt
      → pair_cmp x z ≡ Ordering.lt
  pair_cmp_trans x y z h k = ground (
    arith,
    o.cmp_eq x.0 y.0,
    o.cmp_eq y.0 z.0,
    o.cmp_eq x.0 z.0,
    o.cmp_trans x.0 y.0 z.0,
    p.cmp_trans x.1 y.1 z.1,
  )

-- Tuples compare from the left; a longer tuple is a pair whose second part is a pair.
instance abbrev pub pair_ord {ℓ κ} : {A : Type ℓ} {B : Type κ} ⦃o : Ord A⦄ ⦃p : Ord B⦄ → Ord (A × B)
pair_ord = record {
  cmp = pair_cmp;
  cmp_eq = pair_cmp_eq;
  cmp_flip = pair_cmp_flip;
  cmp_trans = pair_cmp_trans;
}

module _ {ℓ} {A : Type ℓ} ⦃o : Ord A⦄ where
  -- Lexicographic; a prefix comes first.
  unfoldable pub list_cmp : List A → List A → Ordering
  list_cmp [] [] = Ordering.eq
  list_cmp [] (y ∷ ys) = Ordering.lt
  list_cmp (x ∷ xs) [] = Ordering.gt
  list_cmp (x ∷ xs) (y ∷ ys) = then_ord (o.cmp x y) (list_cmp xs ys)

  pub list_cmp_eq : (a b : List A) → (list_cmp a b ≡ Ordering.eq) ↔ (a ≡ b)
  unfolding list_cmp
  list_cmp_eq (x ∷ a) (y ∷ b) = ground (arith, o.cmp_eq x y, list_cmp_eq a b)
  list_cmp_eq _ _ = ground arith

  pub list_cmp_flip : (a b : List A) → list_cmp b a ≡ flip_ord (list_cmp a b)
  unfolding list_cmp
  list_cmp_flip (x ∷ a) (y ∷ b) = ground (arith, o.cmp_flip x y, list_cmp_flip a b)
  list_cmp_flip _ _ = ground arith

  pub list_cmp_trans :
      (a b c : List A)
      → list_cmp a b ≡ Ordering.lt
      → list_cmp b c ≡ Ordering.lt
      → list_cmp a c ≡ Ordering.lt
  unfolding list_cmp
  list_cmp_trans (x ∷ a) (y ∷ b) (z ∷ c) h k =
      ground
        (arith, o.cmp_eq x y, o.cmp_eq y z, o.cmp_eq x z, o.cmp_trans x y z, list_cmp_trans a b c)
  list_cmp_trans _ _ _ h k = ground arith

instance abbrev pub list_ord {ℓ} : {A : Type ℓ} ⦃o : Ord A⦄ → Ord (List A)
list_ord = record {
  cmp = list_cmp;
  cmp_eq = list_cmp_eq;
  cmp_flip = list_cmp_flip;
  cmp_trans = list_cmp_trans;
}
