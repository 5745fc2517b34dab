-- ===== src/Base/Equality.antt =====
-- Equality tests as an interface: Rust's derived `PartialEq`.
use Prim.Native.Nat.{ℕ}
use mathlib.Core.Path.{◌≡◌, refl}
use mathlib.Core.Bool.{Bool, true, false, ◌&&◌}
use mathlib.Core.Logic.{◌↔◌, ◌≢◌, inl, inr}
use mathlib.Core.List.{List, [], ◌∷◌, Memᴰ}
use mathlib.Core.Option.{Option, none, some}
use native.Mathlib.Omega.{arith}
use nmstate.Base.Tests.{nat_beq, nat_beq_iff, Bool-cases}
use nmstate.Base.Lists.{any, any-true, any-Memᴰ}

pub record Eq {κ} (K : Type κ) : Type κ where
  pub beq : K → K → Bool
  pub beq_iff : (x y : K) → (beq x y ≡ true) ↔ (x ≡ y)

instance abbrev pub nat_eq : Eq ℕ
nat_eq = record { beq_iff = nat_beq_iff; beq = nat_beq }

infix 50 ◌==◌
abbrev pub ◌==◌ {κ} : {K : Type κ} ⦃by : Eq K⦄ → K → K → Bool
◌==◌ ⦃by⦄ = by.beq

abbrev pub bool_beq : Bool → Bool → Bool
bool_beq true b = b
bool_beq false true = false
bool_beq false false = true

pub bool_beq_iff : (a b : Bool) → (bool_beq a b ≡ true) ↔ (a ≡ b)
bool_beq_iff a b = ground arith

instance abbrev pub bool_eq : Eq Bool
bool_eq = record { beq = bool_beq; beq_iff = bool_beq_iff }

module _ {ℓ} {A : Type ℓ} ⦃e : Eq A⦄ where
  pub ==_refl : (a : A) → (a == a) ≡ true
  ==_refl a = (e.beq_iff a a).1 refl

  pub ==→≡ : (a b : A) → (a == b) ≡ true → a ≡ b
  ==→≡ a b = (e.beq_iff a b).0

  pub ==_ne : (a b : A) → a ≢ b → (a == b) ≡ false
  ==_ne a b h = elim (Bool-cases (a == b)) [ inl p ↦ absurd (h (==→≡ a b p)) | inr p ↦ p ]

  pub differ : (a b : A) → (a == b) ≡ false → a ≢ b
  differ a b f e = cc (==_refl b, rw e at f)

  unfoldable pub list_beq : List A → List A → Bool
  list_beq [] [] = true
  list_beq (x ∷ xs) (y ∷ ys) = (x == y) && list_beq xs ys
  list_beq _ _ = false

  pub list_beq_iff : (a b : List A) → (list_beq a b ≡ true) ↔ (a ≡ b)
  unfolding list_beq
  list_beq_iff (x ∷ a) (y ∷ b) = ground (arith, e.beq_iff x y, list_beq_iff a b)
  list_beq_iff _ _ = ground arith

  abbrev pub option_beq : Option A → Option A → Bool
  option_beq none none = true
  option_beq (some x) (some y) = x == y
  option_beq _ _ = false

  pub option_beq_iff : (a b : Option A) → (option_beq a b ≡ true) ↔ (a ≡ b)
  option_beq_iff (some x) (some y) = ground (arith, e.beq_iff x y)
  option_beq_iff _ _ = ground arith

  -- `contains`
  unfoldable pub contains : List A → A → Bool
  contains xs a = any (λ x. x == a) xs

  pub contains-Memᴰ : {xs : List A} {a : A} → Memᴰ a xs → contains xs a ≡ true
  unfolding contains
  contains-Memᴰ {a = a} m = any-Memᴰ (λ x. x == a) m (==_refl a)

instance abbrev pub list_eq {ℓ} : {A : Type ℓ} ⦃e : Eq A⦄ → Eq (List A)
list_eq = record { beq = list_beq; beq_iff = list_beq_iff }

instance abbrev pub option_eq {ℓ} : {A : Type ℓ} ⦃e : Eq A⦄ → Eq (Option A)
option_eq = record { beq = option_beq; beq_iff = option_beq_iff }

module _ {ℓ} {A : Type ℓ} ⦃e : Eq A⦄ where
  pub contains→Memᴰ : (xs : List A) (a : A) → contains xs a ≡ true → Memᴰ a xs
  unfolding contains
  contains→Memᴰ xs a h = let (x, m, q) = any-true (λ x. x == a) xs h in rw (← ==→≡ x a q) m

abbrev pub pair_beq {ℓ κ} : {A : Type ℓ} {B : Type κ} ⦃p : Eq A⦄ ⦃q : Eq B⦄ → A × B → A × B → Bool
pair_beq a b = (a.0 == b.0) && (a.1 == b.1)

pub pair_beq_iff {ℓ κ} :
    {A : Type ℓ} {B : Type κ} ⦃p : Eq A⦄ ⦃q : Eq B⦄ (a b : A × B) → (pair_beq a b ≡ true) ↔ (a ≡ b)
pair_beq_iff ⦃p⦄ ⦃q⦄ (a, c) (b, d) = ground (arith, p.beq_iff a b, q.beq_iff c d)

instance abbrev pub pair_eq {ℓ κ} : {A : Type ℓ} {B : Type κ} ⦃p : Eq A⦄ ⦃q : Eq B⦄ → Eq (A × B)
pair_eq = record { beq = pair_beq; beq_iff = pair_beq_iff }
