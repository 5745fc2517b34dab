-- ===== src/Base/Wildcard.antt =====
-- Optional fields as patterns: one that is not given matches everything.
use mathlib.Core.Path.{◌≡◌, refl}
use mathlib.Core.Bool.{Bool, true, false, not, ◌&&◌}
use mathlib.Core.Option.{Option, none, some}
use mathlib.Core.Logic.{◌↔◌, ◌⊎◌}
use native.Mathlib.Omega.{arith}
use nmstate.Base.Tests.{if◌then◌else◌, is_some}
use nmstate.Base.Equality.{Eq, ◌==◌, option_eq}

-- A field that is given and differs.
abbrev pub mismatch {ℓ} : {A : Type ℓ} ⦃e : Eq A⦄ → Option A → Option A → Bool
mismatch a b = is_some a && not (a == b)

-- A field of the pattern is a wildcard if it is not given, and otherwise the value that is wanted.
abbrev pub Wants {ℓ} : {A : Type ℓ} → Option A → Option A → Type ℓ
Wants none b = Unit
Wants (some a) b = b ≡ some a

-- As `Wants`, with one more value that stands for the wildcard.
abbrev pub WantsUnless {ℓ} : {A : Type ℓ} → A → Option A → Option A → Type ℓ
WantsUnless {A = A} skip none b = Unit
WantsUnless {A = A} skip (some a) b = (a ≡ skip) ⊎ (b ≡ some a)

module _ {ℓ} {A : Type ℓ} ⦃e : Eq A⦄ where
  pub Wants-iff : (a b : Option A) → (mismatch a b ≡ false) ↔ Wants a b
  Wants-iff none b = (λ _. tt, λ _. refl)
  Wants-iff (some x) none = (λ h. cc, λ h. cc)
  Wants-iff (some x) (some y) = ground (arith, e.beq_iff x y)

  abbrev pub mismatch_unless : A → Option A → Option A → Bool
  mismatch_unless skip a b = is_some a && not (a == some skip) && not (a == b)

  pub WantsUnless-iff :
      (skip : A) (a b : Option A) → (mismatch_unless skip a b ≡ false) ↔ WantsUnless skip a b
  WantsUnless-iff skip none b = (λ _. tt, λ _. refl)
  WantsUnless-iff skip (some x) none = ground (arith, e.beq_iff x skip)
  WantsUnless-iff skip (some x) (some y) = ground (arith, e.beq_iff x y, e.beq_iff x skip)

pub chain_split : (a : Bool) {b : Bool} → (if a then false else b) ≡ true → (a ≡ false) × (b ≡ true)
chain_split false h = (refl, h)
chain_split true h = cc

pub chain_join : {a b : Bool} → a ≡ false → b ≡ true → (if a then false else b) ≡ true
chain_join p q = rw (p, q)
