-- ===== src/Base/Count.antt =====
-- How many elements of a list satisfy a test.
use Prim.Native.Nat.{ℕ, ◌+◌, ◌≤◌}
use mathlib.Core.Path.{◌≡◌, refl}
use mathlib.Core.Bool.{Bool, true, false}
use mathlib.Core.Logic.{inl, inr}
use mathlib.Core.List.{List, [], ◌∷◌, ◌++◌}
use native.Mathlib.Omega.{arith}
use nmstate.Base.Tests.{if◌then◌else◌, Bool-cases}
use nmstate.Base.Lists.{any}

module _ {ℓ} {A : Type ℓ} where
  unfoldable pub count : (A → Bool) → List A → ℕ
  count p [] = 0
  count p (t ∷ ts) = let rest = count p ts in if p t then 1 + rest else rest

  pub count_none : (p : A → Bool) (ts : List A) → any p ts ≡ false → count p ts ≡ 0
  unfolding count any
  count_none p [] h = refl
  count_none p (t ∷ ts) h = elim (Bool-cases (p t)) [
    | inl e ↦ cc (rw e at h)
    | inr e ↦ rw e (count_none p ts (rw e at h))
  ]

  pub count-append : (p : A → Bool) (ts us : List A) → count p (ts ++ us) ≡ count p ts + count p us
  unfolding count
  count-append p [] us = omega arith
  count-append p (t ∷ ts) us = elim (Bool-cases (p t)) [
    | inl e ↦ rw e (omega (arith, count-append p ts us))
    | inr e ↦ rw e (count-append p ts us)
  ]

  -- A new element, of a kind that the list has not.
  pub count-push :
      (p : A → Bool) (ts : List A) (t : A)
      → count p ts ≤ 1
      → (p t ≡ true → any p ts ≡ false)
      → count p (ts ++ (t ∷ [])) ≤ 1
  unfolding count
  count-push p ts t h new = elim (Bool-cases (p t)) [
    | inl e ↦
        let zero = count_none p ts (new e) in rw (count-append p ts (t ∷ []), e, zero) (omega arith)
    | inr e ↦ rw (count-append p ts (t ∷ []), e) (omega arith)
  ]
