-- ===== src/Base/Lists.antt =====
-- Lists measured and indexed by native numbers, and the iterator methods that the code uses.
use Prim.Native.Nat.{ℕ, zero, suc}
use mathlib.Core.Path.{◌≡◌, refl, ap}
use mathlib.Core.Bool.{Bool, true, false, ◌||◌}
use mathlib.Core.Logic.{◌⊎◌, inl, inr}
use mathlib.Core.List.{List, [], ◌∷◌, ◌++◌, map, Memᴰ}
use mathlib.Core.Option.{Option, none, some}
use native.Mathlib.Omega.{arith}
use nmstate.Base.Tests.{if◌then◌else◌, Bool-cases}

module _ {ℓ} {A : Type ℓ} where
  abbrev pub length : List A → ℕ
  length [] = 0
  length (x ∷ xs) = suc (length xs)

  abbrev pub get_elem? : List A → ℕ → Option A
  get_elem? [] i = none
  get_elem? (x ∷ xs) zero = some x
  get_elem? (x ∷ xs) (suc i) = get_elem? xs i

  abbrev pub take : ℕ → List A → List A
  take zero xs = []
  take (suc n) [] = []
  take (suc n) (x ∷ xs) = x ∷ take n xs

  abbrev pub drop : ℕ → List A → List A
  drop zero xs = xs
  drop (suc n) [] = []
  drop (suc n) (x ∷ xs) = drop n xs

  -- `Vec::is_empty`
  abbrev pub is_empty : List A → Bool
  is_empty [] = true
  is_empty (x ∷ xs) = false

  -- `iter().any`
  unfoldable pub any : (A → Bool) → List A → Bool
  any p [] = false
  any p (x ∷ xs) = p x || any p xs

  -- `iter().filter` and `Vec::retain`
  unfoldable pub retain : (A → Bool) → List A → List A
  retain p [] = []
  retain p (x ∷ xs) = let rest = retain p xs in if p x then x ∷ rest else rest

  -- `iter().position`
  unfoldable pub position : (A → Bool) → List A → Option ℕ
  position p [] = none
  position p (x ∷ xs) =
      let rest = position p xs in
      if p x then some 0 else elim rest [ none ↦ none | some i ↦ some (suc i) ]

module _ {ℓ κ} {A : Type ℓ} where
  -- Every element of the list satisfies `P`.
  abbrev pub All : (A → Type κ) → List A → Type κ
  All P [] = Unit
  All P (x ∷ xs) = P x × All P xs

module _ {ℓ κ} {A : Type ℓ} (P : A → Type κ) where
  pub All-append : (xs ys : List A) → All P xs → All P ys → All P (xs ++ ys)
  All-append [] ys h k = k
  All-append (x ∷ xs) ys h k = (h.0, All-append xs ys h.1 k)

  pub All-Memᴰ : {x : A} {xs : List A} → All P xs → Memᴰ x xs → P x
  All-Memᴰ h (Memᴰ.head e) = rw e h.0
  All-Memᴰ h (Memᴰ.tail m) = All-Memᴰ h.1 m

  pub Memᴰ-All : (xs : List A) → ((x : A) → Memᴰ x xs → P x) → All P xs
  Memᴰ-All [] h = tt
  Memᴰ-All (x ∷ xs) h = (h x (Memᴰ.head refl), Memᴰ-All xs (λ y m. h y (Memᴰ.tail m)))

  pub All-retain : (p : A → Bool) (xs : List A) → All P xs → All P (retain p xs)
  unfolding retain
  All-retain p [] h = tt
  All-retain p (x ∷ xs) h = elim (Bool-cases (p x)) [
    | inl e ↦ rw e (h.0, All-retain p xs h.1)
    | inr e ↦ rw e (All-retain p xs h.1)
  ]

module _ {ℓ} {A : Type ℓ} where
  pub Memᴰ-cons : {x y : A} {ys : List A} → Memᴰ x (y ∷ ys) → (x ≡ y) ⊎ Memᴰ x ys
  Memᴰ-cons (Memᴰ.head e) = inl e
  Memᴰ-cons (Memᴰ.tail m) = inr m

  pub Memᴰ-append_left : {x : A} {xs : List A} (ys : List A) → Memᴰ x xs → Memᴰ x (xs ++ ys)
  Memᴰ-append_left ys (Memᴰ.head e) = Memᴰ.head e
  Memᴰ-append_left ys (Memᴰ.tail m) = Memᴰ.tail (Memᴰ-append_left ys m)

  pub Memᴰ-append_right : {x : A} (xs : List A) {ys : List A} → Memᴰ x ys → Memᴰ x (xs ++ ys)
  Memᴰ-append_right [] m = m
  Memᴰ-append_right (y ∷ xs) m = Memᴰ.tail (Memᴰ-append_right xs m)

  pub Memᴰ-append : {x : A} (xs : List A) {ys : List A} → Memᴰ x (xs ++ ys) → Memᴰ x xs ⊎ Memᴰ x ys
  Memᴰ-append [] m = inr m
  Memᴰ-append (y ∷ xs) (Memᴰ.head e) = inl (Memᴰ.head e)
  Memᴰ-append (y ∷ xs) (Memᴰ.tail m) = elim (Memᴰ-append xs m) [
    | inl h ↦ inl (Memᴰ.tail h)
    | inr h ↦ inr h
  ]

  pub Memᴰ-retain :
      (p : A → Bool) (xs : List A) {x : A} → Memᴰ x (retain p xs) → Memᴰ x xs × (p x ≡ true)
  unfolding retain
  Memᴰ-retain p [] m = elim m [ ]
  Memᴰ-retain p (y ∷ ys) {x} m = elim (Bool-cases (p y)) [
    | inl e ↦ kept e (λ q. Memᴰ-retain p ys q) (rw e at m)
    | inr e ↦ let h = Memᴰ-retain p ys (rw e at m) in (Memᴰ.tail h.0, h.1)
  ]
    where
      kept :
          p y ≡ true
          → (Memᴰ x (retain p ys) → Memᴰ x ys × (p x ≡ true))
          → Memᴰ x (y ∷ retain p ys)
          → Memᴰ x (y ∷ ys) × (p x ≡ true)
      kept e ih (Memᴰ.head q) = (Memᴰ.head q, rw q e)
      kept e ih (Memᴰ.tail q) = let h = ih q in (Memᴰ.tail h.0, h.1)

  pub retain-Memᴰ :
      (p : A → Bool) {x : A} {xs : List A} → Memᴰ x xs → p x ≡ true → Memᴰ x (retain p xs)
  unfolding retain
  retain-Memᴰ p (Memᴰ.head q) h = rw (← q, h) (Memᴰ.head refl)
  retain-Memᴰ p (Memᴰ.tail {x = y} m) h = elim (Bool-cases (p y)) [
    | inl e ↦ rw e (Memᴰ.tail (retain-Memᴰ p m h))
    | inr e ↦ rw e (retain-Memᴰ p m h)
  ]

  pub map-Memᴰ {κ} :
      {B : Type κ} (f : A → B) {x : A} {xs : List A} → Memᴰ x xs → Memᴰ (f x) (map f xs)
  map-Memᴰ f (Memᴰ.head q) = Memᴰ.head (ap f q)
  map-Memᴰ f (Memᴰ.tail m) = Memᴰ.tail (map-Memᴰ f m)

  pub any-false : (p : A → Bool) {x : A} {xs : List A} → any p xs ≡ false → Memᴰ x xs → p x ≡ false
  unfolding any
  any-false p h (Memᴰ.head q) = rw q (ground arith)
  any-false p h (Memᴰ.tail m) = any-false p (ground arith) m

  pub any-true : (p : A → Bool) (xs : List A) → any p xs ≡ true → (x : A) × Memᴰ x xs × (p x ≡ true)
  unfolding any
  any-true p [] h = cc
  any-true p (y ∷ ys) h = elim (Bool-cases (p y)) [
    | inl e ↦ (y, Memᴰ.head refl, e)
    | inr e ↦ let (x, m, q) = any-true p ys (rw e at h) in (x, Memᴰ.tail m, q)
  ]

  pub any-Memᴰ : (p : A → Bool) {x : A} {xs : List A} → Memᴰ x xs → p x ≡ true → any p xs ≡ true
  unfolding any
  any-Memᴰ p (Memᴰ.head q) h = rw (← q, h)
  any-Memᴰ p (Memᴰ.tail m) h = let ih = any-Memᴰ p m h in ground arith
