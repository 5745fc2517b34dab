-- ===== src/Base/Sort.antt =====
-- `sort_unstable_by` and `Vec::dedup`. The order of elements that compare equal is not specified by
-- the library; here they keep their order, and what is proved does not depend on it.
use Prim.Native.Nat.{Ordering}
use mathlib.Core.Path.{◌≡◌, refl, sym}
use mathlib.Core.Bool.{Bool, true, false}
use mathlib.Core.Logic.{◌≢◌, ◌↔◌, ◌⊎◌, inl, inr}
use mathlib.Core.List.{List, [], ◌∷◌, Memᴰ}
use native.Mathlib.Omega.{arith}
use nmstate.Base.Tests.{if◌then◌else◌, Bool-cases}
use nmstate.Base.Lists.{All, All-Memᴰ, Memᴰ-All, All-retain, retain}
use nmstate.Base.Order.{Ord, cmp}

abbrev pub is_gt : Ordering → Bool
is_gt Ordering.gt = true
is_gt _ = false

module _ {ℓ} {A : Type ℓ} where
  unfoldable pub insert_by : (A → A → Ordering) → A → List A → List A
  insert_by c x [] = x ∷ []
  insert_by c x (y ∷ ys) =
      let behind = y ∷ insert_by c x ys in if is_gt (c x y) then behind else x ∷ y ∷ ys

  unfoldable pub sort_by : (A → A → Ordering) → List A → List A
  unfolding insert_by
  sort_by c [] = []
  sort_by c (x ∷ xs) = insert_by c x (sort_by c xs)

  -- The rest of `dedup` behind a kept element.
  pub dedup_after : (A → A → Bool) → A → List A → List A
  dedup_after same x [] = []
  dedup_after same x (y ∷ ys) =
      let dropped = dedup_after same x ys in
      let kept = y ∷ dedup_after same y ys in if same x y then dropped else kept

  unfoldable pub dedup_by : (A → A → Bool) → List A → List A
  unfolding dedup_after
  dedup_by same [] = []
  dedup_by same (x ∷ xs) = x ∷ dedup_after same x xs

module _ {ℓ} {A : Type ℓ} (c : A → A → Ordering) where
  insert_by_self : (x : A) (ys : List A) → Memᴰ x (insert_by c x ys)
  unfolding insert_by
  insert_by_self x [] = Memᴰ.head refl
  insert_by_self x (y ∷ ys) = elim (Bool-cases (is_gt (c x y))) [
    | inl e ↦ rw e (Memᴰ.tail (insert_by_self x ys))
    | inr e ↦ rw e (Memᴰ.head refl)
  ]

  insert_by-Memᴰ : (x : A) {a : A} {ys : List A} → Memᴰ a ys → Memᴰ a (insert_by c x ys)
  unfolding insert_by
  insert_by-Memᴰ x (Memᴰ.head {x = y} q) = elim (Bool-cases (is_gt (c x y))) [
    | inl e ↦ rw e (Memᴰ.head q)
    | inr e ↦ rw e (Memᴰ.tail (Memᴰ.head q))
  ]
  insert_by-Memᴰ x (Memᴰ.tail {x = y} m) = elim (Bool-cases (is_gt (c x y))) [
    | inl e ↦ rw e (Memᴰ.tail (insert_by-Memᴰ x m))
    | inr e ↦ rw e (Memᴰ.tail (Memᴰ.tail m))
  ]

  -- Sorting keeps every element.
  pub sort_by-Memᴰ : {a : A} {xs : List A} → Memᴰ a xs → Memᴰ a (sort_by c xs)
  unfolding sort_by
  sort_by-Memᴰ (Memᴰ.head {x = x} q) = rw q (insert_by_self x _)
  sort_by-Memᴰ (Memᴰ.tail {x = x} m) = insert_by-Memᴰ x (sort_by-Memᴰ m)

module _ {ℓ κ} {A : Type ℓ} (P : A → Type κ) (c : A → A → Ordering) where
  pub insert_by-All : (x : A) (ys : List A) → P x → All P ys → All P (insert_by c x ys)
  unfolding insert_by
  insert_by-All x [] p h = (p, tt)
  insert_by-All x (y ∷ ys) p h = elim (Bool-cases (is_gt (c x y))) [
    | inl e ↦ rw e (h.0, insert_by-All x ys p h.1)
    | inr e ↦ rw e (p, h)
  ]

  -- Sorting adds no element.
  pub sort_by-All : (xs : List A) → All P xs → All P (sort_by c xs)
  unfolding sort_by
  sort_by-All [] h = tt
  sort_by-All (x ∷ xs) h = insert_by-All x _ h.0 (sort_by-All xs h.1)

module _ {ℓ κ} {A : Type ℓ} (P : A → Type κ) (same : A → A → Bool) where
  dedup_after-All : (x : A) (ys : List A) → All P ys → All P (dedup_after same x ys)
  unfolding dedup_after
  dedup_after-All x [] h = tt
  dedup_after-All x (y ∷ ys) h = elim (Bool-cases (same x y)) [
    | inl e ↦ rw e (dedup_after-All x ys h.1)
    | inr e ↦ rw e (h.0, dedup_after-All y ys h.1)
  ]

  pub dedup_by-All : (xs : List A) → All P xs → All P (dedup_by same xs)
  unfolding dedup_by
  dedup_by-All [] h = tt
  dedup_by-All (x ∷ xs) h = (h.0, dedup_after-All x xs h.1)

module _ {ℓ} {A : Type ℓ} (same : A → A → Bool) where
  -- An element that is dropped equals one that is kept.
  dedup_after-Memᴰ :
      {a : A} (x : A) {ys : List A}
      → Memᴰ a ys
      → (b : A) × Memᴰ b (x ∷ dedup_after same x ys) × ((same b a ≡ true) ⊎ (b ≡ a))
  unfolding dedup_after
  dedup_after-Memᴰ {a} x (Memᴰ.head {x = y} {xs = ys} q) = elim (Bool-cases (same x y)) [
    | inl e ↦ (x, Memᴰ.head refl, inl (rw q e))
    | inr e ↦ (y, rw e (Memᴰ.tail (Memᴰ.head refl)), inr (sym q))
  ]
  dedup_after-Memᴰ {a} x (Memᴰ.tail {x = y} {xs = ys} m) = elim (Bool-cases (same x y)) [
    | inl e ↦ rw e (dedup_after-Memᴰ x m)
    | inr e ↦ let (b, n, s) = dedup_after-Memᴰ y m in (b, rw e (Memᴰ.tail n), s)
  ]

  pub dedup_by-Memᴰ :
      {a : A} {xs : List A}
      → Memᴰ a xs
      → (b : A) × Memᴰ b (dedup_by same xs) × ((same b a ≡ true) ⊎ (b ≡ a))
  unfolding dedup_by
  dedup_by-Memᴰ (Memᴰ.head {x = x} q) = (x, Memᴰ.head refl, inr (sym q))
  dedup_by-Memᴰ (Memᴰ.tail {x = x} m) = dedup_after-Memᴰ x m

-- The order of a key.
module _ {ℓ κ} {A : Type ℓ} {K : Type κ} ⦃o : Ord K⦄ (key : A → K) where
  abbrev pub LeKey : A → A → Type 0
  LeKey a b = cmp (key b) (key a) ≡ Ordering.lt → ⊥

  abbrev pub by_key : A → A → Ordering
  by_key a b = cmp (key a) (key b)

  abbrev pub same_key : A → A → Bool
  same_key a b = elim (cmp (key a) (key b)) [ Ordering.eq ↦ true | _ ↦ false ]

  pub same_key_iff : (a b : A) → (same_key a b ≡ true) ↔ (key a ≡ key b)
  same_key_iff a b = ground (arith, o.cmp_eq (key a) (key b))

  pub LeKey-trans : (a b d : A) → LeKey a b → LeKey b d → LeKey a d
  LeKey-trans a b d h k l = ground (
    arith,
    o.cmp_eq (key a) (key b),
    o.cmp_eq (key b) (key d),
    o.cmp_trans (key d) (key a) (key b),
    o.cmp_flip (key a) (key b),
    o.cmp_flip (key b) (key d),
    o.cmp_flip (key a) (key d),
    h,
    k,
  )

  abbrev pub IsSorted : List A → Type ℓ
  IsSorted [] = Unit
  IsSorted (x ∷ xs) = All (LeKey x) xs × IsSorted xs

  -- Each key is below the keys behind it, so no key stands twice.
  abbrev pub IsStrict : List A → Type ℓ
  IsStrict [] = Unit
  IsStrict (x ∷ xs) = All (λ y. cmp (key x) (key y) ≡ Ordering.lt) xs × IsStrict xs

  insert_by-IsSorted : (x : A) (ys : List A) → IsSorted ys → IsSorted (insert_by by_key x ys)
  unfolding insert_by
  insert_by-IsSorted x [] h = (tt, tt)
  insert_by-IsSorted x (y ∷ ys) h = elim (Bool-cases (is_gt (by_key x y))) [
    | inl e ↦
        let below : LeKey y x = ground (arith, o.cmp_flip (key x) (key y)) in
        rw e (insert_by-All (LeKey y) by_key x ys below h.0, insert_by-IsSorted x ys h.1)
    | inr e ↦
        let below : LeKey x y = λ l. ground (arith, o.cmp_flip (key x) (key y)) in
        let rest =
          Memᴰ-All (LeKey x) ys λ z m. LeKey-trans x y z below (All-Memᴰ (LeKey y) h.0 m) in
        rw e ((below, rest), h)
  ]

  pub sort_by-IsSorted : (xs : List A) → IsSorted (sort_by by_key xs)
  unfolding sort_by
  sort_by-IsSorted [] = tt
  sort_by-IsSorted (x ∷ xs) = insert_by-IsSorted x _ (sort_by-IsSorted xs)

  abbrev LtKey : A → A → Type 0
  LtKey a b = cmp (key a) (key b) ≡ Ordering.lt

  dedup_after-IsStrict :
      (x : A) (ys : List A)
      → All (LeKey x) ys
      → IsSorted ys
      → All (LtKey x) (dedup_after same_key x ys) × IsStrict (dedup_after same_key x ys)
  unfolding dedup_after
  dedup_after-IsStrict x [] l s = (tt, tt)
  dedup_after-IsStrict x (y ∷ ys) l s = elim (Bool-cases (same_key x y)) [
    | inl e ↦ rw e (dedup_after-IsStrict x ys l.1 s.1)
    | inr e ↦
        let ih = dedup_after-IsStrict y ys s.0 s.1 in
        let below : LtKey x y = ground (arith, o.cmp_flip (key x) (key y), l.0) in
        let rest =
          Memᴰ-All (LtKey x) (dedup_after same_key y ys)
            λ z m. o.cmp_trans (key x) (key y) (key z) below (All-Memᴰ (LtKey y) ih.0 m) in
        rw e ((below, rest), ih)
  ]

  pub dedup_by-IsStrict : (xs : List A) → IsSorted xs → IsStrict (dedup_by same_key xs)
  unfolding dedup_by
  dedup_by-IsStrict [] s = tt
  dedup_by-IsStrict (x ∷ xs) s = dedup_after-IsStrict x xs s.0 s.1

  pub retain-IsStrict : (p : A → Bool) (xs : List A) → IsStrict xs → IsStrict (retain p xs)
  unfolding retain
  retain-IsStrict p [] s = tt
  retain-IsStrict p (x ∷ xs) s = elim (Bool-cases (p x)) [
    | inl e ↦ rw e (All-retain (LtKey x) p xs s.0, retain-IsStrict p xs s.1)
    | inr e ↦ rw e (retain-IsStrict p xs s.1)
  ]

-- A strictly ordered list is determined by its elements.
module _ {ℓ} {A : Type ℓ} ⦃o : Ord A⦄ where
  abbrev pub IsIncreasing : List A → Type ℓ
  IsIncreasing = IsStrict (λ x. x)

  lt_irrefl : {x y : A} → cmp x y ≡ Ordering.lt → x ≢ y
  lt_irrefl {x} {y} l e = ground (arith, o.cmp_eq x y)

  head_eq :
      (x y : A) {xs ys : List A}
      → IsIncreasing (x ∷ xs)
      → IsIncreasing (y ∷ ys)
      → Memᴰ x (y ∷ ys)
      → Memᴰ y (x ∷ xs)
      → x ≡ y
  head_eq x y hx hy (Memᴰ.head q) m = q
  head_eq x y hx hy (Memᴰ.tail n) (Memᴰ.head q) = sym q
  head_eq x y hx hy (Memᴰ.tail n) (Memᴰ.tail m) = ground (
    arith,
    All-Memᴰ (λ z. cmp y z ≡ Ordering.lt) hy.0 n,
    All-Memᴰ (λ z. cmp x z ≡ Ordering.lt) hx.0 m,
    o.cmp_flip x y,
  )

  tail_of :
      {x y a : A} {xs ys : List A}
      → IsIncreasing (x ∷ xs)
      → x ≡ y
      → Memᴰ a xs
      → Memᴰ a (y ∷ ys)
      → Memᴰ a ys
  tail_of {x} h e m (Memᴰ.head q) =
      absurd (lt_irrefl (All-Memᴰ (λ z. cmp x z ≡ Ordering.lt) h.0 m) (cc))
  tail_of h e m (Memᴰ.tail n) = n

  pub IsIncreasing-ext :
      (xs ys : List A)
      → IsIncreasing xs
      → IsIncreasing ys
      → ((a : A) → Memᴰ a xs ↔ Memᴰ a ys)
      → xs ≡ ys
  IsIncreasing-ext [] [] hx hy h = refl
  IsIncreasing-ext [] (y ∷ ys) hx hy h = elim ((h y).1 (Memᴰ.head refl)) [ ]
  IsIncreasing-ext (x ∷ xs) [] hx hy h = elim ((h x).0 (Memᴰ.head refl)) [ ]
  IsIncreasing-ext (x ∷ xs) (y ∷ ys) hx hy h =
      let e = head_eq x y hx hy ((h x).0 (Memᴰ.head refl)) ((h y).1 (Memᴰ.head refl)) in
      let rest = IsIncreasing-ext xs ys hx.1 hy.1 λ a. (
        λ m. tail_of hx e m ((h a).0 (Memᴰ.tail m)),
        λ m. tail_of hy (sym e) m ((h a).1 (Memᴰ.tail m)),
      ) in
      cc (e, rest)
