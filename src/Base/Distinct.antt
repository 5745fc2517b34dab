-- ===== src/Base/Distinct.antt =====
-- Lists without repetition.
use mathlib.Core.Path.{◌≡◌, sym, ◌∙◌}
use mathlib.Core.Logic.{◌≢◌}
use mathlib.Core.List.{List, [], ◌∷◌, map, Memᴰ}
use nmstate.Base.Lists.{All}

module _ {ℓ} {A : Type ℓ} where
  unfoldable pub IsDistinct : List A → Type ℓ
  IsDistinct [] = Unit
  IsDistinct (x ∷ xs) = All (λ y. x ≢ y) xs × IsDistinct xs

module _ {ℓ κ} {A : Type ℓ} {K : Type κ} (key : A → K) where
  All-map-Memᴰ :
      (k : K) (xs : List A) {x : A} → All (λ j. k ≢ j) (map key xs) → Memᴰ x xs → k ≢ key x
  All-map-Memᴰ k (y ∷ xs) a (Memᴰ.head e) = λ q. a.0 (rw (← e) q)
  All-map-Memᴰ k (y ∷ xs) a (Memᴰ.tail m) = All-map-Memᴰ k xs a.1 m
  All-map-Memᴰ k [] a m = elim m [ ]

  -- Two elements with one key are one.
  pub IsDistinct-key :
      (xs : List A) {x y : A}
      → IsDistinct (map key xs)
      → Memᴰ x xs
      → Memᴰ y xs
      → key x ≡ key y
      → x ≡ y
  unfolding IsDistinct
  IsDistinct-key (z ∷ xs) d (Memᴰ.head e) (Memᴰ.head f) h = e ∙ sym f
  IsDistinct-key (z ∷ xs) d (Memᴰ.head e) (Memᴰ.tail n) h =
      absurd (All-map-Memᴰ (key z) xs d.0 n (rw (← e) h))
  IsDistinct-key (z ∷ xs) d (Memᴰ.tail m) (Memᴰ.head f) h =
      absurd (All-map-Memᴰ (key z) xs d.0 m (rw (← f) (sym h)))
  IsDistinct-key (z ∷ xs) d (Memᴰ.tail m) (Memᴰ.tail n) h = IsDistinct-key xs d.1 m n h
  IsDistinct-key [] d m n h = elim m [ ]
