-- ===== src/BridgeVlan/Overlap.antt =====
-- `validate_overlap_trunk_tags` against intervals.
use nmstate.Base.{
  Bool-cases, All, All-Memᴰ, Memᴰ-All, contains, contains-Memᴰ, contains→Memᴰ, ℕ, zero, suc, ◌+◌,
  ◌-◌, ◌%◌, ◌≤◌, ◌<◌, ◌≡◌, refl, subst, ◌↔◌, ◌⊎◌, inl, inr, false, List, [], ◌∷◌, Memᴰ, arith,
  nat_eq, bool_eq, list_eq, option_eq,
}
use native.Mathlib.Decide.{ℕ_discrete}
use nmstate.Error.{ok, bind-eq-ok}
use nmstate.BridgeVlan.{
  BridgePortTrunkTag, id, id_range, get_vlan_tag_range, count_from, range_ids, tag_ids, u16_mod,
  add_ids, validate_from, validate_overlap_trunk_tags,
}

-- The VLAN `v` is carried by the tag.
abbrev pub Covers : BridgePortTrunkTag → ℕ → Type 0
Covers t v = ((get_vlan_tag_range t).0 ≤ v) × (v ≤ (get_vlan_tag_range t).1)

abbrev pub AreDisjoint : BridgePortTrunkTag → BridgePortTrunkTag → Type 0
AreDisjoint s t = (v : ℕ) → Covers s v → Covers t v → ⊥

-- No VLAN is carried by two tags of the list.
abbrev pub ArePairwiseDisjoint : List BridgePortTrunkTag → Type 0
ArePairwiseDisjoint [] = Unit
ArePairwiseDisjoint (t ∷ ts) = All (AreDisjoint t) ts × ArePairwiseDisjoint ts

-- The upper end is below the largest `u16`, so that `max + 1` does not wrap.
abbrev pub IsBelowLimit : BridgePortTrunkTag → Type 0
IsBelowLimit t = (get_vlan_tag_range t).1 + 1 < u16_mod

Memᴰ-count_from :
    (n start : ℕ) {v : ℕ} → Memᴰ v (count_from start n) → (start ≤ v) × (v < start + n)
unfolding count_from
Memᴰ-count_from zero start m = elim m [ ]
Memᴰ-count_from (suc n) start (Memᴰ.head q) = omega arith
Memᴰ-count_from (suc n) start (Memᴰ.tail m) = omega (arith, Memᴰ-count_from n (suc start) m)

count_from-Memᴰ : (n start v : ℕ) → start ≤ v → v < start + n → Memᴰ v (count_from start n)
unfolding count_from
count_from-Memᴰ zero start v h k = absurd (omega arith)
count_from-Memᴰ (suc n) start v h k = elim (ℕ_discrete v start) [
  | yes e ↦ Memᴰ.head e
  | no ne ↦ Memᴰ.tail (count_from-Memᴰ n (suc start) v (omega arith) (omega arith))
]

abbrev pub IsDistinct : List ℕ → Type 0
IsDistinct [] = Unit
IsDistinct (x ∷ xs) = ¬ Memᴰ x xs × IsDistinct xs

count_from-IsDistinct : (n start : ℕ) → IsDistinct (count_from start n)
unfolding count_from
count_from-IsDistinct zero start = tt
count_from-IsDistinct (suc n) start = (
  λ m. absurd (omega (arith, Memᴰ-count_from n (suc start) m)),
  count_from-IsDistinct n (suc start),
)

pub tag_ids-IsDistinct : (t : BridgePortTrunkTag) → IsDistinct (tag_ids t)
unfolding tag_ids range_ids
tag_ids-IsDistinct (id d) = (λ m. elim m [ ], tt)
tag_ids-IsDistinct (id_range r) = count_from-IsDistinct _ r.min

-- Below the limit the numbers of a tag are those of its interval.
pub tag_ids→Covers :
    (t : BridgePortTrunkTag) {v : ℕ} → IsBelowLimit t → Memᴰ v (tag_ids t) → Covers t v
unfolding tag_ids range_ids
tag_ids→Covers (id d) b (Memᴰ.head q) = omega arith
tag_ids→Covers (id d) b (Memᴰ.tail m) = elim m [ ]
tag_ids→Covers (id_range r) b m =
    omega (arith, Memᴰ-count_from ((r.max + 1) % u16_mod - r.min) r.min m)

pub Covers→tag_ids :
    (t : BridgePortTrunkTag) (v : ℕ) → IsBelowLimit t → Covers t v → Memᴰ v (tag_ids t)
unfolding tag_ids range_ids
Covers→tag_ids (id d) v b c = Memᴰ.head (omega arith)
Covers→tag_ids (id_range r) v b c = count_from-Memᴰ _ r.min v (omega arith) (omega arith)

not-Memᴰ_of_contains : (found : List ℕ) (v : ℕ) → contains found v ≡ false → ¬ Memᴰ v found
not-Memᴰ_of_contains found v h m = cc (contains-Memᴰ m)

contains_of_not-Memᴰ : (found : List ℕ) (v : ℕ) → ¬ Memᴰ v found → contains found v ≡ false
contains_of_not-Memᴰ found v h = elim (Bool-cases (contains found v)) [
  | inl e ↦ absurd (h (contains→Memᴰ found v e))
  | inr e ↦ e
]

abbrev pub Avoids : List ℕ → List ℕ → Type 0
Avoids found is = (v : ℕ) → Memᴰ v is → ¬ Memᴰ v found

-- After a success `found` has grown by the new numbers, and they were new.
add_ids_ok :
    (is found : List ℕ) {found' : List ℕ}
    → add_ids found is ≡ ok found'
    → Avoids found is
      × ((v : ℕ) → Memᴰ v found → Memᴰ v found')
      × ((v : ℕ) → Memᴰ v is → Memᴰ v found')
unfolding add_ids
add_ids_ok [] found h = (λ v m. elim m [ ], λ v m. subst (Memᴰ v) (cc) m, λ v m. elim m [ ])
add_ids_ok (i ∷ is) found {found'} h = elim (Bool-cases (contains found i)) [
  | inl e ↦ absurd (cc (rw e at h))
  | inr e ↦
      let (new, kept, added) = add_ids_ok is (i ∷ found) (rw e at h) in
      (
        λ v. elim [
          | Memᴰ.head q ↦ rw q (not-Memᴰ_of_contains found i e)
          | Memᴰ.tail m ↦ λ n. new v m (Memᴰ.tail n)
        ],
        λ v m. kept v (Memᴰ.tail m),
        λ v. elim [ Memᴰ.head q ↦ kept v (Memᴰ.head q) | Memᴰ.tail m ↦ added v m ],
      )
]

add_ids_total :
    (is found : List ℕ)
    → IsDistinct is
    → Avoids found is
    → (found' : List ℕ) × (add_ids found is ≡ ok found')
      × ((v : ℕ) → Memᴰ v found' → Memᴰ v found ⊎ Memᴰ v is)
unfolding add_ids
add_ids_total [] found d a = (found, refl, λ v m. inl m)
add_ids_total (i ∷ is) found d a =
    let later : Avoids (i ∷ found) is = λ v m. elim [
      | Memᴰ.head q ↦ d.0 (subst (λ z. Memᴰ z is) q m)
      | Memᴰ.tail n ↦ a v (Memᴰ.tail m) n
    ] in
    let (found', e, from) = add_ids_total is (i ∷ found) d.1 later in
    (found', rw (contains_of_not-Memᴰ found i (a i (Memᴰ.head refl))) e, λ v m. regroup (from v m))
  where
    regroup : {v : ℕ} → Memᴰ v (i ∷ found) ⊎ Memᴰ v is → Memᴰ v found ⊎ Memᴰ v (i ∷ is)
    regroup (inl (Memᴰ.head q)) = inr (Memᴰ.head q)
    regroup (inl (Memᴰ.tail m)) = inl m
    regroup (inr m) = inr (Memᴰ.tail m)

abbrev pub HaveDistinctIds : List BridgePortTrunkTag → Type 0
HaveDistinctIds [] = Unit
HaveDistinctIds (t ∷ ts) = All (λ s. Avoids (tag_ids t) (tag_ids s)) ts × HaveDistinctIds ts

All-imp :
    {P Q : BridgePortTrunkTag → Type 0} (ts : List BridgePortTrunkTag)
    → ((t : BridgePortTrunkTag) → P t → Q t)
    → All P ts
    → All Q ts
All-imp [] f h = tt
All-imp (t ∷ ts) f h = (f t h.0, All-imp ts f h.1)

pub validate_from_ok :
    (ts : List BridgePortTrunkTag) (found : List ℕ)
    → validate_from found ts ≡ ok tt
    → All (λ t. Avoids found (tag_ids t)) ts × HaveDistinctIds ts
unfolding validate_from
validate_from_ok [] found h = (tt, tt)
validate_from_ok (t ∷ ts) found h =
    let (found', e, later) = bind-eq-ok (add_ids found (tag_ids t)) (λ f. validate_from f ts) h in
    let (new, kept, added) = add_ids_ok (tag_ids t) found e in
    let (avoid, distinct) = validate_from_ok ts found' later in
    (
      (new, All-imp ts (λ s h v m n. h v m (kept v n)) avoid),
      (All-imp ts (λ s h v m n. h v m (added v n)) avoid, distinct),
    )

validate_from_total :
    (ts : List BridgePortTrunkTag) (found : List ℕ)
    → All (λ t. Avoids found (tag_ids t)) ts
    → HaveDistinctIds ts
    → validate_from found ts ≡ ok tt
unfolding validate_from
validate_from_total [] found a d = refl
validate_from_total (t ∷ ts) found a d =
    let (found', e, from) = add_ids_total (tag_ids t) found (tag_ids-IsDistinct t) a.0 in
    rw e (
      validate_from_total ts found'
        (Memᴰ-All _ ts λ s m v mv mf. elim (from v mf) [
          | inl old ↦ All-Memᴰ (λ t. Avoids found (tag_ids t)) a.1 m v mv old
          | inr new ↦ All-Memᴰ (λ s. Avoids (tag_ids t) (tag_ids s)) d.0 m v mv new
        ])
        d.1)

disjoint_ids :
    (ts : List BridgePortTrunkTag)
    → All IsBelowLimit ts
    → HaveDistinctIds ts ↔ ArePairwiseDisjoint ts
disjoint_ids [] b = (λ _. tt, λ _. tt)
disjoint_ids (t ∷ ts) b =
    let ih = disjoint_ids ts b.1 in
    (
      λ h. (
        Memᴰ-All _ ts λ s m v c c'.
            let below = All-Memᴰ IsBelowLimit b.1 m in
            All-Memᴰ (λ s. Avoids (tag_ids t) (tag_ids s)) h.0 m v (Covers→tag_ids s v below c')
              (Covers→tag_ids t v b.0 c),
        ih.0 h.1,
      ),
      λ h. (
        Memᴰ-All _ ts λ s m v n n'.
            let below = All-Memᴰ IsBelowLimit b.1 m in
            All-Memᴰ (AreDisjoint t) h.0 m v (tag_ids→Covers t b.0 n') (tag_ids→Covers s below n),
        ih.1 h.1,
      ),
    )

-- For tags whose upper ends are below the largest `u16`: the check passes exactly when no VLAN is
-- carried by two tags of the list.
pub validate_overlap-ok_iff :
    (tags : List BridgePortTrunkTag)
    → All IsBelowLimit tags
    → (validate_overlap_trunk_tags tags ≡ ok tt) ↔ ArePairwiseDisjoint tags
unfolding validate_overlap_trunk_tags
validate_overlap-ok_iff tags b =
    let iff = disjoint_ids tags b in
    (
      λ h. iff.0 (validate_from_ok tags [] h).1,
      λ h. validate_from_total tags [] (Memᴰ-All _ tags λ t m v mv n. elim n [ ]) (iff.1 h),
    )
