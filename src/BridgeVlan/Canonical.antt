-- ===== src/BridgeVlan/Canonical.antt =====
-- `flatten_vlan_ranges` followed by `sort_trunk_tags`, as the bridge code calls them before it
-- compares the tags of two port configurations.
use nmstate.Base.{
  Bool-cases, All, All-Memᴰ, Memᴰ-All, Memᴰ-append_left, Memᴰ-append_right, Memᴰ-append, is_gt,
  insert_by, sort_by, sort_by-Memᴰ, insert_by-All, sort_by-All, IsIncreasing, IsIncreasing-ext, ℕ,
  compare, Ordering, ◌≡◌, refl, sym, ap, subst, ◌≢◌, ◌↔◌, inl, inr, some, List, [], ◌∷◌, ◌++◌, map,
  Memᴰ, map-append, arith, nat_ord, bool_ord, pair_ord, list_ord,
}
use nmstate.Error.{ok}
use nmstate.BridgeVlan.{
  BridgePortTrunkTag, BridgePortVlanConfig, id, tag_ids, flatten_tags, flatten_vlan_ranges, tag_cmp,
  sort_trunk_tags, validate_overlap_trunk_tags,
}
use nmstate.BridgeVlan.Overlap.{
  Covers, IsBelowLimit, IsDistinct, Avoids, HaveDistinctIds, validate_from_ok, tag_ids-IsDistinct,
  tag_ids→Covers, Covers→tag_ids,
}

abbrev pub normalize : BridgePortVlanConfig → BridgePortVlanConfig
normalize c = sort_trunk_tags (flatten_vlan_ranges c)

-- Some tag of the list carries the VLAN.
abbrev pub IsCarried : List BridgePortTrunkTag → ℕ → Type 0
IsCarried tags v = (t : BridgePortTrunkTag) × Memᴰ t tags × Covers t v

all_ids : List BridgePortTrunkTag → List ℕ
all_ids [] = []
all_ids (t ∷ ts) = tag_ids t ++ all_ids ts

flatten_tags-map : (ts : List BridgePortTrunkTag) → flatten_tags ts ≡ map id (all_ids ts)
unfolding flatten_tags all_ids
flatten_tags-map [] = refl
flatten_tags-map (t ∷ ts) = rw (flatten_tags-map ts, ← map-append) refl

insert_by-map :
    (n : ℕ) (ns : List ℕ) → insert_by tag_cmp (id n) (map id ns) ≡ map id (insert_by compare n ns)
unfolding insert_by tag_cmp
insert_by-map n [] = refl
insert_by-map n (m ∷ ns) = elim (Bool-cases (is_gt (compare n m))) [
  | inl e ↦ rw (e, insert_by-map n ns)
  | inr e ↦ rw e
]

sort_by-map : (ns : List ℕ) → sort_by tag_cmp (map id ns) ≡ map id (sort_by compare ns)
unfolding sort_by
sort_by-map [] = refl
sort_by-map (n ∷ ns) = rw (sort_by-map ns) (insert_by-map n _)

insert_by-IsIncreasing :
    (n : ℕ) (ns : List ℕ) → ¬ Memᴰ n ns → IsIncreasing ns → IsIncreasing (insert_by compare n ns)
unfolding insert_by
insert_by-IsIncreasing n [] a h = (tt, tt)
insert_by-IsIncreasing n (m ∷ ns) a h =
    let apart : n ≢ m = λ e. a (Memᴰ.head e) in
    elim (Bool-cases (is_gt (compare n m))) [
      | inl e ↦ rw e (
        insert_by-All (λ k. compare m k ≡ Ordering.lt) compare n ns (ground arith) h.0,
        insert_by-IsIncreasing n ns (λ k. a (Memᴰ.tail k)) h.1,
      )
      | inr e ↦
          let below : compare n m ≡ Ordering.lt = ground arith in
          rw e (
            (
              below,
              Memᴰ-All _ ns λ k i.
                  nat_ord.cmp_trans n m k below (All-Memᴰ (λ k. compare m k ≡ Ordering.lt) h.0 i),
            ),
            h,
          )
    ]

sort_by-avoid : (n : ℕ) (ns : List ℕ) → ¬ Memᴰ n ns → ¬ Memᴰ n (sort_by compare ns)
sort_by-avoid n ns a m =
    All-Memᴰ (λ k. k ≢ n)
      (sort_by-All (λ k. k ≢ n) compare ns (Memᴰ-All _ ns λ k i e. a (subst (λ z. Memᴰ z ns) e i)))
      m refl

sort_by-IsIncreasing : (ns : List ℕ) → IsDistinct ns → IsIncreasing (sort_by compare ns)
unfolding sort_by
sort_by-IsIncreasing [] d = tt
sort_by-IsIncreasing (n ∷ ns) d =
    insert_by-IsIncreasing n _ (sort_by-avoid n ns d.0) (sort_by-IsIncreasing ns d.1)

IsDistinct-append :
    (xs ys : List ℕ) → IsDistinct xs → IsDistinct ys → Avoids xs ys → IsDistinct (xs ++ ys)
IsDistinct-append [] ys dx dy a = dy
IsDistinct-append (x ∷ xs) ys dx dy a = (
  λ m. elim (Memᴰ-append xs m) [ inl i ↦ dx.0 i | inr i ↦ a x i (Memᴰ.head refl) ],
  IsDistinct-append xs ys dx.1 dy (λ v i j. a v i (Memᴰ.tail j)),
)

all_ids-Avoids :
    (is : List ℕ) (ts : List BridgePortTrunkTag)
    → All (λ s. Avoids is (tag_ids s)) ts
    → Avoids is (all_ids ts)
unfolding all_ids
all_ids-Avoids is [] h v m = elim m [ ]
all_ids-Avoids is (t ∷ ts) h v m = elim (Memᴰ-append (tag_ids t) m) [
  | inl i ↦ h.0 v i
  | inr i ↦ all_ids-Avoids is ts h.1 v i
]

all_ids-IsDistinct : (ts : List BridgePortTrunkTag) → HaveDistinctIds ts → IsDistinct (all_ids ts)
unfolding all_ids
all_ids-IsDistinct [] h = tt
all_ids-IsDistinct (t ∷ ts) h =
    IsDistinct-append (tag_ids t) (all_ids ts) (tag_ids-IsDistinct t) (all_ids-IsDistinct ts h.1)
      (all_ids-Avoids (tag_ids t) ts h.0)

all_ids→IsCarried :
    (ts : List BridgePortTrunkTag) (v : ℕ)
    → All IsBelowLimit ts
    → Memᴰ v (all_ids ts)
    → IsCarried ts v
unfolding all_ids
all_ids→IsCarried [] v b m = elim m [ ]
all_ids→IsCarried (t ∷ ts) v b m = elim (Memᴰ-append (tag_ids t) m) [
  | inl i ↦ (t, Memᴰ.head refl, tag_ids→Covers t b.0 i)
  | inr i ↦ let (s, j, c) = all_ids→IsCarried ts v b.1 i in (s, Memᴰ.tail j, c)
]

IsCarried→all_ids :
    {t : BridgePortTrunkTag} (v : ℕ) {ts : List BridgePortTrunkTag}
    → All IsBelowLimit ts
    → Memᴰ t ts
    → Covers t v
    → Memᴰ v (all_ids ts)
unfolding all_ids
IsCarried→all_ids {t} v b (Memᴰ.head {x = s} {xs = ts} q) c =
    Memᴰ-append_left _ (Covers→tag_ids s v b.0 (rw q at c))
IsCarried→all_ids v b (Memᴰ.tail {x = s} m) c =
    Memᴰ-append_right (tag_ids s) (IsCarried→all_ids v b.1 m c)

sorted_ids-Memᴰ : (ns : List ℕ) (v : ℕ) → Memᴰ v (sort_by compare ns) ↔ Memᴰ v ns
sorted_ids-Memᴰ ns v = (
  λ m.
      All-Memᴰ (λ k. Memᴰ k ns) (sort_by-All (λ k. Memᴰ k ns) compare ns (Memᴰ-All _ ns (λ k i. i)))
        m,
  λ m. sort_by-Memᴰ compare m,
)

map-id-injective : (ns ms : List ℕ) → map id ns ≡ map id ms → ns ≡ ms
map-id-injective [] [] h = refl
map-id-injective [] (m ∷ ms) h = cc
map-id-injective (n ∷ ns) [] h = cc
map-id-injective (n ∷ ns) (m ∷ ms) h = let ih = map-id-injective ns ms (cc) in cc

module _ (ts us : List BridgePortTrunkTag) (bt : All IsBelowLimit ts) (bu : All IsBelowLimit us)
    (vt : validate_overlap_trunk_tags ts ≡ ok tt)
    (vu : validate_overlap_trunk_tags us ≡ ok tt) where
  IsIncreasing-ids :
      (ws : List BridgePortTrunkTag)
      → validate_overlap_trunk_tags ws ≡ ok tt
      → IsIncreasing (sort_by compare (all_ids ws))
  unfolding validate_overlap_trunk_tags
  IsIncreasing-ids ws h =
      sort_by-IsIncreasing _ (all_ids-IsDistinct ws (validate_from_ok ws [] h).1)

  sorted_ids_eq :
      ((v : ℕ) → IsCarried ts v ↔ IsCarried us v)
      → sort_by compare (all_ids ts) ≡ sort_by compare (all_ids us)
  sorted_ids_eq h = IsIncreasing-ext _ _ (IsIncreasing-ids ts vt) (IsIncreasing-ids us vu) λ v. (
    λ m.
        let (t, i, c) = (h v).0 (all_ids→IsCarried ts v bt ((sorted_ids-Memᴰ _ v).0 m)) in
        (sorted_ids-Memᴰ _ v).1 (IsCarried→all_ids v bu i c),
    λ m.
        let (t, i, c) = (h v).1 (all_ids→IsCarried us v bu ((sorted_ids-Memᴰ _ v).0 m)) in
        (sorted_ids-Memᴰ _ v).1 (IsCarried→all_ids v bt i c),
  )

  same-IsCarried :
      sort_by compare (all_ids ts) ≡ sort_by compare (all_ids us)
      → (v : ℕ) → IsCarried ts v ↔ IsCarried us v
  same-IsCarried e v = (
    λ (t, i, c). all_ids→IsCarried us v bu (
        (sorted_ids-Memᴰ _ v).0
          (subst (Memᴰ v) e ((sorted_ids-Memᴰ _ v).1 (IsCarried→all_ids v bt i c)))),
    λ (t, i, c). all_ids→IsCarried ts v bt (
        (sorted_ids-Memᴰ _ v).0
          (subst (Memᴰ v) (sym e) ((sorted_ids-Memᴰ _ v).1 (IsCarried→all_ids v bu i c)))),
  )

-- Two lists of tags that pass the overlap check, with upper ends below the largest `u16`, become
-- equal by flattening and sorting exactly when they carry the same VLANs.
pub normalize-eq_iff :
    (c d : BridgePortVlanConfig) (ts us : List BridgePortTrunkTag)
    → c.trunk_tags ≡ some ts
    → d.trunk_tags ≡ some us
    → All IsBelowLimit ts
    → All IsBelowLimit us
    → validate_overlap_trunk_tags ts ≡ ok tt
    → validate_overlap_trunk_tags us ≡ ok tt
    → ((normalize c).trunk_tags ≡ (normalize d).trunk_tags)
      ↔ ((v : ℕ) → IsCarried ts v ↔ IsCarried us v)
unfolding flatten_vlan_ranges sort_trunk_tags
normalize-eq_iff c d ts us ec ed bt bu vt vu =
    rw
      (
        ec,
        ed,
        flatten_tags-map ts,
        flatten_tags-map us,
        sort_by-map (all_ids ts),
        sort_by-map (all_ids us),
      )
      (
        λ h.
            same-IsCarried ts us bt bu vt vu
              (map-id-injective (sort_by compare (all_ids ts)) (sort_by compare (all_ids us)) (cc)),
        λ h. ap (λ l. some (map id l)) (sorted_ids_eq ts us bt bu vt vu h),
      )
