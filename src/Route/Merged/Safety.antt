-- ===== src/Route/Merged/Safety.antt =====
-- `MergedRoutes::new`: where a merged route comes from, and what can carry it.
use nmstate.Base.{
  Bool-cases, Option-cases, not-true, any, retain, All, All-Memᴰ, Memᴰ-All, Memᴰ-append,
  Memᴰ-retain, retain-Memᴰ, map-Memᴰ, any-false, ==→≡, contains, contains-Memᴰ, Text, sort_by-All,
  dedup_by-All, by_key, IsStrict, sort_by-IsSorted, dedup_by-IsStrict, retain-IsStrict, ◌≡◌, ap,
  ◌∙◌, ◌⊎◌, inl, inr, Bool, true, false, not, some, List, [], ◌∷◌, Memᴰ, arith, nat_eq, bool_eq,
  list_eq, option_eq, int_eq, nat_ord, bool_ord, pair_ord, list_ord,
}
use nmstate.Error.{ok, bind-eq-ok}
use nmstate.Route.{RouteEntry, Routes, is_ipv6, is_absent, is_match, validate, sort_key}
use nmstate.Route.Merged.{
  KernelIface, MergedRoutes, cannot_carry, names_where, check_added, is_dropped, config_of, new,
  desired_routes, slot, group_routes, collect_routes, sorted_routes, same_route,
}
use nmstate.Route.Merged.Group.{
  stays, is_present, rows_at, stands_at, candidates, rows_at-group_routes,
}

-- The interfaces of this name are there, and have the address family of the route.
pub record IsCarrier (i : KernelIface) (rt : RouteEntry) : Type 0 where
  pub here : i.is_absent ≡ false
  pub ipv6 : is_ipv6 rt ≡ true → i.is_ipv6_enabled ≡ true
  pub ipv4 : is_ipv6 rt ≡ false → i.is_ipv4_enabled ≡ true

abbrev pub CanCarry : List KernelIface → RouteEntry → Type 0
CanCarry ifaces rt =
    (i : KernelIface) → Memᴰ i ifaces → rt.next_hop_iface ≡ some i.name → IsCarrier i rt

names_where-Memᴰ :
    (p : KernelIface → Bool) {i : KernelIface} {ifaces : List KernelIface}
    → Memᴰ i ifaces
    → p i ≡ true
    → Memᴰ i.name (names_where p ifaces)
names_where-Memᴰ p m h = map-Memᴰ (λ i. i.name) (retain-Memᴰ p m h)

not_listed :
    (p : KernelIface → Bool) {i : KernelIface} {ifaces : List KernelIface}
    → Memᴰ i ifaces
    → contains (names_where p ifaces) i.name ≡ false
    → p i ≡ false
not_listed p {i} m h = elim (Bool-cases (p i)) [
  | inl e ↦ absurd (cc (contains-Memᴰ (names_where-Memᴰ p m e)))
  | inr e ↦ e
]

not-false : (b : Bool) → not b ≡ false → b ≡ true
not-false b h = ground arith

carries :
    (ifaces : List KernelIface) (rt : RouteEntry)
    → ((via : Text) → rt.next_hop_iface ≡ some via → cannot_carry ifaces rt via ≡ false)
    → CanCarry ifaces rt
unfolding cannot_carry
carries ifaces rt h i m e =
    let free = h i.name e in
    record {
      here = not_listed (λ i. i.is_absent) m (ground arith);
      ipv6 = λ q. not-false _ (not_listed (λ i. not i.is_ipv6_enabled) m (ground arith));
      ipv4 = λ q. not-false _ (not_listed (λ i. not i.is_ipv4_enabled) m (ground arith));
    }

carries_via :
    (ifaces : List KernelIface) (rt : RouteEntry) (via : Text)
    → rt.next_hop_iface ≡ some via
    → cannot_carry ifaces rt via ≡ false
    → CanCarry ifaces rt
carries_via ifaces rt via n c = carries ifaces rt λ v q. let same : v ≡ via = cc in rw same c

-- Where a merged route comes from: a current route that no absent desired route matches, or a
-- desired route that is not absent.
abbrev pub ComesFrom : Routes → List RouteEntry → RouteEntry → Type 0
ComesFrom current rts rt =
    (Memᴰ rt (config_of current)
      × ((a : RouteEntry) → Memᴰ a rts → is_absent a ≡ true → is_match a rt ≡ false))
    ⊎ (Memᴰ rt rts × (is_absent rt ≡ false))

pub check_added-carries :
    (ifaces : List KernelIface) (rts : List RouteEntry) (changed : List Text) {names : List Text}
    → check_added ifaces rts changed ≡ ok names
    → All (λ rt. is_absent rt ≡ false → CanCarry ifaces rt) rts
unfolding check_added
check_added-carries ifaces [] changed h = tt
check_added-carries ifaces (rt ∷ rts) changed h = elim (Bool-cases (is_absent rt)) [
  | inl e ↦ ((λ q. cc), check_added-carries ifaces rts changed (rw e at h))
  | inr e ↦ elim (Option-cases rt.next_hop_iface) [
    | inl n ↦ ((λ q i m r. cc), check_added-carries ifaces rts _ (rw (e, n) at h))
    | inr (via, n) ↦ elim (Bool-cases (cannot_carry ifaces rt via)) [
      | inl c ↦ cc (rw (e, n, c) at h)
      | inr c ↦ (
        (λ q. carries_via ifaces rt via n c),
        check_added-carries ifaces rts _ (rw (e, n, c) at h),
      )
    ]
  ]
]

stays-lem :
    (ifaces : List KernelIface) (rts : List RouteEntry) (rt : RouteEntry)
    → stays ifaces rts rt ≡ true
    → CanCarry ifaces rt
      × ((a : RouteEntry) → Memᴰ a rts → is_absent a ≡ true → is_match a rt ≡ false)
unfolding is_dropped
stays-lem ifaces rts rt h = elim (Option-cases rt.next_hop_iface) [
  | inl e ↦ cc (rw e at h)
  | inr (via, e) ↦
      let free : cannot_carry ifaces rt via ≡ false = ground arith in
      let kept : any (λ b. is_match b rt) (retain is_absent rts) ≡ false = ground arith in
      (
        carries_via ifaces rt via e free,
        λ a m s. any-false (λ b. is_match b rt) kept (retain-Memᴰ is_absent m s),
      )
]

-- What is said of a merged route that stands under the key `k`.
pub record IsUsable (ifaces : List KernelIface) (current : Routes) (rts : List RouteEntry)
    (k : Text) (rt : RouteEntry) : Type 0 where
  pub slot : slot rt ≡ some k
  pub carrier : CanCarry ifaces rt
  pub origin : ComesFrom current rts rt

candidate-lem :
    (ifaces : List KernelIface) (current : Routes) (rts : List RouteEntry) {names : List Text}
    → check_added ifaces rts [] ≡ ok names
    → All
        (λ rt. CanCarry ifaces rt × ComesFrom current rts rt)
        (collect_routes ifaces current rts).1
candidate-lem ifaces current rts checked = rw (candidates ifaces current rts) (
    Memᴰ-All _ _ λ rt m. elim (Memᴰ-append _ m) [
      | inl c ↦
          let (mem, h) = Memᴰ-retain (stays ifaces rts) _ c in
          let (carry, kept) = stays-lem ifaces rts rt h in (carry, inl (mem, kept))
      | inr d ↦
          let (mem, h) = Memᴰ-retain is_present rts d in
          let present = not-true _ h in
          let carry = All-Memᴰ _ (check_added-carries ifaces rts [] checked) mem present in
          (carry, inr (mem, present))
    ])

-- The parts of a success of `new`.
pub new-parts :
    (desired current : Routes) (ifaces : List KernelIface) {m : MergedRoutes}
    → new desired current ifaces ≡ ok m
    → (rts : List RouteEntry) × (names : List Text) × (validate desired ≡ ok tt)
      × (desired_routes desired ≡ ok rts)
      × (check_added ifaces rts [] ≡ ok names)
      × (m.merged ≡ group_routes (sorted_routes (collect_routes ifaces current rts).1) [])
unfolding new
new-parts desired current ifaces h =
    let (u, valid, h1) = bind-eq-ok (validate desired) _ h in
    let (rts, clean, h2) = bind-eq-ok (desired_routes desired) _ h1 in
    let (names, checked, h3) = bind-eq-ok (check_added ifaces rts []) _ h2 in
    (rts, names, valid, clean, checked, cc)

slot-stands_at : (k : Text) (rt : RouteEntry) → stands_at k rt ≡ true → slot rt ≡ some k
slot-stands_at k rt h = ==→≡ (slot rt) (some k) h

pub sorted_routes-IsStrict : (rts : List RouteEntry) → IsStrict sort_key (sorted_routes rts)
unfolding sorted_routes
sorted_routes-IsStrict rts = dedup_by-IsStrict sort_key _ (sort_by-IsSorted sort_key rts)

IsUsable-at :
    (ifaces : List KernelIface) (current : Routes) (rts : List RouteEntry) (k : Text)
    (found : List RouteEntry)
    → All (λ rt. CanCarry ifaces rt × ComesFrom current rts rt) found
    → All (IsUsable ifaces current rts k) (retain (stands_at k) (sorted_routes found))
unfolding sorted_routes
IsUsable-at ifaces current rts k found h =
    let P : RouteEntry → Type 0 = λ rt. CanCarry ifaces rt × ComesFrom current rts rt in
    let sound : All P (sorted_routes found) =
      dedup_by-All P same_route _ (sort_by-All P (by_key sort_key) found h) in
    Memᴰ-All _ _ λ rt m.
      let (mem, q) = Memᴰ-retain (stands_at k) (sorted_routes found) m in
      let (carry, from) = All-Memᴰ P sound mem in
      record { slot = slot-stands_at k rt q; carrier = carry; origin = from }

-- For a successful merge with the sanitized desired routes `rts`: every route that it keeps for an
-- interface `k` stands there with reason: `k` is its next hop interface, or the loopback for a
-- route that has only a type; no interface of that name is absent or lacks the address family of
-- the route; and the route is either a current one that no sanitized absent route matches, or a
-- sanitized desired one that is not absent. The routes of `k` are in the strict order of their
-- keys, so no route stands there twice.
pub new-IsUsable :
    (desired current : Routes) (ifaces : List KernelIface) (m : MergedRoutes)
    (rts : List RouteEntry) (k : Text)
    → new desired current ifaces ≡ ok m
    → desired_routes desired ≡ ok rts
    → All (IsUsable ifaces current rts k) (rows_at k m.merged)
      × IsStrict sort_key (rows_at k m.merged)
new-IsUsable desired current ifaces m rts k h clean =
    let (found, names, valid, clean2, checked, e) = new-parts desired current ifaces h in
    let same : found ≡ rts = cc in
    let every = collect_routes ifaces current rts in
    let checked2 : check_added ifaces rts [] ≡ ok names = rw same at checked in
    let rows : rows_at k m.merged ≡ retain (stands_at k) (sorted_routes every.1) =
      ap (rows_at k) (rw same at e) ∙ rows_at-group_routes k (sorted_routes every.1) in
    rw rows (
      IsUsable-at ifaces current rts k every.1 (candidate-lem ifaces current rts checked2),
      retain-IsStrict sort_key (stands_at k) _ (sorted_routes-IsStrict every.1),
    )
