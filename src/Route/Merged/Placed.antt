-- ===== src/Route/Merged/Placed.antt =====
-- The interface under which a route of `MergedRoutes::new` is to stand.
use nmstate.Base.{
  Option-cases, unwrap_or, not-true, retain, All, All-Memᴰ, Memᴰ-All, Memᴰ-append, Memᴰ-retain,
  retain-Memᴰ, ==_refl, Text, sort_by-Memᴰ, sort_by-All, dedup_by-All, dedup_by-Memᴰ, by_key,
  same_key_iff, ◌≡◌, ap, ◌∙◌, inl, inr, true, false, some, List, [], ◌∷◌, Memᴰ, arith, nat_eq,
  bool_eq, list_eq, option_eq, int_eq, pair_eq, nat_ord, bool_ord, pair_ord, list_ord,
}
use nmstate.Error.{ok, bind-eq-ok, try_all, try_map}
use nmstate.Route.{
  sort_key, Routes, RouteEntry, is_absent, is_unicast, sanitize, validate_entry,
  loopback_iface_name, sanitize_destination, sanitize_addr, check_weight, check_cwnd,
}
use nmstate.Route.Merged.{KernelIface, slot, collect_routes, sorted_routes, same_route}
use nmstate.Route.Merged.Group.{stays, is_present, stands_at, candidates}

abbrev pub key_iface : RouteEntry → Text
key_iface rt = unwrap_or rt.next_hop_iface loopback_iface_name

-- The route stands in `merged` under the interface of its key.
abbrev pub IsPlaced : RouteEntry → Type 0
IsPlaced rt = slot rt ≡ some (key_iface rt)

abbrev Keeps : RouteEntry → RouteEntry → Type 0
Keeps r clean =
    (clean.state ≡ r.state)
    × (clean.next_hop_iface ≡ r.next_hop_iface)
    × (clean.route_type ≡ r.route_type)

sanitize-Keeps : (r clean : RouteEntry) → sanitize r ≡ ok clean → Keeps r clean
unfolding sanitize
sanitize-Keeps r clean h =
    let (dst, e1, h1) = bind-eq-ok (sanitize_destination r.destination) _ h in
    let (addr, e2, h2) = bind-eq-ok (sanitize_addr r.next_hop_addr) _ h1 in
    let (source, e3, h3) = bind-eq-ok (sanitize_addr r.source) _ h2 in
    let (u, e4, h4) = bind-eq-ok (check_weight r.weight dst) _ h3 in
    let (v, e5, h5) = bind-eq-ok (check_cwnd r.cwnd) _ h4 in (cc, cc, cc)

validate_entry-IsPlaced :
    (r : RouteEntry) → validate_entry r ≡ ok tt → is_absent r ≡ false → IsPlaced r
unfolding validate_entry is_unicast slot is_absent
validate_entry-IsPlaced r h p = elim (Option-cases r.next_hop_iface) [
  | inr (via, e) ↦ rw e
  | inl e ↦ elim (Option-cases r.route_type) [ inr (t, q) ↦ rw (e, q) | inl q ↦ ground arith ]
]

Keeps-IsPlaced : (r clean : RouteEntry) → Keeps r clean → IsPlaced r → IsPlaced clean
unfolding slot
Keeps-IsPlaced r clean k p = ground arith

Keeps-is_absent :
    (r clean : RouteEntry) → Keeps r clean → is_absent clean ≡ false → is_absent r ≡ false
unfolding is_absent
Keeps-is_absent r clean k q = rw (← k.0) q

pub desired-IsPlaced :
    (entries : List RouteEntry) (rts : List RouteEntry)
    → try_all validate_entry entries ≡ ok tt
    → try_map sanitize entries ≡ ok rts
    → All (λ rt. is_absent rt ≡ false → IsPlaced rt) rts
unfolding try_all try_map
desired-IsPlaced [] rts v s = let none_left : rts ≡ [] = cc in rw none_left tt
desired-IsPlaced (r ∷ entries) rts v s =
    let (u, v1, v2) = bind-eq-ok (validate_entry r) _ v in
    let (clean, s1, h1) = bind-eq-ok (sanitize r) _ s in
    let (rest, s2, h2) = bind-eq-ok (try_map sanitize entries) _ h1 in
    let same : rts ≡ clean ∷ rest = cc in
    let k = sanitize-Keeps r clean s1 in
    rw same (
      λ q. Keeps-IsPlaced r clean k (validate_entry-IsPlaced r v1 (Keeps-is_absent r clean k q)),
      desired-IsPlaced entries rest v2 s2,
    )

-- A current route that stays stands under its next hop interface.
stays-IsPlaced :
    (ifaces : List KernelIface) (rts : List RouteEntry) (rt : RouteEntry)
    → stays ifaces rts rt ≡ true
    → IsPlaced rt
unfolding slot
stays-IsPlaced ifaces rts rt h = ground arith

pub candidates-IsPlaced :
    (ifaces : List KernelIface) (current : Routes) (rts : List RouteEntry)
    → All (λ rt. is_absent rt ≡ false → IsPlaced rt) rts
    → All IsPlaced (collect_routes ifaces current rts).1
candidates-IsPlaced ifaces current rts h = rw (candidates ifaces current rts) (
    Memᴰ-All _ _ λ rt m. elim (Memᴰ-append _ m) [
      | inl c ↦ stays-IsPlaced ifaces rts rt (Memᴰ-retain (stays ifaces rts) _ c).1
      | inr d ↦
          let (mem, q) = Memᴰ-retain is_present rts d in
          All-Memᴰ (λ x. is_absent x ≡ false → IsPlaced x) h mem (not-true _ q)
    ])

-- The route that stands for `rt` after the sort and the removal of duplicates.
pub stands_for :
    (every : List RouteEntry) (rt : RouteEntry)
    → All IsPlaced every
    → Memᴰ rt every
    → (kept : RouteEntry) × Memᴰ kept (retain (stands_at (key_iface rt)) (sorted_routes every))
      × (sort_key kept ≡ sort_key rt)
unfolding sorted_routes sort_key
stands_for every rt h m =
    let found = dedup_by-Memᴰ same_route (sort_by-Memᴰ (by_key sort_key) m) in
    let placed : All IsPlaced (sorted_routes every) =
      dedup_by-All IsPlaced same_route _ (sort_by-All IsPlaced (by_key sort_key) every h) in
    let same : sort_key found.0 ≡ sort_key rt = elim found.2 [
      | inl s ↦ (same_key_iff sort_key found.0 rt).0 s
      | inr s ↦ ap sort_key s
    ] in
    let iface : key_iface found.0 ≡ key_iface rt = ap (λ k. k.1.1.1.0) same in
    let here : slot found.0 ≡ some (key_iface rt) =
      All-Memᴰ IsPlaced placed found.1 ∙ ap some iface in
    let tested : stands_at (key_iface rt) found.0 ≡ true =
      rw here (==_refl (some (key_iface rt))) in
    (found.0, retain-Memᴰ (stands_at (key_iface rt)) found.1 tested, same)
