-- ===== src/Route/Merged/Complete.antt =====
-- `MergedRoutes::new`: which routes are to be merged, and where they stand.
use nmstate.Base.{
  Option-cases, not-true, retain, All, All-Memᴰ, Memᴰ-All, Memᴰ-append_left, Memᴰ-append_right,
  Memᴰ-append, Memᴰ-retain, retain-Memᴰ, Text, sort_by-All, dedup_by-All, by_key, ◌≡◌, refl, ap,
  ◌∙◌, ◌↔◌, inl, inr, true, false, some, List, Memᴰ, arith, nat_ord, bool_ord, pair_ord, list_ord,
}
use nmstate.Error.{ok, try_all, try_map}
use nmstate.Route.{sort_key, validate, Routes, RouteEntry, is_absent, validate_entry}
use nmstate.Route.Merged.{
  KernelIface, MergedRoutes, is_dropped, config_of, new, desired_routes, collect_routes,
  sorted_routes, same_route,
}
use nmstate.Route.Merged.Group.{
  stays, is_present, rows_at, stands_at, candidates, rows_at-group_routes,
}
use nmstate.Route.Merged.Safety.{new-parts}
use nmstate.Route.Merged.Placed.{
  key_iface, IsPlaced, desired-IsPlaced, candidates-IsPlaced, stands_for,
}

-- A route that a merge keeps: a sanitized desired route that is not absent, or a current route that
-- names a next hop interface and is not dropped.
pub data IsWanted (ifaces : List KernelIface) (current : Routes) (rts : List RouteEntry)
    (rt : RouteEntry) : Type 0 where
  from_desired : Memᴰ rt rts → is_absent rt ≡ false → IsWanted ifaces current rts rt
  from_current :
      (via : Text)
      → Memᴰ rt (config_of current)
      → rt.next_hop_iface ≡ some via
      → is_dropped ifaces rts rt via ≡ false
      → IsWanted ifaces current rts rt

IsWanted-collect_routes :
    (ifaces : List KernelIface) (current : Routes) (rts : List RouteEntry) (rt : RouteEntry)
    → IsWanted ifaces current rts rt
    → Memᴰ rt (collect_routes ifaces current rts).1
IsWanted-collect_routes ifaces current rts rt (IsWanted.from_desired m p) =
    rw (candidates ifaces current rts) (Memᴰ-append_right _ (retain-Memᴰ is_present m (rw p refl)))
IsWanted-collect_routes ifaces current rts rt (IsWanted.from_current via m e d) =
    rw (candidates ifaces current rts)
      (Memᴰ-append_left _ (retain-Memᴰ (stays ifaces rts) m (ground arith)))

stays-via :
    (ifaces : List KernelIface) (rts : List RouteEntry) (rt : RouteEntry)
    → stays ifaces rts rt ≡ true
    → (via : Text) × (rt.next_hop_iface ≡ some via) × (is_dropped ifaces rts rt via ≡ false)
stays-via ifaces rts rt h = elim (Option-cases rt.next_hop_iface) [
  | inl e ↦ cc (rw e at h)
  | inr (via, e) ↦ (via, e, ground arith)
]

collect_routes-IsWanted :
    (ifaces : List KernelIface) (current : Routes) (rts : List RouteEntry) (rt : RouteEntry)
    → Memᴰ rt (collect_routes ifaces current rts).1
    → IsWanted ifaces current rts rt
collect_routes-IsWanted ifaces current rts rt m =
    elim (Memᴰ-append _ (rw (candidates ifaces current rts) at m)) [
      | inl c ↦
          let (mem, h) = Memᴰ-retain (stays ifaces rts) _ c in
          let (via, e, d) = stays-via ifaces rts rt h in IsWanted.from_current via mem e d
      | inr d ↦
          let (mem, h) = Memᴰ-retain is_present rts d in IsWanted.from_desired mem (not-true _ h)
    ]

sorted_routes-Memᴰ :
    (every : List RouteEntry) (rt : RouteEntry) → Memᴰ rt (sorted_routes every) → Memᴰ rt every
unfolding sorted_routes
sorted_routes-Memᴰ every rt m =
    All-Memᴰ (λ x. Memᴰ x every)
      (dedup_by-All (λ x. Memᴰ x every) same_route _
        (sort_by-All (λ x. Memᴰ x every) (by_key sort_key) every (Memᴰ-All _ every (λ x n. n))))
      m

pub validate_config :
    (routes : Routes) → validate routes ≡ ok tt → try_all validate_entry (config_of routes) ≡ ok tt
unfolding validate try_all
validate_config routes h = elim (Option-cases routes.config) [
  | inl e ↦ rw e refl
  | inr (config, e) ↦ rw e (rw e at h)
]

merged_rows :
    (desired current : Routes) (ifaces : List KernelIface) (m : MergedRoutes)
    (rts : List RouteEntry) (k : Text)
    → new desired current ifaces ≡ ok m
    → desired_routes desired ≡ ok rts
    → (rows_at k m.merged
        ≡ retain (stands_at k) (sorted_routes (collect_routes ifaces current rts).1))
      × All IsPlaced (collect_routes ifaces current rts).1
unfolding try_map desired_routes
merged_rows desired current ifaces m rts k h clean =
    let (found, names, valid, clean2, checked, e) = new-parts desired current ifaces h in
    let same : found ≡ rts = cc in
    (
      ap (rows_at k) (rw same at e) ∙ rows_at-group_routes k _,
      candidates-IsPlaced ifaces current rts
          (desired-IsPlaced (config_of desired) rts (validate_config desired valid) clean),
    )

-- After a successful merge with the sanitized desired routes `rts`, exactly the keys of these
-- routes have a route in `merged`, under the interface of the key: the sanitized desired routes
-- that are not absent, and the current routes that name a next hop interface and are not dropped.
-- So a current route without a next hop interface is kept only where another route has its key.
pub new-IsWanted_iff :
    (desired current : Routes) (ifaces : List KernelIface) (m : MergedRoutes)
    (rts : List RouteEntry) (rt : RouteEntry)
    → new desired current ifaces ≡ ok m
    → desired_routes desired ≡ ok rts
    → ((kept : RouteEntry) × Memᴰ kept (rows_at (key_iface rt) m.merged)
        × (sort_key kept ≡ sort_key rt))
      ↔ ((wanted : RouteEntry) × IsWanted ifaces current rts wanted
          × (sort_key wanted ≡ sort_key rt))
new-IsWanted_iff desired current ifaces m rts rt h clean =
    let every = (collect_routes ifaces current rts).1 in
    let (rows, placed) = merged_rows desired current ifaces m rts (key_iface rt) h clean in
    (
      λ (kept, mem, key).
          let (found, _) = Memᴰ-retain (stands_at (key_iface rt)) _ (rw rows at mem) in
          let wanted =
            collect_routes-IsWanted ifaces current rts kept (sorted_routes-Memᴰ every kept found) in
          (kept, wanted, key),
      λ (wanted, w, key).
          let (kept, mem, same) =
            stands_for every wanted placed (IsWanted-collect_routes ifaces current rts wanted w) in
          let iface : key_iface wanted ≡ key_iface rt =
            unfold sort_key in ap (λ k. k.1.1.1.0) key in
          (kept, rw rows (rw iface at mem), same ∙ key),
    )
