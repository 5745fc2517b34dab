-- ===== src/Route/Merged/Group.antt =====
-- What the steps of `MergedRoutes::new` do with the list of merged routes.
use nmstate.Base.{
  if◌then◌else◌, Bool-cases, Option-cases, retain, ◌==◌, Text, text_beq_iff, ◌≡◌, sym, ap, ◌∙◌, inl,
  inr, Bool, false, not, Option, none, some, List, [], ◌∷◌, ◌++◌, append-nil, append_assoc, arith,
  nat_eq, bool_eq, list_eq, option_eq, int_eq,
}
use nmstate.Route.{RouteEntry, Routes, is_absent}
use nmstate.Route.Merged.{
  KernelIface, is_dropped, merge_current, append_desired, slot, push_route, group_routes,
  collect_routes, config_of, Lists, current_step, desired_step,
}

-- `merged.get(k)`, or no route.
abbrev pub rows_at : Text → List (Text × List RouteEntry) → List RouteEntry
rows_at k [] = []
rows_at k ((j, rts) ∷ m) = if j == k then rts else rows_at k m

rows_at-push_route :
    (k via : Text) (rt : RouteEntry) (m : List (Text × List RouteEntry))
    → rows_at k (push_route via rt m) ≡ (if via == k then rows_at k m ++ (rt ∷ []) else rows_at k m)
unfolding push_route
rows_at-push_route k via rt [] = ground arith
rows_at-push_route k via rt ((j, rts) ∷ m) =
    ground (
      arith,
      text_beq_iff j k,
      text_beq_iff j via,
      text_beq_iff via k,
      rows_at-push_route k via rt m,
    )

abbrev pub stands_at : Text → RouteEntry → Bool
stands_at k rt = slot rt == some k

-- The routes of an interface are those of the list that stand there, in their order.
rows_at-group_routes_onto :
    (k : Text) (rts : List RouteEntry) (m : List (Text × List RouteEntry))
    → rows_at k (group_routes rts m) ≡ rows_at k m ++ retain (stands_at k) rts
unfolding group_routes retain
rows_at-group_routes_onto k [] m = sym (append-nil _)
rows_at-group_routes_onto k (rt ∷ rts) m = elim (Option-cases (slot rt)) [
  | inl e ↦ rw e (rows_at-group_routes_onto k rts m)
  | inr (via, e) ↦
      rw (e, rows_at-group_routes_onto k rts, rows_at-push_route)
        (elim (Bool-cases (via == k)) [
          | inl q ↦ rw q (append_assoc (rows_at k m) (rt ∷ []) (retain (stands_at k) rts))
          | inr q ↦ rw q
        ])
]

pub rows_at-group_routes :
    (k : Text) (rts : List RouteEntry) → rows_at k (group_routes rts []) ≡ retain (stands_at k) rts
rows_at-group_routes k rts = rows_at-group_routes_onto k rts []

-- A current route that stays.
abbrev pub stays : List KernelIface → List RouteEntry → RouteEntry → Bool
stays ifaces desired rt = elim rt.next_hop_iface [
  | none ↦ false
  | some via ↦ not (is_dropped ifaces desired rt via)
]

abbrev pub is_present : RouteEntry → Bool
is_present rt = not (is_absent rt)

retain_cons :
    (p : RouteEntry → Bool) (rt : RouteEntry) (rts out : List RouteEntry)
    → (if p rt then out ++ (rt ∷ []) else out) ++ retain p rts ≡ out ++ retain p (rt ∷ rts)
unfolding retain
retain_cons p rt rts out = elim (Bool-cases (p rt)) [
  | inl e ↦ rw e (append_assoc out (rt ∷ []) (retain p rts))
  | inr e ↦ rw e
]

current_step-merged :
    (ifaces : List KernelIface) (desired : List RouteEntry) (rt : RouteEntry) (lists : Lists)
    → (current_step ifaces desired rt lists).1
      ≡ (if stays ifaces desired rt then lists.1 ++ (rt ∷ []) else lists.1)
unfolding current_step
current_step-merged ifaces desired rt lists = ground arith

merge_current-merged :
    (ifaces : List KernelIface) (desired cur : List RouteEntry) (lists : Lists)
    → (merge_current ifaces desired cur lists).1 ≡ lists.1 ++ retain (stays ifaces desired) cur
unfolding merge_current retain
merge_current-merged ifaces desired [] lists = sym (append-nil _)
merge_current-merged ifaces desired (rt ∷ cur) lists =
    (merge_current-merged ifaces desired cur (current_step ifaces desired rt lists)
      ∙ ap (λ l. l ++ retain (stays ifaces desired) cur)
          (current_step-merged ifaces desired rt lists)
      ∙ retain_cons (stays ifaces desired) rt cur lists.1)

desired_step-merged :
    (current : Option (List RouteEntry)) (rt : RouteEntry) (lists : Lists)
    → (desired_step current rt lists).1 ≡ (if is_present rt then lists.1 ++ (rt ∷ []) else lists.1)
unfolding desired_step
desired_step-merged current rt lists = ground arith

append_desired-merged :
    (current : Option (List RouteEntry)) (rts : List RouteEntry) (lists : Lists)
    → (append_desired current rts lists).1 ≡ lists.1 ++ retain is_present rts
unfolding append_desired retain
append_desired-merged current [] lists = sym (append-nil _)
append_desired-merged current (rt ∷ rts) lists =
    (append_desired-merged current rts (desired_step current rt lists)
      ∙ ap (λ l. l ++ retain is_present rts) (desired_step-merged current rt lists)
      ∙ retain_cons is_present rt rts lists.1)

-- The merged routes are the current routes that stay and the desired routes that are not absent.
pub candidates :
    (ifaces : List KernelIface) (current : Routes) (rts : List RouteEntry)
    → (collect_routes ifaces current rts).1
      ≡ retain (stays ifaces rts) (config_of current) ++ retain is_present rts
candidates ifaces current rts =
    append_desired-merged current.config rts _
    ∙ ap (λ l. l ++ retain is_present rts)
        (merge_current-merged ifaces rts (config_of current) ([], []))
