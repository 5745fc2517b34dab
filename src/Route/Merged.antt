-- ===== src/Route/Merged.antt =====
-- `MergedRoutes` of rust/src/lib/route.rs. A hash set is the list of its elements in the order of
-- insertion, and `merged` lists its interfaces so; neither order is used.
pub mod Group
pub mod Safety
pub mod Accepts
pub mod Refuses
pub mod Touched
pub mod Placed
pub mod Complete
use nmstate.Base.{
  if◌then◌else◌, is_some, unwrap_or, is_empty, any, retain, ◌==◌, contains, Text, sort_by, dedup_by,
  by_key, same_key, Bool, not, ◌&&◌, ◌||◌, Option, none, some, List, [], ◌∷◌, ◌++◌, map, nat_eq,
  bool_eq, list_eq, option_eq, int_eq, nat_ord, bool_ord, pair_ord, list_ord,
}
use nmstate.Error.{
  Result, ok, err, ◌>>=◌, ◌>>◌, new_error, fail_if, try_all, try_map, invalid_argument,
}
use nmstate.Route.{
  RouteEntry, Routes, RouteState, absent, is_absent, is_ipv6, is_match, sort_key, sanitize,
  validate, loopback_iface_name, SortKey, route_type_eq,
}

-- What the code reads of a merged kernel interface: `merged.name()`, `merged.is_absent()` and
-- whether its address families are enabled.
pub record KernelIface : Type 0 where
  pub name : Text
  pub is_absent : Bool
  pub is_ipv4_enabled : Bool
  pub is_ipv6_enabled : Bool

pub record MergedRoutes : Type 0 where
  pub merged : List (Text × List RouteEntry)
  pub route_changed_ifaces : List Text
  pub changed_routes : List RouteEntry
  pub desired : Routes
  pub current : Routes

abbrev pub config_of : Routes → List RouteEntry
config_of routes = unwrap_or routes.config []

-- The three lists of interface names.
abbrev pub names_where : (KernelIface → Bool) → List KernelIface → List Text
names_where p ifaces = map (λ i. i.name) (retain p ifaces)

abbrev pub marked_as_absent : List KernelIface → List Text
marked_as_absent = names_where (λ i. i.is_absent)

abbrev pub ipv4_disabled : List KernelIface → List Text
ipv4_disabled = names_where (λ i. not i.is_ipv4_enabled)

abbrev pub ipv6_disabled : List KernelIface → List Text
ipv6_disabled = names_where (λ i. not i.is_ipv6_enabled)

-- `HashSet::insert`
unfoldable pub add_name : Text → List Text → List Text
add_name n names = if contains names n then names else names ++ (n ∷ [])

abbrev pub same_route : RouteEntry → RouteEntry → Bool
same_route = same_key sort_key

unfoldable pub add_route : RouteEntry → List RouteEntry → List RouteEntry
add_route r routes = if any (λ x. same_route x r) routes then routes else routes ++ (r ∷ [])

-- The interface cannot carry the route.
unfoldable pub cannot_carry : List KernelIface → RouteEntry → Text → Bool
cannot_carry ifaces rt via =
    contains (marked_as_absent ifaces) via
    || is_ipv6 rt && contains (ipv6_disabled ifaces) via
    || not (is_ipv6 rt) && contains (ipv4_disabled ifaces) via

-- "Interface has route added."
unfoldable pub check_added : List KernelIface → List RouteEntry → List Text → Result (List Text)
unfolding add_name cannot_carry
check_added ifaces [] changed = ok changed
check_added ifaces (rt ∷ rts) changed =
    if is_absent rt then check_added ifaces rts changed else elim rt.next_hop_iface [
      | some via ↦
          if cannot_carry ifaces rt via
          then err (new_error invalid_argument)
          else check_added ifaces rts (add_name via changed)
      | none ↦
          check_added ifaces rts
            (if is_some rt.route_type then add_name loopback_iface_name changed else changed)
    ]

-- "Interface has route deleted.": the inner loop, for one absent route, and the outer one.
unfoldable pub note_matched : RouteEntry → List RouteEntry → List Text → List Text
unfolding add_name
note_matched absent_rt [] changed = changed
note_matched absent_rt (rt ∷ rts) changed = note_matched absent_rt rts (
    if is_match absent_rt rt
    then add_name (unwrap_or rt.next_hop_iface loopback_iface_name) changed
    else changed)

unfoldable pub note_deleted : List RouteEntry → List RouteEntry → List Text → List Text
unfolding note_matched
note_deleted [] current changed = changed
note_deleted (rt ∷ rts) current changed =
    note_deleted rts current (if is_absent rt then note_matched rt current changed else changed)

-- A current route that the merge drops.
unfoldable pub is_dropped : List KernelIface → List RouteEntry → RouteEntry → Text → Bool
unfolding cannot_carry
is_dropped ifaces desired rt via =
    cannot_carry ifaces rt via || any (λ a. is_match a rt) (retain is_absent desired)

-- `changed_routes` and `merged_routes`
abbrev pub Lists : Type 0
Lists = List RouteEntry × List RouteEntry

-- The loop over the current routes: its body, and the loop.
unfoldable pub current_step : List KernelIface → List RouteEntry → RouteEntry → Lists → Lists
unfolding is_dropped add_route
current_step ifaces desired rt lists = elim rt.next_hop_iface [
  | none ↦ lists
  | some via ↦
      if is_dropped ifaces desired rt via
      then (add_route (record rt { state = some absent }) lists.0, lists.1)
      else (lists.0, lists.1 ++ (rt ∷ []))
]

unfoldable pub merge_current : List KernelIface → List RouteEntry → List RouteEntry → Lists → Lists
unfolding current_step
merge_current ifaces desired [] lists = lists
merge_current ifaces desired (rt ∷ rts) lists =
    merge_current ifaces desired rts (current_step ifaces desired rt lists)

-- "Append desired routes": the body of the loop, and the loop.
unfoldable pub desired_step : Option (List RouteEntry) → RouteEntry → Lists → Lists
unfolding add_route is_absent
desired_step current rt lists = if is_absent rt then lists else (
  elim current [
    | none ↦ lists.0
    | some cur_rts ↦
        if any (λ cur_rt. is_match cur_rt rt) cur_rts then lists.0 else add_route rt lists.0
  ],
  lists.1 ++ (rt ∷ []),
)

unfoldable pub append_desired : Option (List RouteEntry) → List RouteEntry → Lists → Lists
unfolding desired_step
append_desired current [] lists = lists
append_desired current (rt ∷ rts) lists = append_desired current rts (desired_step current rt lists)

-- The key of `merged` under which a route stands.
unfoldable pub slot : RouteEntry → Option Text
slot rt = elim rt.next_hop_iface [
  | some via ↦ some via
  | none ↦ if is_some rt.route_type then some loopback_iface_name else none
]

-- `merged.entry(via)` and `rts.push(rt)`
unfoldable pub push_route :
    Text → RouteEntry → List (Text × List RouteEntry) → List (Text × List RouteEntry)
push_route via rt [] = (via, rt ∷ []) ∷ []
push_route via rt ((key, rts) ∷ m) =
    if key == via then (key, rts ++ (rt ∷ [])) ∷ m else (key, rts) ∷ push_route via rt m

unfoldable pub group_routes :
    List RouteEntry → List (Text × List RouteEntry) → List (Text × List RouteEntry)
unfolding slot push_route
group_routes [] m = m
group_routes (rt ∷ rts) m =
    group_routes rts (elim (slot rt) [ none ↦ m | some via ↦ push_route via rt m ])

-- `sort_unstable` and `dedup`
unfoldable pub sorted_routes : List RouteEntry → List RouteEntry
sorted_routes rts = dedup_by same_route (sort_by (by_key sort_key) rts)

-- The sanitized desired routes.
unfoldable pub desired_routes : Routes → Result (List RouteEntry)
desired_routes desired = try_map sanitize (config_of desired)

abbrev pub collect_routes :
    List KernelIface → Routes → List RouteEntry → List RouteEntry × List RouteEntry
collect_routes ifaces current rts =
    append_desired current.config rts (merge_current ifaces rts (config_of current) ([], []))

-- `MergedRoutes::new`
unfoldable pub new : Routes → Routes → List KernelIface → Result MergedRoutes
unfolding group_routes check_added note_deleted merge_current append_desired sorted_routes
    desired_routes
new desired current ifaces = do
  validate desired
  rts ← desired_routes desired
  added ← check_added ifaces rts []
  ok (record {
    merged = group_routes (sorted_routes (collect_routes ifaces current rts).1) [];
    route_changed_ifaces = note_deleted rts (config_of current) added;
    changed_routes = (collect_routes ifaces current rts).0;
    desired = desired;
    current = current;
  })

-- `remove_routes_to_ignored_ifaces`, on the names of the ignored interfaces that are not userspace.
unfoldable pub remove_routes_to_ignored_ifaces : List Text → MergedRoutes → MergedRoutes
remove_routes_to_ignored_ifaces ignored m = record m {
  merged = retain (λ e. not (contains ignored e.0)) m.merged;
  route_changed_ifaces = retain (λ n. not (contains ignored n)) m.route_changed_ifaces;
}

unfoldable pub is_changed : MergedRoutes → Bool
is_changed m = not (is_empty m.route_changed_ifaces)
