-- ===== src/Controller/Listed.antt =====
-- What `validate_controller_not_in_port_list` guarantees of a desired controller.
use nmstate.Base.{
  Bool-cases, Option-cases, &&_split, is_empty, contains, contains→Memᴰ, Text, ◌≡◌, ◌⊎◌, inl, inr,
  true, false, none, some, List, Memᴰ, nat_eq, bool_eq, list_eq, option_eq, int_eq, pair_eq,
}
use nmstate.Error.{ok, bind-eq-ok}
use nmstate.Controller.{
  Interface, ports, MergedInterface, is_desired, is_up, MergedInterfaces, kernel_values,
  desired_controller, is_desired_up, controller_iface, lists_port, check_listed, check_kernel_iface,
  validate_controller_not_in_port_list, validate_controller_in_other_port_list,
  validate_controller_and_port_list_confliction,
}
use nmstate.Controller.Agree.{try_each-Memᴰ}

-- The controller is not in the desired state, or has no port list there, or lists the port.
unfoldable pub Lists : MergedInterface → Text → Type 0
Lists k port =
    (k.desired ≡ none)
    ⊎ ((d : Interface) × (k.desired ≡ some d)
        × ((ports d ≡ none) ⊎ ((listed : List Text) × (ports d ≡ some listed) × Memᴰ port listed)))

lists_port-Lists :
    (k : MergedInterface) (port : Text) → lists_port k.desired port ≡ true → Lists k port
unfolding lists_port Lists
lists_port-Lists k port h = elim (Option-cases k.desired) [
  | inl e ↦ inl e
  | inr (d, e) ↦ elim (Option-cases (ports d)) [
    | inl f ↦ inr (d, e, inl f)
    | inr (listed, f) ↦
        let there : contains listed port ≡ true = rw (e, lists_port, f) at h in
        inr (d, e, inr (listed, f, contains→Memᴰ listed port there))
  ]
]

check_kernel_iface-Lists :
    (ms : MergedInterfaces) (i : MergedInterface) (ctrl : Text)
    → is_desired_up i ≡ true
    → desired_controller i ≡ some ctrl
    → is_empty ctrl ≡ false
    → check_kernel_iface ms i ≡ ok tt
    → (k : MergedInterface) × (controller_iface ms ctrl ≡ some k) × Lists k i.merged.name
unfolding check_kernel_iface check_listed
check_kernel_iface-Lists ms i ctrl u d n h =
    let (desired, is_up_there) = &&_split (is_desired i) (is_up i.merged) u in
    elim (Option-cases (controller_iface ms ctrl)) [
      | inl e ↦ cc (rw (check_kernel_iface, desired, is_up_there, d, check_listed, n, e) at h)
      | inr (k, e) ↦ elim (Bool-cases (lists_port k.desired i.merged.name)) [
        | inl f ↦ (k, e, lists_port-Lists k i.merged.name f)
        | inr f ↦ cc (rw (check_kernel_iface, desired, is_up_there, d, check_listed, n, e, f) at h)
      ]
    ]

-- When `validate_controller_and_port_list_confliction` succeeds, a kernel interface that is desired,
-- up, and desires a controller with a name other than the empty one has a merged interface for that
-- controller, and stands in the port list that the desired state gives to the controller, if it
-- gives one.
pub validate_controller_and_port_list_confliction_lem :
    (ms : MergedInterfaces) (i : MergedInterface) (ctrl : Text)
    → validate_controller_and_port_list_confliction ms ≡ ok tt
    → Memᴰ i (kernel_values ms)
    → is_desired_up i ≡ true
    → desired_controller i ≡ some ctrl
    → is_empty ctrl ≡ false
    → (k : MergedInterface) × (controller_iface ms ctrl ≡ some k) × Lists k i.merged.name
unfolding validate_controller_and_port_list_confliction validate_controller_not_in_port_list
validate_controller_and_port_list_confliction_lem ms i ctrl v m u d n =
    let (tt, e, k) =
      bind-eq-ok (validate_controller_not_in_port_list ms)
        (λ done. validate_controller_in_other_port_list ms) v in
    check_kernel_iface-Lists ms i ctrl u d n
      (try_each-Memᴰ (check_kernel_iface ms) (kernel_values ms) e m)
