-- ===== src/Controller/Agree.antt =====
-- The checks of ports and controllers together: an interface has the controller that lists it.
use nmstate.Base.{
  Bool-cases, Option-cases, unwrap_or, retain, Memᴰ-append_left, Memᴰ-append_right, retain-Memᴰ,
  map-Memᴰ, ◌==◌, ==_refl, ==→≡, Text, IsDistinct, IsDistinct-key, ◌≡◌, refl, ap, ◌≢◌, inl, inr,
  true, false, none, some, List, [], ◌∷◌, ◌++◌, Memᴰ, arith, nat_eq, bool_eq, list_eq, option_eq,
  int_eq, pair_eq,
}
use nmstate.Error.{Result, ok, bind-eq-ok}
use nmstate.Controller.{
  check_desired_controller, ports, MergedInterface, MergedInterfaces, kernel_values, iter, PortMap,
  is_booking, check_overbook_ports, desired_controller, try_each, is_desired_up, listed_ports,
  all_listed_ports, last_controller, check_other_port_list, validate_controller_in_other_port_list,
  is_controller,
}
use nmstate.Controller.Overbook.{port_names, booked_ports, check_overbook_ports_iff}

-- An interface that is no controller lists no ports.
listed_ports-none :
    (i : MergedInterface) → is_controller i.merged.iface_type ≡ false → listed_ports i ≡ []
unfolding listed_ports ports
listed_ports-none i e = rw (listed_ports, ports, e) refl

all_listed_ports-is_booking :
    (ifaces : List MergedInterface)
    → all_listed_ports (retain is_desired_up ifaces) ≡ all_listed_ports (retain is_booking ifaces)
unfolding all_listed_ports retain
all_listed_ports-is_booking [] = refl
all_listed_ports-is_booking (i ∷ ifaces) =
    let ih = all_listed_ports-is_booking ifaces in
    elim (Bool-cases (is_desired_up i)) [
      | inl e ↦ elim (Bool-cases (is_controller i.merged.iface_type)) [
        | inl f ↦
            let booking : is_booking i ≡ true = ground (arith, e, f) in
            rw (e, booking) (ap (λ r. listed_ports i ++ r) ih)
        | inr f ↦
            let booking : is_booking i ≡ false = ground (arith, e, f) in
            rw (e, booking) (rw (listed_ports-none i f) ih)
      ]
      | inr e ↦ let booking : is_booking i ≡ false = ground (arith, e) in rw (e, booking) ih
    ]

last_controller-Memᴰ :
    (port ctrl : Text) (entries : PortMap)
    → last_controller port entries ≡ some ctrl
    → Memᴰ (port, ctrl) entries
unfolding last_controller
last_controller-Memᴰ port ctrl [] h = cc
last_controller-Memᴰ port ctrl (e ∷ es) h = elim (Option-cases (last_controller port es)) [
  | inr (c, f) ↦ Memᴰ.tail (last_controller-Memᴰ port ctrl es (cc (rw (last_controller, f) at h)))
  | inl f ↦ elim (Bool-cases (e.0 == port)) [
    | inl g ↦
        let name = ==→≡ e.0 port g in
        let same : e.1 ≡ ctrl = cc (rw (last_controller, f, g) at h) in
        Memᴰ.head (rw (← name, ← same) refl)
    | inr g ↦ cc (rw (last_controller, f, g) at h)
  ]
]

last_controller-some :
    (port ctrl : Text) (entries : PortMap)
    → Memᴰ (port, ctrl) entries
    → last_controller port entries ≢ none
unfolding last_controller
last_controller-some port ctrl (e ∷ es) (Memᴰ.head q) h =
    elim (Option-cases (last_controller port es)) [
      | inr (c, f) ↦ cc (rw (last_controller, f) at h)
      | inl f ↦
          let here : (e.0 == port) ≡ true = rw (← q) (==_refl port) in
          cc (rw (last_controller, f, here) at h)
    ]
last_controller-some port ctrl (e ∷ es) (Memᴰ.tail m) h =
    elim (Option-cases (last_controller port es)) [
      | inr (c, f) ↦ cc (rw (last_controller, f) at h)
      | inl f ↦ last_controller-some port ctrl es m f
    ]
last_controller-some port ctrl [] m h = elim m [ ]

last_controller-IsDistinct :
    (port ctrl : Text) (entries : PortMap)
    → IsDistinct (port_names entries)
    → Memᴰ (port, ctrl) entries
    → last_controller port entries ≡ some ctrl
last_controller-IsDistinct port ctrl entries d m =
    elim (Option-cases (last_controller port entries)) [
      | inl e ↦ absurd (last_controller-some port ctrl entries m e)
      | inr (c, e) ↦
          let same : (port, c) ≡ (port, ctrl) =
            IsDistinct-key (λ (x : Text × Text). x.0) entries d
              (last_controller-Memᴰ port c entries e) m refl in
          let ctrl_same : c ≡ ctrl = ap (λ (x : Text × Text). x.1) same in rw (← ctrl_same) e
    ]

pub try_each-Memᴰ :
    (check : MergedInterface → Result (Unit {0})) (ifaces : List MergedInterface)
    {i : MergedInterface}
    → try_each check ifaces ≡ ok tt
    → Memᴰ i ifaces
    → check i ≡ ok tt
unfolding try_each
try_each-Memᴰ check (j ∷ ifaces) h (Memᴰ.head q) =
    let (tt, e, k) = bind-eq-ok (check j) (λ done. try_each check ifaces) h in rw q e
try_each-Memᴰ check (j ∷ ifaces) h (Memᴰ.tail m) =
    let (tt, e, k) = bind-eq-ok (check j) (λ done. try_each check ifaces) h in
    try_each-Memᴰ check ifaces k m
try_each-Memᴰ check [] h m = elim m [ ]

all_listed_ports-Memᴰ :
    (ifaces : List MergedInterface) {k : MergedInterface} (port : Text)
    → Memᴰ k ifaces
    → Memᴰ port (unwrap_or (ports k.merged) [])
    → Memᴰ (port, k.merged.name) (all_listed_ports ifaces)
unfolding all_listed_ports listed_ports
all_listed_ports-Memᴰ (i ∷ ifaces) port (Memᴰ.head q) p =
    Memᴰ-append_left (all_listed_ports ifaces)
      (rw q (map-Memᴰ (λ x. (x, i.merged.name)) (rw q at p)))
all_listed_ports-Memᴰ (i ∷ ifaces) port (Memᴰ.tail m) p =
    Memᴰ-append_right (listed_ports i) (all_listed_ports-Memᴰ ifaces port m p)
all_listed_ports-Memᴰ [] port m p = elim m [ ]

-- When both `validate_controller_in_other_port_list` and `check_overbook_ports` succeed, a kernel
-- interface that is desired, up, and desires a controller desires the one whose port list it stands
-- in, for every desired interface that is up and lists it as a port.
pub validate-check_overbook :
    (ms : MergedInterfaces) (k i : MergedInterface) (ctrl : Text)
    → validate_controller_in_other_port_list ms ≡ ok tt
    → check_overbook_ports ms ≡ ok tt
    → Memᴰ k (iter ms)
    → is_desired_up k ≡ true
    → Memᴰ i.merged.name (unwrap_or (ports k.merged) [])
    → Memᴰ i (kernel_values ms)
    → is_desired_up i ≡ true
    → desired_controller i ≡ some ctrl
    → ctrl ≡ k.merged.name
unfolding validate_controller_in_other_port_list check_other_port_list check_desired_controller
    booked_ports
validate-check_overbook ms k i ctrl v o mk uk p mi ui d =
    let entries = all_listed_ports (retain is_desired_up (iter ms)) in
    let distinct : IsDistinct (port_names entries) =
      rw (all_listed_ports-is_booking (iter ms)) ((check_overbook_ports_iff ms).0 o) in
    let there =
      all_listed_ports-Memᴰ (retain is_desired_up (iter ms)) i.merged.name
        (retain-Memᴰ is_desired_up mk uk) p in
    let last = last_controller-IsDistinct i.merged.name k.merged.name entries distinct there in
    let checked =
      try_each-Memᴰ (check_other_port_list entries) _ v (retain-Memᴰ is_desired_up mi ui) in
    elim (Bool-cases (ctrl == k.merged.name)) [
      | inl e ↦ ==→≡ ctrl k.merged.name e
      | inr e ↦ cc (rw (check_other_port_list, d, check_desired_controller, last, e) at checked)
    ]
