-- ===== src/Controller.antt =====
-- The checks of controllers and their ports in rust/src/lib/ifaces/inter_ifaces_controller.rs, on
-- what they read of the interfaces of rust/src/lib/iface.rs. A hash map is the list of its entries.
pub mod Overbook
pub mod Agree
pub mod Listed
use nmstate.Base.{
  if◌then◌else◌, is_some, unwrap_or, is_empty, any, retain, ◌==◌, contains, Text, Bool, true, false,
  not, ◌&&◌, ◌||◌, Option, none, some, List, [], ◌∷◌, ◌++◌, map, nat_eq, bool_eq, list_eq,
  option_eq, int_eq, pair_eq,
}
use nmstate.Error.{Result, ok, err, ◌>>=◌, ◌>>◌, new_error, fail_if, invalid_argument}

pub data InterfaceType : Type 0 where
  bond linux_bridge dummy ethernet hsr loopback mac_vlan mac_vtap : InterfaceType
  ovs_bridge ovs_interface veth vlan vrf vxlan infini_band tun : InterfaceType
  mac_sec ipsec xfrm ip_vlan unknown_type : InterfaceType
  other : Text → InterfaceType

abbrev pub is_controller : InterfaceType → Bool
is_controller bond = true
is_controller linux_bridge = true
is_controller ovs_bridge = true
is_controller vrf = true
is_controller _ = false

abbrev pub is_ovs_bridge : InterfaceType → Bool
is_ovs_bridge ovs_bridge = true
is_ovs_bridge _ = false

abbrev pub is_infini_band : InterfaceType → Bool
is_infini_band infini_band = true
is_infini_band _ = false

pub data InterfaceState : Type 0 where
  up down absent unknown ignore : InterfaceState

pub data BondMode : Type 0 where
  round_robin active_backup xor broadcast lacp tlb alb unknown_mode : BondMode

-- What the checks read of an `Interface`: `port_list` is what `ports` of a bridge, bond or VRF
-- gives, `mode` the mode of a bond.
pub record Interface : Type 0 where
  pub name : Text
  pub iface_type : InterfaceType
  pub state : InterfaceState
  pub controller : Option Text
  pub port_list : Option (List Text)
  pub mode : Option BondMode

abbrev pub is_up : Interface → Bool
is_up i = elim i.state [ up ↦ true | _ ↦ false ]

abbrev pub is_absent : Interface → Bool
is_absent i = elim i.state [ absent ↦ true | _ ↦ false ]

unfoldable pub ports : Interface → Option (List Text)
ports i = if is_controller i.iface_type then if is_absent i then some [] else i.port_list else none

pub record MergedInterface : Type 0 where
  pub desired : Option Interface
  pub merged : Interface

abbrev pub is_desired : MergedInterface → Bool
is_desired i = is_some i.desired

pub record MergedInterfaces : Type 0 where
  pub kernel_ifaces : List (Text × MergedInterface)
  pub user_ifaces : List ((Text × InterfaceType) × MergedInterface)

abbrev pub kernel_values : MergedInterfaces → List MergedInterface
kernel_values ms = map (λ e. e.1) ms.kernel_ifaces

unfoldable pub iter : MergedInterfaces → List MergedInterface
iter ms = map (λ e. e.1) ms.user_ifaces ++ kernel_values ms

-- The ports with the name of their controller.
abbrev pub PortMap : Type 0
PortMap = List (Text × Text)

unfoldable pub is_port_overbook : PortMap → Text → Text → Result PortMap
is_port_overbook port_to_ctrl port ctrl =
    if contains (map (λ e. e.0) port_to_ctrl) port
    then err (new_error invalid_argument)
    else ok ((port, ctrl) ∷ port_to_ctrl)

abbrev pub is_booking : MergedInterface → Bool
is_booking i = is_controller i.merged.iface_type && is_up i.merged && is_desired i

-- The loop over the ports of a controller.
unfoldable pub book_ports : PortMap → Text → List Text → Result PortMap
unfolding is_port_overbook
book_ports port_to_ctrl ctrl [] = ok port_to_ctrl
book_ports port_to_ctrl ctrl (port ∷ ps) = do
  booked ← is_port_overbook port_to_ctrl port ctrl
  book_ports booked ctrl ps

unfoldable pub book_ifaces : PortMap → List MergedInterface → Result (Unit {0})
unfolding book_ports ports
book_ifaces port_to_ctrl [] = ok tt
book_ifaces port_to_ctrl (i ∷ ifaces) = do
  booked ← book_ports port_to_ctrl i.merged.name (unwrap_or (ports i.merged) [])
  book_ifaces booked ifaces

unfoldable pub check_overbook_ports : MergedInterfaces → Result (Unit {0})
unfolding book_ifaces iter
check_overbook_ports ms = book_ifaces [] (retain is_booking (iter ms))

-- The controller that an interface desires.
abbrev pub desired_controller : MergedInterface → Option Text
desired_controller i = elim i.desired [ none ↦ none | some d ↦ d.controller ]

-- `kernel_ifaces.get`
unfoldable pub kernel_iface : Text → List (Text × MergedInterface) → Option MergedInterface
kernel_iface name [] = none
kernel_iface name (e ∷ es) =
    let rest = kernel_iface name es in if e.0 == name then some e.1 else rest

-- `user_ifaces.get` at a name and the type of an OVS bridge
unfoldable pub ovs_bridge_iface :
    Text → List ((Text × InterfaceType) × MergedInterface) → Option MergedInterface
ovs_bridge_iface name [] = none
ovs_bridge_iface name (e ∷ es) =
    let rest = ovs_bridge_iface name es in
    if e.0.0 == name && is_ovs_bridge e.0.1 then some e.1 else rest

unfoldable pub controller_iface : MergedInterfaces → Text → Option MergedInterface
unfolding kernel_iface ovs_bridge_iface
controller_iface ms name = elim (ovs_bridge_iface name ms.user_ifaces) [
  | some i ↦ some i
  | none ↦ kernel_iface name ms.kernel_ifaces
]

-- The port list of the desired controller, if there is one, has the interface.
abbrev pub lists_port : Option Interface → Text → Bool
unfolding ports
lists_port none name = true
lists_port (some desire) name = elim (ports desire) [
  | none ↦ true
  | some listed ↦ contains listed name
]

abbrev pub check_listed : MergedInterfaces → Text → Text → Result (Unit {0})
unfolding controller_iface lists_port
check_listed ms name ctrl = if is_empty ctrl then ok tt else elim (controller_iface ms ctrl) [
  | none ↦ err (new_error invalid_argument)
  | some c ↦ fail_if (not (lists_port c.desired name)) invalid_argument
]

unfoldable pub check_kernel_iface : MergedInterfaces → MergedInterface → Result (Unit {0})
unfolding check_listed
check_kernel_iface ms i =
    if not (is_desired i) || not (is_up i.merged) then ok tt else elim (desired_controller i) [
      | none ↦ ok tt
      | some ctrl ↦ check_listed ms i.merged.name ctrl
    ]

unfoldable pub try_each :
    (MergedInterface → Result (Unit {0})) → List MergedInterface → Result (Unit {0})
try_each check [] = ok tt
try_each check (i ∷ ifaces) = check i >>= (λ done. try_each check ifaces)

unfoldable pub validate_controller_not_in_port_list : MergedInterfaces → Result (Unit {0})
unfolding check_kernel_iface try_each
validate_controller_not_in_port_list ms = try_each (check_kernel_iface ms) (kernel_values ms)

abbrev pub is_desired_up : MergedInterface → Bool
is_desired_up i = is_desired i && is_up i.merged

-- The ports of an interface, each with its name.
unfoldable pub listed_ports : MergedInterface → PortMap
unfolding ports
listed_ports i = map (λ port. (port, i.merged.name)) (unwrap_or (ports i.merged) [])

unfoldable pub all_listed_ports : List MergedInterface → PortMap
unfolding listed_ports
all_listed_ports [] = []
all_listed_ports (i ∷ ifaces) = listed_ports i ++ all_listed_ports ifaces

-- `get` of a map after all inserts: the last one counts.
unfoldable pub last_controller : Text → PortMap → Option Text
last_controller port [] = none
last_controller port (e ∷ es) = elim (last_controller port es) [
  | some ctrl ↦ some ctrl
  | none ↦ if e.0 == port then some e.1 else none
]

abbrev pub check_desired_controller : PortMap → MergedInterface → Text → Result (Unit {0})
unfolding last_controller
check_desired_controller port_to_ctrl i des_ctrl_name =
    elim (last_controller i.merged.name port_to_ctrl) [
      | none ↦ ok tt
      | some ctrl ↦ fail_if (not (des_ctrl_name == ctrl)) invalid_argument
    ]

unfoldable pub check_other_port_list : PortMap → MergedInterface → Result (Unit {0})
unfolding check_desired_controller
check_other_port_list port_to_ctrl i = elim (desired_controller i) [
  | none ↦ ok tt
  | some des_ctrl_name ↦ check_desired_controller port_to_ctrl i des_ctrl_name
]

unfoldable pub validate_controller_in_other_port_list : MergedInterfaces → Result (Unit {0})
unfolding check_other_port_list all_listed_ports try_each iter
validate_controller_in_other_port_list ms =
    try_each (check_other_port_list (all_listed_ports (retain is_desired_up (iter ms))))
      (retain is_desired_up (kernel_values ms))

unfoldable pub validate_controller_and_port_list_confliction : MergedInterfaces → Result (Unit {0})
unfolding validate_controller_not_in_port_list validate_controller_in_other_port_list
validate_controller_and_port_list_confliction ms =
    validate_controller_not_in_port_list ms >> validate_controller_in_other_port_list ms

abbrev pub is_active_backup_bond : Interface → Bool
is_active_backup_bond i = elim i.iface_type [
  | bond ↦ elim i.mode [ some active_backup ↦ true | _ ↦ false ]
  | _ ↦ false
]

abbrev pub infini_band_names : MergedInterfaces → List Text
infini_band_names ms =
    map (λ i. i.merged.name) (retain (λ i. is_infini_band i.merged.iface_type) (kernel_values ms))

unfoldable pub check_ports_of : List Text → MergedInterface → Result (Unit {0})
unfolding ports
check_ports_of ib_iface_names i =
    fail_if
      (any (λ port. contains ib_iface_names port) (unwrap_or (ports i.merged) [])
        && not (is_active_backup_bond i.merged))
      invalid_argument

abbrev pub is_desired_controller : MergedInterface → Bool
is_desired_controller i = is_desired i && is_controller i.merged.iface_type

unfoldable pub check_infiniband_as_ports : MergedInterfaces → Result (Unit {0})
unfolding check_ports_of try_each
check_infiniband_as_ports ms =
    try_each (check_ports_of (infini_band_names ms))
      (retain is_desired_controller (kernel_values ms))
