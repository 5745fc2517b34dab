-- ===== src/Tests/Controller.antt =====
-- Concrete values for rust/src/lib/ifaces/inter_ifaces_controller.rs.
use nmstate.Base.{
  unwrap_or, any, retain, list_beq, contains, Text, codes, IsDistinct, ◌≡◌, refl, ◌↔◌, none, some,
  [], ◌∷◌, Memᴰ, nat_eq, bool_eq, list_eq, option_eq, int_eq, pair_eq,
}
use nmstate.Error.{ok, err, new_error, invalid_argument}
use nmstate.Controller.{
  Interface, ethernet, linux_bridge, up, ports, MergedInterface, MergedInterfaces, iter, book_ports,
  is_port_overbook, book_ifaces, check_overbook_ports, try_each, all_listed_ports, listed_ports,
  last_controller, check_other_port_list, validate_controller_in_other_port_list,
  validate_controller_not_in_port_list, validate_controller_and_port_list_confliction,
  check_kernel_iface, controller_iface, kernel_iface, ovs_bridge_iface,
}
use nmstate.Controller.Listed.{Lists, validate_controller_and_port_list_confliction_lem}
use nmstate.Controller.Overbook.{booked_ports, check_overbook_ports_iff}
use nmstate.Controller.Agree.{validate-check_overbook}

abbrev bridge : Text → Text → Interface
bridge name port = record {
  name = name;
  iface_type = linux_bridge;
  state = up;
  controller = none;
  port_list = some (port ∷ []);
  mode = none;
}

abbrev nic : Interface
nic = record {
  name = codes "eth1";
  iface_type = ethernet;
  state = up;
  controller = some (codes "br0");
  port_list = none;
  mode = none;
}

abbrev desired_as : Interface → MergedInterface
desired_as i = record { desired = some i; merged = i }

abbrev two_ifaces : MergedInterfaces
two_ifaces = record {
  kernel_ifaces =
      (codes "br0", desired_as (bridge (codes "br0") (codes "eth1")))
      ∷ (codes "eth1", desired_as nic)
      ∷ [];
  user_ifaces = [];
}

abbrev two_bridges : MergedInterfaces
two_bridges = record {
  kernel_ifaces =
      (codes "br0", desired_as (bridge (codes "br0") (codes "eth1")))
      ∷ (codes "br1", desired_as (bridge (codes "br1") (codes "eth1")))
      ∷ [];
  user_ifaces = [];
}

overbooked : check_overbook_ports two_bridges ≡ err (new_error invalid_argument)
unfolding check_overbook_ports book_ifaces book_ports is_port_overbook ports iter retain contains
    any list_beq
overbooked = refl

booked_once : check_overbook_ports two_ifaces ≡ ok tt
unfolding check_overbook_ports book_ifaces book_ports is_port_overbook ports iter retain contains
    any list_beq
booked_once = refl

right_controller : validate_controller_in_other_port_list two_ifaces ≡ ok tt
unfolding validate_controller_in_other_port_list check_other_port_list try_each all_listed_ports
    listed_ports last_controller ports iter retain list_beq
right_controller = refl

check_overbook_ports_iff_example :
    (check_overbook_ports two_ifaces ≡ ok tt) ↔ IsDistinct (booked_ports two_ifaces)
check_overbook_ports_iff_example = check_overbook_ports_iff two_ifaces

bridge_listed : Memᴰ (desired_as (bridge (codes "br0") (codes "eth1"))) (iter two_ifaces)
unfolding iter
bridge_listed = Memᴰ.head refl

nic_listed : Memᴰ (codes "eth1") (unwrap_or (ports (bridge (codes "br0") (codes "eth1"))) [])
unfolding ports
nic_listed = Memᴰ.head refl

validate-check_overbook_example : codes "br0" ≡ codes "br0"
validate-check_overbook_example =
    validate-check_overbook two_ifaces (desired_as (bridge (codes "br0") (codes "eth1")))
      (desired_as nic) (codes "br0") right_controller booked_once bridge_listed refl nic_listed
      (Memᴰ.tail (Memᴰ.head refl)) refl refl

no_confliction : validate_controller_and_port_list_confliction two_ifaces ≡ ok tt
unfolding validate_controller_and_port_list_confliction validate_controller_not_in_port_list
    validate_controller_in_other_port_list check_kernel_iface controller_iface kernel_iface
    ovs_bridge_iface check_other_port_list try_each all_listed_ports listed_ports last_controller
    ports iter retain contains any list_beq
no_confliction = refl

validate_controller_and_port_list_confliction_lem_example :
    (k : MergedInterface) × (controller_iface two_ifaces (codes "br0") ≡ some k)
    × Lists k (codes "eth1")
validate_controller_and_port_list_confliction_lem_example =
    validate_controller_and_port_list_confliction_lem two_ifaces (desired_as nic) (codes "br0")
      no_confliction (Memᴰ.tail (Memᴰ.head refl)) refl refl refl
