-- ===== src/Tests/Json.antt =====
-- Concrete values for rust/src/lib/state.rs.
use nmstate.Base.{
  differ, list_beq, codes, ℕ, ◌≡◌, refl, ◌≢◌, true, none, some, List, [], ◌∷◌, nat_ord, bool_ord,
  pair_ord, list_ord, nat_eq, list_eq,
}
use nmstate.Json.{
  array, cons, nil, items_length, insert, Value, Fields, string, number, pos_int, object, end,
  field, value_beq, number_beq, get, IsWellFormed,
}
use nmstate.State.{
  get_json_value_difference, gen_diff_json_value, merge_json_value, raw_difference, should_ignore,
  key_reference, index_reference, password_hid_by_nmstate,
}
use nmstate.State.Apply.{applied, gen_diff_lem}
use nmstate.State.Verify.{verify-merge}
use nmstate.Json.Paths.{Step, value_at}
use nmstate.State.Reported.{IsUnignored}
use nmstate.State.Sound.{get_json_value_difference_sound}

abbrev mtu : ℕ → Fields → Fields
mtu n m = field (codes "mtu") (number (pos_int n)) m

abbrev desired_iface : Value
desired_iface = object (field (codes "name") (string (codes "eth1")) (mtu 1500 end))

abbrev current_iface : Value
current_iface = object (
    mtu 1400 (
      field (codes "name") (string (codes "eth1"))
        (field (codes "state") (string (codes "up")) end)))

desired_wf : IsWellFormed desired_iface
unfolding get list_beq
desired_wf = (tt, refl, (tt, refl, tt))

current_wf : IsWellFormed current_iface
unfolding get list_beq
current_wf = (tt, refl, (tt, refl, (tt, refl, tt)))

diff_of_iface : gen_diff_json_value desired_iface current_iface ≡ some (object (mtu 1500 end))
unfolding gen_diff_json_value get list_beq value_beq number_beq insert
diff_of_iface = refl

gen_diff_lem_example :
    value_beq
      (merge_json_value desired_iface current_iface)
      (applied (gen_diff_json_value desired_iface current_iface) current_iface)
    ≡ true
gen_diff_lem_example = gen_diff_lem desired_iface current_iface desired_wf current_wf

verify-merge_example :
    get_json_value_difference
      (codes "interface")
      desired_iface
      (merge_json_value desired_iface current_iface)
    ≡ none
verify-merge_example =
    verify-merge (codes "interface") desired_iface current_iface desired_wf current_wf

mtu_is_compared :
    get_json_value_difference (codes "interface") desired_iface current_iface
    ≡ some (codes "interface.mtu", number (pos_int 1500), number (pos_int 1400))
unfolding get_json_value_difference raw_difference get list_beq number_beq
mtu_is_compared = refl

-- The desired ports of a bond, and their place in the current state.
abbrev ports_of : Fields → Value
ports_of rest = object (
    field (codes "port") (array (cons (string (codes "eth1")) (cons (string (codes "eth2")) nil)))
      rest)

abbrev second_port : List Step
second_port = Step.by_key (codes "port") ∷ Step.by_index 1 ∷ []

abbrev current_ports : Value
current_ports = ports_of (mtu 1500 end)

ports_match : get_json_value_difference (codes "interface") (ports_of end) current_ports ≡ none
unfolding get_json_value_difference raw_difference get list_beq items_length
ports_match = refl

second_port_at : value_at second_port (ports_of end) ≡ some (string (codes "eth2"))
unfolding get list_beq
second_port_at = refl

ports-IsUnignored : IsUnignored (codes "interface") (ports_of end)
unfolding should_ignore key_reference index_reference
ports-IsUnignored = (refl, ((refl, (refl, (refl, tt))), tt))

no_password : codes "eth2" ≢ password_hid_by_nmstate
unfolding list_beq
no_password = differ (codes "eth2") password_hid_by_nmstate refl

get_json_value_difference_sound_example :
    value_at second_port current_ports ≡ some (string (codes "eth2"))
get_json_value_difference_sound_example =
    get_json_value_difference_sound (codes "interface") (ports_of end) current_ports second_port
      (string (codes "eth2")) ports-IsUnignored ports_match second_port_at no_password
