-- ===== src/Route/Merged/Refuses.antt =====
-- What `MergedRoutes::new` does with an empty destination.
use nmstate.Base.{
  Bool-cases, any, contains, split, ◌≡◌, refl, inl, inr, false, some, List, [], Memᴰ, arith, nat_eq,
  bool_eq, list_eq, option_eq, int_eq, pair_eq,
}
use nmstate.Error.{ok, err, is_ok, try_all-Memᴰ, new_error, invalid_argument}
use nmstate.Ip.{is_ipv6_addr, parse_ipv4}
use nmstate.Route.{RouteEntry, Routes, validate_entry, validate_route_dst}
use nmstate.Route.Merged.{KernelIface, new, config_of}
use nmstate.Route.Merged.Accepts.{new-ok_iff}
use nmstate.Route.Merged.Complete.{validate_config}

dst_refused :
    (r : RouteEntry)
    → r.destination ≡ some []
    → validate_route_dst r ≡ err (new_error invalid_argument)
unfolding validate_route_dst is_ipv6_addr contains any split parse_ipv4
dst_refused r e = rw e refl

not_valid : (r : RouteEntry) → r.destination ≡ some [] → validate_entry r ≡ ok tt → ⊥
unfolding validate_entry
not_valid r e h = ground (arith, dst_refused r e)

-- Whatever else it desires: a state with a route of the empty destination, be it absent or not, is
-- refused, although the empty destination is a wildcard for `sanitize` and `is_match`.
pub empty_destination_refused :
    (desired current : Routes) (ifaces : List KernelIface) (r : RouteEntry)
    → Memᴰ r (config_of desired)
    → r.destination ≡ some []
    → is_ok (new desired current ifaces) ≡ false
empty_destination_refused desired current ifaces r m e =
    elim (Bool-cases (is_ok (new desired current ifaces))) [
      | inl t ↦
          let valid = ((new-ok_iff desired current ifaces).0 t).0 in
          let entry : validate_entry r ≡ ok tt =
            try_all-Memᴰ validate_entry m (validate_config desired valid) in
          absurd (not_valid r e entry)
      | inr f ↦ f
    ]
