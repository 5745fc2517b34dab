-- ===== src/Controller/Overbook.antt =====
-- What the checks of controllers and ports accept: ports without two controllers, and desired
-- controllers that list their ports.
use nmstate.Base.{
  Bool-cases, unwrap_or, retain, All, Memᴰ-All, Memᴰ-cons, contains, contains-Memᴰ, contains→Memᴰ,
  Text, IsDistinct, ◌≡◌, refl, sym, ap, ◌∙◌, ◌↔◌, inl, inr, List, [], ◌∷◌, ◌++◌, map, Memᴰ,
  map-append, nat_eq, bool_eq, list_eq, option_eq, int_eq, pair_eq,
}
use nmstate.Error.{ok, bind-eq-ok}
use nmstate.Controller.{
  ports, MergedInterface, MergedInterfaces, iter, PortMap, is_port_overbook, is_booking, book_ports,
  book_ifaces, check_overbook_ports, listed_ports, all_listed_ports,
}

abbrev pub port_names : PortMap → List Text
port_names entries = map (λ e. e.0) entries

-- The ports that the desired controllers that are up list, controller by controller.
unfoldable pub booked_ports : MergedInterfaces → List Text
booked_ports ms = port_names (all_listed_ports (retain is_booking (iter ms)))

-- The names of the list are distinct, and none of them is in the map.
abbrev AreNew : PortMap → List Text → Type 0
AreNew booked names = IsDistinct names × All (λ name. Memᴰ name (port_names booked) → ⊥) names

All-weaken {ℓ κ} :
    {A : Type ℓ} {P Q : A → Type κ} (xs : List A) → ((x : A) → P x → Q x) → All P xs → All Q xs
All-weaken [] f h = tt
All-weaken (x ∷ xs) f h = (f x h.0, All-weaken xs f h.1)

All-zip {ℓ κ} :
    {A : Type ℓ} (P Q : A → Type κ) (xs : List A) → All P xs → All Q xs → All (λ x. P x × Q x) xs
All-zip P Q [] h k = tt
All-zip P Q (x ∷ xs) h k = ((h.0, k.0), All-zip P Q xs h.1 k.1)

AreNew-cons :
    (booked : PortMap) (port ctrl : Text) (names : List Text)
    → (AreNew booked (port ∷ names))
      ↔ ((Memᴰ port (port_names booked) → ⊥) × AreNew ((port, ctrl) ∷ booked) names)
unfolding IsDistinct
AreNew-cons booked port ctrl names = (
  λ ((d, ds), (n, ns)). (
    n,
    (
      ds,
      All-weaken names (λ x h m. elim (Memᴰ-cons m) [ inl e ↦ h.0 (sym e) | inr k ↦ h.1 k ])
          (All-zip _ _ names d ns),
    ),
  ),
  λ (n, (ds, ns)). (
    (All-weaken names (λ x h e. h (Memᴰ.head (sym e))) ns, ds),
    (n, All-weaken names (λ x h m. h (Memᴰ.tail m)) ns),
  ),
)

is_port_overbook_iff :
    (booked : PortMap) (port ctrl : Text) (out : PortMap)
    → (is_port_overbook booked port ctrl ≡ ok out)
      ↔ ((Memᴰ port (port_names booked) → ⊥) × (out ≡ (port, ctrl) ∷ booked))
unfolding is_port_overbook
is_port_overbook_iff booked port ctrl out = elim (Bool-cases (contains (port_names booked) port)) [
  | inl e ↦ (
    λ h. cc (rw (is_port_overbook, e) at h),
    λ h. absurd (h.0 (contains→Memᴰ (port_names booked) port e)),
  )
  | inr e ↦ (
    λ h. ((λ m. cc (contains-Memᴰ m, e)), cc (rw (is_port_overbook, e) at h)),
    λ h. rw (is_port_overbook, e, h.1) refl,
  )
]

-- The map after the ports of one controller, in either direction.
book_ports_iff :
    (booked : PortMap) (ctrl : Text) (ps : List Text) (more : List Text)
    → ((out : PortMap) × (book_ports booked ctrl ps ≡ ok out) × AreNew out more)
      ↔ AreNew booked (ps ++ more)
unfolding book_ports
book_ports_iff booked ctrl [] more =
    (λ (out, e, h). let same : booked ≡ out = cc in rw same h, λ h. (booked, refl, h))
book_ports_iff booked ctrl (port ∷ ps) more = (
  λ (out, e, h).
      let (next, f, g) = bind-eq-ok (is_port_overbook booked port ctrl) _ e in
      let (new, same) = (is_port_overbook_iff booked port ctrl next).0 f in
      let rest = (book_ports_iff ((port, ctrl) ∷ booked) ctrl ps more).0 (out, rw same at g, h) in
      (AreNew-cons booked port ctrl (ps ++ more)).1 (new, rest),
  λ h.
      let (new, rest) = (AreNew-cons booked port ctrl (ps ++ more)).0 h in
      let (out, e, k) = (book_ports_iff ((port, ctrl) ∷ booked) ctrl ps more).1 rest in
      let f = (is_port_overbook_iff booked port ctrl ((port, ctrl) ∷ booked)).1 (new, refl) in
      (out, rw (book_ports, f) e, k),
)

port_names-listed :
    (i : MergedInterface) → port_names (listed_ports i) ≡ unwrap_or (ports i.merged) []
unfolding listed_ports
port_names-listed i = go (unwrap_or (ports i.merged) [])
  where
    go : (ps : List Text) → port_names (map (λ port. (port, i.merged.name)) ps) ≡ ps
    go [] = refl
    go (p ∷ ps) = ap (λ r. p ∷ r) (go ps)

book_ifaces_iff :
    (booked : PortMap) (ifaces : List MergedInterface)
    → (book_ifaces booked ifaces ≡ ok tt) ↔ AreNew booked (port_names (all_listed_ports ifaces))
unfolding book_ifaces all_listed_ports IsDistinct
book_ifaces_iff booked [] = (λ h. (tt, tt), λ h. refl)
book_ifaces_iff booked (i ∷ ifaces) =
    let ps = unwrap_or (ports i.merged) [] in
    let more = port_names (all_listed_ports ifaces) in
    let names : port_names (listed_ports i ++ all_listed_ports ifaces) ≡ ps ++ more =
      map-append (λ (e : Text × Text). e.0) (listed_ports i) (all_listed_ports ifaces)
      ∙ ap (λ r. r ++ more) (port_names-listed i) in
    (
      λ h.
          let (out, e, k) = bind-eq-ok (book_ports booked i.merged.name ps) _ h in
          rw names (
            (book_ports_iff booked i.merged.name ps more).0
              (out, e, (book_ifaces_iff out ifaces).0 k)),
      λ h.
          let (out, e, k) = (book_ports_iff booked i.merged.name ps more).1 (rw names at h) in
          rw (book_ifaces, e) ((book_ifaces_iff out ifaces).1 k),
    )

-- `check_overbook_ports` succeeds exactly when no port stands twice in the port lists of the desired
-- controllers that are up, be it in two lists or in one.
pub check_overbook_ports_iff :
    (ms : MergedInterfaces) → (check_overbook_ports ms ≡ ok tt) ↔ IsDistinct (booked_ports ms)
unfolding check_overbook_ports booked_ports
check_overbook_ports_iff ms =
    let rule = book_ifaces_iff [] (retain is_booking (iter ms)) in
    (λ h. (rule.0 h).0, λ h. rule.1 (h, Memᴰ-All _ (booked_ports ms) (λ x m n. elim n [ ])))
