-- ===== src/Route/Merged/Accepts.antt =====
-- When `MergedRoutes::new` succeeds.
use nmstate.Base.{
  Bool-cases, Option-cases, retain, All, contains, contains→Memᴰ, Text, ◌≡◌, refl, sym, ap, ◌∙◌,
  ◌↔◌, inl, inr, Bool, true, false, not, some, List, [], ◌∷◌, Memᴰ, nat_eq, bool_eq, list_eq,
  option_eq, int_eq,
}
use nmstate.Error.{is_ok, Result, ok, err}
use nmstate.Route.{RouteEntry, Routes, is_absent, is_ipv6, validate}
use nmstate.Route.Merged.{
  KernelIface, MergedRoutes, cannot_carry, check_added, new, desired_routes, names_where,
}
use nmstate.Route.Merged.Safety.{new-parts, CanCarry, IsCarrier, check_added-carries}

-- An interface of this name that passes the test.
abbrev Named : (KernelIface → Bool) → Text → List KernelIface → Type 0
Named p n ifaces = (i : KernelIface) × Memᴰ i ifaces × (p i ≡ true) × (i.name ≡ n)

Named-cons :
    (p : KernelIface → Bool) (i : KernelIface) {n : Text} {is : List KernelIface}
    → p i ≡ true
    → (Memᴰ n (names_where p is) → Named p n is)
    → Memᴰ n (i.name ∷ names_where p is)
    → Named p n (i ∷ is)
Named-cons p i e ih (Memᴰ.head q) = (i, Memᴰ.head refl, e, sym q)
Named-cons p i e ih (Memᴰ.tail q) = let (j, mem, r, t) = ih q in (j, Memᴰ.tail mem, r, t)

Memᴰ-names_where :
    (p : KernelIface → Bool) (ifaces : List KernelIface) {n : Text}
    → Memᴰ n (names_where p ifaces)
    → Named p n ifaces
unfolding retain
Memᴰ-names_where p [] m = elim m [ ]
Memᴰ-names_where p (i ∷ is) {n} m = elim (Bool-cases (p i)) [
  | inl e ↦ Named-cons p i e (λ q. Memᴰ-names_where p is q) (rw e at m)
  | inr e ↦ let (j, mem, q, t) = Memᴰ-names_where p is (rw e at m) in (j, Memᴰ.tail mem, q, t)
]

unlisted :
    (p : KernelIface → Bool) (ifaces : List KernelIface) (n : Text)
    → ((i : KernelIface) → Memᴰ i ifaces → i.name ≡ n → p i ≡ false)
    → contains (names_where p ifaces) n ≡ false
unlisted p ifaces n h = elim (Bool-cases (contains (names_where p ifaces) n)) [
  | inl e ↦
      let (i, mem, q, same) = Memᴰ-names_where p ifaces (contains→Memᴰ _ n e) in
      absurd (cc (h i mem same))
  | inr e ↦ e
]

CanCarry-cannot_carry :
    (ifaces : List KernelIface) (rt : RouteEntry) (via : Text)
    → rt.next_hop_iface ≡ some via
    → CanCarry ifaces rt
    → cannot_carry ifaces rt via ≡ false
unfolding cannot_carry
CanCarry-cannot_carry ifaces rt via e c =
    let at : (i : KernelIface) → Memᴰ i ifaces → i.name ≡ via → IsCarrier i rt =
      λ i m q. c i m (e ∙ ap some (sym q)) in
    let here = unlisted (λ i. i.is_absent) ifaces via (λ i m q. (at i m q).here) in
    elim (Bool-cases (is_ipv6 rt)) [
      | inl v6 ↦
          let enabled =
            unlisted (λ i. not i.is_ipv6_enabled) ifaces via
              (λ i m q. rw ((at i m q).ipv6 v6) refl) in
          rw (here, v6, enabled) refl
      | inr v4 ↦
          let enabled =
            unlisted (λ i. not i.is_ipv4_enabled) ifaces via
              (λ i m q. rw ((at i m q).ipv4 v4) refl) in
          rw (here, v4, enabled) refl
    ]

check_added-total :
    (ifaces : List KernelIface) (rts : List RouteEntry) (changed : List Text)
    → All (λ rt. is_absent rt ≡ false → CanCarry ifaces rt) rts
    → (names : List Text) × (check_added ifaces rts changed ≡ ok names)
unfolding check_added
check_added-total ifaces [] changed h = (changed, refl)
check_added-total ifaces (rt ∷ rts) changed h = elim (Bool-cases (is_absent rt)) [
  | inl e ↦ rw e (check_added-total ifaces rts changed h.1)
  | inr e ↦ elim (Option-cases rt.next_hop_iface) [
    | inl n ↦ rw (e, n) (check_added-total ifaces rts _ h.1)
    | inr (via, n) ↦
        rw (e, n, CanCarry-cannot_carry ifaces rt via n (h.0 e))
          (check_added-total ifaces rts _ h.1)
  ]
]

-- The desired routes are valid, each of them can be sanitized, and each that is not absent has an
-- interface that can carry it.
abbrev pub IsAcceptable : Routes → List KernelIface → Type 0
IsAcceptable desired ifaces =
    (validate desired ≡ ok tt)
    × ((rts : List RouteEntry) × (desired_routes desired ≡ ok rts)
        × All (λ rt. is_absent rt ≡ false → CanCarry ifaces rt) rts)

-- The merge of routes succeeds exactly when the desired routes are valid, each of them can be
-- sanitized, and no sanitized route that is not absent names an interface that is absent or lacks
-- the route's address family; the current routes never make it fail.
pub new-ok_iff :
    (desired current : Routes) (ifaces : List KernelIface)
    → (is_ok (new desired current ifaces) ≡ true) ↔ IsAcceptable desired ifaces
unfolding new
new-ok_iff desired current ifaces = (
  accepted,
  λ h.
      let (valid, (rts, clean, carried)) = h in
      let (names, checked) = check_added-total ifaces rts [] carried in
      rw (valid, clean, checked) refl,
)
  where
    parts :
        (r : Result MergedRoutes)
        → new desired current ifaces ≡ r
        → is_ok r ≡ true
        → IsAcceptable desired ifaces
    parts (ok m) e t =
        let (rts, names, valid, clean, checked, _) = new-parts desired current ifaces e in
        (valid, (rts, clean, check_added-carries ifaces rts [] checked))
    parts (err x) e t = absurd (cc)

    accepted : is_ok (new desired current ifaces) ≡ true → IsAcceptable desired ifaces
    accepted = parts (new desired current ifaces) refl
