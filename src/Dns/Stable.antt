-- ===== src/Dns/Stable.antt =====
-- A resolver configuration with IPv4 servers that was sanitized is not changed again.
use nmstate.Base.{
  ltb, ltb→lt, Bool-cases, Option-cases, unwrap_or, any, All, ◌==◌, ==_ne, contains, Text, ℕ, ◌+◌,
  ◌/◌, ◌%◌, ◌^◌, ◌≤◌, ◌<◌, ◌≡◌, refl, sym, ap, ◌∙◌, subst, inl, inr, Bool, false, ◌||◌, Option,
  none, some, List, [], ◌∷◌, ◌++◌, arith, nat_eq, bool_eq, list_eq, option_eq, int_eq, pair_eq,
}
use nmstate.Error.{Result, ok, bind-eq-ok, Result-cases}
use nmstate.Ip.{is_ipv6_addr, parse_ipv4, show_ipv4, to_decimal}
use nmstate.Ip.RoundTrip.{
  to_decimal_one, to_decimal_two, to_decimal_three, parse_ipv4-show_ipv4, parse_ipv4-bound,
}
use nmstate.Dns.{DnsClientState, sanitize, sanitize_server, sanitize_servers, check_options}

any-append {ℓ} :
    {A : Type ℓ} (p : A → Bool) (xs ys : List A) → any p (xs ++ ys) ≡ (any p xs || any p ys)
unfolding any
any-append p [] ys = refl
any-append p (x ∷ xs) ys = elim (Bool-cases (p x)) [
  | inl e ↦ rw e refl
  | inr e ↦ rw e (any-append p xs ys)
]

abbrev is_colon : ℕ → Bool
is_colon c = c == b':'

digit_no_colon : (d : ℕ) → d < 10 → is_colon (48 + d) ≡ false
digit_no_colon d lt = ==_ne (48 + d) 58 (omega arith)

octet_no_colon : (n : ℕ) → n < 256 → any is_colon (to_decimal n) ≡ false
unfolding any
octet_no_colon n lt = elim (Bool-cases (ltb n 10)) [
  | inl e ↦
      let small = ltb→lt n 10 e in rw (to_decimal_one n small, any, digit_no_colon n small) refl
  | inr e ↦ elim (Bool-cases (ltb n 100)) [
    | inl f ↦
        let ge : 10 ≤ n = ground arith in
        rw
          (
            to_decimal_two n ge (ltb→lt n 100 f),
            any,
            digit_no_colon (n / 10) (omega (arith, ltb→lt n 100 f)),
            digit_no_colon (n % 10) (omega arith),
          )
          refl
    | inr f ↦
        let ge : 100 ≤ n = ground arith in
        rw
          (
            to_decimal_three n ge lt,
            any,
            digit_no_colon (n / 10 / 10) (omega arith),
            digit_no_colon (n / 10 % 10) (omega arith),
            digit_no_colon (n % 10) (omega arith),
          )
          refl
  ]
]

dotted_no_colon :
    (o : ℕ) (rest : Text)
    → o < 256
    → any is_colon rest ≡ false
    → any is_colon (to_decimal o ++ (b'.' ∷ rest)) ≡ false
unfolding any
dotted_no_colon o rest lt h =
    any-append is_colon (to_decimal o) (b'.' ∷ rest) ∙ rw (octet_no_colon o lt, h) refl

show_ipv4_no_colon : (a : ℕ) → is_ipv6_addr (show_ipv4 a) ≡ false
unfolding is_ipv6_addr contains show_ipv4
show_ipv4_no_colon a = dotted_no_colon (a / 2 ^ 24 % 256) _ (omega arith) (
    dotted_no_colon (a / 2 ^ 16 % 256) _ (omega arith)
      (dotted_no_colon (a / 2 ^ 8 % 256) _ (omega arith) (octet_no_colon (a % 256) (omega arith))))

-- The text is that of the IPv4 address that the server is read as.
abbrev IsPrinted : Text → Text → Type 0
IsPrinted srv out = (ip : ℕ) × (parse_ipv4 srv ≡ some ip) × (out ≡ show_ipv4 ip)

unfoldable pub ArePrinted : List Text → List Text → Type 0
ArePrinted [] [] = Unit
ArePrinted (srv ∷ srvs) (out ∷ outs) = IsPrinted srv out × ArePrinted srvs outs
ArePrinted _ _ = ⊥

sanitize_server_twice :
    (srv : Text) (out : Option Text)
    → is_ipv6_addr srv ≡ false
    → sanitize_server srv ≡ ok out
    → (again : Text) × (out ≡ some again)
      × IsPrinted srv again
      × (sanitize_server again ≡ ok (some again))
unfolding sanitize_server
sanitize_server_twice srv out four h = elim (Option-cases (parse_ipv4 srv)) [
  | inl e ↦ cc (rw (sanitize_server, four, e) at h)
  | inr (a, e) ↦
      let done : some (show_ipv4 a) ≡ out = cc (rw (sanitize_server, four, e) at h) in
      let back = parse_ipv4-show_ipv4 a (parse_ipv4-bound srv a e) in
      (show_ipv4 a, sym done, (a, e, refl), rw (sanitize_server, show_ipv4_no_colon a, back) refl)
]

abbrev pub IsIpv4Text : Text → Type 0
IsIpv4Text srv = is_ipv6_addr srv ≡ false

sanitize_servers_twice :
    (srvs outs : List Text)
    → All IsIpv4Text srvs
    → sanitize_servers srvs ≡ ok outs
    → ArePrinted srvs outs × (sanitize_servers outs ≡ ok outs)
unfolding sanitize_servers ArePrinted
sanitize_servers_twice [] outs four h = let same : [] ≡ outs = cc in rw (← same) (tt, refl)
sanitize_servers_twice (srv ∷ srvs) outs four h =
    let (sanitized, e, k) = bind-eq-ok (sanitize_server srv) _ h in
    let (rest, f, l) = bind-eq-ok (sanitize_servers srvs) _ k in
    let (again, only, printed, back) = sanitize_server_twice srv sanitized four.0 e in
    let (others, stable) = sanitize_servers_twice srvs rest four.1 f in
    let same : again ∷ rest ≡ outs = cc (rw only at l) in
    rw (← same) ((printed, others), rw (sanitize_servers, back, stable) refl)

-- When `DnsClientState::sanitize` accepts a configuration all of whose servers have no colon: the
-- servers that it leaves are the IPv4 addresses of the given ones, one for one and in their order,
-- each in the standard text form, and a second run changes nothing and succeeds too.
pub sanitize_twice :
    (c : DnsClientState)
    → All IsIpv4Text (unwrap_or c.server [])
    → (sanitize c).1 ≡ ok tt
    → ArePrinted (unwrap_or c.server []) (unwrap_or (sanitize c).0.server [])
      × (sanitize (sanitize c).0 ≡ ((sanitize c).0, ok tt))
unfolding sanitize ArePrinted
sanitize_twice c four h = elim (Option-cases c.server) [
  | inl e ↦
      let shape : c ≡ record c { server = none } = ap (λ s. record c { server = s }) e in
      let once : sanitize c ≡ (c, check_options (unwrap_or c.options [])) =
        subst (λ x. sanitize x ≡ (x, check_options (unwrap_or x.options []))) (sym shape) refl in
      let accepted : sanitize c ≡ (c, ok tt) = cc in
      subst
        (λ (r : DnsClientState × Result (Unit {0})).
          ArePrinted (unwrap_or c.server []) (unwrap_or r.0.server [])
          × (sanitize r.0 ≡ (r.0, ok tt)))
        (sym accepted) (rw e tt, accepted)
  | inr (srvs, e) ↦ elim (Result-cases (sanitize_servers srvs)) [
    | inl (failure, f) ↦ cc (rw (sanitize, e, f) at h)
    | inr (outs, f) ↦
        let options : check_options (unwrap_or c.options []) ≡ ok tt = rw (sanitize, e, f) at h in
        let (printed, stable) = sanitize_servers_twice srvs outs (rw e at four) f in
        let once : sanitize c ≡ (record c { server = some outs }, ok tt) =
          rw (sanitize, e, f, options) refl in
        rw (once, e) (printed, rw (sanitize, stable, options) refl)
  ]
]
