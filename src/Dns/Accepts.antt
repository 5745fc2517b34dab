-- ===== src/Dns/Accepts.antt =====
-- Which resolver configurations `DnsClientState::sanitize` accepts, and which servers it loses.
use nmstate.Base.{
  Bool-cases, Option-cases, unwrap_or, All, Text, split, ℕ, ◌≡◌, refl, ap, ◌≢◌, ◌↔◌, ◌⊎◌, inl, inr,
  true, false, Option, none, some, List, [], ◌∷◌, ◌++◌,
}
use nmstate.Error.{new_error, Result, ok, err, ◌>>=◌, invalid_argument, bind-eq-ok, Result-cases}
use nmstate.Ip.{show_ipv4, show_ipv6, is_ipv6_addr, parse_ipv4, parse_ipv6}
use nmstate.Dns.{
  DnsClientState, with_scope, sanitize_ipv6_server, sanitize_server, sanitize_servers, push_server,
  sanitize,
}
use nmstate.Dns.Options.{IsOption, check_options_iff}

-- A name server that is accepted: an IPv4 address, an IPv6 address, or text with a colon and with
-- exactly one percent sign.
unfoldable pub IsServer : Text → Type 0
IsServer srv =
    (is_ipv6_addr srv ≡ false) × ((ip : ℕ) × (parse_ipv4 srv ≡ some ip))
    ⊎ ((is_ipv6_addr srv ≡ true)
        × (((a : Text) × (b : Text) × (split b'%' srv ≡ a ∷ b ∷ []))
            ⊎ ((ip : ℕ) × (parse_ipv6 srv ≡ some ip))))

-- A server with a colon that has not two pieces.
abbrev parsed_whole : Text → Result (Option Text)
parsed_whole srv = elim (parse_ipv6 srv) [
  | some ip_addr ↦ ok (some (show_ipv6 ip_addr))
  | none ↦ err (new_error invalid_argument)
]

whole_server :
    (srv : Text) (pieces : List Text)
    → ((a b : Text) → pieces ≢ a ∷ b ∷ [])
    → sanitize_ipv6_server srv pieces ≡ parsed_whole srv
    → ((out : Option Text) × (sanitize_ipv6_server srv pieces ≡ ok out)) ↔ (
        ((a : Text) × (b : Text) × (pieces ≡ a ∷ b ∷ [])) ⊎ ((ip : ℕ) × (parse_ipv6 srv ≡ some ip)))
whole_server srv pieces n same = (
  λ (out, h). elim (Option-cases (parse_ipv6 srv)) [
    | inr (ip, e) ↦ inr (ip, e)
    | inl e ↦ cc (same, h, rw (parsed_whole, e) at same)
  ],
  λ h. elim h [
    | inl (a, b, e) ↦ absurd (n a b e)
    | inr (ip, e) ↦ (some (show_ipv6 ip), rw (same, parsed_whole, e) refl)
  ],
)

-- The pieces of a server with a colon.
ipv6_server_iff :
    (srv : Text) (pieces : List Text)
    → ((out : Option Text) × (sanitize_ipv6_server srv pieces ≡ ok out)) ↔ (
        ((a : Text) × (b : Text) × (pieces ≡ a ∷ b ∷ [])) ⊎ ((ip : ℕ) × (parse_ipv6 srv ≡ some ip)))
unfolding sanitize_ipv6_server
ipv6_server_iff srv (a ∷ b ∷ []) = (
  λ h. inl (a, b, refl),
  λ h. elim (Option-cases (parse_ipv6 a)) [
    | inl e ↦ (none, rw (sanitize_ipv6_server, e) refl)
    | inr (ip, e) ↦ (some (with_scope (show_ipv6 ip) b), rw (sanitize_ipv6_server, e) refl)
  ],
)
ipv6_server_iff srv [] = whole_server srv [] (λ a b e. cc) refl
ipv6_server_iff srv (a ∷ []) = whole_server srv (a ∷ []) (λ x b e. cc) refl
ipv6_server_iff srv (a ∷ b ∷ c ∷ more) = whole_server srv (a ∷ b ∷ c ∷ more) (λ x y e. cc) refl

sanitize_server_iff :
    (srv : Text) → ((out : Option Text) × (sanitize_server srv ≡ ok out)) ↔ IsServer srv
unfolding sanitize_server IsServer
sanitize_server_iff srv = elim (Bool-cases (is_ipv6_addr srv)) [
  | inl e ↦ (
    λ (out, h).
        inr (e, (ipv6_server_iff srv (split b'%' srv)).0 (out, rw (sanitize_server, e) at h)),
    λ h. elim h [
      | inl (f, ip) ↦ cc
      | inr (f, g) ↦
          let (out, k) = (ipv6_server_iff srv (split b'%' srv)).1 g in
          (out, rw (sanitize_server, e) k)
    ],
  )
  | inr e ↦ (
    λ (out, h). elim (Option-cases (parse_ipv4 srv)) [
      | inl f ↦ cc (rw (sanitize_server, e, f) at h)
      | inr (ip, f) ↦ inl (e, (ip, f))
    ],
    λ h. elim h [
      | inl (f, (ip, g)) ↦ (some (show_ipv4 ip), rw (sanitize_server, e, g) refl)
      | inr (f, g) ↦ cc
    ],
  )
]

sanitize_servers_iff :
    (srvs : List Text) → ((out : List Text) × (sanitize_servers srvs ≡ ok out)) ↔ All IsServer srvs
unfolding sanitize_servers
sanitize_servers_iff [] = (λ h. tt, λ h. ([], refl))
sanitize_servers_iff (srv ∷ srvs) = (
  λ (out, h).
      let (sanitized, e, k) = bind-eq-ok (sanitize_server srv) _ h in
      let (rest, f, l) = bind-eq-ok (sanitize_servers srvs) _ k in
      ((sanitize_server_iff srv).0 (sanitized, e), (sanitize_servers_iff srvs).0 (rest, f)),
  λ h.
      let (sanitized, e) = (sanitize_server_iff srv).1 h.0 in
      let (rest, f) = (sanitize_servers_iff srvs).1 h.1 in
      (push_server sanitized rest, rw (sanitize_servers, e, f) refl),
)

-- `DnsClientState::sanitize` succeeds exactly when every server is an IPv4 address, an IPv6 address,
-- or text with a colon and exactly one percent sign (whatever stands before that sign), and every
-- option is a supported one: of the three that take a value, the name with a colon and any text, and
-- of the others the name alone.
pub sanitize-ok_dns_iff :
    (c : DnsClientState)
    → ((sanitize c).1 ≡ ok tt)
      ↔ (All IsServer (unwrap_or c.server []) × All IsOption (unwrap_or c.options []))
unfolding sanitize
sanitize-ok_dns_iff c = elim (Option-cases c.server) [
  | inl e ↦ (
    λ h. (rw e tt, (check_options_iff (unwrap_or c.options [])).0 (rw (sanitize, e) at h)),
    λ h. rw (sanitize, e) ((check_options_iff (unwrap_or c.options [])).1 h.1),
  )
  | inr (srvs, e) ↦ (
    λ h. elim (Result-cases (sanitize_servers srvs)) [
      | inl (failure, f) ↦ cc (rw (sanitize, e, f) at h)
      | inr (out, f) ↦ (
        rw e ((sanitize_servers_iff srvs).0 (out, f)),
        (check_options_iff (unwrap_or c.options [])).0 (rw (sanitize, e, f) at h),
      )
    ],
    λ h.
        let (out, f) = (sanitize_servers_iff srvs).1 (rw e at h.0) in
        rw (sanitize, e, f) ((check_options_iff (unwrap_or c.options [])).1 h.1),
  )
]

kept_result : (r : Result (List Text)) → (r >>= (λ rest. ok rest)) ≡ r
kept_result (err e) = refl
kept_result (ok x) = refl

-- A name server with a colon and exactly one percent sign, behind text that is no IPv6 address, is
-- left out by `DnsClientState::sanitize` without an error: the servers around it are sanitized as if
-- it were not there.
pub sanitize_servers_lem :
    (before : List Text) (srv ip scope : Text) (behind : List Text)
    → is_ipv6_addr srv ≡ true
    → split b'%' srv ≡ ip ∷ scope ∷ []
    → parse_ipv6 ip ≡ none
    → sanitize_servers (before ++ (srv ∷ behind)) ≡ sanitize_servers (before ++ behind)
unfolding sanitize_servers sanitize_server sanitize_ipv6_server
sanitize_servers_lem [] srv ip scope behind six pieces bad =
    rw (sanitize_servers, sanitize_server, six, pieces, sanitize_ipv6_server, bad)
      (kept_result (sanitize_servers behind))
sanitize_servers_lem (b ∷ before) srv ip scope behind six pieces bad =
    ap (λ r. sanitize_server b >>= (λ new. r >>= (λ rest. ok (push_server new rest))))
      (sanitize_servers_lem before srv ip scope behind six pieces bad)
