-- ===== src/Dns/Options.antt =====
-- Which options `DnsClientState::sanitize` accepts.
use nmstate.Base.{
  Bool-cases, Option-cases, All, All-Memᴰ, ◌==◌, ==→≡, contains, contains-Memᴰ, contains→Memᴰ, Text,
  ◌≡◌, refl, ◌↔◌, ◌⊎◌, inl, inr, true, none, some, List, [], ◌∷◌, ◌++◌, Memᴰ, nat_eq, bool_eq,
  list_eq, option_eq, int_eq, pair_eq,
}
use nmstate.Error.{ok, bind-eq-ok}
use nmstate.Dns.{
  supported_dns_opts_no_value, supported_dns_opts_with_value, before_colon, check_option,
  check_options,
}

-- An option that is accepted: one of the names that take a value, a colon and any text, or one of
-- the others.
unfoldable pub IsOption : Text → Type 0
IsOption opt =
    ((name : Text) × (rest : Text) × Memᴰ name supported_dns_opts_with_value
      × (opt ≡ name ++ (b':' ∷ rest)))
    ⊎ Memᴰ opt supported_dns_opts_no_value

before_colon-some :
    (s name : Text) → before_colon s ≡ some name → (rest : Text) × (s ≡ name ++ (b':' ∷ rest))
unfolding before_colon
before_colon-some [] name h = cc
before_colon-some (c ∷ cs) name h = elim (Bool-cases (c == b':')) [
  | inl e ↦
      let empty : [] ≡ name = cc (rw (before_colon, e) at h) in
      let colon = ==→≡ c b':' e in (cs, rw (← empty, colon) refl)
  | inr e ↦ elim (Option-cases (before_colon cs)) [
    | inl f ↦ cc (rw (before_colon, e, f) at h)
    | inr (front, f) ↦
        let name_is : c ∷ front ≡ name = cc (rw (before_colon, e, f) at h) in
        let (rest, same) = before_colon-some cs front f in (rest, rw (← name_is, same) refl)
  ]
]

before_colon-append :
    (name rest : Text) → before_colon name ≡ none → before_colon (name ++ (b':' ∷ rest)) ≡ some name
unfolding before_colon
before_colon-append [] rest h = refl
before_colon-append (c ∷ cs) rest h = elim (Bool-cases (c == b':')) [
  | inl e ↦ cc (rw (before_colon, e) at h)
  | inr e ↦ elim (Option-cases (before_colon cs)) [
    | inl f ↦ rw (before_colon, e, before_colon-append cs rest f) refl
    | inr (front, f) ↦ cc (rw (before_colon, e, f) at h)
  ]
]

with_value_names : All (λ o. before_colon o ≡ none) supported_dns_opts_with_value
unfolding before_colon
with_value_names = (refl, (refl, (refl, tt)))

no_value_names : All (λ o. before_colon o ≡ none) supported_dns_opts_no_value
unfolding before_colon
no_value_names = (
  refl,
  (
    refl,
    (
      refl,
      (
        refl,
        (refl, (refl, (refl, (refl, (refl, (refl, (refl, (refl, (refl, (refl, (refl, tt))))))))))),
      ),
    ),
  ),
)

check_option_iff : (opt : Text) → (check_option opt ≡ ok tt) ↔ IsOption opt
unfolding check_option IsOption
check_option_iff opt = (
  λ h. elim (Option-cases (before_colon opt)) [
    | inr (name, e) ↦ elim (Bool-cases (contains supported_dns_opts_with_value name)) [
      | inl f ↦
          let (rest, same) = before_colon-some opt name e in
          inl (name, rest, contains→Memᴰ supported_dns_opts_with_value name f, same)
      | inr f ↦ cc (rw (check_option, e, f) at h)
    ]
    | inl e ↦ elim (Bool-cases (contains supported_dns_opts_no_value opt)) [
      | inl f ↦ inr (contains→Memᴰ supported_dns_opts_no_value opt f)
      | inr f ↦ cc (rw (check_option, e, f) at h)
    ]
  ],
  λ h. elim h [
    | inl (name, rest, m, same) ↦
        let colon : before_colon opt ≡ some name = rw same (
          before_colon-append name rest
            (All-Memᴰ (λ o. before_colon o ≡ none) with_value_names m)) in
        rw (check_option, colon, contains-Memᴰ m) refl
    | inr m ↦
        let bare : before_colon opt ≡ none =
          All-Memᴰ (λ o. before_colon o ≡ none) no_value_names m in
        let listed : contains supported_dns_opts_no_value opt ≡ true = contains-Memᴰ m in
        rw (check_option, bare, listed) refl
  ],
)

pub check_options_iff : (opts : List Text) → (check_options opts ≡ ok tt) ↔ All IsOption opts
unfolding check_options
check_options_iff [] = (λ h. tt, λ h. refl)
check_options_iff (opt ∷ opts) = (
  λ h.
      let (tt, e, k) = bind-eq-ok (check_option opt) (λ done. check_options opts) h in
      ((check_option_iff opt).0 e, (check_options_iff opts).0 k),
  λ h. rw (check_options, (check_option_iff opt).1 h.0) ((check_options_iff opts).1 h.1),
)
