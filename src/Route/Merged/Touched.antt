-- ===== src/Route/Merged/Touched.antt =====
-- `route_changed_ifaces` of `MergedRoutes::new`.
use nmstate.Base.{
  if◌then◌else◌, Bool-cases, Option-cases, Memᴰ-cons, Memᴰ-append_left, Memᴰ-append_right,
  Memᴰ-append, contains, contains→Memᴰ, Text, ◌≡◌, refl, sym, ap, ◌∙◌, subst, ◌↔◌, ◌⊎◌, inl, inr,
  true, false, none, some, List, [], ◌∷◌, Memᴰ, arith, nat_eq, bool_eq, list_eq, option_eq, int_eq,
  pair_eq,
}
use nmstate.Error.{Result, ok, err, bind-eq-ok}
use nmstate.Route.{RouteEntry, Routes, is_absent, is_match, validate}
use nmstate.Route.Merged.{
  KernelIface, MergedRoutes, add_name, check_added, note_matched, note_deleted, slot, new,
  desired_routes, config_of,
}
use nmstate.Route.Merged.Placed.{key_iface}

-- A desired route that is not absent stands for the interface, or an absent one matches a current
-- route of the interface.
pub data IsTouched (rts cur : List RouteEntry) (n : Text) : Type 0 where
  added :
      (rt : RouteEntry)
      → Memᴰ rt rts
      → is_absent rt ≡ false
      → slot rt ≡ some n
      → IsTouched rts cur n
  deleted :
      (pattern rt : RouteEntry)
      → Memᴰ pattern rts
      → is_absent pattern ≡ true
      → Memᴰ rt cur
      → is_match pattern rt ≡ true
      → key_iface rt ≡ n
      → IsTouched rts cur n

Memᴰ-add_name :
    (x n : Text) (names : List Text) → Memᴰ n (add_name x names) ↔ ((x ≡ n) ⊎ Memᴰ n names)
unfolding add_name
Memᴰ-add_name x n names = elim (Bool-cases (contains names x)) [
  | inl e ↦
      rw e (λ m. inr m, λ h. elim h [ inl q ↦ rw (← q) (contains→Memᴰ names x e) | inr m ↦ m ])
  | inr e ↦ rw e (
    λ m. elim (Memᴰ-append names m) [
      | inl a ↦ inr a
      | inr b ↦ elim (Memᴰ-cons b) [ inl q ↦ inl (sym q) | inr z ↦ elim z [ ] ]
    ],
    λ h. elim h [
      | inl q ↦ Memᴰ-append_right names (Memᴰ.head (sym q))
      | inr m ↦ Memᴰ-append_left (x ∷ []) m
    ],
  )
]

-- A route of the list that the pattern matches, with the interface `n`.
abbrev Hits : RouteEntry → List RouteEntry → Text → Type 0
Hits pattern cur n =
    (rt : RouteEntry) × Memᴰ rt cur × (is_match pattern rt ≡ true) × (key_iface rt ≡ n)

note_matched-Hits :
    (pattern : RouteEntry) (cur : List RouteEntry) (names : List Text) (n : Text)
    → Memᴰ n (note_matched pattern cur names) ↔ (Hits pattern cur n ⊎ Memᴰ n names)
unfolding note_matched
note_matched-Hits pattern [] names n =
    (λ m. inr m, λ h. elim h [ inl (rt, m, q, e) ↦ elim m [ ] | inr m ↦ m ])
note_matched-Hits pattern (rt ∷ cur) names n = elim (Bool-cases (is_match pattern rt)) [
  | inl e ↦
      let ih = note_matched-Hits pattern cur (add_name (key_iface rt) names) n in
      let step = Memᴰ-add_name (key_iface rt) n names in
      rw e (
        λ m. elim (ih.0 m) [
          | inl (r, k, q, s) ↦ inl (r, Memᴰ.tail k, q, s)
          | inr k ↦ elim (step.0 k) [ inl s ↦ inl (rt, Memᴰ.head refl, e, s) | inr k ↦ inr k ]
        ],
        λ h. ih.1 (elim h [
          | inl (r, k, q, s) ↦ elim (Memᴰ-cons k) [
            | inl t ↦ inr (step.1 (inl (ap key_iface (sym t) ∙ s)))
            | inr k ↦ inl (r, k, q, s)
          ]
          | inr k ↦ inr (step.1 (inr k))
        ]),
      )
  | inr e ↦
      let ih = note_matched-Hits pattern cur names n in
      rw e (
        λ m. elim (ih.0 m) [ inl (r, k, q, s) ↦ inl (r, Memᴰ.tail k, q, s) | inr k ↦ inr k ],
        λ h. ih.1 (elim h [
          | inl (r, k, q, s) ↦ elim (Memᴰ-cons k) [
            | inl t ↦ absurd (cc (ap (is_match pattern) t))
            | inr k ↦ inl (r, k, q, s)
          ]
          | inr k ↦ inr k
        ]),
      )
]

-- An absent route of the list hits the interface `n`.
abbrev Deletes : List RouteEntry → List RouteEntry → Text → Type 0
Deletes rts cur n =
    (pattern : RouteEntry) × Memᴰ pattern rts × (is_absent pattern ≡ true) × Hits pattern cur n

note_deleted-Deletes :
    (rts cur : List RouteEntry) (names : List Text) (n : Text)
    → Memᴰ n (note_deleted rts cur names) ↔ (Deletes rts cur n ⊎ Memᴰ n names)
unfolding note_deleted
note_deleted-Deletes [] cur names n =
    (λ m. inr m, λ h. elim h [ inl (a, m, q, e) ↦ elim m [ ] | inr m ↦ m ])
note_deleted-Deletes (a ∷ rts) cur names n = elim (Bool-cases (is_absent a)) [
  | inl e ↦
      let ih = note_deleted-Deletes rts cur (note_matched a cur names) n in
      let step = note_matched-Hits a cur names n in
      rw e (
        λ m. elim (ih.0 m) [
          | inl (r, k, q, s) ↦ inl (r, Memᴰ.tail k, q, s)
          | inr k ↦ elim (step.0 k) [ inl s ↦ inl (a, Memᴰ.head refl, e, s) | inr k ↦ inr k ]
        ],
        λ h. ih.1 (elim h [
          | inl (r, k, q, s) ↦ elim (Memᴰ-cons k) [
            | inl t ↦ inr (step.1 (inl (subst (λ x. Hits x cur n) t s)))
            | inr k ↦ inl (r, k, q, s)
          ]
          | inr k ↦ inr (step.1 (inr k))
        ]),
      )
  | inr e ↦
      let ih = note_deleted-Deletes rts cur names n in
      rw e (
        λ m. elim (ih.0 m) [ inl (r, k, q, s) ↦ inl (r, Memᴰ.tail k, q, s) | inr k ↦ inr k ],
        λ h. ih.1 (elim h [
          | inl (r, k, q, s) ↦ elim (Memᴰ-cons k) [
            | inl t ↦ absurd (cc (ap is_absent t))
            | inr k ↦ inl (r, k, q, s)
          ]
          | inr k ↦ inr k
        ]),
      )
]

-- A route of the list that is not absent stands for the interface `n`.
abbrev Adds : List RouteEntry → Text → Type 0
Adds rts n = (rt : RouteEntry) × Memᴰ rt rts × (is_absent rt ≡ false) × (slot rt ≡ some n)

-- What a success of the loop does for the first route.
abbrev note_slot : RouteEntry → List Text → List Text
note_slot rt names =
    if is_absent rt then names else elim (slot rt) [ none ↦ names | some n ↦ add_name n names ]

check_added-cons :
    (ifaces : List KernelIface) (rt : RouteEntry) (rts : List RouteEntry) (names out : List Text)
    → check_added ifaces (rt ∷ rts) names ≡ ok out
    → check_added ifaces rts (note_slot rt names) ≡ ok out
unfolding check_added slot
check_added-cons ifaces rt rts names out h = ground arith

note_slot-Memᴰ :
    (rt : RouteEntry) (names : List Text) (n : Text)
    → Memᴰ n (note_slot rt names) ↔ (((is_absent rt ≡ false) × (slot rt ≡ some n)) ⊎ Memᴰ n names)
note_slot-Memᴰ rt names n = elim (Bool-cases (is_absent rt)) [
  | inl e ↦ rw e (λ m. inr m, λ h. elim h [ inl (q, s) ↦ cc | inr m ↦ m ])
  | inr e ↦ elim (Option-cases (slot rt)) [
    | inl q ↦ rw (e, q) (λ m. inr m, λ h. elim h [ inl (u, s) ↦ cc | inr m ↦ m ])
    | inr (via, q) ↦
        let step = Memᴰ-add_name via n names in
        rw (e, q)
          (
            λ m. elim (step.0 m) [ inl s ↦ inl (refl, ap some s) | inr k ↦ inr k ],
            λ h. step.1 (elim h [ inl (u, s) ↦ inl (cc) | inr m ↦ inr m ]),
          )
  ]
]

check_added-Adds :
    (ifaces : List KernelIface) (rts : List RouteEntry) (names out : List Text) (n : Text)
    → check_added ifaces rts names ≡ ok out
    → Memᴰ n out ↔ (Adds rts n ⊎ Memᴰ n names)
check_added-Adds ifaces [] names out n h =
    let same : names ≡ out = unfold check_added in cc in
    rw (← same) (λ m. inr m, λ h. elim h [ inl (a, m, q, e) ↦ elim m [ ] | inr m ↦ m ])
check_added-Adds ifaces (rt ∷ rts) names out n h =
    let ih =
      check_added-Adds ifaces rts (note_slot rt names) out n
        (check_added-cons ifaces rt rts names out h) in
    let step = note_slot-Memᴰ rt names n in
    (
      λ m. elim (ih.0 m) [
        | inl (r, k, q, s) ↦ inl (r, Memᴰ.tail k, q, s)
        | inr k ↦ elim (step.0 k) [ inl (q, s) ↦ inl (rt, Memᴰ.head refl, q, s) | inr k ↦ inr k ]
      ],
      λ h. ih.1 (elim h [
        | inl (r, k, q, s) ↦ elim (Memᴰ-cons k) [
          | inl t ↦ inr (step.1 (inl (ap is_absent (sym t) ∙ q, ap slot (sym t) ∙ s)))
          | inr k ↦ inl (r, k, q, s)
        ]
        | inr k ↦ inr (step.1 (inr k))
      ]),
    )

abbrev touched : Result MergedRoutes → List Text
touched (ok m) = m.route_changed_ifaces
touched (err e) = []

-- After a successful merge with the sanitized desired routes `rts`, an interface is listed as one
-- whose routes changed exactly when a desired route that is not absent stands there, or an absent
-- one matches a current route of it; an interface that only goes away itself is not listed.
pub route_changed_ifaces_iff :
    (desired current : Routes) (ifaces : List KernelIface) (m : MergedRoutes)
    (rts : List RouteEntry) (n : Text)
    → new desired current ifaces ≡ ok m
    → desired_routes desired ≡ ok rts
    → Memᴰ n m.route_changed_ifaces ↔ IsTouched rts (config_of current) n
unfolding new
route_changed_ifaces_iff desired current ifaces m rts n h clean =
    let (u, valid, h1) = bind-eq-ok (validate desired) _ h in
    let (found, clean2, h2) = bind-eq-ok (desired_routes desired) _ h1 in
    let (names, checked, h3) = bind-eq-ok (check_added ifaces found []) _ h2 in
    let same : found ≡ rts = cc in
    let all : note_deleted rts (config_of current) names ≡ m.route_changed_ifaces =
      rw same at (ap touched h3) in
    let added = check_added-Adds ifaces rts [] names n (rw same at checked) in
    let deleted = note_deleted-Deletes rts (config_of current) names n in
    (
      λ k. elim (deleted.0 (subst (Memᴰ n) (sym all) k)) [
        | inl (a, x, q, (r, y, s, e)) ↦ IsTouched.deleted a r x q y s e
        | inr k ↦ elim (added.0 k) [
          | inl (rt, x, q, s) ↦ IsTouched.added rt x q s
          | inr z ↦ elim z [ ]
        ]
      ],
      λ t. subst (Memᴰ n) all (
          deleted.1 (elim t [
            | IsTouched.added rt x q s ↦ inr (added.1 (inl (rt, x, q, s)))
            | IsTouched.deleted a r x q y s e ↦ inl (a, x, q, (r, y, s, e))
          ])),
    )
