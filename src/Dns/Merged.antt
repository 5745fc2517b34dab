-- ===== src/Dns/Merged.antt =====
-- `MergedDnsState::new` applied twice.
use nmstate.Base.{
  Bool-cases, Option-cases, unwrap_or, Text, ◌≡◌, refl, ap, ◌∙◌, inl, inr, Option, none, some, List,
  [],
}
use nmstate.Error.{ok, bind-eq-ok, Result-cases}
use nmstate.Dns.{
  DnsClientState, DnsState, sanitize_servers, sanitize, sanitize_state, MergedDnsState, field_of,
  has_none, merge_field, new,
}

-- The state whose configuration is the result of a merge.
abbrev pub applied : Option DnsClientState → MergedDnsState → DnsState
applied running m = record {
  running = running;
  config = some (record {
    server = some m.servers;
    search = some m.searches;
    options = some m.options;
    priority = none;
  });
}

-- Sanitizing changes the servers only.
sanitize-others :
    (c : DnsClientState) → ((sanitize c).0.search ≡ c.search) × ((sanitize c).0.options ≡ c.options)
unfolding sanitize
sanitize-others c = elim (Option-cases c.server) [
  | inl e ↦ rw (sanitize, e) (refl, refl)
  | inr (srvs, e) ↦ elim (Result-cases (sanitize_servers srvs)) [
    | inl (failure, f) ↦ rw (sanitize, e, f) (refl, refl)
    | inr (out, f) ↦ rw (sanitize, e, f) (refl, refl)
  ]
]

-- Merging a field twice is merging it once.
merge_field_twice :
    (get : DnsClientState → Option (List Text)) (conf : Option DnsClientState) (old : List Text)
    → merge_field get conf (merge_field get conf old) ≡ merge_field get conf old
merge_field_twice get none old = refl
merge_field_twice get (some c) old = elim (Bool-cases (has_none c)) [
  | inl e ↦ rw e refl
  | inr e ↦ elim (Option-cases (get c)) [ inl f ↦ rw (e, f) refl | inr (x, f) ↦ rw (e, f) refl ]
]

record IsMergeOf (d given : DnsState) (m : MergedDnsState) : Type 0 where
  searches :
      m.searches
      ≡ merge_field
          (λ c. c.search)
          (sanitize_state d).0.config
          (field_of (λ c. c.search) (sanitize_state given).0)
  options :
      m.options
      ≡ merge_field
          (λ c. c.options)
          (sanitize_state d).0.config
          (field_of (λ c. c.options) (sanitize_state given).0)

new-IsMergeOf :
    (d given : DnsState) (m : MergedDnsState) → new (some d) given ≡ ok m → IsMergeOf d given m
unfolding new
new-IsMergeOf d given m h =
    let (tt, e, k) = bind-eq-ok (sanitize_state d).1 _ h in record { searches = cc; options = cc }

applied-fields :
    (running : Option DnsClientState) (m : MergedDnsState)
    → (field_of (λ c. c.search) (sanitize_state (applied running m)).0 ≡ m.searches)
      × (field_of (λ c. c.options) (sanitize_state (applied running m)).0 ≡ m.options)
unfolding sanitize_state
applied-fields running m =
    let c : DnsClientState = record {
      server = some m.servers;
      search = some m.searches;
      options = some m.options;
      priority = none;
    } in
    let (a, b) = sanitize-others c in
    (
      ap (λ (o : Option (List Text)). unwrap_or o []) a,
      ap (λ (o : Option (List Text)). unwrap_or o []) b,
    )

-- A desired state that is merged again, onto a state whose configuration is the result of its first
-- merge, gives the same search list and the same options.
pub new_twice :
    (d given : DnsState) (m again : MergedDnsState) (running : Option DnsClientState)
    → new (some d) given ≡ ok m
    → new (some d) (applied running m) ≡ ok again
    → (again.searches ≡ m.searches) × (again.options ≡ m.options)
new_twice d given m again running h k =
    let first = new-IsMergeOf d given m h in
    let second = new-IsMergeOf d (applied running m) again k in
    let (a, b) = applied-fields running m in
    (
      second.searches
          ∙ rw (a, first.searches)
              (merge_field_twice (λ c. c.search) (sanitize_state d).0.config
                (field_of (λ c. c.search) (sanitize_state given).0)),
      second.options
          ∙ rw (b, first.options)
              (merge_field_twice (λ c. c.options) (sanitize_state d).0.config
                (field_of (λ c. c.options) (sanitize_state given).0)),
    )
