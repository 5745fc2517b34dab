-- ===== src/Policy/Json/Update.antt =====
-- `update_json_value` against `get_value_from_json`, and the values at other paths.
use nmstate.Base.{
  Option-cases, length, ==_refl, ==_ne, Text, ℕ, ◌+◌, ◌≡◌, refl, sym, ap, ◌∙◌, subst, ◌≢◌, ◌⊎◌, inl,
  inr, Option, none, some, List, [], ◌∷◌, nat_eq, bool_eq, list_eq, option_eq, int_eq, pair_eq,
  nat_ord, bool_ord, pair_ord, list_ord,
}
use nmstate.Error.{ok, ◌>>=◌, bind-eq-ok}
use nmstate.Json.{Value, Fields, object, end, get, insert}
use nmstate.Json.Maps.{get-insert}
use nmstate.Json.Paths.{Step, value_at, value_below}
use nmstate.Policy.Json.{get_value_from_json, update_json_value, parse_index, new_value, as_object}

-- No key behind the first one is read as an index.
abbrev pub IsNamePath : List Text → Type 0
IsNamePath [] = Unit
IsNamePath (key ∷ []) = Unit
IsNamePath (key ∷ next ∷ path) = (parse_index next ≡ none) × IsNamePath (next ∷ path)

pub get-insert_same : (k : Text) (v : Value) (m : Fields) → get k (insert k v m) ≡ some v
get-insert_same k v m = get-insert k k v m ∙ rw (==_refl k) refl

-- The two paths have a different key at some place, and the same keys before it.
abbrev pub Diverges : List Text → List Step → Type 0
Diverges (key ∷ path) (Step.by_key k ∷ other) = (key ≢ k) ⊎ ((key ≡ k) × Diverges path other)
Diverges _ _ = ⊥

get-insert_other : (k j : Text) (v : Value) (m : Fields) → k ≢ j → get j (insert k v m) ≡ get j m
get-insert_other k j v m n = get-insert k j v m ∙ rw (==_ne k j n) refl

-- A success below the key.
update_below :
    (key : Text) (path : List Text) (value : Option Text) (old obj : Fields) {out : Fields}
    → (update_json_value path value old >>= λ leaf. ok (insert key (object leaf) obj)) ≡ ok out
    → (leaf : Fields) × (update_json_value path value old ≡ ok leaf)
      × (out ≡ insert key (object leaf) obj)
update_below key path value old obj h =
    let (leaf, e, q) = bind-eq-ok (update_json_value path value old) _ h in (leaf, e, cc)

as_object-eq : (v : Value) (m : Fields) → as_object v ≡ some m → v ≡ object m
as_object-eq (object n) m e = ap object (some-inj e)
  where
    some-inj : {x y : Fields} → some x ≡ some y → x ≡ y
    some-inj e = cc
as_object-eq _ m e = absurd (cc)

-- The object below the key: that of the key's value, or the empty one for a missing key.
abbrev Below : Text → Fields → Fields → Type 0
Below key obj old = ((get key obj ≡ none) × (old ≡ end)) ⊎ (get key obj ≡ some (object old))

-- A success for a longer path.
update_step :
    (key next : Text) (path : List Text) (value : Option Text) (obj : Fields) {out : Fields}
    → update_json_value (key ∷ next ∷ path) value obj ≡ ok out
    → (old leaf : Fields) × Below key obj old
      × (update_json_value (next ∷ path) value old ≡ ok leaf)
      × (out ≡ insert key (object leaf) obj)
unfolding update_json_value
update_step key next path value obj h = elim (Option-cases (get key obj)) [
  | inl e ↦
      let (leaf, q, r) =
        update_below key (next ∷ path) value end obj (rw (update_json_value, e) at h) in
      (end, leaf, inl (e, refl), q, r)
  | inr (v, e) ↦ elim (Option-cases (as_object v)) [
    | inl f ↦ cc (rw (update_json_value, e, f) at h)
    | inr (old, f) ↦
        let (leaf, q, r) =
          update_below key (next ∷ path) value old obj (rw (update_json_value, e, f) at h) in
        (old, leaf, inr (e ∙ ap some (as_object-eq v old f)), q, r)
  ]
]

get_value-update :
    (path : List Text) (value : Option Text) (obj out : Fields) (line : Text) (pos : ℕ)
    → IsNamePath path
    → update_json_value path value obj ≡ ok out
    → get_value_from_json path out line pos ≡ ok (new_value value)
unfolding update_json_value get_value_from_json
get_value-update [] value obj out line pos n h = cc
get_value-update (key ∷ []) value obj out line pos n h =
    let same : insert key (new_value value) obj ≡ out = cc in
    rw (← same, get-insert_same key (new_value value) obj) refl
get_value-update (key ∷ next ∷ path) value obj out line pos n h =
    let (old, leaf, _, e, same) = update_step key next path value obj h in
    let ih = get_value-update (next ∷ path) value old leaf line (pos + length key) n.1 e in
    rw (same, get_value_from_json, get-insert_same key (object leaf) obj, n.0) ih

-- An empty object has no value at a path that leaves another one.
nothing_at_end :
    (path : List Text) (other : List Step)
    → Diverges path other
    → value_at other (object end) ≡ none
unfolding get
nothing_at_end (key ∷ path) (Step.by_key k ∷ other) d = refl
nothing_at_end [] other d = absurd d
nothing_at_end (key ∷ path) [] d = absurd d
nothing_at_end (key ∷ path) (Step.by_index i ∷ other) d = absurd d

pub value_at_key :
    (k : Text) (other : List Step) (m : Fields)
    → value_at (Step.by_key k ∷ other) (object m) ≡ value_below other (get k m)
value_at_key k other m = by_value (get k m)
  where
    by_value :
        (o : Option Value)
        → elim o [ none ↦ none | some v ↦ value_at other v ] ≡ value_below other o
    by_value none = refl
    by_value (some v) = refl

pub value_at-insert_other :
    (key k : Text) (other : List Step) (v : Value) (m : Fields)
    → key ≢ k
    → value_at (Step.by_key k ∷ other) (object (insert key v m))
      ≡ value_at (Step.by_key k ∷ other) (object m)
value_at-insert_other key k other v m d =
    value_at_key k other (insert key v m)
    ∙ ap (value_below other) (get-insert_other key k v m d)
    ∙ sym (value_at_key k other m)

pub value_at-insert_same :
    (key : Text) (other : List Step) (v : Value) (m : Fields)
    → value_at (Step.by_key key ∷ other) (object (insert key v m)) ≡ value_at other v
value_at-insert_same key other v m =
    value_at_key key other (insert key v m) ∙ ap (value_below other) (get-insert_same key v m)

value_at-Below :
    (key : Text) (obj old : Fields) (path : List Text) (other : List Step)
    → Below key obj old
    → Diverges path other
    → value_at other (object old) ≡ value_at (Step.by_key key ∷ other) (object obj)
value_at-Below key obj old path other (inl (e, empty)) d =
    rw empty (nothing_at_end path other d)
    ∙ sym (value_at_key key other obj ∙ ap (value_below other) e)
value_at-Below key obj old path other (inr e) d =
    sym (value_at_key key other obj ∙ ap (value_below other) e)

value_at-update_other :
    (path : List Text) (value : Option Text) (obj out : Fields) (other : List Step)
    → Diverges path other
    → update_json_value path value obj ≡ ok out
    → value_at other (object out) ≡ value_at other (object obj)
unfolding update_json_value
value_at-update_other (key ∷ []) value obj out (Step.by_key k ∷ other) (inl d) h =
    let same : insert key (new_value value) obj ≡ out = cc in
    subst
      (λ x.
        value_at (Step.by_key k ∷ other) (object x) ≡ value_at (Step.by_key k ∷ other) (object obj))
      same (value_at-insert_other key k other _ obj d)
value_at-update_other (key ∷ next ∷ path) value obj out (Step.by_key k ∷ other) (inl d) h =
    let (old, leaf, below, e, same) = update_step key next path value obj h in
    ap (λ x. value_at (Step.by_key k ∷ other) (object x)) same
    ∙ value_at-insert_other key k other _ obj d
value_at-update_other (key ∷ next ∷ path) value obj out (Step.by_key k ∷ other) (inr (i, d)) h =
    let (old, leaf, below, e, same) = update_step key next path value obj h in
    let kept = value_at-update_other (next ∷ path) value old leaf other d e in
    subst
      (λ j.
        value_at (Step.by_key j ∷ other) (object out)
        ≡ value_at (Step.by_key j ∷ other) (object obj))
      i
      (ap (λ x. value_at (Step.by_key key ∷ other) (object x)) same
        ∙ value_at-insert_same key other (object leaf) obj
        ∙ kept
        ∙ value_at-Below key obj old (next ∷ path) other below d)
value_at-update_other (key ∷ []) value obj out (Step.by_key k ∷ other) (inr (i, d)) h = absurd d
value_at-update_other (key ∷ path) value obj out (Step.by_index i ∷ other) d h = absurd d
value_at-update_other (key ∷ path) value obj out [] d h = absurd d
value_at-update_other [] value obj out other d h = absurd d

-- An update that succeeds, at a path of which no key behind the first one is a number: the value is
-- read back at the path, and at every path that leaves this one at some key, however deep, the
-- object has the value that it had, or none as before.
pub update_json_value_lem :
    (path : List Text) (value : Option Text) (obj out : Fields) (line : Text) (pos : ℕ)
    (other : List Step)
    → IsNamePath path
    → Diverges path other
    → update_json_value path value obj ≡ ok out
    → (get_value_from_json path out line pos ≡ ok (new_value value))
      × (value_at other (object out) ≡ value_at other (object obj))
update_json_value_lem path value obj out line pos other n d h = (
  get_value-update path value obj out line pos n h,
  value_at-update_other path value obj out other d h,
)
