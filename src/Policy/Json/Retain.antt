-- ===== src/Policy/Json/Retain.antt =====
-- `value_retain_only`: what is left of an object, and what is gone.
use nmstate.Base.{
  if◌then◌else◌, Option-cases, length, ◌==◌, ==_refl, ==_ne, Text, text_beq_iff, ℕ, ◌+◌, ◌≡◌, refl,
  ap, ◌∙◌, subst, ◌≢◌, inl, inr, Option, none, some, List, [], ◌∷◌, arith, nat_eq, bool_eq, list_eq,
  option_eq, int_eq, pair_eq, nat_ord, bool_ord, pair_ord, list_ord,
}
use nmstate.Error.{new_policy_error, Result, err}
use nmstate.Json.{Value, Fields, object, end, field, get, insert}
use nmstate.Json.Paths.{Step, value_at, value_below}
use nmstate.Policy.Json.{get_value_from_json, value_retain_only, retain_key, as_object}
use nmstate.Policy.Json.Update.{
  IsNamePath, Diverges, get-insert_same, value_at_key, value_at-insert_other, value_at-insert_same,
}

get-retain_key :
    (k j : Text) (m : Fields) → get j (retain_key k m) ≡ (if k == j then get j m else none)
unfolding retain_key get
get-retain_key k j end = ground arith
get-retain_key k j (field i v m) =
    ground (arith, text_beq_iff i k, text_beq_iff i j, text_beq_iff k j, get-retain_key k j m)

get-retain_key_same : (k : Text) (m : Fields) → get k (retain_key k m) ≡ get k m
get-retain_key_same k m = get-retain_key k k m ∙ rw (==_refl k) refl

abbrev pub fields_of : Value → Fields
fields_of (object m) = m
fields_of _ = end

retain_only_object :
    (m : Fields) (path : List Text)
    → as_object (value_retain_only (object m) path)
      ≡ some (fields_of (value_retain_only (object m) path))
unfolding value_retain_only
retain_only_object m [] = refl
retain_only_object m (key ∷ []) = refl
retain_only_object m (key ∷ next ∷ path) = elim (Option-cases (get key (retain_key key m))) [
  | inl e ↦ rw (value_retain_only, e) refl
  | inr (v, e) ↦ rw (value_retain_only, e) refl
]

-- The value at a key, before and after it is cut down to a path.
abbrev at_object : Result Value → (Fields → Result Value) → Value → Result Value
at_object failure get_rest v = elim (as_object v) [ none ↦ failure | some leaf ↦ get_rest leaf ]

leaf_value :
    (v : Value) (path : List Text) (failure : Result Value) (get_rest : Fields → Result Value)
    → ((m : Fields) → get_rest (fields_of (value_retain_only (object m) path)) ≡ get_rest m)
    → at_object failure get_rest (value_retain_only v path) ≡ at_object failure get_rest v
unfolding value_retain_only
leaf_value (object m) path failure get_rest h =
    ap (λ (o : Option Fields). elim o [ none ↦ failure | some leaf ↦ get_rest leaf ])
      (retain_only_object m path)
    ∙ h m
leaf_value _ path failure get_rest h = refl

retain_key_other :
    (key k : Text) (other : List Step) (m : Fields)
    → key ≢ k
    → value_at (Step.by_key k ∷ other) (object (retain_key key m)) ≡ none
retain_key_other key k other m d =
    value_at_key k other (retain_key key m)
    ∙ ap (value_below other) {y = none} (get-retain_key key k m ∙ rw (==_ne key k d) refl)

-- Nothing is left at a path that leaves the kept one.
other_path_gone :
    (path : List Text) (v : Value) (other : List Step)
    → Diverges path other
    → value_at other (value_retain_only v path) ≡ none
unfolding value_retain_only
other_path_gone (key ∷ []) (object obj) (Step.by_key k ∷ other) (inl d) =
    retain_key_other key k other obj d
other_path_gone (key ∷ []) (object obj) (Step.by_key k ∷ other) (inr (i, d)) = absurd d
other_path_gone (key ∷ next ∷ path) (object obj) (Step.by_key k ∷ other) d =
    elim (Option-cases (get key (retain_key key obj))) [
      | inl e ↦
          rw (value_retain_only, e)
            (elim d [
              | inl n ↦ retain_key_other key k other obj n
              | inr (i, n) ↦
                  value_at_key k other (retain_key key obj)
                  ∙ ap (value_below other) (subst (λ j. get j (retain_key key obj) ≡ none) i e)
            ])
      | inr (leaf, e) ↦
          rw (value_retain_only, e)
            (elim d [
              | inl n ↦
                  value_at-insert_other key k other _ (retain_key key obj) n
                  ∙ retain_key_other key k other obj n
              | inr (i, n) ↦
                  subst
                    (λ j.
                      value_at (Step.by_key j ∷ other) (
                        object
                          (insert key (value_retain_only leaf (next ∷ path)) (retain_key key obj)))
                      ≡ none)
                    i
                    (value_at-insert_same key other _ (retain_key key obj)
                      ∙ other_path_gone (next ∷ path) leaf other n)
            ])
    ]
other_path_gone (key ∷ path) (object obj) (Step.by_index i ∷ other) d = absurd d
other_path_gone (key ∷ path) (object obj) [] d = absurd d
other_path_gone (key ∷ path) v (Step.by_index i ∷ other) d = absurd d
other_path_gone (key ∷ path) v [] d = absurd d
other_path_gone [] v other d = absurd d
other_path_gone (key ∷ path) _ (Step.by_key k ∷ other) d = refl

-- The object that is left keeps what stands at the path, be it a value or an error.
retained_value :
    (path : List Text) (obj : Fields) (line : Text) (pos : ℕ)
    → IsNamePath path
    → get_value_from_json path (fields_of (value_retain_only (object obj) path)) line pos
      ≡ get_value_from_json path obj line pos
unfolding value_retain_only get_value_from_json
retained_value [] obj line pos n = refl
retained_value (key ∷ []) obj line pos n = rw (get-retain_key_same key obj) refl
retained_value (key ∷ next ∷ path) obj line pos n = elim (Option-cases (get key obj)) [
  | inl e ↦
      let gone : get key (retain_key key obj) ≡ none = get-retain_key_same key obj ∙ e in
      rw (value_retain_only, gone, get_value_from_json, gone, e) refl
  | inr (v, e) ↦
      let there : get key (retain_key key obj) ≡ some v = get-retain_key_same key obj ∙ e in
      let put = get-insert_same key (value_retain_only v (next ∷ path)) (retain_key key obj) in
      rw (value_retain_only, there, get_value_from_json, put, e, n.0)
        (leaf_value v (next ∷ path) (err (new_policy_error line pos))
          (λ leaf. get_value_from_json (next ∷ path) leaf line (pos + length key))
          (λ m. retained_value (next ∷ path) m line (pos + length key) n.1))
]

-- Keeping only a path of an object, of which no key behind the first one is a number, changes
-- neither the value nor the error that stands at the path, and leaves nothing at any path that
-- leaves this one at some key, however deep.
pub value_retain_only_lem :
    (path : List Text) (obj : Fields) (line : Text) (pos : ℕ) (other : List Step)
    → IsNamePath path
    → Diverges path other
    → (get_value_from_json path (fields_of (value_retain_only (object obj) path)) line pos
        ≡ get_value_from_json path obj line pos)
      × (value_at other (value_retain_only (object obj) path) ≡ none)
value_retain_only_lem path obj line pos other n d =
    (retained_value path obj line pos n, other_path_gone path (object obj) other d)
