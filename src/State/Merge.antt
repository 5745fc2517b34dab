-- ===== src/State/Merge.antt =====
-- `merge_json_value`, key by key.
use nmstate.Base.{
  Bool-cases, Option-cases, ◌==◌, ==→≡, Text, ◌≡◌, refl, sym, ap, ◌∙◌, subst, inl, inr, Option,
  none, some, nat_eq, bool_eq, list_eq, option_eq,
}
use nmstate.Json.{Value, object, Fields, end, field, get, insert, IsWellFormed, IsMap}
use nmstate.Json.Maps.{get-insert, insert-IsMap, get-IsWellFormed}
use nmstate.State.{merge_json_value, merge_fields}

-- What the merge has under a key, from what the desired and the current object have there.
abbrev pub merged : Option Value → Option Value → Option Value
merged none current = current
merged (some desired) none = some desired
merged (some desired) (some current) = some (merge_json_value desired current)

-- The value that one round of the loop puts.
abbrev merged_here : Option Value → Value → Value
merged_here none current = current
merged_here (some desired) current = merge_json_value desired current

merge_fields_step :
    (d : Fields) (k : Text) (v : Value) (c : Fields)
    → merge_fields d (field k v c) ≡ merge_fields (insert k (merged_here (get k d) v) d) c
unfolding merge_json_value
merge_fields_step d k v c = elim (Option-cases (get k d)) [ inl e ↦ rw e | inr (w, e) ↦ rw e ]

merged_same :
    (o : Option Value) (v : Value) → merged (some (merged_here o v)) none ≡ merged o (some v)
merged_same none v = refl
merged_same (some w) v = refl

merged_none : (o : Option Value) → o ≡ merged o none
merged_none none = refl
merged_none (some v) = refl

pub get-merge_fields :
    (d c : Fields) (k : Text) → IsMap c → get k (merge_fields d c) ≡ merged (get k d) (get k c)
get-merge_fields d end k h = unfold merge_json_value get in merged_none (get k d)
get-merge_fields d (field j v c) k h =
    ap (get k) (merge_fields_step d j v c)
    ∙ get-merge_fields (insert j (merged_here (get j d) v) d) c k h.2
    ∙ rw get-insert (elim (Bool-cases (j == k)) [
      | inl e ↦
          let q = ==→≡ j k e in
          let gone : get k c ≡ none = subst (λ i. get i c ≡ none) q h.1 in
          let first : get k (field j v c) ≡ some v = unfold get in rw e in
          rw (e, gone, first, q) (merged_same (get k d) v)
      | inr e ↦ rw e (unfold get in rw e)
    ])

merged_here-IsWellFormed :
    (o : Option Value) (c : Value)
    → ((v : Value) → o ≡ some v → IsWellFormed (merge_json_value v c))
    → IsWellFormed c
    → IsWellFormed (merged_here o c)
merged_here-IsWellFormed none c h hc = hc
merged_here-IsWellFormed (some v) c h hc = h v refl

mutual
  unfolding merge_json_value

  merge_wf : (d c : Value) → IsWellFormed d → IsWellFormed c → IsWellFormed (merge_json_value d c)
  merge_wf (object d) (object c) hd hc = merge_fields_wf d c hd hc
  merge_wf (object d) _ hd hc = hd
  merge_wf d _ hd hc = hd

  merge_fields_wf : (d c : Fields) → IsMap d → IsMap c → IsMap (merge_fields d c)
  merge_fields_wf d end hd hc = hd
  merge_fields_wf d (field k v c) hd hc =
      let here =
        merged_here-IsWellFormed (get k d) v (λ w e. merge_wf w v (get-IsWellFormed k d hd e) hc.0)
          hc.0 in
      subst IsMap (sym (merge_fields_step d k v c))
        (merge_fields_wf (insert k (merged_here (get k d) v) d) c (insert-IsMap k _ d here hd) hc.2)

-- The merge of well-formed values is well formed.
pub merge-IsWellFormed :
    (d c : Value) → IsWellFormed d → IsWellFormed c → IsWellFormed (merge_json_value d c)
merge-IsWellFormed d c hd hc = merge_wf d c hd hc

pub merge_fields-IsMap : (d c : Fields) → IsMap d → IsMap c → IsMap (merge_fields d c)
merge_fields-IsMap d c hd hc = merge_fields_wf d c hd hc
