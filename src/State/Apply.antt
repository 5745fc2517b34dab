-- ===== src/State/Apply.antt =====
-- `gen_diff_json_value` of rust/src/lib/state.rs, and merges of the difference.
use nmstate.Base.{
  if◌then◌else◌, Bool-cases, Option-cases, ◌==◌, ==→≡, Text, ◌≡◌, refl, sym, ap, ◌∙◌, subst, inl,
  inr, Bool, true, false, Option, none, some, arith, nat_eq, bool_eq, list_eq, option_eq,
}
use nmstate.Json.{Value, object, Fields, end, field, get, IsWellFormed, IsMap, value_beq}
use nmstate.Json.Maps.{
  get-insert, insert-IsMap, get-IsWellFormed, some_eq, get_end, get_first, get_later,
}
use nmstate.Json.Same.{object_eq, value_beq_refl}
use nmstate.State.{
  merge_json_value, merge_fields, gen_diff_json_value, diff_fields, put_diff, object_unless_empty,
}
use nmstate.State.Merge.{merged, get-merge_fields, merge_fields-IsMap}

-- What one round of the loop finds under a key.
abbrev entry : Option Value → Option Value → Option Value
entry none current = none
entry (some desired) none = some desired
entry (some desired) (some current) = gen_diff_json_value desired current

abbrev pick : Option Value → Option Value → Option Value
pick none o = o
pick (some v) o = some v

diff_fields_step :
    (k : Text) (v : Value) (d c m : Fields)
    → diff_fields (field k v d) c m ≡ diff_fields d c (put_diff k (entry (some v) (get k c)) m)
unfolding gen_diff_json_value
diff_fields_step k v d c m = elim (Option-cases (get k c)) [ inl e ↦ rw e | inr (w, e) ↦ rw e ]

get-put_diff :
    (k j : Text) (o : Option Value) (m : Fields)
    → get j (put_diff k o m) ≡ (if k == j then pick o (get j m) else get j m)
get-put_diff k j none m = ground arith
get-put_diff k j (some v) m = get-insert k j v m

get-diff_fields :
    (d c m : Fields) (k : Text)
    → IsMap d
    → get k (diff_fields d c m) ≡ pick (entry (get k d) (get k c)) (get k m)
get-diff_fields end c m k h = unfold gen_diff_json_value get in refl
get-diff_fields (field j v d) c m k h =
    ap (get k) (diff_fields_step j v d c m)
    ∙ get-diff_fields d c (put_diff j (entry (some v) (get j c)) m) k h.2
    ∙ rw get-put_diff (elim (Bool-cases (j == k)) [
      | inl e ↦
          let q = ==→≡ j k e in
          let gone : get k d ≡ none = subst (λ i. get i d ≡ none) q h.1 in
          let first : get k (field j v d) ≡ some v = unfold get in rw e in
          rw (e, gone, first, q) refl
      | inr e ↦ rw e (unfold get in rw e)
    ])

put_diff-IsMap :
    (k : Text) (o : Option Value) (m : Fields)
    → ((v : Value) → o ≡ some v → IsWellFormed v)
    → IsMap m
    → IsMap (put_diff k o m)
put_diff-IsMap k none m h hm = hm
put_diff-IsMap k (some v) m h hm = insert-IsMap k v m (h v refl) hm

object_unless_empty-wf :
    (m : Fields) {r : Value} → IsMap m → object_unless_empty m ≡ some r → IsWellFormed r
object_unless_empty-wf end h e = cc
object_unless_empty-wf (field k v m) h e = subst IsWellFormed (some_eq e) h

unless_wf :
    (b : Bool) (d : Value) {r : Value}
    → IsWellFormed d
    → (if b then none else some d) ≡ some r
    → IsWellFormed r
unless_wf true d h e = cc
unless_wf false d h e = subst IsWellFormed (some_eq e) h

entry_wf :
    (v : Value) (o : Option Value)
    → IsWellFormed v
    → ((w r : Value) → gen_diff_json_value v w ≡ some r → IsWellFormed r)
    → (r : Value) → entry (some v) o ≡ some r
    → IsWellFormed r
entry_wf v none h f r e = subst IsWellFormed (some_eq e) h
entry_wf v (some w) h f r e = f w r e

mutual
  unfolding gen_diff_json_value

  diff_wf :
      (d c : Value) {r : Value} → IsWellFormed d → gen_diff_json_value d c ≡ some r → IsWellFormed r
  diff_wf (object d) (object c) hd e =
      object_unless_empty-wf (diff_fields d c end) (diff_fields_wf d c end hd tt) e
  diff_wf (object d) _ hd e = subst IsWellFormed (some_eq e) hd
  diff_wf d c hd e = unless_wf (value_beq d c) d hd e

  diff_fields_wf : (d c m : Fields) → IsMap d → IsMap m → IsMap (diff_fields d c m)
  diff_fields_wf end c m hd hm = hm
  diff_fields_wf (field k v d) c m hd hm = subst IsMap (sym (diff_fields_step k v d c m)) (
      diff_fields_wf d c _ hd.2 (
        put_diff-IsMap k (entry (some v) (get k c)) m
          (entry_wf v (get k c) hd.0 (λ w r e. diff_wf v w hd.0 e)) hm))

-- A difference put onto the current value; none leaves it as it is.
abbrev pub applied : Option Value → Value → Value
applied none current = current
applied (some diff) current = merge_json_value diff current

applied_fields : Fields → Fields → Fields
applied_fields end c = c
applied_fields (field k v m) c = merge_fields (field k v m) c

applied-object :
    (m c : Fields) → applied (object_unless_empty m) (object c) ≡ object (applied_fields m c)
unfolding merge_json_value applied_fields
applied-object end c = refl
applied-object (field k v m) c = refl

get-applied_fields :
    (m c : Fields) (k : Text) → IsMap c → get k (applied_fields m c) ≡ merged (get k m) (get k c)
unfolding applied_fields
get-applied_fields end c k h = unfold get in refl
get-applied_fields (field j v m) c k h = get-merge_fields (field j v m) c k h

applied_fields-IsMap : (m c : Fields) → IsMap m → IsMap c → IsMap (applied_fields m c)
unfolding applied_fields
applied_fields-IsMap end c hm hc = hc
applied_fields-IsMap (field k v m) c hm hc = merge_fields-IsMap (field k v m) c hm hc

-- What the theorem says of one key, whose desired value is `d` and current value `c`.
abbrev Applies : Value → Value → Type 0
Applies d c = value_beq (merge_json_value d c) (applied (gen_diff_json_value d c) c) ≡ true

abbrev SameOption : Option Value → Option Value → Type 0
SameOption none w = w ≡ none
SameOption (some v) w = (u : Value) × (w ≡ some u) × (value_beq v u ≡ true)

same_at :
    (d c : Option Value)
    → ((v : Value) → d ≡ some v → IsWellFormed v)
    → ((v : Value) → c ≡ some v → IsWellFormed v)
    → ((v w : Value) → d ≡ some v → c ≡ some w → Applies v w)
    → SameOption (merged d c) (merged (pick (entry d c) none) c)
same_at none none hd hc h = refl
same_at none (some w) hd hc h = (w, refl, value_beq_refl w (hc w refl))
same_at (some v) none hd hc h = (v, refl, value_beq_refl v (hd v refl))
same_at (some v) (some w) hd hc h = here (gen_diff_json_value v w) (h v w refl refl)
  where
    here :
        (o : Option Value)
        → value_beq (merge_json_value v w) (applied o w) ≡ true
        → SameOption (some (merge_json_value v w)) (merged (pick o none) (some w))
    here none e = (w, refl, e)
    here (some r) e = (merge_json_value r w, refl, e)

module _ (d c : Fields) (hd : IsMap d) (hc : IsMap c)
    (h : (k : Text) (v w : Value) → get k d ≡ some v → get k c ≡ some w → Applies v w) where
  abbrev diff_map : Fields
  diff_map = diff_fields d c end

  lookups : (k : Text) → SameOption (get k (merge_fields d c)) (get k (applied_fields diff_map c))
  lookups k =
      let none_yet : get k end ≡ none = unfold get in refl in
      rw
        (
          get-merge_fields d c k hc,
          get-applied_fields diff_map c k hc,
          get-diff_fields d c end k hd,
          none_yet,
        )
        (same_at (get k d) (get k c) (λ v e. get-IsWellFormed k d hd e)
          (λ v e. get-IsWellFormed k c hc e) (h k))

  fields_eq : value_beq (object (merge_fields d c)) (object (applied_fields diff_map c)) ≡ true
  fields_eq =
      object_eq _ _ (merge_fields-IsMap d c hd hc)
        (applied_fields-IsMap diff_map c (diff_fields_wf d c end hd tt) hc)
        (λ k v e. subst (λ o. SameOption o (get k (applied_fields diff_map c))) e (lookups k))
        (λ k n e. n (subst (λ o. SameOption o (get k (applied_fields diff_map c))) e (lookups k)))

  Applies-object : Applies (object d) (object c)
  Applies-object =
      unfold merge_json_value gen_diff_json_value in rw (applied-object diff_map c) fields_eq

applies_leaf :
    (b : Bool) (d c : Value)
    → IsWellFormed d
    → value_beq d c ≡ b
    → ((x : Value) → merge_json_value d x ≡ d)
    → value_beq d (applied (if b then none else some d) c) ≡ true
applies_leaf true d c hd e m = e
applies_leaf false d c hd e m = rw (m c) (value_beq_refl d hd)

mutual
  unfolding merge_json_value gen_diff_json_value

  applies : (d c : Value) → IsWellFormed d → IsWellFormed c → Applies d c
  applies (object d) (object c) hd hc =
      Applies-object d c hd hc (λ k v w e f. Applies-at d k hd e w (get-IsWellFormed k c hc f))
  applies (object d) _ hd hc = value_beq_refl (object d) hd
  applies d c hd hc = applies_leaf (value_beq d c) d c hd refl (λ x. refl)

  Applies-at :
      (d : Fields) (k : Text) {v : Value}
      → IsMap d
      → get k d ≡ some v
      → (w : Value) → IsWellFormed w
      → Applies v w
  Applies-at end k hd e w hw = absurd (cc (get_end k))
  Applies-at (field j u d) k hd e w hw = elim (Bool-cases (j == k)) [
    | inl q ↦
        subst (λ z. Applies z w) (some_eq (sym (get_first j k u d q) ∙ e)) (applies u w hd.0 hw)
    | inr q ↦ Applies-at d k hd.2 (sym (get_later j k u d q) ∙ e) w hw
  ]

-- For well-formed values: the difference merged onto the current value is equal to the desired
-- value merged onto it; where there is no difference, the current value itself is.
pub gen_diff_lem :
    (desired current : Value)
    → IsWellFormed desired
    → IsWellFormed current
    → value_beq
        (merge_json_value desired current)
        (applied (gen_diff_json_value desired current) current)
      ≡ true
gen_diff_lem d c hd hc = applies d c hd hc
