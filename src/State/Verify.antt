-- ===== src/State/Verify.antt =====
-- `get_json_value_difference` on what `merge_json_value` makes of a desired value.
use nmstate.Base.{
  nat_beq_iff, bool_beq_iff, ==_refl, Text, ℕ, ◌+◌, ◌≡◌, refl, sym, ap, ◌∙◌, subst, Option, none,
  some, nat_eq, bool_eq, list_eq, option_eq,
}
use nmstate.Json.{
  Value, null, bool, number, string, array, object, Items, nil, cons, Fields, end, field,
  items_length, get, IsWellFormed, AreWellFormed, IsMap, value_beq, number_beq_iff,
}
use nmstate.Json.Maps.{get-IsWellFormed, get_head, get_rest}
use nmstate.State.{
  merge_json_value, merge_fields, raw_difference, items_difference, fields_difference,
  unless_ignored, get_json_value_difference, index_reference, key_reference, or_else, Difference,
  differ_unless,
}
use nmstate.State.Merge.{merged, get-merge_fields}

merge-null : (v : Value) → merge_json_value v null ≡ v
unfolding merge_json_value
merge-null (object m) = refl
merge-null _ = refl

-- A value under a key of the result of a merge onto `v`.
abbrev IsMergeOf : Value → Option Value → Type 0
IsMergeOf v o = (c : Value) × IsWellFormed c × (o ≡ some (merge_json_value v c))

IsMergeOf-merged :
    (v : Value) (o : Option Value)
    → ((w : Value) → o ≡ some w → IsWellFormed w)
    → IsMergeOf v (merged (some v) o)
IsMergeOf-merged v none h = (null, tt, ap some (sym (merge-null v)))
IsMergeOf-merged v (some w) h = (w, h w refl, refl)

abbrev HoldsMerges : Fields → Fields → Type 0
HoldsMerges d m = (k : Text) (v : Value) → get k d ≡ some v → IsMergeOf v (get k m)

merge_fields-HoldsMerges : (d c : Fields) → IsMap c → HoldsMerges d (merge_fields d c)
merge_fields-HoldsMerges d c hc k v e =
    rw (get-merge_fields d c k hc, e)
      (IsMergeOf-merged v (get k c) (λ w f. get-IsWellFormed k c hc f))

HoldsMerges-self : (d : Fields) → HoldsMerges d d
HoldsMerges-self d k v e = (null, tt, e ∙ ap some (sym (merge-null v)))

key_none :
    (reference : Text) (v : Value) (o : Option Value)
    → IsMergeOf v o
    → ((c : Value) → IsWellFormed c → raw_difference reference v (merge_json_value v c) ≡ none)
    → (elim o [
      | none ↦ differ_unless (value_beq v null) reference v null
      | some value ↦ unless_ignored (raw_difference reference v value)
    ])
      ≡ none
unfolding unless_ignored
key_none reference v o (c, hc, e) h = rw e (rw (h c hc))

or_else-none : (a b : Option Difference) → a ≡ none → b ≡ none → or_else a b ≡ none
or_else-none a b p q = rw p q

unless_ignored-none : (a : Option Difference) → a ≡ none → unless_ignored a ≡ none
unfolding unless_ignored
unless_ignored-none a p = rw p

mutual
  unfolding raw_difference merge_json_value

  verify_value :
      (d c : Value) (reference : Text)
      → IsWellFormed d
      → IsWellFormed c
      → raw_difference reference d (merge_json_value d c) ≡ none
  verify_value null c reference hd hc = refl
  verify_value (bool b) c reference hd hc = rw ((bool_beq_iff b b).1 refl)
  verify_value (number n) c reference hd hc = rw ((number_beq_iff n n).1 refl)
  verify_value (string s) c reference hd hc = rw (==_refl s)
  verify_value (array xs) c reference hd hc =
      rw ((nat_beq_iff (items_length xs) (items_length xs)).1 refl) (verify_items xs 0 reference hd)
  verify_value (object d) (object c) reference hd hc =
      verify_fields d (merge_fields d c) reference hd (merge_fields-HoldsMerges d c hc)
  verify_value (object d) _ reference hd hc = verify_fields d d reference hd (HoldsMerges-self d)

  verify_items :
      (xs : Items) (i : ℕ) (reference : Text)
      → AreWellFormed xs
      → items_difference reference i xs xs ≡ none
  verify_items nil i reference h = refl
  verify_items (cons x xs) i reference h =
      or_else-none _ _
        (unless_ignored-none _ (
          subst (λ y. raw_difference (index_reference reference i) x y ≡ none) (merge-null x)
            (verify_value x null (index_reference reference i) h.0 tt)))
        (verify_items xs (i + 1) reference h.1)

  verify_fields :
      (d m : Fields) (reference : Text)
      → IsMap d
      → HoldsMerges d m
      → fields_difference reference d m ≡ none
  verify_fields end m reference hd h = refl
  verify_fields (field k v d) m reference hd h =
      or_else-none _ _
        (key_none (key_reference reference k) v (get k m) (h k v (get_head k v d))
          (λ c hc. verify_value v c (key_reference reference k) hd.0 hc))
        (verify_fields d m reference hd.2 (λ j u e. h j u (get_rest k j v d hd.1 (λ n. cc) ∙ e)))

-- For well-formed values, whatever the current one: the desired value merged onto it has no
-- difference from the desired value, so a state that was applied by merging passes its verification.
pub verify-merge :
    (reference : Text) (desired current : Value)
    → IsWellFormed desired
    → IsWellFormed current
    → get_json_value_difference reference desired (merge_json_value desired current) ≡ none
unfolding get_json_value_difference
verify-merge reference d c hd hc = unless_ignored-none _ (verify_value d c reference hd hc)
