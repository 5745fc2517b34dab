-- ===== src/Json/Maps.antt =====
-- The laws of the maps.
use nmstate.Base.{
  if◌then◌else◌, Bool-cases, ◌==◌, ==_refl, ==→≡, ==_ne, Text, text_beq_iff, suc, ◌≤◌, ◌≡◌, refl,
  ap, ◌∙◌, subst, ◌≢◌, inl, inr, true, false, none, some, arith, nat_eq, bool_eq, list_eq,
  option_eq,
}
use nmstate.Json.{Value, Fields, end, field, get, insert, fields_length, IsWellFormed, IsMap}

pub get-insert :
    (k j : Text) (v : Value) (m : Fields)
    → get j (insert k v m) ≡ (if k == j then some v else get j m)
unfolding get insert
get-insert k j v end = refl
get-insert k j v (field i w m) =
    ground (arith, text_beq_iff k j, text_beq_iff i j, text_beq_iff i k, get-insert k j v m)

pub insert-IsMap :
    (k : Text) (v : Value) (m : Fields) → IsWellFormed v → IsMap m → IsMap (insert k v m)
unfolding insert get
insert-IsMap k v end hv hm = (hv, refl, tt)
insert-IsMap k v (field j w m) hv hm = elim (Bool-cases (j == k)) [
  | inl e ↦ rw e (hv, subst (λ i. get i m ≡ none) (==→≡ j k e) hm.1, hm.2)
  | inr e ↦
      let fresh : get j (insert k v m) ≡ none =
        get-insert k j v m ∙ rw (==_ne k j (λ q. absurd (cc (==_refl k)))) hm.1 in
      rw e (hm.0, fresh, insert-IsMap k v m hv hm.2)
]

pub some_eq : {a b : Value} → some a ≡ some b → a ≡ b
some_eq p = cc

pub get-IsWellFormed :
    (k : Text) (m : Fields) {v : Value} → IsMap m → get k m ≡ some v → IsWellFormed v
unfolding get
get-IsWellFormed k end h e = cc
get-IsWellFormed k (field j w m) h e = elim (Bool-cases (j == k)) [
  | inl q ↦ subst IsWellFormed (some_eq (rw q at e)) h.0
  | inr q ↦ get-IsWellFormed k m h.2 (rw q at e)
]

remove : Text → Fields → Fields
remove k end = end
remove k (field j w m) = if j == k then m else field j w (remove k m)

get-remove : (k j : Text) (m : Fields) → k ≢ j → get j (remove k m) ≡ get j m
unfolding get remove
get-remove k j end h = refl
get-remove k j (field i w m) h =
    ground (arith, text_beq_iff i k, text_beq_iff i j, get-remove k j m h)

length-remove :
    (k : Text) (m : Fields) → get k m ≢ none → fields_length m ≡ suc (fields_length (remove k m))
unfolding get remove fields_length
length-remove k end h = absurd (h refl)
length-remove k (field i w m) h = elim (Bool-cases (i == k)) [
  | inl e ↦ rw e
  | inr e ↦ rw e (ap suc (length-remove k m (rw e at h)))
]

pub get_head : (k : Text) (v : Value) (m : Fields) → get k (field k v m) ≡ some v
unfolding get
get_head k v m = rw (==_refl k)

-- A key of the rest is not the first key.
pub get_rest :
    (k j : Text) (v : Value) (m : Fields)
    → get k m ≡ none
    → get j m ≢ none
    → get j (field k v m) ≡ get j m
unfolding get
get_rest k j v m h n = rw (==_ne k j (λ e. n (subst (λ i. get i m ≡ none) e h)))

-- A map whose keys another map has is not longer.
pub length-le_of_keys :
    (a b : Fields)
    → IsMap a
    → ((k : Text) → get k a ≢ none → get k b ≢ none)
    → fields_length a ≤ fields_length b
unfolding fields_length
length-le_of_keys end b h s = omega arith
length-le_of_keys (field k v m) b h s =
    let here : get k b ≢ none = s k (rw (get_head k v m) (λ e. cc)) in
    let there : (j : Text) → get j m ≢ none → get j (remove k b) ≢ none = λ j n.
      rw (get-remove k j b (λ e. n (subst (λ i. get i m ≡ none) e h.1)))
        (s j (rw (get_rest k j v m h.1 n) n)) in
    omega (arith, length-remove k b here, length-le_of_keys m (remove k b) h.2 there)

pub get_end : (k : Text) → get k end ≡ none
unfolding get
get_end k = refl

pub get_first :
    (j k : Text) (v : Value) (m : Fields) → (j == k) ≡ true → get k (field j v m) ≡ some v
unfolding get
get_first j k v m e = rw e

pub get_later :
    (j k : Text) (v : Value) (m : Fields) → (j == k) ≡ false → get k (field j v m) ≡ get k m
unfolding get
get_later j k v m e = rw e
