-- ===== src/Base/Strings.antt =====
-- Rust strings as lists of code points: `str` compares and orders its characters in this order too.
use Prim.Native.Char.{code}
use Prim.Native.Nat.{ℕ, Ordering}
use mathlib.Core.Path.{◌≡◌}
use mathlib.Core.Logic.{◌↔◌}
use Prim.Native.String.{String}
use mathlib.Core.Bool.{true}
use mathlib.Core.List.{List, [], ◌∷◌, ◌++◌}
use nmstate.Base.Tests.{if◌then◌else◌, nat_beq}
use nmstate.Base.Equality.{◌==◌, list_beq_iff, nat_eq, list_eq}
use nmstate.Base.Order.{cmp, flip_ord, nat_ord, list_ord}

abbrev pub Text : Type 0
Text = List ℕ

-- The code points of a literal.
abbrev pub codes : String → Text
codes String.[] = []
codes (String.◌∷◌ c s) = code c ∷ codes s

-- The laws of the order and of equality, at text.
pub text_cmp_eq : (a b : Text) → (cmp a b ≡ Ordering.eq) ↔ (a ≡ b)
text_cmp_eq a b = list_ord.cmp_eq a b

pub text_cmp_flip : (a b : Text) → cmp b a ≡ flip_ord (cmp a b)
text_cmp_flip a b = list_ord.cmp_flip a b

pub text_cmp_trans :
    (a b c : Text) → cmp a b ≡ Ordering.lt → cmp b c ≡ Ordering.lt → cmp a c ≡ Ordering.lt
text_cmp_trans a b c = list_ord.cmp_trans a b c

pub text_beq_iff : (a b : Text) → ((a == b) ≡ true) ↔ (a ≡ b)
text_beq_iff a b = list_beq_iff a b

-- `split(c)`: the pieces between the separators, at least one.
unfoldable pub split_onto : ℕ → Text → Text → List Text
split_onto sep piece [] = piece ∷ []
split_onto sep piece (c ∷ cs) =
    let more = split_onto sep (piece ++ c ∷ []) cs in
    let next = split_onto sep [] cs in if nat_beq c sep then piece ∷ next else more

unfoldable pub split : ℕ → Text → List Text
unfolding split_onto
split sep = split_onto sep []
