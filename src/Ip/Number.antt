-- ===== src/Ip/Number.antt =====
-- `str::parse` for unsigned integers and `i32`: an optional sign, then decimal digits.
use nmstate.Base.{
  ltb, leb, if◌then◌else◌, ◌==◌, Text, ℕ, ◌+◌, ◌-◌, ◌*◌, ◌^◌, Bool, true, false, ◌&&◌, Option, none,
  some, [], ◌∷◌, nat_eq, bool_eq, list_eq, option_eq,
}

unfoldable pub digit_value : ℕ → ℕ → Option ℕ
digit_value radix c =
    let v =
      if leb b'0' c && leb c b'9'
      then c - b'0'
      else if leb b'a' c && leb c b'f'
      then c - b'a' + 10
      else if leb b'A' c && leb c b'F'
      then c - b'A' + 10
      else 16 in
    if ltb v radix then some v else none

pub digits_value : ℕ → ℕ → Text → Option ℕ
unfolding digit_value
digits_value radix acc [] = some acc
digits_value radix acc (c ∷ cs) = elim (digit_value radix c) [
  | none ↦ none
  | some d ↦ digits_value radix (acc * radix + d) cs
]

abbrev below : ℕ → Option ℕ → Option ℕ
below bound none = none
below bound (some n) = if ltb n bound then some n else none

-- At least one digit, and a value below the bound.
unfoldable pub parse_digits : ℕ → Text → Option ℕ
unfolding digits_value
parse_digits bound [] = none
parse_digits bound (c ∷ cs) = below bound (digits_value 10 0 (c ∷ cs))

unfoldable pub parse_unsigned : ℕ → Text → Option ℕ
unfolding parse_digits
parse_unsigned bound [] = none
parse_unsigned bound (c ∷ cs) =
    if c == b'+' then parse_digits bound cs else parse_digits bound (c ∷ cs)

-- `parse::<i32>`, as whether it succeeds with a negative value, and the absolute value.
unfoldable pub parse_i32 : Text → Option (Bool × ℕ)
unfolding parse_digits parse_unsigned
parse_i32 [] = none
parse_i32 (c ∷ cs) =
    if c == b'-'
    then elim (parse_digits (2 ^ 31 + 1) cs) [ none ↦ none | some n ↦ some (true, n) ]
    else elim (parse_unsigned (2 ^ 31) (c ∷ cs)) [ none ↦ none | some n ↦ some (false, n) ]
