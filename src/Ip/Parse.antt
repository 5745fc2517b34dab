-- ===== src/Ip/Parse.antt =====
-- The parser of `std::net`. A reader returns what it read and the rest, or nothing.
use nmstate.Base.{
  ltb, leb, if◌then◌else◌, ◌==◌, Text, ℕ, zero, suc, ◌+◌, ◌-◌, ◌*◌, ◌^◌, Bool, true, false, not,
  ◌&&◌, ◌||◌, Option, none, some, [], ◌∷◌, nat_eq, bool_eq, list_eq, option_eq,
}
use nmstate.Ip.Number.{digit_value}

Read : Type 0 → Type 0
Read A = Text → Option (A × Text)

-- The longest run of digits: its value, its length, and the rest.
unfoldable pub run_of_digits : ℕ → ℕ → ℕ → Text → ℕ × ℕ × Text
unfolding digit_value
run_of_digits radix acc count [] = (acc, count, [])
run_of_digits radix acc count (c ∷ cs) = elim (digit_value radix c) [
  | none ↦ (acc, count, c ∷ cs)
  | some d ↦ run_of_digits radix (acc * radix + d) (suc count) cs
]

-- `read_number`: at most `max` digits and a value below `bound`. Without `zeros` there is no `0`
-- in front of another digit.
abbrev pub read_number : ℕ → ℕ → ℕ → Bool → Text → Option (ℕ × Text)
read_number radix max bound zeros s =
    let (n, count, rest) = run_of_digits radix 0 0 s in
    let leading : Bool = elim s [ [] ↦ false | c ∷ cs ↦ c == b'0' ] in
    if (count == 0) || ltb max count || leb bound n || not zeros && leading && ltb 1 count
    then none
    else some (n, rest)

abbrev pub read_char : ℕ → Text → Option Text
read_char c [] = none
read_char c (d ∷ s) = if c == d then some s else none

-- An octet, behind a dot if it is not the first.
abbrev pub read_octet : Bool → Text → Option (ℕ × Text)
read_octet first s = elim (if first then some s else read_char b'.' s) [
  | none ↦ none
  | some t ↦ read_number 10 3 256 false t
]

unfoldable pub read_octets : ℕ → Bool → ℕ → Text → Option (ℕ × Text)
unfolding run_of_digits
read_octets zero first acc s = some (acc, s)
read_octets (suc n) first acc s = elim (read_octet first s) [
  | none ↦ none
  | some (o, t) ↦ read_octets n false (acc * 256 + o) t
]

abbrev pub read_ipv4 : Text → Option (ℕ × Text)
read_ipv4 = read_octets 4 true 0

abbrev pub whole : Option (ℕ × Text) → Option ℕ
whole none = none
whole (some (n, [])) = some n
whole (some (n, c ∷ cs)) = none

-- `Ipv4Addr::from_str`
unfoldable pub parse_ipv4 : Text → Option ℕ
unfolding read_octets
parse_ipv4 s = whole (read_ipv4 s)

abbrev read_separated : Bool → (Text → Option (ℕ × Text)) → Text → Option (ℕ × Text)
read_separated first inner s = elim (if first then some s else read_char b':' s) [
  | none ↦ none
  | some t ↦ inner t
]

-- `read_groups`, with room for `limit` groups: their value in base 2¹⁶, their number, whether they
-- end in an IPv4 address, and the rest.
read_groups : ℕ → Bool → ℕ → ℕ → Text → ℕ × ℕ × Bool × Text
unfolding read_octets run_of_digits
read_groups zero first acc count s = (acc, count, false, s)
read_groups (suc room) first acc count s =
    let embedded = if room == 0 then none else read_separated first read_ipv4 s in
    elim embedded [
      | some (a, t) ↦ (acc * 2 ^ 32 + a, count + 2, true, t)
      | none ↦ elim (read_separated first (read_number 16 4 65536 true) s) [
        | none ↦ (acc, count, false, s)
        | some (g, t) ↦ read_groups room false (acc * 2 ^ 16 + g) (suc count) t
      ]
    ]

abbrev read_double_colon : Text → Option Text
read_double_colon s = elim (read_char b':' s) [ none ↦ none | some t ↦ read_char b':' t ]

abbrev read_ipv6 : Text → Option (ℕ × Text)
read_ipv6 s =
    let (head, head_size, head_ipv4, rest) = read_groups 8 true 0 0 s in
    if head_size == 8
    then some (head, rest)
    else if head_ipv4
    then none
    else elim (read_double_colon rest) [
      | none ↦ none
      | some t ↦
          let (back, tail_size, tail_ipv4, end) = read_groups (7 - head_size) true 0 0 t in
          some (head * 2 ^ (16 * (8 - head_size)) + back, end)
    ]

-- `Ipv6Addr::from_str`
unfoldable pub parse_ipv6 : Text → Option ℕ
unfolding read_groups read_octets
parse_ipv6 s = whole (read_ipv6 s)
