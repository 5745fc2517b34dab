-- ===== src/Ip/Print.antt =====
-- How `std::net` prints addresses.
use nmstate.Base.{
  ltb, if◌then◌else◌, take, drop, ◌==◌, Text, codes, ℕ, zero, suc, ◌+◌, ◌-◌, ◌/◌, ◌%◌, ◌^◌, List,
  [], ◌∷◌, ◌++◌, nat_eq, bool_eq, list_eq, option_eq,
}

unfoldable pub digits_onto : ℕ → ℕ → ℕ → Text → Text
digits_onto radix zero n acc = acc
digits_onto radix (suc fuel) n acc =
    let d = n % radix in
    let digits = (if ltb d 10 then b'0' + d else b'a' + (d - 10)) ∷ acc in
    let rest = digits_onto radix fuel (n / radix) digits in if ltb n radix then digits else rest

-- A number below 2¹²⁸ has at most 39 decimal digits.
unfoldable pub to_decimal : ℕ → Text
unfolding digits_onto
to_decimal n = digits_onto 10 39 n []

abbrev to_hex : ℕ → Text
to_hex n = digits_onto 16 4 n []

unfoldable pub show_ipv4 : ℕ → Text
unfolding to_decimal
show_ipv4 a =
    to_decimal (a / 2 ^ 24 % 256)
    ++ (b'.'
        ∷ (to_decimal (a / 2 ^ 16 % 256)
            ++ (b'.' ∷ (to_decimal (a / 2 ^ 8 % 256) ++ (b'.' ∷ to_decimal (a % 256))))))

segments_onto : ℕ → ℕ → List ℕ → List ℕ
segments_onto zero a acc = acc
segments_onto (suc n) a acc = segments_onto n (a / 2 ^ 16) ((a % 2 ^ 16) ∷ acc)

abbrev segments : ℕ → List ℕ
segments a = segments_onto 8 a []

-- The longest run of zeros, the first of those: where it starts, and its length.
longest_zeros : ℕ → ℕ × ℕ → ℕ × ℕ → List ℕ → ℕ × ℕ
longest_zeros i current longest [] = longest
longest_zeros i current longest (g ∷ gs) =
    let start = if current.1 == 0 then i else current.0 in
    let grown : ℕ × ℕ = (start, current.1 + 1) in
    let next : ℕ × ℕ = if g == 0 then grown else (0, 0) in
    longest_zeros (i + 1) next (if ltb longest.1 next.1 then next else longest) gs

joined : List ℕ → Text
unfolding digits_onto
joined [] = []
joined (g ∷ []) = to_hex g
joined (g ∷ h ∷ gs) = to_hex g ++ (b':' ∷ joined (h ∷ gs))

unfoldable pub show_ipv6 : ℕ → Text
unfolding segments_onto longest_zeros joined show_ipv4
show_ipv6 a =
    let (start, size) = longest_zeros 0 (0, 0) (0, 0) (segments a) in
    if a / 2 ^ 32 == 65535
    then codes "::ffff:" ++ show_ipv4 (a % 2 ^ 32)
    else if ltb 1 size
    then joined (take start (segments a))
      ++ (codes "::" ++ joined (drop (start + size) (segments a)))
    else joined (segments a)
