-- ===== src/Ip/RoundTrip.antt =====
-- A printed IPv4 address is read back.
use nmstate.Base.{
  ltb, leb, if◌then◌else◌, ltb→lt, lt→ltb, Bool-cases, Option-cases, ◌==◌, ==_ne, Text, count, ℕ,
  suc, ◌+◌, ◌*◌, ◌/◌, ◌%◌, ◌^◌, ◌≤◌, ◌<◌, ◌≡◌, refl, ap, ◌∙◌, ◌⊎◌, inl, inr, Bool, true, false, not,
  ◌&&◌, ◌||◌, Option, none, some, [], ◌∷◌, ◌++◌, append-nil, arith, nat_eq, bool_eq, list_eq,
  option_eq, int_eq, pair_eq,
}
use nmstate.Ip.Number.{digit_value}
use nmstate.Ip.Parse.{
  run_of_digits, read_number, read_char, read_octet, read_octets, read_ipv4, whole, parse_ipv4,
}
use nmstate.Ip.Print.{digits_onto, to_decimal, show_ipv4}

decimal_digit : (d : ℕ) → d < 10 → digit_value 10 (48 + d) ≡ some d
unfolding digit_value
decimal_digit d lt = ground arith

pub to_decimal_one : (n : ℕ) → n < 10 → to_decimal n ≡ (48 + n) ∷ []
unfolding to_decimal digits_onto
to_decimal_one n lt =
    let small : ltb n 10 ≡ true = lt→ltb n 10 lt in
    let rest : n % 10 ≡ n = omega arith in rw (digits_onto, small, rest, small) refl

pub to_decimal_two : (n : ℕ) → 10 ≤ n → n < 100 → to_decimal n ≡ (48 + n / 10) ∷ (48 + n % 10) ∷ []
unfolding to_decimal digits_onto
to_decimal_two n ge lt =
    let a : ltb n 10 ≡ false = ground arith in
    let b : ltb (n % 10) 10 ≡ true = lt→ltb (n % 10) 10 (omega arith) in
    let c : ltb (n / 10) 10 ≡ true = lt→ltb (n / 10) 10 (omega arith) in
    let d : n / 10 % 10 ≡ n / 10 = omega arith in rw (to_decimal, digits_onto, a, b, c, d, c) refl

pub to_decimal_three :
    (n : ℕ)
    → 100 ≤ n
    → n < 256
    → to_decimal n ≡ (48 + n / 10 / 10) ∷ (48 + n / 10 % 10) ∷ (48 + n % 10) ∷ []
unfolding to_decimal digits_onto
to_decimal_three n ge lt =
    let a : ltb n 10 ≡ false = ground arith in
    let b : ltb (n % 10) 10 ≡ true = lt→ltb (n % 10) 10 (omega arith) in
    let tens : 10 ≤ n / 10 = omega arith in
    let c : ltb (n / 10) 10 ≡ false = ground arith in
    let d : ltb (n / 10 % 10) 10 ≡ true = lt→ltb (n / 10 % 10) 10 (omega arith) in
    let e : ltb (n / 10 / 10) 10 ≡ true = lt→ltb (n / 10 / 10) 10 (omega arith) in
    let f : n / 10 / 10 % 10 ≡ n / 10 / 10 = omega arith in
    rw (to_decimal, digits_onto, a, b, c, d, e, f, e) refl

-- Text at which a run of digits stops.
abbrev Ends : Text → Type 0
Ends rest = (acc count : ℕ) → run_of_digits 10 acc count rest ≡ (acc, count, rest)

nothing-Ends : Ends []
unfolding run_of_digits
nothing-Ends acc count = refl

dot-Ends : (cs : Text) → Ends (b'.' ∷ cs)
unfolding run_of_digits digit_value
dot-Ends cs acc count = refl

run_of_digits-cons :
    (d : ℕ) (cs : Text) (acc count : ℕ)
    → d < 10
    → run_of_digits 10 acc count ((48 + d) ∷ cs) ≡ run_of_digits 10 (acc * 10 + d) (suc count) cs
unfolding run_of_digits
run_of_digits-cons d cs acc count lt = rw (run_of_digits, decimal_digit d lt) refl

-- A number is read from a run of one to three digits, without a zero in front of others.
read_number_of :
    (c : ℕ) (cs : Text) (n k : ℕ) (rest : Text)
    → run_of_digits 10 0 0 (c ∷ cs) ≡ (n, k, rest)
    → 0 < k
    → k ≤ 3
    → n < 256
    → ((c == b'0') ≡ false) ⊎ (k ≡ 1)
    → read_number 10 3 256 false (c ∷ cs) ≡ some (n, rest)
read_number_of c cs n k rest run pos max bound lead =
    let a : (k == 0) ≡ false = ground arith in
    let b : ltb 3 k ≡ false = ground arith in
    let e : leb 256 n ≡ false = ground arith in
    let f : ((c == b'0') && ltb 1 k) ≡ false = elim lead [
      | inl z ↦ rw z refl
      | inr one ↦ rw one (ground arith)
    ] in
    rw (run, a, b, e, f) refl

zero_first : (n : ℕ) → 0 * 10 + n ≡ n
zero_first n = omega arith

octet_read :
    (n : ℕ) (rest : Text)
    → n < 256
    → Ends rest
    → read_number 10 3 256 false (to_decimal n ++ rest) ≡ some (n, rest)
octet_read n rest lt ends = elim (Bool-cases (ltb n 10)) [
  | inl e ↦
      let small = ltb→lt n 10 e in
      rw (to_decimal_one n small) (
        read_number_of (48 + n) rest n 1 rest
          (run_of_digits-cons n rest 0 0 small ∙ ends (0 * 10 + n) 1 ∙ rw (zero_first n) refl)
          (omega arith) (omega arith) lt (inr refl))
  | inr e ↦ elim (Bool-cases (ltb n 100)) [
    | inl f ↦
        let ge : 10 ≤ n = ground arith in
        let small = ltb→lt n 100 f in
        let d : n / 10 < 10 = omega arith in
        let value : (0 * 10 + n / 10) * 10 + n % 10 ≡ n = omega arith in
        let lead : (48 + n / 10 == 48) ≡ false = ==_ne (48 + n / 10) 48 (omega arith) in
        rw (to_decimal_two n ge small) (
          read_number_of (48 + n / 10) ((48 + n % 10) ∷ rest) n 2 rest
            (run_of_digits-cons (n / 10) ((48 + n % 10) ∷ rest) 0 0 d
              ∙ run_of_digits-cons (n % 10) rest (0 * 10 + n / 10) 1 (omega arith)
              ∙ ends ((0 * 10 + n / 10) * 10 + n % 10) 2
              ∙ rw value refl)
            (omega arith) (omega arith) lt (inl lead))
    | inr f ↦
        let ge : 100 ≤ n = ground arith in
        let d : n / 10 / 10 < 10 = omega arith in
        let value : ((0 * 10 + n / 10 / 10) * 10 + n / 10 % 10) * 10 + n % 10 ≡ n = omega arith in
        let lead : (48 + n / 10 / 10 == 48) ≡ false = ==_ne (48 + n / 10 / 10) 48 (omega arith) in
        rw (to_decimal_three n ge lt) (
          read_number_of (48 + n / 10 / 10) ((48 + n / 10 % 10) ∷ (48 + n % 10) ∷ rest) n 3 rest
            (run_of_digits-cons (n / 10 / 10) ((48 + n / 10 % 10) ∷ (48 + n % 10) ∷ rest) 0 0 d
              ∙ run_of_digits-cons (n / 10 % 10) ((48 + n % 10) ∷ rest) (0 * 10 + n / 10 / 10) 1
                  (omega arith)
              ∙ run_of_digits-cons (n % 10) rest ((0 * 10 + n / 10 / 10) * 10 + n / 10 % 10) 2
                  (omega arith)
              ∙ ends (((0 * 10 + n / 10 / 10) * 10 + n / 10 % 10) * 10 + n % 10) 3
              ∙ rw value refl)
            (omega arith) (omega arith) lt (inl lead))
  ]
]

octets_step :
    (k acc o : ℕ) (rest : Text)
    → o < 256
    → Ends rest
    → read_octets (suc k) false acc (b'.' ∷ (to_decimal o ++ rest))
      ≡ read_octets k false (acc * 256 + o) rest
unfolding read_octets
octets_step k acc o rest lt ends = rw (read_octets, octet_read o rest lt ends) refl

octets_first :
    (k acc o : ℕ) (rest : Text)
    → o < 256
    → Ends rest
    → read_octets (suc k) true acc (to_decimal o ++ rest) ≡ read_octets k false (acc * 256 + o) rest
unfolding read_octets
octets_first k acc o rest lt ends = rw (read_octets, octet_read o rest lt ends) refl

octets_value :
    (a : ℕ)
    → a < 2 ^ 32
    → (((0 * 256 + a / 2 ^ 24 % 256) * 256 + a / 2 ^ 16 % 256) * 256 + a / 2 ^ 8 % 256) * 256
        + a % 256
      ≡ a
octets_value a lt = omega arith

last_octet :
    (acc o : ℕ) → o < 256 → read_octets 1 false acc (b'.' ∷ to_decimal o) ≡ some (acc * 256 + o, [])
unfolding read_octets
last_octet acc o lt =
    let whole_rest : to_decimal o ++ [] ≡ to_decimal o = append-nil (to_decimal o) in
    rw (← whole_rest) (octets_step 0 acc o [] lt nothing-Ends)

-- An IPv4 address, as the number of 32 bits that it is, is read back by `Ipv4Addr::from_str` from
-- what `Ipv4Addr` prints: four decimal octets.
pub parse_ipv4-show_ipv4 : (a : ℕ) → a < 2 ^ 32 → parse_ipv4 (show_ipv4 a) ≡ some a
unfolding parse_ipv4 show_ipv4
parse_ipv4-show_ipv4 a lt =
    let one = a / 2 ^ 24 % 256 in
    let two = a / 2 ^ 16 % 256 in
    let three = a / 2 ^ 8 % 256 in
    let four = a % 256 in
    let d4 = b'.' ∷ to_decimal four in
    let d3 = b'.' ∷ (to_decimal three ++ d4) in
    let d2 = b'.' ∷ (to_decimal two ++ d3) in
    ap whole (
      octets_first 3 0 one d2 (omega arith) (dot-Ends (to_decimal two ++ d3))
      ∙ octets_step 2 (0 * 256 + one) two d3 (omega arith) (dot-Ends (to_decimal three ++ d4))
      ∙ octets_step 1 ((0 * 256 + one) * 256 + two) three d4 (omega arith)
          (dot-Ends (to_decimal four))
      ∙ last_octet (((0 * 256 + one) * 256 + two) * 256 + three) four (omega arith))
    ∙ ap some (octets_value a lt)

or_third : (a b c d : Bool) → c ≡ true → (a || b || c || d) ≡ true
or_third a b c d h = ground arith

number_bound :
    (bad : Bool) (m n : ℕ) (left rest : Text)
    → (leb 256 m ≡ true → bad ≡ true)
    → if◌then◌else◌ {A = Option (ℕ × Text)} bad none (some (m, left)) ≡ some (n, rest)
    → n < 256
number_bound true m n left rest k h = cc
number_bound false m n left rest k h =
    let same : m ≡ n = cc in
    elim (Bool-cases (leb 256 m)) [ inl e ↦ cc (k e) | inr e ↦ rw (← same) (ground arith) ]

read_number-bound :
    (s : Text) (n : ℕ) (rest : Text) → read_number 10 3 256 false s ≡ some (n, rest) → n < 256
read_number-bound s n rest h =
    let r = run_of_digits 10 0 0 s in
    let leading : Bool = elim s [ [] ↦ false | c ∷ cs ↦ c == b'0' ] in
    number_bound (r.1 == 0 || ltb 3 r.1 || leb 256 r.0 || not false && leading && ltb 1 r.1) r.0 n
      r.2 rest
      (λ e. or_third (r.1 == 0) (ltb 3 r.1) (leb 256 r.0) (not false && leading && ltb 1 r.1) e) h

read_octet-bound :
    (first : Bool) (s : Text) (o : ℕ) (t : Text) → read_octet first s ≡ some (o, t) → o < 256
read_octet-bound true s o t h = read_number-bound s o t h
read_octet-bound false [] o t h = cc
read_octet-bound false (c ∷ cs) o t h = elim (Bool-cases (b'.' == c)) [
  | inl e ↦ read_number-bound cs o t (rw (read_octet, read_char, e) at h)
  | inr e ↦ cc (rw (read_octet, read_char, e) at h)
]

whole-value : (v : ℕ) (t : Text) (a : ℕ) → whole (some (v, t)) ≡ some a → v ≡ a
whole-value v [] a h = cc
whole-value v (c ∷ cs) a h = cc

-- One more octet.
octets-next :
    (k : ℕ) (first : Bool) (acc : ℕ) (s : Text) (r : ℕ × Text)
    → read_octets (suc k) first acc s ≡ some r
    → (o : ℕ) × (t : Text) × (o < 256) × (read_octets k false (acc * 256 + o) t ≡ some r)
unfolding read_octets
octets-next k first acc s r h = elim (Option-cases (read_octet first s)) [
  | inl e ↦ cc (rw (read_octets, e) at h)
  | inr ((o, t), e) ↦ (o, t, read_octet-bound first s o t e, rw (read_octets, e) at h)
]

-- What `Ipv4Addr::from_str` reads has 32 bits.
pub parse_ipv4-bound : (s : Text) (a : ℕ) → parse_ipv4 s ≡ some a → a < 2 ^ 32
unfolding parse_ipv4 read_octets
parse_ipv4-bound s a h = elim (Option-cases (read_ipv4 s)) [
  | inl e ↦ cc (rw e at h)
  | inr ((v, t), e) ↦
      let (o, s1, lo, e1) = octets-next 3 true 0 s (v, t) e in
      let (p, s2, lp, e2) = octets-next 2 false (0 * 256 + o) s1 (v, t) e1 in
      let (q, s3, lq, e3) = octets-next 1 false ((0 * 256 + o) * 256 + p) s2 (v, t) e2 in
      let (r, s4, lr, e4) =
        octets-next 0 false (((0 * 256 + o) * 256 + p) * 256 + q) s3 (v, t) e3 in
      let value : (((0 * 256 + o) * 256 + p) * 256 + q) * 256 + r ≡ v = cc in
      let same = whole-value v t a (rw e at h) in omega (arith, value, same, lo, lp, lq, lr)
]
