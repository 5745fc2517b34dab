-- ===== src/Ip/Prefix.antt =====
-- `apply_ip_prefix_len` of rust/src/lib/ip.rs, as arithmetic on blocks of addresses.
use nmstate.Base.{
  leb, leb→le, nat_beq_iff, Bool-cases, ◌==◌, ℕ, ◌+◌, ◌-◌, ◌*◌, ◌/◌, ◌%◌, ◌^◌, ◌≤◌, ◌<◌, ◌≡◌, refl,
  inl, inr, true, arith, nat_eq, bool_eq, list_eq, option_eq,
}
use native.Mathlib.Nat.{mul-mod_left, one-le-pow, sub-zero, zero-mod}
use nmstate.Ip.{IpAddr, v4, v6, apply_ip_prefix_len, addr_len, clear_low}

abbrev pub value : IpAddr → ℕ
value (v4 a) = a
value (v6 a) = a

-- `r` is the first address of a block of `2 ^ k` addresses that holds `a`.
abbrev pub IsBlockOf : ℕ → ℕ → ℕ → Type 0
IsBlockOf k r a = (r % 2 ^ k ≡ 0) × (r ≤ a) × (a < r + 2 ^ k)

pow_pos : (k : ℕ) → 0 < 2 ^ k
pow_pos k = one-le-pow k 2 (omega arith)

clear : (m a : ℕ) → 0 < m → (a / m * m % m ≡ 0) × (a / m * m ≤ a) × (a < a / m * m + m)
clear m a h = (mul-mod_left (a / m) m, grind arith, grind arith)

clear_low-IsBlockOf : (a k : ℕ) → IsBlockOf k (clear_low a k) a
clear_low-IsBlockOf a k = clear (2 ^ k) a (pow_pos k)

all_block : (w n a : ℕ) → a < 2 ^ w → (n == 0) ≡ true → IsBlockOf (w - n) 0 a
all_block w n a b e =
    let z : n ≡ 0 = (nat_beq_iff n 0).0 e in
    rw (z, sub-zero) (zero-mod (2 ^ w), omega arith, omega arith)

own_block : (w n a : ℕ) → leb w n ≡ true → IsBlockOf (w - n) a a
own_block w n a e =
    let z : w - n ≡ 0 = omega (arith, leb→le w n e) in rw z (omega arith, omega arith, omega arith)

-- For an address and a prefix length within the width of its family: the result is the first
-- address of the one aligned block of addresses, as long as the prefix leaves, that holds the
-- address, and is of the same family.
pub apply_ip_prefix_len-IsBlockOf :
    (ip : IpAddr) (prefix : ℕ)
    → prefix ≤ addr_len ip
    → value ip < 2 ^ addr_len ip
    → IsBlockOf (addr_len ip - prefix) (value (apply_ip_prefix_len ip prefix)) (value ip)
      × (addr_len (apply_ip_prefix_len ip prefix) ≡ addr_len ip)
unfolding apply_ip_prefix_len
apply_ip_prefix_len-IsBlockOf (v4 a) n h b = elim (Bool-cases (n == 0)) [
  | inl e ↦ rw e (all_block 32 n a b e, refl)
  | inr e ↦ elim (Bool-cases (leb 32 n)) [
    | inl f ↦ rw (e, f) (own_block 32 n a f, refl)
    | inr f ↦ rw (e, f) (clear_low-IsBlockOf a (32 - n), refl)
  ]
]
apply_ip_prefix_len-IsBlockOf (v6 a) n h b = elim (Bool-cases (n == 0)) [
  | inl e ↦ rw e (all_block 128 n a b e, refl)
  | inr e ↦ elim (Bool-cases (leb 128 n)) [
    | inl f ↦ rw (e, f) (own_block 128 n a f, refl)
    | inr f ↦ rw (e, f) (clear_low-IsBlockOf a (128 - n), refl)
  ]
]
