-- ===== src/Error.antt =====
-- rust/src/lib/error.rs: the kinds of error and the error value, less its message text, and the
-- result of code that may fail.
use nmstate.Base.{
  if◌then◌else◌, Memᴰ-cons, Text, ℕ, ◌≡◌, refl, sym, subst, ◌⊎◌, inl, inr, Bool, true, false, List,
  [], ◌∷◌, Memᴰ,
}

pub data ErrorKind : Type 0 where
  invalid_argument plugin_failure bug verification_error not_implemented_error : ErrorKind
  not_supported_error kernel_integer_rounded_error dependency_error policy_error : ErrorKind
  permission_error sr_iov_vf_not_found : ErrorKind

-- A verification that fails with such an error is tried again.
pub can_retry : ErrorKind → Bool
can_retry plugin_failure = true
can_retry bug = true
can_retry verification_error = true
can_retry sr_iov_vf_not_found = true
can_retry _ = false

-- Such an error is dropped at the last try.
pub can_ignore : ErrorKind → Bool
can_ignore sr_iov_vf_not_found = true
can_ignore _ = false

pub record NmstateError : Type 0 where
  pub kind : ErrorKind
  pub line : Text
  pub position : ℕ

-- `NmstateError::new`: line and position have their defaults.
abbrev pub new_error : ErrorKind → NmstateError
new_error kind = record { kind = kind; line = []; position = 0 }

abbrev pub new_policy_error : Text → ℕ → NmstateError
new_policy_error line position = record { kind = policy_error; line = line; position = position }

pub data Result {ℓ} (A : Type ℓ) : Type ℓ where
  err : NmstateError → Result A
  ok : A → Result A

-- The operator `?`.
infixl 5 ◌>>◌ ◌>>=◌
abbrev pub ◌>>=◌ {ℓ κ} : {In : Type ℓ} {Out : Type κ} → Result In → (In → Result Out) → Result Out
err failure >>= next = err failure
ok value >>= next = next value

abbrev pub ◌>>◌ {ℓ} : {B : Type ℓ} → Result (Unit {0}) → Result B → Result B
check >> rest = check >>= (λ done. rest)

-- `if bad { return Err(NmstateError::new(kind, ..)); }`
abbrev pub fail_if : Bool → ErrorKind → Result (Unit {0})
fail_if bad kind = if bad then err (new_error kind) else ok tt

abbrev pub is_ok {ℓ} : {A : Type ℓ} → Result A → Bool
is_ok (ok a) = true
is_ok (err e) = false

pub Result-cases {ℓ} :
    {A : Type ℓ} (r : Result A) → ((e : NmstateError) × (r ≡ err e)) ⊎ ((a : A) × (r ≡ ok a))
Result-cases (err e) = inl (e, refl)
Result-cases (ok a) = inr (a, refl)

module _ {ℓ κ} {A : Type ℓ} {B : Type κ} where
  pub bind-eq-ok :
      (r : Result A) (next : A → Result B) {out : B}
      → (r >>= next) ≡ ok out
      → (value : A) × (r ≡ ok value) × (next value ≡ ok out)
  bind-eq-ok (err failure) next h = cc
  bind-eq-ok (ok value) next h = (value, refl, h)

  pub bind-eq-err :
      (r : Result A) (next : A → Result B) {failure : NmstateError}
      → (r >>= next) ≡ err failure
      → (r ≡ err failure) ⊎ ((value : A) × (r ≡ ok value) × (next value ≡ err failure))
  bind-eq-err (err other) next h = inl cc
  bind-eq-err (ok value) next h = inr (value, refl, h)

-- A loop that collects the results of its body and stops at the first error.
module _ {ℓ κ} {A : Type ℓ} {B : Type κ} where
  unfoldable pub try_map : (A → Result B) → List A → Result (List B)
  try_map f [] = ok []
  try_map f (x ∷ xs) = do y ← f x; ys ← try_map f xs; ok (y ∷ ys)

  try_map-cons :
      (f : A → Result B) (x : A) (xs : List A) (ys : List B)
      → try_map f (x ∷ xs) ≡ ok ys
      → (y : B) × (rest : List B) × (f x ≡ ok y) × (try_map f xs ≡ ok rest) × (ys ≡ y ∷ rest)
  unfolding try_map
  try_map-cons f x xs ys h =
      let (y, e, h1) = bind-eq-ok (f x) _ h in
      let (rest, e2, h2) = bind-eq-ok (try_map f xs) _ h1 in (y, rest, e, e2, cc)

  -- Each result comes from an element, and each element has its result.
  pub Memᴰ-try_map :
      (f : A → Result B) (xs : List A) (ys : List B)
      → try_map f xs ≡ ok ys
      → (y : B) → Memᴰ y ys
      → (x : A) × Memᴰ x xs × (f x ≡ ok y)
  unfolding try_map
  Memᴰ-try_map f [] ys h y m = let none_left : ys ≡ [] = cc in elim (subst (Memᴰ y) none_left m) [ ]
  Memᴰ-try_map f (x ∷ xs) ys h y m =
      let (first, rest, e, e2, s) = try_map-cons f x xs ys h in
      elim (Memᴰ-cons (subst (Memᴰ y) s m)) [
        | inl q ↦ (x, Memᴰ.head refl, rw q e)
        | inr n ↦ let (z, found, made) = Memᴰ-try_map f xs rest e2 y n in (z, Memᴰ.tail found, made)
      ]

  pub try_map-Memᴰ :
      (f : A → Result B) (xs : List A) (ys : List B)
      → try_map f xs ≡ ok ys
      → (x : A) (y : B) → Memᴰ x xs
      → f x ≡ ok y
      → Memᴰ y ys
  unfolding try_map
  try_map-Memᴰ f [] ys h x y m e = elim m [ ]
  try_map-Memᴰ f (z ∷ xs) ys h x y m e =
      let (first, rest, e1, e2, s) = try_map-cons f z xs ys h in
      subst (Memᴰ y) (sym s) (elim (Memᴰ-cons m) [
        | inl q ↦ Memᴰ.head (same_result q e1 e)
        | inr n ↦ Memᴰ.tail (try_map-Memᴰ f xs rest e2 x y n e)
      ])
    where
      same_result : {a b : A} {c d : B} → a ≡ b → f b ≡ ok c → f a ≡ ok d → d ≡ c
      same_result q e1 e = cc

-- A loop that only checks.
unfoldable pub try_all {ℓ} : {A : Type ℓ} → (A → Result (Unit {0})) → List A → Result (Unit {0})
try_all f [] = ok tt
try_all f (x ∷ xs) = f x >> try_all f xs

pub try_all-Memᴰ {ℓ} :
    {A : Type ℓ} (f : A → Result (Unit {0})) {x : A} {xs : List A}
    → Memᴰ x xs
    → try_all f xs ≡ ok tt
    → f x ≡ ok tt
unfolding try_all
try_all-Memᴰ f (Memᴰ.head {x = y} {xs = ys} q) h =
    let (u, e, h1) = bind-eq-ok (f y) (λ _. try_all f ys) h in rw q e
try_all-Memᴰ f (Memᴰ.tail {x = y} {xs = ys} m) h =
    let (u, e, h1) = bind-eq-ok (f y) (λ _. try_all f ys) h in try_all-Memᴰ f m h1
