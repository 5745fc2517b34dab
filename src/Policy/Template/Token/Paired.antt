-- ===== src/Policy/Template/Token/Paired.antt =====
-- The tokens that `parse_str_to_template_tokens` returns: a reference is paired.
use nmstate.Base.{
  Bool-cases, Option-cases, length, any, position, All, Text, count, count_none, count-append, ℕ,
  suc, ◌+◌, ◌≤◌, ◌≡◌, refl, sym, ap, ◌∙◌, ◌⊎◌, inl, inr, Bool, true, false, none, some, List, [],
  ◌∷◌, ◌++◌, arith,
}
use nmstate.Error.{Result, ok, err, ◌>>=◌}
use nmstate.Policy.Template.Token.{
  NetworkTemplateToken, value, path, reference_start, reference_end, is_start, is_end,
  check_between, check_paired, finish, parse_str_to_template_tokens,
}
use nmstate.Policy.Template.Token.Step.{IsText, HasOneReference, scan_all-HasOneReference}

-- One reference with one token inside, and no reference before or behind it.
pub record IsReference (ts : List NetworkTemplateToken) : Type 0 where
  pub before : List NetworkTemplateToken
  pub start_pos : ℕ
  pub inside : NetworkTemplateToken
  pub end_pos : ℕ
  pub behind : List NetworkTemplateToken
  pub tokens : ts ≡ before ++ (reference_start start_pos ∷ inside ∷ reference_end end_pos ∷ behind)
  pub before_texts : All IsText before
  pub inside_text : IsText inside
  pub behind_texts : All IsText behind

-- The first token of a kind, with what stands before it.
position-parts :
    (p : NetworkTemplateToken → Bool) (ts : List NetworkTemplateToken) (i : ℕ)
    → position p ts ≡ some i
    → (before : List NetworkTemplateToken) × (t : NetworkTemplateToken) × (behind : List
        NetworkTemplateToken)
      × (ts ≡ before ++ (t ∷ behind))
      × (length before ≡ i)
      × (p t ≡ true)
      × (any p before ≡ false)
unfolding position any
position-parts p [] i h = cc
position-parts p (t ∷ ts) i h = elim (Bool-cases (p t)) [
  | inl e ↦ let zero : 0 ≡ i = cc (rw (position, e) at h) in ([], t, ts, refl, zero, e, refl)
  | inr e ↦ elim (Option-cases (position p ts)) [
    | inl f ↦ cc (rw (position, e, f) at h)
    | inr (k, f) ↦
        let next : suc k ≡ i = cc (rw (position, e, f) at h) in
        let (before, u, behind, same, size, found, none_before) = position-parts p ts k f in
        (t ∷ before, u, behind, ap (λ r. t ∷ r) same, ap suc size ∙ next, found, rw e none_before)
  ]
]

position-none :
    (p : NetworkTemplateToken → Bool) (ts : List NetworkTemplateToken)
    → position p ts ≡ none
    → any p ts ≡ false
unfolding position any
position-none p [] h = refl
position-none p (t ∷ ts) h = elim (Bool-cases (p t)) [
  | inl e ↦ cc (rw (position, e) at h)
  | inr e ↦ elim (Option-cases (position p ts)) [
    | inl f ↦ rw e (position-none p ts f)
    | inr (k, f) ↦ cc (rw (position, e, f) at h)
  ]
]

-- Two splits of one list whose second one lies two elements further.
split-two :
    (a : List NetworkTemplateToken) (t : NetworkTemplateToken) (r : List NetworkTemplateToken)
    (b : List NetworkTemplateToken) (u : NetworkTemplateToken) (q : List NetworkTemplateToken)
    → a ++ (t ∷ r) ≡ b ++ (u ∷ q)
    → length b ≡ length a + 2
    → (m : NetworkTemplateToken) × (r ≡ m ∷ u ∷ q) × (b ≡ a ++ (t ∷ m ∷ []))
split-two [] t r [] u q h l = let no : ⊥ = omega (arith, l) in absurd no
split-two [] t r (x ∷ []) u q h l = let no : ⊥ = omega (arith, l) in absurd no
split-two [] t r (x ∷ y ∷ []) u q h l = (y, cc, cc)
split-two [] t r (x ∷ y ∷ z ∷ b) u q h l = let no : ⊥ = omega (arith, l) in absurd no
split-two (x ∷ a) t r [] u q h l = let no : ⊥ = omega (arith, l) in absurd no
split-two (x ∷ a) t r (y ∷ b) u q h l =
    let rest : a ++ (t ∷ r) ≡ b ++ (u ∷ q) = cc in
    let (m, e, f) = split-two a t r b u q rest (omega (arith, l)) in
    let first : x ≡ y = cc in (m, e, cc (first, f))

count_zero :
    (p : NetworkTemplateToken → Bool) (ts : List NetworkTemplateToken)
    → count p ts ≡ 0
    → All (λ t. p t ≡ false) ts
unfolding count
count_zero p [] h = tt
count_zero p (t ∷ ts) h = elim (Bool-cases (p t)) [
  | inl e ↦ let no : ⊥ = omega (arith, rw e at h) in absurd no
  | inr e ↦ (e, count_zero p ts (rw e at h))
]

All-both :
    (ts : List NetworkTemplateToken)
    → All (λ t. is_start t ≡ false) ts
    → All (λ t. is_end t ≡ false) ts
    → All IsText ts
All-both [] a b = tt
All-both (t ∷ ts) (a, as') (b, bs) = ((a, b), All-both ts as' bs)

count-around :
    (p : NetworkTemplateToken → Bool) (b : List NetworkTemplateToken) (t m u : NetworkTemplateToken)
    (r : List NetworkTemplateToken)
    → count p (b ++ (t ∷ m ∷ u ∷ r))
      ≡ count p b + (count p (t ∷ []) + (count p (m ∷ []) + (count p (u ∷ []) + count p r)))
count-around p b t m u r =
    rw
      (
        count-append p b (t ∷ m ∷ u ∷ r),
        count-append p (t ∷ []) (m ∷ u ∷ r),
        count-append p (m ∷ []) (u ∷ r),
        count-append p (u ∷ []) r,
      )
      refl

count_one :
    (p : NetworkTemplateToken → Bool) (t : NetworkTemplateToken) → p t ≡ true → count p (t ∷ []) ≡ 1
unfolding count
count_one p t e = rw e refl

-- Around an element of the kind there is no other.
count-others :
    (p : NetworkTemplateToken → Bool) (b : List NetworkTemplateToken) (t m u : NetworkTemplateToken)
    (r : List NetworkTemplateToken)
    → count p (b ++ (t ∷ m ∷ u ∷ r)) ≤ 1
    → (p t ≡ true) ⊎ (p u ≡ true)
    → All (λ x. p x ≡ false) b × (p m ≡ false) × All (λ x. p x ≡ false) r
count-others p b t m u r h k =
    let total = count-around p b t m u r in
    let some_one : 1 ≤ count p (t ∷ []) + count p (u ∷ []) = elim k [
      | inl e ↦ omega (arith, count_one p t e)
      | inr e ↦ omega (arith, count_one p u e)
    ] in
    (
      count_zero p b (omega (arith, total, some_one, h)),
      (count_zero p (m ∷ []) (omega (arith, total, some_one, h))).0,
      count_zero p r (omega (arith, total, some_one, h)),
    )

start-is : (t : NetworkTemplateToken) → is_start t ≡ true → (n : ℕ) × (t ≡ reference_start n)
start-is (reference_start n) h = (n, refl)
start-is (value s n) h = cc
start-is (path keys n) h = cc
start-is (reference_end n) h = cc

end-is : (t : NetworkTemplateToken) → is_end t ≡ true → (n : ℕ) × (t ≡ reference_end n)
end-is (reference_end n) h = (n, refl)
end-is (value s n) h = cc
end-is (path keys n) h = cc
end-is (reference_start n) h = cc

check_between_lem :
    (line : Text) (ts : List NetworkTemplateToken) (i j : ℕ)
    → check_between line ts i j ≡ ok tt
    → j ≡ i + 2
unfolding check_between
check_between_lem line ts i j h = ground arith

between-IsReference :
    (line : Text) (ts : List NetworkTemplateToken) (i j : ℕ)
    → HasOneReference ts
    → position is_start ts ≡ some i
    → position is_end ts ≡ some j
    → check_between line ts i j ≡ ok tt
    → IsReference ts
between-IsReference line ts i j one p q h =
    let (a, t, r, e, size, is_one, _) = position-parts is_start ts i p in
    let (b, u, behind, f, size', stop, _) = position-parts is_end ts j q in
    let (m, g, _) =
      split-two a t r b u behind (sym e ∙ f)
        (omega (arith, size, size', check_between_lem line ts i j h)) in
    let (n, t_is) = start-is t is_one in
    let (k, u_is) = end-is u stop in
    let whole : ts ≡ a ++ (t ∷ m ∷ u ∷ behind) = e ∙ ap (λ x. a ++ (t ∷ x)) g in
    let (a_start, m_start, r_start) =
      count-others is_start a t m u behind (rw whole at one.starts) (inl is_one) in
    let (a_end, m_end, r_end) =
      count-others is_end a t m u behind (rw whole at one.ends) (inr stop) in
    record {
      before = a;
      start_pos = n;
      inside = m;
      end_pos = k;
      behind = behind;
      tokens = rw (← t_is, ← u_is) whole;
      before_texts = All-both a a_start a_end;
      inside_text = (m_start, m_end);
      behind_texts = All-both behind r_start r_end;
    }

check_paired-IsReference :
    (line : Text) (ts : List NetworkTemplateToken)
    → HasOneReference ts
    → check_paired line ts ≡ ok tt
    → All IsText ts ⊎ IsReference ts
unfolding check_paired
check_paired-IsReference line ts one h = elim (Option-cases (position is_start ts)) [
  | inl e ↦ elim (Option-cases (position is_end ts)) [
    | inl f ↦ inl (
        All-both ts (count_zero is_start ts (count_none is_start ts (position-none is_start ts e)))
          (count_zero is_end ts (count_none is_end ts (position-none is_end ts f))))
    | inr (j, f) ↦ cc (rw (check_paired, e, f) at h)
  ]
  | inr (i, e) ↦ elim (Option-cases (position is_end ts)) [
    | inl f ↦ cc (rw (check_paired, e, f) at h)
    | inr (j, f) ↦ inr (between-IsReference line ts i j one e f (rw (check_paired, e, f) at h))
  ]
]

finish-check :
    (line : Text) (r : Result (List NetworkTemplateToken)) (out : List NetworkTemplateToken)
    → finish line r ≡ ok out
    → (r ≡ ok out) × (check_paired line out ≡ ok tt)
unfolding finish
finish-check line (err e) out h = cc
finish-check line (ok ret) out h = checked (check_paired line ret) refl h
  where
    checked :
        (k : Result (Unit {0}))
        → check_paired line ret ≡ k
        → (do check ← k; ok ret) ≡ ok out
        → (Result.ok ret ≡ ok out) × (check_paired line out ≡ ok tt)
    checked (err e) q k = cc
    checked (ok tt) q k = let same : ret ≡ out = cc in (k, rw (← same) q)

-- When `parse_str_to_template_tokens` succeeds, the tokens are all paths and values, or they are
-- one reference with exactly one path or value between its start and its end, and only paths and
-- values before and behind it.
pub parse_str_to_template_tokens-IsReference :
    (line : Text) (tokens : List NetworkTemplateToken)
    → parse_str_to_template_tokens line ≡ ok tokens
    → All IsText tokens ⊎ IsReference tokens
unfolding parse_str_to_template_tokens count
parse_str_to_template_tokens-IsReference line tokens h =
    let (r, e, one) =
      scan_all-HasOneReference (length line) line [] 0 line (omega arith)
        (record { starts = omega arith; ends = omega arith }) in
    let (done, checked) = finish-check line r tokens (rw (parse_str_to_template_tokens, e) at h) in
    check_paired-IsReference line tokens (one tokens done) checked
