-- ===== src/Policy/Template/Token/Step.antt =====
-- The loop of `parse_str_to_template_tokens`: it ends, and leaves at most one reference's start and
-- one end.
use nmstate.Base.{
  Bool-cases, length, any, ◌==◌, Text, len_utf8, is_whitespace, trim, count, count-push, ℕ, zero,
  suc, ◌+◌, ◌≤◌, ◌≡◌, refl, inl, inr, false, some, List, [], ◌∷◌, ◌++◌, arith, nat_eq, bool_eq,
  list_eq, option_eq, int_eq, pair_eq,
}
use nmstate.Error.{Result, ok, err}
use nmstate.Policy.Template.Token.{
  NetworkTemplateToken, reference_start, reference_end, is_start, is_end, Scan, skip_whitespace,
  scan_start, scan_end, take_chars, is_brace, subline_token, push_subline, scan_text, scan_char,
  scan_all,
}

skip_whitespace-length : (pos : ℕ) (cs : Text) → length (skip_whitespace pos cs).1 ≤ length cs
unfolding skip_whitespace
skip_whitespace-length pos [] = omega arith
skip_whitespace-length pos (c ∷ cs) = elim (Bool-cases (is_whitespace c)) [
  | inl e ↦ rw e (omega (arith, skip_whitespace-length (pos + len_utf8 c) cs))
  | inr e ↦ rw e (omega arith)
]

pub take_chars-length : (pos : ℕ) (cs : Text) → length (take_chars pos cs).2 ≤ length cs
unfolding take_chars
take_chars-length pos [] = omega arith
take_chars-length pos (c ∷ cs) =
    let ih = take_chars-length (pos + len_utf8 c) cs in
    elim (Bool-cases (is_brace c)) [
      | inl e ↦ rw e (omega arith)
      | inr e ↦ elim (Bool-cases (is_whitespace c)) [
        | inl f ↦ rw (e, f) (omega arith)
        | inr f ↦ rw (e, f) (omega (arith, ih))
      ]
    ]

-- A token that is no reference.
abbrev pub IsText : NetworkTemplateToken → Type 0
IsText t = (is_start t ≡ false) × (is_end t ≡ false)

pub subline_token-IsText : (s : Text) (pos : ℕ) → IsText (subline_token s pos)
unfolding subline_token
subline_token-IsText s pos = ground arith

-- The tokens behind a round.
pub data Pushes (ret out : List NetworkTemplateToken) : Type 0 where
  nothing : out ≡ ret → Pushes ret out
  text : (t : NetworkTemplateToken) → out ≡ ret ++ (t ∷ []) → IsText t → Pushes ret out
  start :
      (n : ℕ) → out ≡ ret ++ (reference_start n ∷ []) → any is_start ret ≡ false → Pushes ret out
  stop : (n : ℕ) → out ≡ ret ++ (reference_end n ∷ []) → any is_end ret ≡ false → Pushes ret out

pub record Round (ret : List NetworkTemplateToken) (cs : Text) (s : Scan) : Type 0 where
  pub shorter : length s.rest ≤ length cs
  pub pushes : Pushes ret s.ret

scan_start-Round :
    (line : Text) (ret : List NetworkTemplateToken) (pos : ℕ) (cs : Text) (s : Scan)
    → scan_start line ret pos cs ≡ ok s
    → Round ret cs s
unfolding scan_start
scan_start-Round line ret pos [] s h = cc
scan_start-Round line ret pos (c ∷ cs) s h = elim (Bool-cases (c == b'{')) [
  | inr e ↦ cc (rw (scan_start, e) at h)
  | inl e ↦ elim (Bool-cases (any is_start ret)) [
    | inl f ↦ cc (rw (scan_start, e, f) at h)
    | inr f ↦
        let (next, rest) = skip_whitespace (pos + 1 + len_utf8 c) cs in
        let done : record { ret = ret ++ (reference_start pos ∷ []); next = next; rest = rest }
            ≡ s =
          cc (rw (scan_start, e, f) at h) in
        rw (← done) (record {
          shorter = omega (arith, skip_whitespace-length (pos + 1 + len_utf8 c) cs);
          pushes = Pushes.start pos refl f;
        })
  ]
]

scan_end-Round :
    (line : Text) (ret : List NetworkTemplateToken) (pos : ℕ) (cs : Text) (s : Scan)
    → scan_end line ret pos cs ≡ ok s
    → Round ret cs s
unfolding scan_end
scan_end-Round line ret pos [] s h = cc
scan_end-Round line ret pos (c ∷ cs) s h = elim (Bool-cases (c == b'}')) [
  | inr e ↦ cc (rw (scan_end, e) at h)
  | inl e ↦ elim (Bool-cases (any is_end ret)) [
    | inl f ↦ cc (rw (scan_end, e, f) at h)
    | inr f ↦
        let done : record {
          ret = ret ++ (reference_end pos ∷ []);
          next = pos + 1 + len_utf8 c;
          rest = cs;
        }
            ≡ s =
          cc (rw (scan_end, e, f) at h) in
        rw (← done) (record { shorter = omega arith; pushes = Pushes.stop pos refl f })
  ]
]

pub push_subline-Pushes :
    (ret : List NetworkTemplateToken) (pos : ℕ) (subline : Text)
    → Pushes ret (push_subline ret pos subline)
push_subline-Pushes ret pos [] = Pushes.nothing refl
push_subline-Pushes ret pos (c ∷ cs) =
    Pushes.text (subline_token (c ∷ cs) pos) refl (subline_token-IsText (c ∷ cs) pos)

pub scan_char-Round :
    (line : Text) (ret : List NetworkTemplateToken) (pos c : ℕ) (cs : Text) (s : Scan)
    → scan_char line ret pos c cs ≡ ok s
    → Round ret cs s
unfolding scan_char scan_text
scan_char-Round line ret pos c cs s h = elim (Bool-cases (c == b'{')) [
  | inl e ↦ scan_start-Round line ret pos cs s (rw (scan_char, e) at h)
  | inr e ↦ elim (Bool-cases (c == b'}')) [
    | inl f ↦ scan_end-Round line ret pos cs s (rw (scan_char, e, f) at h)
    | inr f ↦
        let done : scan_text ret pos c cs ≡ s = cc (rw (scan_char, e, f) at h) in
        rw (← done) (record {
          shorter = take_chars-length (pos + len_utf8 c) cs;
          pushes = push_subline-Pushes ret pos (trim (c ∷ (take_chars (pos + len_utf8 c) cs).0));
        })
  ]
]

-- At most one token is a reference's start, and at most one its end.
pub record HasOneReference (ts : List NetworkTemplateToken) : Type 0 where
  pub starts : count is_start ts ≤ 1
  pub ends : count is_end ts ≤ 1

Pushes-HasOneReference :
    (ret out : List NetworkTemplateToken)
    → Pushes ret out
    → HasOneReference ret
    → HasOneReference out
Pushes-HasOneReference ret out (Pushes.nothing e) h = rw e h
Pushes-HasOneReference ret out (Pushes.text t e (a, b)) h = rw e (record {
  starts = count-push is_start ret t h.starts (λ q. cc (a, q));
  ends = count-push is_end ret t h.ends (λ q. cc (b, q));
})
Pushes-HasOneReference ret out (Pushes.start n e f) h = rw e (record {
  starts = count-push is_start ret (reference_start n) h.starts (λ q. f);
  ends = count-push is_end ret (reference_start n) h.ends (λ q. cc);
})
Pushes-HasOneReference ret out (Pushes.stop n e f) h = rw e (record {
  starts = count-push is_start ret (reference_end n) h.starts (λ q. cc);
  ends = count-push is_end ret (reference_end n) h.ends (λ q. f);
})

-- The loop ends when the fuel is the length of the text, and leaves at most one reference.
pub scan_all-HasOneReference :
    (fuel : ℕ) (line : Text) (ret : List NetworkTemplateToken) (pos : ℕ) (cs : Text)
    → length cs ≤ fuel
    → HasOneReference ret
    → (r : Result (List NetworkTemplateToken)) × (scan_all fuel line ret pos cs ≡ some r)
      × ((out : List NetworkTemplateToken) → r ≡ ok out → HasOneReference out)
unfolding scan_all
scan_all-HasOneReference fuel line ret pos [] le h =
    (ok ret, refl, λ out e. let same : ret ≡ out = cc in rw (← same) h)
scan_all-HasOneReference zero line ret pos (c ∷ cs) le h = let no : ⊥ = omega arith in absurd no
scan_all-HasOneReference (suc fuel) line ret pos (c ∷ cs) le h =
    behind (scan_char line ret pos c cs) refl
      (λ s k l. scan_all-HasOneReference fuel line s.ret s.next s.rest k l)
  where
    behind :
        (r : Result Scan)
        → scan_char line ret pos c cs ≡ r
        → ((s : Scan)
            → length s.rest ≤ fuel
            → HasOneReference s.ret
            → (t : Result (List NetworkTemplateToken)) × (scan_all fuel line s.ret s.next s.rest
                ≡ some t)
              × ((out : List NetworkTemplateToken) → t ≡ ok out → HasOneReference out))
        → (t : Result (List NetworkTemplateToken)) × (elim r [
          | err e ↦ some (err e)
          | ok s ↦ scan_all fuel line s.ret s.next s.rest
        ]
            ≡ some t)
          × ((out : List NetworkTemplateToken) → t ≡ ok out → HasOneReference out)
    behind (err e) q ih = (err e, refl, λ out k. cc)
    behind (ok s) q ih =
        let round = scan_char-Round line ret pos c cs s q in
        ih s (omega (arith, round.shorter)) (Pushes-HasOneReference ret s.ret round.pushes h)
