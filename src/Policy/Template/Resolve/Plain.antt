-- ===== src/Policy/Template/Resolve/Plain.antt =====
-- A template without braces is taken as it is written.
use nmstate.Base.{
  Bool-cases, length, is_empty, position, All, All-append, ◌==◌, Text, len_utf8, is_whitespace,
  trim_start, trim_end, trim, ℕ, zero, suc, ◌+◌, ◌≤◌, ◌≡◌, refl, inl, inr, Bool, false, ◌&&◌,
  Option, none, some, List, [], ◌∷◌, arith, nat_eq, bool_eq, list_eq, option_eq, int_eq, pair_eq,
}
use nmstate.Error.{ok}
use nmstate.Json.{
  Value, Items, Fields, null, bool, number, string, array, object, nil, cons, end, field,
}
use nmstate.Policy.Template.Resolve.{
  resolve_tokens, resolve_string, resolve_capture_data, resolve_fields, resolve_items,
  fill_with_captured_data, or_invalid_argument,
}
use nmstate.Policy.Template.Token.{
  NetworkTemplateToken, is_start, is_end, take_chars, is_brace, push_subline, scan_text, scan_char,
  scan_all, check_paired, parse_str_to_template_tokens,
}
use nmstate.Policy.Template.Token.Step.{IsText, subline_token-IsText, take_chars-length}

-- Text without braces.
unfoldable pub IsPlain : Text → Type 0
IsPlain s = All (λ c. is_brace c ≡ false) s

trim_start-IsPlain : (s : Text) → IsPlain s → IsPlain (trim_start s)
unfolding trim_start IsPlain
trim_start-IsPlain [] h = tt
trim_start-IsPlain (c ∷ cs) h = elim (Bool-cases (is_whitespace c)) [
  | inl e ↦ rw e (trim_start-IsPlain cs h.1)
  | inr e ↦ rw e h
]

trim_end-IsPlain : (s : Text) → IsPlain s → IsPlain (trim_end s)
unfolding trim_end IsPlain
trim_end-IsPlain [] h = tt
trim_end-IsPlain (c ∷ cs) h = elim (Bool-cases (is_empty (trim_end cs) && is_whitespace c)) [
  | inl e ↦ rw e tt
  | inr e ↦ rw e (h.0, trim_end-IsPlain cs h.1)
]

trim-IsPlain : (s : Text) → IsPlain s → IsPlain (trim s)
unfolding trim
trim-IsPlain s h = trim_end-IsPlain (trim_start s) (trim_start-IsPlain s h)

take_chars-IsPlain : (pos : ℕ) (cs : Text) → IsPlain cs → IsPlain (take_chars pos cs).2
unfolding take_chars IsPlain
take_chars-IsPlain pos [] h = tt
take_chars-IsPlain pos (c ∷ cs) h = elim (Bool-cases (is_brace c)) [
  | inl e ↦ rw e h
  | inr e ↦ elim (Bool-cases (is_whitespace c)) [
    | inl f ↦ rw (e, f) h.1
    | inr f ↦ rw (e, f) (take_chars-IsPlain (pos + len_utf8 c) cs h.1)
  ]
]

push_subline-IsText :
    (ret : List NetworkTemplateToken) (pos : ℕ) (s : Text)
    → All IsText ret
    → All IsText (push_subline ret pos s)
push_subline-IsText ret pos [] h = h
push_subline-IsText ret pos (c ∷ cs) h =
    All-append IsText ret _ h (subline_token-IsText (c ∷ cs) pos, tt)

scan_char-IsPlain :
    (line : Text) (ret : List NetworkTemplateToken) (pos c : ℕ) (cs : Text)
    → is_brace c ≡ false
    → scan_char line ret pos c cs ≡ ok (scan_text ret pos c cs)
unfolding scan_char
scan_char-IsPlain line ret pos c cs h = elim (Bool-cases (c == b'{')) [
  | inl e ↦ cc (rw e at h)
  | inr e ↦ elim (Bool-cases (c == b'}')) [
    | inl f ↦ cc (rw (e, f) at h)
    | inr f ↦ rw (scan_char, e, f) refl
  ]
]

scan_text-IsPlain :
    (ret : List NetworkTemplateToken) (pos c : ℕ) (cs : Text)
    → IsPlain cs
    → All IsText ret
    → (length (scan_text ret pos c cs).rest ≤ length cs)
      × IsPlain (scan_text ret pos c cs).rest
      × All IsText (scan_text ret pos c cs).ret
unfolding scan_text
scan_text-IsPlain ret pos c cs h t = (
  take_chars-length (pos + len_utf8 c) cs,
  take_chars-IsPlain (pos + len_utf8 c) cs h,
  push_subline-IsText ret pos (trim (c ∷ (take_chars (pos + len_utf8 c) cs).0)) t,
)

scan_all-IsPlain :
    (fuel : ℕ) (line : Text) (ret : List NetworkTemplateToken) (pos : ℕ) (cs : Text)
    → length cs ≤ fuel
    → IsPlain cs
    → All IsText ret
    → (out : List NetworkTemplateToken) × (scan_all fuel line ret pos cs ≡ some (ok out))
      × All IsText out
unfolding scan_all IsPlain
scan_all-IsPlain fuel line ret pos [] le h t = (ret, refl, t)
scan_all-IsPlain zero line ret pos (c ∷ cs) le h t = let no : ⊥ = omega arith in absurd no
scan_all-IsPlain (suc fuel) line ret pos (c ∷ cs) le h t =
    let s = scan_text ret pos c cs in
    let (short, plain, texts) = scan_text-IsPlain ret pos c cs h.1 t in
    let (out, e, k) =
      scan_all-IsPlain fuel line s.ret s.next s.rest (omega (arith, short)) plain texts in
    (out, rw (scan_all, scan_char-IsPlain line ret pos c cs h.0) e, k)

position-IsText :
    (p : NetworkTemplateToken → Bool) (ts : List NetworkTemplateToken)
    → All (λ t. p t ≡ false) ts
    → position p ts ≡ none
unfolding position
position-IsText p [] h = refl
position-IsText p (t ∷ ts) h = rw (h.0, position-IsText p ts h.1) refl

All-starts : (ts : List NetworkTemplateToken) → All IsText ts → All (λ t. is_start t ≡ false) ts
All-starts [] h = tt
All-starts (t ∷ ts) h = (h.0.0, All-starts ts h.1)

All-ends : (ts : List NetworkTemplateToken) → All IsText ts → All (λ t. is_end t ≡ false) ts
All-ends [] h = tt
All-ends (t ∷ ts) h = (h.0.1, All-ends ts h.1)

parse-IsPlain :
    (line : Text)
    → IsPlain line
    → (out : List NetworkTemplateToken) × (parse_str_to_template_tokens line ≡ ok out)
      × (position is_start out ≡ none)
unfolding parse_str_to_template_tokens check_paired
parse-IsPlain line h =
    let (out, e, t) = scan_all-IsPlain (length line) line [] 0 line (omega arith) h tt in
    let no_start = position-IsText is_start out (All-starts out t) in
    let no_end = position-IsText is_end out (All-ends out t) in
    (out, rw (parse_str_to_template_tokens, e, check_paired, no_start, no_end) refl, no_start)

-- A JSON value none of whose strings has a brace; keys may have braces.
unfoldable mutual
  pub IsPlainValue : Value → Type 0
  IsPlainValue (string s) = IsPlain s
  IsPlainValue (object m) = ArePlainFields m
  IsPlainValue (array xs) = ArePlainItems xs
  IsPlainValue _ = Unit

  pub ArePlainFields : Fields → Type 0
  ArePlainFields end = Unit
  ArePlainFields (field k v m) = IsPlainValue v × ArePlainFields m

  pub ArePlainItems : Items → Type 0
  ArePlainItems nil = Unit
  ArePlainItems (cons v xs) = IsPlainValue v × ArePlainItems xs

module _ {ℓ} {State : Type ℓ} (to_value : State → Option Value) where
  resolve_string-IsPlain :
      (s : Text) (captures : List (Text × State))
      → IsPlain s
      → resolve_string to_value s captures ≡ ok none
  unfolding resolve_string resolve_tokens
  resolve_string-IsPlain s captures h =
      let (out, e, none_there) = parse-IsPlain (trim s) (trim-IsPlain s h) in
      rw (resolve_string, e, resolve_tokens, none_there) refl

  mutual
    unfolding resolve_capture_data IsPlainValue

    resolve_value-IsPlain :
        (v : Value) (captures : List (Text × State))
        → IsPlainValue v
        → resolve_capture_data to_value v captures ≡ ok (v, none)
    resolve_value-IsPlain (string s) captures h = rw (resolve_string-IsPlain s captures h) refl
    resolve_value-IsPlain (object m) captures h = rw (resolve_fields-ArePlain m captures h) refl
    resolve_value-IsPlain (array xs) captures h = rw (resolve_items-ArePlain xs captures h) refl
    resolve_value-IsPlain null captures h = refl
    resolve_value-IsPlain (bool b) captures h = refl
    resolve_value-IsPlain (number n) captures h = refl

    resolve_fields-ArePlain :
        (m : Fields) (captures : List (Text × State))
        → ArePlainFields m
        → resolve_fields to_value m captures ≡ ok m
    resolve_fields-ArePlain end captures h = refl
    resolve_fields-ArePlain (field k v m) captures h =
        rw (resolve_value-IsPlain v captures h.0, resolve_fields-ArePlain m captures h.1) refl

    resolve_items-ArePlain :
        (xs : Items) (captures : List (Text × State))
        → ArePlainItems xs
        → resolve_items to_value xs captures ≡ ok xs
    resolve_items-ArePlain nil captures h = refl
    resolve_items-ArePlain (cons v xs) captures h =
        rw (resolve_value-IsPlain v captures h.0, resolve_items-ArePlain xs captures h.1) refl

  -- A template none of whose strings has a brace is converted as it is written, whatever the
  -- captures are: the tokenizer returns no error on any of its strings, and nothing is replaced.
  pub fill_with_captured_data-ArePlain :
      (from_value : Value → Option State) (m : Fields) (captures : List (Text × State))
      → ArePlainFields m
      → fill_with_captured_data to_value from_value m captures
        ≡ or_invalid_argument to_value (from_value (object m))
  unfolding fill_with_captured_data
  fill_with_captured_data-ArePlain from_value m captures h =
      rw (fill_with_captured_data, resolve_fields-ArePlain m captures h) refl
