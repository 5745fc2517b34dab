-- ===== src/Policy/Token/Step.antt =====
-- What one round of the tokenizer does: it takes characters, and pushes at most one token.
use nmstate.Base.{
  Bool-cases, length, is_empty, any, ◌==◌, ==→≡, contains, Text, len_utf8, byte_length,
  is_whitespace, trim, ℕ, ◌+◌, ◌≤◌, ◌<◌, ◌≡◌, refl, inl, inr, Bool, true, false, List, [], ◌∷◌,
  ◌++◌, arith, nat_eq, bool_eq, list_eq, option_eq, int_eq, pair_eq,
}
use nmstate.Error.{ok}
use nmstate.Policy.Token.{
  NetworkCaptureToken, token_pos, is_pipe, is_replace, is_equal, Scan, push, scan_pair, take_quoted,
  take_block, word_token, push_quoted, scan_word, value, pipe, equal, replace, scan_char,
  lacks_quote, next_token_start_chars,
}

-- Reading from `pos` on leaves `rest` at `next`.
pub record Reads (pos : ℕ) (cs : Text) (next : ℕ) (rest : Text) : Type 0 where
  pub forward : pos ≤ next
  pub bytes : next + byte_length rest ≡ pos + byte_length cs
  pub shorter : length rest ≤ length cs

-- The list has no token yet of the kinds that may occur once.
pub record IsNew (ret : List NetworkCaptureToken) (t : NetworkCaptureToken) : Type 0 where
  pub one_equal : is_equal t ≡ true → any is_equal ret ≡ false
  pub one_replace : is_replace t ≡ true → any is_replace ret ≡ false
  pub one_pipe : is_pipe t ≡ true → any is_pipe ret ≡ false

-- The tokens after a round that starts at `pos` and ends before `next`.
pub data Pushes (ret : List NetworkCaptureToken) (pos next : ℕ) (out : List NetworkCaptureToken)
    : Type 0 where
  nothing : out ≡ ret → Pushes ret pos next out
  one :
      (t : NetworkCaptureToken)
      → out ≡ ret ++ (t ∷ [])
      → pos ≤ token_pos t
      → token_pos t < next
      → IsNew ret t
      → Pushes ret pos next out

pub record Round (ret : List NetworkCaptureToken) (pos c : ℕ) (cs : Text) (s : Scan) : Type 0 where
  pub forward : pos < s.next
  pub bytes : s.next + byte_length s.rest ≡ pos + byte_length (c ∷ cs)
  pub shorter : length s.rest ≤ length cs
  pub pushes : Pushes ret pos s.next s.ret

pub len_utf8_pos : (c : ℕ) → 0 < len_utf8 c
unfolding len_utf8
len_utf8_pos c = ground arith

take_quoted-Reads :
    (pos : ℕ) (cs : Text)
    → Reads pos cs (take_quoted pos cs).1 (take_quoted pos cs).2
      × (is_empty (take_quoted pos cs).0 ≡ false → pos < (take_quoted pos cs).1)
unfolding take_quoted byte_length
take_quoted-Reads pos [] =
    (record { forward = omega arith; bytes = refl; shorter = omega arith }, λ h. cc)
take_quoted-Reads pos (c ∷ cs) =
    let ih = (take_quoted-Reads (pos + len_utf8 c) cs).0 in
    let w = len_utf8_pos c in
    elim (Bool-cases (c == b'"')) [
      | inl e ↦
          rw e
            (record { forward = omega arith; bytes = omega arith; shorter = omega arith }, λ h. cc)
      | inr e ↦ rw e (
        record {
          forward = omega (arith, ih.forward);
          bytes = omega (arith, ih.bytes);
          shorter = omega (arith, ih.shorter);
        },
        λ h. omega (arith, ih.forward),
      )
    ]

take_block-Reads : (pos : ℕ) (cs : Text) → Reads pos cs (take_block pos cs).1 (take_block pos cs).2
unfolding take_block byte_length
take_block-Reads pos [] = record { forward = omega arith; bytes = refl; shorter = omega arith }
take_block-Reads pos (c ∷ cs) =
    let ih = take_block-Reads (pos + len_utf8 c) cs in
    elim (Bool-cases (contains next_token_start_chars c)) [
      | inl e ↦ rw e (record { forward = omega arith; bytes = refl; shorter = omega arith })
      | inr e ↦ rw e (record {
        forward = omega (arith, ih.forward);
        bytes = omega (arith, ih.bytes);
        shorter = omega (arith, ih.shorter);
      })
    ]

-- A token of a kind that may occur more than once.
abbrev IsPlain : NetworkCaptureToken → Type 0
IsPlain t = (is_equal t ≡ false) × (is_replace t ≡ false) × (is_pipe t ≡ false)

IsPlain-IsNew : (ret : List NetworkCaptureToken) (t : NetworkCaptureToken) → IsPlain t → IsNew ret t
IsPlain-IsNew ret t (a, b, d) = record {
  one_equal = λ h. cc;
  one_replace = λ h. cc;
  one_pipe = λ h. cc;
}

word_token-IsPlain :
    (block : Text) (pos : ℕ)
    → IsPlain (word_token block pos) × (token_pos (word_token block pos) ≡ pos)
unfolding word_token
word_token-IsPlain block pos = ground arith

scan_pair-Round :
    (line : Text) (same : NetworkCaptureToken → Bool) (token : ℕ → NetworkCaptureToken)
    (ret : List NetworkCaptureToken) (pos c : ℕ) (cs : Text) (s : Scan)
    → len_utf8 c ≡ 1
    → token_pos (token pos) ≡ pos
    → (any same ret ≡ false → IsNew ret (token pos))
    → scan_pair line same token ret pos cs ≡ ok s
    → Round ret pos c cs s
unfolding scan_pair byte_length
scan_pair-Round line same token ret pos c [] s w p n h = cc
scan_pair-Round line same token ret pos c (d ∷ cs) s w p n h = elim (Bool-cases (d == b'=')) [
  | inr e ↦ cc (rw e at h)
  | inl e ↦ elim (Bool-cases (any same ret)) [
    | inl f ↦ cc (rw (e, f) at h)
    | inr f ↦
        let done : push ret (token pos) (pos + 1 + len_utf8 d) cs ≡ s = cc (rw (e, f) at h) in
        rw (← done) (record {
          forward = omega arith;
          bytes = omega arith;
          shorter = omega arith;
          pushes = Pushes.one (token pos) refl (omega (arith, p)) (omega (arith, p)) (n f);
        })
  ]
]

char-width : (c d : ℕ) → (c == d) ≡ true → len_utf8 d ≡ 1 → len_utf8 c ≡ 1
char-width c d e w = rw (==→≡ c d e) w

push_quoted-Round :
    (ret : List NetworkCaptureToken) (pos c : ℕ) (cs : Text)
    → len_utf8 c ≡ 1
    → Round ret pos c cs (push_quoted ret pos (take_quoted (pos + len_utf8 c) cs))
unfolding byte_length
push_quoted-Round ret pos c cs w =
    let (reads, opened) = take_quoted-Reads (pos + len_utf8 c) cs in
    elim (Bool-cases (is_empty (take_quoted (pos + len_utf8 c) cs).0)) [
      | inl e ↦ rw e (record {
        forward = omega (arith, reads.forward, w);
        bytes = omega (arith, reads.bytes);
        shorter = reads.shorter;
        pushes = Pushes.nothing refl;
      })
      | inr e ↦ rw e (record {
        forward = omega (arith, reads.forward, w);
        bytes = omega (arith, reads.bytes);
        shorter = reads.shorter;
        pushes =
            Pushes.one (value (take_quoted (pos + len_utf8 c) cs).0 (pos + 1)) refl (omega arith)
              (omega (arith, opened e, w))
              (IsPlain-IsNew ret (value (take_quoted (pos + len_utf8 c) cs).0 (pos + 1))
                (refl, refl, refl));
      })
    ]

scan_word-Round :
    (ret : List NetworkCaptureToken) (pos c : ℕ) (cs : Text)
    → Round ret pos c cs (scan_word ret pos c cs)
unfolding scan_word byte_length
scan_word-Round ret pos c cs =
    let reads = take_block-Reads (pos + len_utf8 c) cs in
    let w = len_utf8_pos c in
    let block = trim (c ∷ (take_block (pos + len_utf8 c) cs).0) in
    let (plain, at) = word_token-IsPlain block pos in
    elim (Bool-cases (is_empty block)) [
      | inl e ↦ rw e (record {
        forward = omega (arith, reads.forward);
        bytes = omega (arith, reads.bytes);
        shorter = reads.shorter;
        pushes = Pushes.nothing refl;
      })
      | inr e ↦ rw e (record {
        forward = omega (arith, reads.forward);
        bytes = omega (arith, reads.bytes);
        shorter = reads.shorter;
        pushes =
            Pushes.one (word_token block pos) refl (omega (arith, at))
              (omega (arith, at, reads.forward)) (IsPlain-IsNew ret (word_token block pos) plain);
      })
    ]

pub scan_char-Round :
    (line : Text) (ret : List NetworkCaptureToken) (pos c : ℕ) (cs : Text) (s : Scan)
    → scan_char line ret pos c cs ≡ ok s
    → Round ret pos c cs s
unfolding scan_char byte_length
scan_char-Round line ret pos c cs s h =
    let w = len_utf8_pos c in
    elim (Bool-cases (c == b'=')) [
      | inl e ↦
          scan_pair-Round line is_equal equal ret pos c cs s (char-width c b'=' e refl) refl
            (λ n. record { one_equal = λ t. n; one_replace = λ t. cc; one_pipe = λ t. cc })
            (rw e at h)
      | inr e ↦ elim (Bool-cases (c == b'|')) [
        | inl f ↦ elim (Bool-cases (any is_pipe ret)) [
          | inl g ↦ cc (rw (e, f, g) at h)
          | inr g ↦
              let done : push ret (pipe pos) (pos + len_utf8 c) cs ≡ s = cc (rw (e, f, g) at h) in
              rw (← done) (record {
                forward = omega arith;
                bytes = omega arith;
                shorter = omega arith;
                pushes =
                    Pushes.one (pipe pos) refl (omega arith) (omega arith)
                      (record { one_equal = λ t. cc; one_replace = λ t. cc; one_pipe = λ t. g });
              })
        ]
        | inr f ↦ elim (Bool-cases (c == b':')) [
          | inl g ↦
              scan_pair-Round line is_replace replace ret pos c cs s (char-width c b':' g refl) refl
                (λ n. record { one_equal = λ t. cc; one_replace = λ t. n; one_pipe = λ t. cc })
                (rw (e, f, g) at h)
          | inr g ↦ elim (Bool-cases (c == b'"')) [
            | inl q ↦ elim (Bool-cases (lacks_quote line pos)) [
              | inl k ↦ cc (rw (e, f, g, q, k) at h)
              | inr k ↦
                  let done : push_quoted ret pos (take_quoted (pos + len_utf8 c) cs) ≡ s =
                    cc (rw (e, f, g, q, k) at h) in
                  rw (← done) (push_quoted-Round ret pos c cs (char-width c b'"' q refl))
            ]
            | inr q ↦ elim (Bool-cases (is_whitespace c)) [
              | inl k ↦
                  let done : record { ret = ret; next = pos + len_utf8 c; rest = cs } ≡ s =
                    cc (rw (e, f, g, q, k) at h) in
                  rw (← done) (record {
                    forward = omega arith;
                    bytes = omega arith;
                    shorter = omega arith;
                    pushes = Pushes.nothing refl;
                  })
              | inr k ↦
                  let done : scan_word ret pos c cs ≡ s = cc (rw (e, f, g, q, k) at h) in
                  rw (← done) (scan_word-Round ret pos c cs)
            ]
          ]
        ]
      ]
    ]
