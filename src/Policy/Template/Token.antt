-- ===== src/Policy/Template/Token.antt =====
-- `NetworkTemplateToken` and `parse_str_to_template_tokens` of rust/src/lib/policy/token.rs.
pub mod Step
pub mod Paired
use nmstate.Base.{
  leb, if◌then◌else◌, unwrap_or, length, get_elem?, is_empty, any, position, ◌==◌, contains, Text,
  split, len_utf8, is_whitespace, trim, ℕ, zero, suc, ◌+◌, ◌-◌, Bool, true, false, not, ◌&&◌, ◌||◌,
  Option, none, some, List, [], ◌∷◌, ◌++◌, nat_eq, bool_eq, list_eq, option_eq, int_eq, pair_eq,
}
use nmstate.Error.{Result, ok, err, ◌>>=◌, new_error, new_policy_error, bug}

pub data NetworkTemplateToken : Type 0 where
  value : Text → ℕ → NetworkTemplateToken
  reference_start : ℕ → NetworkTemplateToken
  path : List Text → ℕ → NetworkTemplateToken
  reference_end : ℕ → NetworkTemplateToken

abbrev pub token_pos : NetworkTemplateToken → ℕ
token_pos (value s n) = n
token_pos (reference_start n) = n
token_pos (path keys n) = n
token_pos (reference_end n) = n

abbrev pub is_start : NetworkTemplateToken → Bool
is_start (reference_start n) = true
is_start _ = false

abbrev pub is_end : NetworkTemplateToken → Bool
is_end (reference_end n) = true
is_end _ = false

-- The tokens so far, the position of the next character, and the text that is left.
pub record Scan : Type 0 where
  pub ret : List NetworkTemplateToken
  pub next : ℕ
  pub rest : Text

-- The loop over the white space behind `{{`.
unfoldable pub skip_whitespace : ℕ → Text → ℕ × Text
unfolding is_whitespace len_utf8
skip_whitespace pos [] = (pos, [])
skip_whitespace pos (c ∷ cs) =
    let behind = skip_whitespace (pos + len_utf8 c) cs in
    if is_whitespace c then behind else (pos, c ∷ cs)

-- The arms of `{` and `}`, behind the first brace at `pos`.
unfoldable pub scan_start : Text → List NetworkTemplateToken → ℕ → Text → Result Scan
unfolding skip_whitespace
scan_start line ret pos [] = err (new_policy_error line pos)
scan_start line ret pos (c ∷ cs) =
    let (next, rest) = skip_whitespace (pos + 1 + len_utf8 c) cs in
    if c == b'{'
    then if any is_start ret
      then err (new_policy_error line pos)
      else ok (record { ret = ret ++ (reference_start pos ∷ []); next = next; rest = rest })
    else err (new_policy_error line pos)

unfoldable pub scan_end : Text → List NetworkTemplateToken → ℕ → Text → Result Scan
scan_end line ret pos [] = err (new_policy_error line pos)
scan_end line ret pos (c ∷ cs) =
    if c == b'}'
    then if any is_end ret
      then err (new_policy_error line pos)
      else ok
          (record { ret = ret ++ (reference_end pos ∷ []); next = pos + 1 + len_utf8 c; rest = cs })
    else err (new_policy_error line pos)

abbrev pub is_brace : ℕ → Bool
is_brace c = (c == b'{') || (c == b'}')

-- The loop of the last arm: it stops before a brace and behind white space.
unfoldable pub take_chars : ℕ → Text → Text × ℕ × Text
unfolding is_whitespace len_utf8
take_chars pos [] = ([], pos, [])
take_chars pos (c ∷ cs) =
    let (chars, next, rest) = take_chars (pos + len_utf8 c) cs in
    if is_brace c
    then ([], pos, c ∷ cs)
    else if is_whitespace c
    then ([], pos + len_utf8 c, cs)
    else (c ∷ chars, next, rest)

abbrev pub starts_with_dot : Text → Bool
starts_with_dot [] = false
starts_with_dot (c ∷ cs) = c == b'.'

unfoldable pub subline_token : Text → ℕ → NetworkTemplateToken
subline_token subline pos =
    if contains subline b'.' && not (starts_with_dot subline)
    then path (split b'.' subline) pos
    else value subline pos

abbrev pub push_subline : List NetworkTemplateToken → ℕ → Text → List NetworkTemplateToken
push_subline ret pos subline =
    if is_empty subline then ret else ret ++ (subline_token subline pos ∷ [])

unfoldable pub scan_text : List NetworkTemplateToken → ℕ → ℕ → Text → Scan
unfolding take_chars trim push_subline subline_token
scan_text ret pos c cs =
    let (chars, next, rest) = take_chars (pos + len_utf8 c) cs in
    record { ret = push_subline ret pos (trim (c ∷ chars)); next = next; rest = rest }

-- The body of the loop, at the character `c` at `pos`.
unfoldable pub scan_char : Text → List NetworkTemplateToken → ℕ → ℕ → Text → Result Scan
unfolding scan_start scan_end scan_text
scan_char line ret pos c cs =
    if c == b'{'
    then scan_start line ret pos cs
    else if c == b'}'
    then scan_end line ret pos cs
    else ok (scan_text ret pos c cs)

-- The loop. Each round takes a character; `none` is for fuel that ran out.
unfoldable pub scan_all :
    ℕ → Text → List NetworkTemplateToken → ℕ → Text → Option (Result (List NetworkTemplateToken))
unfolding scan_char
scan_all fuel line ret pos [] = some (ok ret)
scan_all zero line ret pos (c ∷ cs) = none
scan_all (suc fuel) line ret pos (c ∷ cs) = elim (scan_char line ret pos c cs) [
  | err e ↦ some (err e)
  | ok s ↦ scan_all fuel line s.ret s.next s.rest
]

-- `ret[i].pos()`
unfoldable pub pos_at : List NetworkTemplateToken → ℕ → ℕ
pos_at ret i = elim (get_elem? ret i) [ some t ↦ token_pos t | none ↦ 0 ]

-- The checks of a reference's start and end, by their indices.
unfoldable pub check_between : Text → List NetworkTemplateToken → ℕ → ℕ → Result (Unit {0})
unfolding pos_at
check_between line ret i j =
    if leb j i
    then err (new_policy_error line (pos_at ret j))
    else if leb j (i + 1)
    then err (new_policy_error line (pos_at ret j - 1))
    else if i + 2 == j
    then ok tt
    else err (new_policy_error line (pos_at ret (i + 2)))

unfoldable pub check_paired : Text → List NetworkTemplateToken → Result (Unit {0})
unfolding check_between position
check_paired line ret = elim (position is_start ret) [
  | some i ↦ elim (position is_end ret) [
    | none ↦ err (new_policy_error line (pos_at ret i))
    | some j ↦ check_between line ret i j
  ]
  | none ↦ elim (position is_end ret) [
    | none ↦ ok tt
    | some j ↦ err (new_policy_error line (pos_at ret j))
  ]
]

abbrev pub finish : Text → Result (List NetworkTemplateToken) → Result (List NetworkTemplateToken)
unfolding check_paired
finish line scanned = do ret ← scanned; check ← check_paired line ret; ok ret

unfoldable pub parse_str_to_template_tokens : Text → Result (List NetworkTemplateToken)
unfolding scan_all finish
parse_str_to_template_tokens line =
    finish line (unwrap_or (scan_all (length line) line [] 0 line) (err (new_error bug)))
