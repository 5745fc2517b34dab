-- ===== src/Policy/Token.antt =====
-- The capture rules of rust/src/lib/policy/token.rs, `parse_str_to_capture_tokens`. The iterator
-- over the characters of a line is the byte position of the next one and the text that is left.
pub mod Step
pub mod Order
use nmstate.Base.{
  leb, if◌then◌else◌, unwrap_or, length, drop, is_empty, any, ◌==◌, contains, Text, codes, split,
  len_utf8, is_whitespace, trim, to_lowercase, ℕ, zero, suc, ◌+◌, Bool, true, false, not, ◌||◌,
  Option, none, some, List, [], ◌∷◌, ◌++◌, nat_eq, bool_eq, list_eq, option_eq, int_eq, pair_eq,
}
use nmstate.Error.{Result, ok, err, ◌>>=◌, new_error, new_policy_error, bug}

pub data NetworkCaptureToken : Type 0 where
  path : List Text → ℕ → NetworkCaptureToken
  value : Text → ℕ → NetworkCaptureToken
  pipe replace equal null : ℕ → NetworkCaptureToken

abbrev pub token_pos : NetworkCaptureToken → ℕ
token_pos (path p n) = n
token_pos (value v n) = n
token_pos (pipe n) = n
token_pos (replace n) = n
token_pos (equal n) = n
token_pos (null n) = n

abbrev pub is_path : NetworkCaptureToken → Bool
is_path (path p n) = true
is_path _ = false

abbrev pub is_pipe : NetworkCaptureToken → Bool
is_pipe (pipe n) = true
is_pipe _ = false

abbrev pub is_replace : NetworkCaptureToken → Bool
is_replace (replace n) = true
is_replace _ = false

abbrev pub is_equal : NetworkCaptureToken → Bool
is_equal (equal n) = true
is_equal _ = false

abbrev pub next_token_start_chars : List ℕ
next_token_start_chars = b' ' ∷ b'=' ∷ b'!' ∷ b'|' ∷ b'"' ∷ b':' ∷ []

-- The tokens so far, the position of the next character, and the text that is left.
pub record Scan : Type 0 where
  pub ret : List NetworkCaptureToken
  pub next : ℕ
  pub rest : Text

-- `ret.push(token)`, before the characters that are left.
abbrev pub push : List NetworkCaptureToken → NetworkCaptureToken → ℕ → Text → Scan
push ret token next rest = record { ret = ret ++ (token ∷ []); next = next; rest = rest }

-- The tokens of two characters, `==` and `:=`, behind the first one at `pos`.
unfoldable pub scan_pair :
    Text
    → (NetworkCaptureToken → Bool)
    → (ℕ → NetworkCaptureToken)
    → List NetworkCaptureToken
    → ℕ
    → Text
    → Result Scan
scan_pair line same token ret pos [] = err (new_policy_error line pos)
scan_pair line same token ret pos (c ∷ rest) =
    if c == b'='
    then if any same ret
      then err (new_policy_error line pos)
      else ok (push ret (token pos) (pos + 1 + len_utf8 c) rest)
    else err (new_policy_error line (pos + 1))

-- The text up to the next double quote, the position behind it, and the text behind it.
unfoldable pub take_quoted : ℕ → Text → Text × ℕ × Text
unfolding len_utf8
take_quoted pos [] = ([], pos, [])
take_quoted pos (c ∷ cs) =
    let (quoted, next, rest) = take_quoted (pos + len_utf8 c) cs in
    if c == b'"' then ([], pos + len_utf8 c, cs) else (c ∷ quoted, next, rest)

-- The test before a quoted value: the byte position is used on the vector of characters.
abbrev pub lacks_quote : Text → ℕ → Bool
lacks_quote line pos = leb (length line) (pos + 1) || not (contains (drop (pos + 1) line) b'"')

abbrev pub push_quoted : List NetworkCaptureToken → ℕ → Text × ℕ × Text → Scan
push_quoted ret pos (quoted, next, rest) =
    if is_empty quoted
    then record { ret = ret; next = next; rest = rest }
    else push ret (value quoted (pos + 1)) next rest

-- `consume_till_next_token` behind the first character: the text taken, and what is left.
unfoldable pub take_block : ℕ → Text → Text × ℕ × Text
unfolding len_utf8
take_block pos [] = ([], pos, [])
take_block pos (c ∷ cs) =
    let (block, next, rest) = take_block (pos + len_utf8 c) cs in
    if contains next_token_start_chars c then ([], pos, c ∷ cs) else (c ∷ block, next, rest)

unfoldable pub word_token : Text → ℕ → NetworkCaptureToken
word_token block pos =
    if contains block b'.'
    then path (split b'.' block) pos
    else if to_lowercase block == codes "null"
    then null pos
    else value block pos

abbrev pub push_word : List NetworkCaptureToken → ℕ → Text → ℕ → Text → Scan
push_word ret pos block next rest =
    if is_empty block
    then record { ret = ret; next = next; rest = rest }
    else push ret (word_token block pos) next rest

unfoldable pub scan_word : List NetworkCaptureToken → ℕ → ℕ → Text → Scan
unfolding take_block len_utf8 trim word_token
scan_word ret pos c cs =
    let (block, next, rest) = take_block (pos + len_utf8 c) cs in
    push_word ret pos (trim (c ∷ block)) next rest

-- The body of the loop, at the character `c` at `pos`.
unfoldable pub scan_char : Text → List NetworkCaptureToken → ℕ → ℕ → Text → Result Scan
unfolding scan_pair take_quoted is_whitespace scan_word
scan_char line ret pos c cs =
    if c == b'='
    then scan_pair line is_equal equal ret pos cs
    else if c == b'|'
    then if any is_pipe ret
      then err (new_policy_error line pos)
      else ok (push ret (pipe pos) (pos + len_utf8 c) cs)
    else if c == b':'
    then scan_pair line is_replace replace ret pos cs
    else if c == b'"'
    then if lacks_quote line pos
      then err (new_policy_error line pos)
      else ok (push_quoted ret pos (take_quoted (pos + len_utf8 c) cs))
    else if is_whitespace c
    then ok (record { ret = ret; next = pos + len_utf8 c; rest = cs })
    else ok (scan_word ret pos c cs)

-- The loop. Each round takes a character, so that the length of the text is fuel enough; `none` is
-- for fuel that ran out.
unfoldable pub scan_all :
    ℕ → Text → List NetworkCaptureToken → ℕ → Text → Option (Result (List NetworkCaptureToken))
unfolding scan_char
scan_all fuel line ret pos [] = some (ok ret)
scan_all zero line ret pos (c ∷ cs) = none
scan_all (suc fuel) line ret pos (c ∷ cs) = elim (scan_char line ret pos c cs) [
  | err e ↦ some (err e)
  | ok s ↦ scan_all fuel line s.ret s.next s.rest
]

-- The checks of the token behind a pipe.
unfoldable pub check_pipe : Text → List NetworkCaptureToken → Result (Unit {0})
check_pipe line [] = ok tt
check_pipe line (pipe n ∷ []) = err (new_policy_error line n)
check_pipe line (pipe n ∷ t ∷ ts) =
    if is_path t then ok tt else err (new_policy_error line (token_pos t))
check_pipe line (t ∷ ts) = check_pipe line ts

abbrev pub finish : Text → Result (List NetworkCaptureToken) → Result (List NetworkCaptureToken)
finish line scanned = do ret ← scanned; check ← check_pipe line ret; ok ret

unfoldable pub parse_str_to_capture_tokens : Text → Result (List NetworkCaptureToken)
unfolding scan_all check_pipe
parse_str_to_capture_tokens line =
    finish line (unwrap_or (scan_all (length line) line [] 0 line) (err (new_error bug)))
