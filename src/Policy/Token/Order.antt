-- ===== src/Policy/Token/Order.antt =====
-- The tokens that `parse_str_to_capture_tokens` returns: their positions, the kinds that occur
-- once, and the loop's end.
use nmstate.Base.{
  Bool-cases, length, Text, len_utf8, byte_length, count, count-append, count-push, ℕ, zero, suc,
  ◌+◌, ◌≤◌, ◌<◌, ◌≡◌, refl, inl, inr, true, some, List, [], ◌∷◌, ◌++◌, arith,
}
use nmstate.Error.{◌>>=◌, Result, ok, err}
use nmstate.Policy.Token.{
  NetworkCaptureToken, token_pos, is_pipe, is_replace, is_equal, is_path, path, pipe, value,
  replace, equal, null, Scan, scan_char, scan_all, check_pipe, finish, parse_str_to_capture_tokens,
}
use nmstate.Policy.Token.Step.{Pushes, scan_char-Round}

-- The positions of the tokens increase strictly, from `low` on, and stay below `high`.
unfoldable pub IsOrdered : ℕ → List NetworkCaptureToken → ℕ → Type 0
IsOrdered low [] high = Unit
IsOrdered low (t ∷ ts) high =
    (low ≤ token_pos t) × (token_pos t < high) × IsOrdered (token_pos t + 1) ts high

-- At most one equal, one replace and one pipe action.
unfoldable pub HasSingleActions : List NetworkCaptureToken → Type 0
HasSingleActions ts = (count is_equal ts ≤ 1) × (count is_replace ts ≤ 1) × (count is_pipe ts ≤ 1)

IsOrdered-weaken :
    (low : ℕ) (ts : List NetworkCaptureToken) (mid high : ℕ)
    → IsOrdered low ts mid
    → mid ≤ high
    → IsOrdered low ts high
unfolding IsOrdered
IsOrdered-weaken low [] mid high h le = tt
IsOrdered-weaken low (t ∷ ts) mid high (a, b, c) le =
    (a, omega (arith, b, le), IsOrdered-weaken (token_pos t + 1) ts mid high c le)

IsOrdered-push :
    (low : ℕ) (ts : List NetworkCaptureToken) (mid high : ℕ) (t : NetworkCaptureToken)
    → IsOrdered low ts mid
    → low ≤ mid
    → mid ≤ token_pos t
    → token_pos t < high
    → IsOrdered low (ts ++ (t ∷ [])) high
unfolding IsOrdered
IsOrdered-push low [] mid high t h le at lt = (omega arith, lt, tt)
IsOrdered-push low (u ∷ ts) mid high t (a, b, c) le at lt =
    (a, omega arith, IsOrdered-push (token_pos u + 1) ts mid high t c (omega (arith, b)) at lt)

-- What holds of the tokens before a round holds behind it.
Pushes-kept :
    (ret : List NetworkCaptureToken) (at next : ℕ) (out : List NetworkCaptureToken)
    → Pushes ret at next out
    → at < next
    → IsOrdered 0 ret at
    → HasSingleActions ret
    → IsOrdered 0 out next × HasSingleActions out
unfolding HasSingleActions
Pushes-kept ret at next out (Pushes.nothing e) lt o n =
    rw e (IsOrdered-weaken 0 ret at next o (omega arith), n)
Pushes-kept ret at next out (Pushes.one t e from until new) lt o (a, b, c) = rw e (
  IsOrdered-push 0 ret at next t o (omega arith) from until,
  (
    count-push is_equal ret t a new.one_equal,
    count-push is_replace ret t b new.one_replace,
    count-push is_pipe ret t c new.one_pipe,
  ),
)

scan_all-kept :
    (fuel : ℕ) (line : Text) (ret : List NetworkCaptureToken) (at : ℕ) (cs : Text)
    (out : List NetworkCaptureToken)
    → scan_all fuel line ret at cs ≡ some (ok out)
    → IsOrdered 0 ret at
    → HasSingleActions ret
    → IsOrdered 0 out (at + byte_length cs) × HasSingleActions out
unfolding scan_all byte_length
scan_all-kept fuel line ret at [] out h o n =
    let same : ret ≡ out = cc in rw (← same) (IsOrdered-weaken 0 ret at (at + 0) o (omega arith), n)
scan_all-kept zero line ret at (c ∷ cs) out h o n = cc
scan_all-kept (suc fuel) line ret at (c ∷ cs) out h o n =
    behind (scan_char line ret at c cs) refl
      (λ s k a b. scan_all-kept fuel line s.ret s.next s.rest out k a b) h
  where
    behind :
        (r : Result Scan)
        → scan_char line ret at c cs ≡ r
        → ((s : Scan)
            → scan_all fuel line s.ret s.next s.rest ≡ some (ok out)
            → IsOrdered 0 s.ret s.next
            → HasSingleActions s.ret
            → IsOrdered 0 out (s.next + byte_length s.rest) × HasSingleActions out)
        → elim r [ err e ↦ some (err e) | ok s ↦ scan_all fuel line s.ret s.next s.rest ]
          ≡ some (ok out)
        → IsOrdered 0 out (at + (len_utf8 c + byte_length cs)) × HasSingleActions out
    behind (err e) q ih k = cc
    behind (ok s) q ih k =
        let round = scan_char-Round line ret at c cs s q in
        let (a, b) = Pushes-kept ret at s.next s.ret round.pushes round.forward o n in
        rw (← round.bytes) (ih s k a b)

scan_all_ends :
    (fuel : ℕ) (line : Text) (ret : List NetworkCaptureToken) (at : ℕ) (cs : Text)
    → length cs ≤ fuel
    → (r : Result (List NetworkCaptureToken)) × (scan_all fuel line ret at cs ≡ some r)
unfolding scan_all
scan_all_ends fuel line ret at [] h = (ok ret, refl)
scan_all_ends zero line ret at (c ∷ cs) h = let no : ⊥ = omega arith in absurd no
scan_all_ends (suc fuel) line ret at (c ∷ cs) h =
    behind (scan_char line ret at c cs) refl (λ s k. scan_all_ends fuel line s.ret s.next s.rest k)
  where
    behind :
        (r : Result Scan)
        → scan_char line ret at c cs ≡ r
        → ((s : Scan)
            → length s.rest ≤ fuel
            → (t : Result (List NetworkCaptureToken)) × (scan_all fuel line s.ret s.next s.rest
                ≡ some t))
        → (t : Result (List NetworkCaptureToken)) × (elim r [
          | err e ↦ some (err e)
          | ok s ↦ scan_all fuel line s.ret s.next s.rest
        ]
            ≡ some t)
    behind (err e) q ih = (err e, refl)
    behind (ok s) q ih = ih s (omega (arith, (scan_char-Round line ret at c cs s q).shorter))

ok-inj : {a b : List NetworkCaptureToken} → Result.ok a ≡ ok b → a ≡ b
ok-inj e = cc

finish-scan :
    (line : Text) (r : Result (List NetworkCaptureToken)) (out : List NetworkCaptureToken)
    → finish line r ≡ ok out
    → (r ≡ ok out) × (check_pipe line out ≡ ok tt)
finish-scan line (err e) out h = cc
finish-scan line (ok ret) out h = checked (check_pipe line ret) refl h
  where
    checked :
        (k : Result (Unit {0}))
        → check_pipe line ret ≡ k
        → (do check ← k; ok ret) ≡ ok out
        → (Result.ok ret ≡ ok out) × (check_pipe line out ≡ ok tt)
    checked (err e) q k = cc
    checked (ok tt) q k = let same : ret ≡ out = cc in (k, rw (← same) q)

parse-scan :
    (line : Text) (out : List NetworkCaptureToken)
    → parse_str_to_capture_tokens line ≡ ok out
    → (scan_all (length line) line [] 0 line ≡ some (ok out)) × (check_pipe line out ≡ ok tt)
unfolding parse_str_to_capture_tokens
parse-scan line out h =
    let (r, e) = scan_all_ends (length line) line [] 0 line (omega arith) in
    let (same, checked) = finish-scan line r out (rw e at h) in (rw (e, same) refl, checked)

-- When `parse_str_to_capture_tokens` succeeds, the positions of the tokens increase strictly and
-- lie below the length of the line in bytes, and at most one token is an equal action, at most one
-- a replace action, and at most one a pipe.
pub parse_str_to_capture_tokens-IsOrdered :
    (line : Text) (tokens : List NetworkCaptureToken)
    → parse_str_to_capture_tokens line ≡ ok tokens
    → IsOrdered 0 tokens (byte_length line) × HasSingleActions tokens
unfolding IsOrdered HasSingleActions count
parse_str_to_capture_tokens-IsOrdered line tokens h =
    let (ordered, single) =
      scan_all-kept (length line) line [] 0 line tokens (parse-scan line tokens h).0 tt
        (omega arith, omega arith, omega arith) in
    (
      IsOrdered-weaken 0 tokens (0 + byte_length line) (byte_length line) ordered (omega arith),
      single,
    )

unfoldable pub StartsWithPath : List NetworkCaptureToken → Type 0
StartsWithPath ts =
    (keys : List Text) × (at : ℕ) × (rest : List NetworkCaptureToken) × (ts ≡ path keys at ∷ rest)

is_path-StartsWithPath :
    (t : NetworkCaptureToken) (ts : List NetworkCaptureToken)
    → is_path t ≡ true
    → StartsWithPath (t ∷ ts)
unfolding StartsWithPath
is_path-StartsWithPath (path keys at) ts h = (keys, at, ts, refl)
is_path-StartsWithPath (value v at) ts h = cc
is_path-StartsWithPath (pipe at) ts h = cc
is_path-StartsWithPath (replace at) ts h = cc
is_path-StartsWithPath (equal at) ts h = cc
is_path-StartsWithPath (null at) ts h = cc

check_pipe-StartsWithPath :
    (line : Text) (before : List NetworkCaptureToken) (at : ℕ) (behind : List NetworkCaptureToken)
    → count is_pipe before ≡ 0
    → check_pipe line (before ++ (pipe at ∷ behind)) ≡ ok tt
    → StartsWithPath behind
unfolding check_pipe count
check_pipe-StartsWithPath line [] at [] n h = cc
check_pipe-StartsWithPath line [] at (t ∷ ts) n h = elim (Bool-cases (is_path t)) [
  | inl e ↦ is_path-StartsWithPath t ts e
  | inr e ↦ cc (rw e at h)
]
check_pipe-StartsWithPath line (pipe k ∷ ts) at behind n h =
    let no : ⊥ = omega (arith, n) in absurd no
check_pipe-StartsWithPath line (path p k ∷ ts) at behind n h =
    check_pipe-StartsWithPath line ts at behind n h
check_pipe-StartsWithPath line (value p k ∷ ts) at behind n h =
    check_pipe-StartsWithPath line ts at behind n h
check_pipe-StartsWithPath line (replace k ∷ ts) at behind n h =
    check_pipe-StartsWithPath line ts at behind n h
check_pipe-StartsWithPath line (equal k ∷ ts) at behind n h =
    check_pipe-StartsWithPath line ts at behind n h
check_pipe-StartsWithPath line (null k ∷ ts) at behind n h =
    check_pipe-StartsWithPath line ts at behind n h

-- When `parse_str_to_capture_tokens` succeeds, the token behind a pipe is a property path.
pub parse_str_to_capture_tokens-StartsWithPath :
    (line : Text) (before : List NetworkCaptureToken) (at : ℕ) (behind : List NetworkCaptureToken)
    → parse_str_to_capture_tokens line ≡ ok (before ++ (pipe at ∷ behind))
    → StartsWithPath behind
unfolding HasSingleActions count
parse_str_to_capture_tokens-StartsWithPath line before at behind h =
    let tokens = before ++ (pipe at ∷ behind) in
    let (_, one) = parse_str_to_capture_tokens-IsOrdered line tokens h in
    let split = count-append is_pipe before (pipe at ∷ behind) in
    check_pipe-StartsWithPath line before at behind (omega (arith, one.2, split))
      (parse-scan line tokens h).1
