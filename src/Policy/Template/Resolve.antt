-- ===== src/Policy/Template/Resolve.antt =====
-- rust/src/lib/policy/template.rs: `resolve_capture_data`, `get_capture_value` and
-- `fill_with_captured_data`. Captured states are converted to and from JSON by the parameters.
pub mod Plain
use nmstate.Base.{
  if◌then◌else◌, unwrap_or, length, get_elem?, take, drop, is_empty, position, ◌==◌, Text, codes,
  trim, ℕ, ◌+◌, Bool, true, false, ◌&&◌, Option, none, some, List, [], ◌∷◌, ◌++◌, nat_eq, bool_eq,
  list_eq, option_eq, int_eq, pair_eq,
}
use nmstate.Error.{Result, ok, err, ◌>>=◌, new_error, new_policy_error, bug, invalid_argument}
use nmstate.Json.{
  Value, Items, Fields, null, bool, number, string, array, object, nil, cons, end, field,
}
use nmstate.Policy.Template.Token.{
  NetworkTemplateToken, value, path, reference_start, reference_end, token_pos, is_start, is_end,
  pos_at, parse_str_to_template_tokens,
}
use nmstate.Policy.Capture.{get_path_value}

-- The text of the tokens around a reference.
unfoldable pub texts_of : Text → List NetworkTemplateToken → Result Text
texts_of line [] = ok []
texts_of line (value s n ∷ ts) = do rest ← texts_of line ts; ok (s ++ rest)
texts_of line (t ∷ ts) = err (new_policy_error line (token_pos t))

abbrev pub is_string : Value → Bool
is_string (string s) = true
is_string _ = false

-- What a reference resolves to, between the tokens before and behind it.
abbrev pub resolved_value :
    Text → ℕ → List NetworkTemplateToken → List NetworkTemplateToken → Value → Result Value
unfolding texts_of
resolved_value line pos before behind (string resolved) = do
  prefix ← texts_of line before
  postfix ← texts_of line behind
  ok (string (prefix ++ (resolved ++ postfix)))
resolved_value line pos before behind resolved =
    if is_empty before && is_empty behind then ok resolved else err (new_policy_error line pos)

module _ {ℓ} {State : Type ℓ} (to_value : State → Option Value) where
  -- `HashMap::get`
  unfoldable pub capture_of : Text → List (Text × State) → Option State
  capture_of name [] = none
  capture_of name (c ∷ captures) =
      let rest = capture_of name captures in if c.0 == name then some c.1 else rest

  unfoldable pub get_capture_value : List Text → List (Text × State) → Text → ℕ → Result Value
  unfolding capture_of
  get_capture_value (word ∷ name ∷ keys) captures line pos =
      if word == codes "capture"
      then elim (capture_of name captures) [
        | some c ↦ get_path_value to_value keys (pos + (8 + length name + 1)) c line
        | none ↦ err (new_policy_error line (pos + 8))
      ]
      else err (new_policy_error line pos)
  get_capture_value _ captures line pos = err (new_policy_error line pos)

  -- The reference with its start at the index `i` and its end at `j`.
  abbrev pub resolve_between :
      Text → List NetworkTemplateToken → ℕ → ℕ → List (Text × State) → Result Value
  unfolding get_capture_value pos_at resolved_value
  resolve_between line tokens i j captures = elim (get_elem? tokens (i + 1)) [
    | some (path keys pos) ↦ do
      resolved ← get_capture_value keys captures line pos
      resolved_value line pos (take i tokens) (drop (j + 1) tokens) resolved
    | _ ↦ err (new_policy_error line (pos_at tokens i))
  ]

  abbrev pub resolve_tokens :
      Text → List NetworkTemplateToken → List (Text × State) → Result (Option Value)
  unfolding resolve_between position
  resolve_tokens line tokens captures = elim (position is_start tokens) [
    | none ↦ ok none
    | some i ↦ elim (position is_end tokens) [
      | none ↦ ok none
      | some j ↦ do v ← resolve_between line tokens i j captures; ok (some v)
    ]
  ]

  unfoldable pub resolve_string : Text → List (Text × State) → Result (Option Value)
  unfolding trim parse_str_to_template_tokens resolve_tokens
  resolve_string s captures =
      let line = trim s in
      do tokens ← parse_str_to_template_tokens line; resolve_tokens line tokens captures

  -- `resolve_capture_data`: the value as it is left, and the value to put in its place. A new value
  -- is put at its key or its index at once: the place of a key that is present does not change.
  unfoldable mutual
    unfolding resolve_string

    pub resolve_capture_data : Value → List (Text × State) → Result (Value × Option Value)
    resolve_capture_data (string s) captures = do
      new_value ← resolve_string s captures
      ok (string s, new_value)
    resolve_capture_data (object m) captures = do
      left ← resolve_fields m captures
      ok (object left, none)
    resolve_capture_data (array xs) captures = do
      left ← resolve_items xs captures
      ok (array left, none)
    resolve_capture_data v captures = ok (v, none)

    pub resolve_fields : Fields → List (Text × State) → Result Fields
    resolve_fields end captures = ok end
    resolve_fields (field k v m) captures = do
      changed ← resolve_capture_data v captures
      rest ← resolve_fields m captures
      ok (field k (unwrap_or changed.1 changed.0) rest)

    pub resolve_items : Items → List (Text × State) → Result Items
    resolve_items nil captures = ok nil
    resolve_items (cons v xs) captures = do
      changed ← resolve_capture_data v captures
      rest ← resolve_items xs captures
      ok (cons (unwrap_or changed.1 changed.0) rest)

  abbrev pub or_invalid_argument : Option State → Result State
  or_invalid_argument none = err (new_error invalid_argument)
  or_invalid_argument (some s) = ok s

  -- The template is a hash map; its entries are resolved in the order of `m`.
  unfoldable pub fill_with_captured_data :
      (Value → Option State) → Fields → List (Text × State) → Result State
  unfolding resolve_fields
  fill_with_captured_data from_value m captures = do
    filled ← resolve_fields m captures
    or_invalid_argument (from_value (object filled))
