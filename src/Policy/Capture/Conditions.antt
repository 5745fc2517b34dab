-- ===== src/Policy/Capture/Conditions.antt =====
-- What the two sides of an action are: `get_condition_key` and `get_condition_value`.
use nmstate.Base.{
  Bool-cases, length, ◌==◌, Text, codes, byte_length, ℕ, ◌+◌, ◌≡◌, refl, ◌≢◌, ◌⊎◌, inl, inr, true,
  Option, none, List, [], ◌∷◌, nat_eq, bool_eq, list_eq, option_eq, int_eq, pair_eq,
}
use nmstate.Error.{ok}
use nmstate.Policy.Token.{is_path, NetworkCaptureToken, path, value, pipe, replace, equal, null}
use nmstate.Policy.Capture.{
  default_token, no_action, NetworkCaptureCommand, condition_key, condition_path, get_condition_key,
  get_condition_value,
}

unfoldable pub IsPath : NetworkCaptureToken → Type 0
IsPath t = (keys : List Text) × (at : ℕ) × (t ≡ path keys at)

-- `get_value` reads the token.
unfoldable pub IsOperand : NetworkCaptureToken → Type 0
IsOperand (path keys at) = Unit
IsOperand (value v at) = Unit
IsOperand (null at) = Unit
IsOperand _ = ⊥

-- A command with an action has a path as its key, and a value that `get_value` reads; one without
-- an action has a path or the default token as its key, and the default value.
pub data IsCommand (cmd : NetworkCaptureCommand) : Type 0 where
  condition : cmd.action ≢ no_action → IsPath cmd.key → IsOperand cmd.value → IsCommand cmd
  selection :
      cmd.action ≡ no_action
      → IsPath cmd.key ⊎ (cmd.key ≡ default_token)
      → cmd.value ≡ default_token
      → cmd.value_capture ≡ none
      → IsCommand cmd

pub is_path-IsPath : (t : NetworkCaptureToken) → is_path t ≡ true → IsPath t
unfolding IsPath
is_path-IsPath (path keys at) h = (keys, at, refl)
is_path-IsPath _ h = absurd (cc)

condition_key-IsPath :
    (keys : List Text) (at : ℕ) (line : Text) (key : NetworkCaptureToken)
    (capture : Option (Text × ℕ))
    → condition_key keys at line ≡ ok (key, capture)
    → IsPath key
unfolding IsPath condition_key
condition_key-IsPath [] at line key capture h = ([], at, cc)
condition_key-IsPath (word ∷ []) at line key capture h =
    elim (Bool-cases (word == codes "capture")) [
      | inl e ↦ cc (rw e at h)
      | inr e ↦ (word ∷ [], at, cc (rw e at h))
    ]
condition_key-IsPath (word ∷ name ∷ []) at line key capture h =
    elim (Bool-cases (word == codes "capture")) [
      | inl e ↦ cc (rw e at h)
      | inr e ↦ (word ∷ name ∷ [], at, cc (rw e at h))
    ]
condition_key-IsPath (word ∷ name ∷ k ∷ keys) at line key capture h =
    elim (Bool-cases (word == codes "capture")) [
      | inl e ↦ (k ∷ keys, at + 8 + byte_length name, cc (rw e at h))
      | inr e ↦ (word ∷ name ∷ k ∷ keys, at, cc (rw e at h))
    ]

pub get_condition_key-IsPath :
    (ts : List NetworkCaptureToken) (line : Text) (action key : NetworkCaptureToken)
    (capture : Option (Text × ℕ))
    → get_condition_key ts line action ≡ ok (key, capture)
    → IsPath key
unfolding get_condition_key
get_condition_key-IsPath [] line action key capture h = cc
get_condition_key-IsPath (path keys at ∷ []) line action key capture h =
    condition_key-IsPath keys at line key capture h
get_condition_key-IsPath (value v at ∷ []) line action key capture h = cc
get_condition_key-IsPath (pipe at ∷ []) line action key capture h = cc
get_condition_key-IsPath (replace at ∷ []) line action key capture h = cc
get_condition_key-IsPath (equal at ∷ []) line action key capture h = cc
get_condition_key-IsPath (null at ∷ []) line action key capture h = cc
get_condition_key-IsPath (path k n ∷ u ∷ ts) line action key capture h = cc
get_condition_key-IsPath (value v n ∷ u ∷ ts) line action key capture h = cc
get_condition_key-IsPath (pipe n ∷ u ∷ ts) line action key capture h = cc
get_condition_key-IsPath (replace n ∷ u ∷ ts) line action key capture h = cc
get_condition_key-IsPath (equal n ∷ u ∷ ts) line action key capture h = cc
get_condition_key-IsPath (null n ∷ u ∷ ts) line action key capture h = cc

IsPath-IsOperand : (t : NetworkCaptureToken) → IsPath t → IsOperand t
unfolding IsPath IsOperand
IsPath-IsOperand t (keys, at, e) = rw e tt

condition_path-IsPath :
    (keys : List Text) (at : ℕ) (key : NetworkCaptureToken) (capture : Option (Text × ℕ))
    → condition_path keys at ≡ ok (key, capture)
    → IsPath key
unfolding IsPath
condition_path-IsPath [] at key capture h = ([], at, cc)
condition_path-IsPath (word ∷ []) at key capture h = elim (Bool-cases (word == codes "capture")) [
  | inl e ↦ cc (rw e at h)
  | inr e ↦ (word ∷ [], at, cc (rw e at h))
]
condition_path-IsPath (word ∷ name ∷ []) at key capture h =
    elim (Bool-cases (word == codes "capture")) [
      | inl e ↦ cc (rw e at h)
      | inr e ↦ (word ∷ name ∷ [], at, cc (rw e at h))
    ]
condition_path-IsPath (word ∷ name ∷ k ∷ keys) at key capture h =
    elim (Bool-cases (word == codes "capture")) [
      | inl e ↦ (k ∷ keys, at + (8 + length name + 1), cc (rw e at h))
      | inr e ↦ (word ∷ name ∷ k ∷ keys, at, cc (rw e at h))
    ]

pub get_condition_value-IsOperand :
    (ts : List NetworkCaptureToken) (line : Text) (action key : NetworkCaptureToken)
    (capture : Option (Text × ℕ))
    → get_condition_value ts line action ≡ ok (key, capture)
    → IsOperand key
unfolding get_condition_value IsOperand
get_condition_value-IsOperand [] line action key capture h = cc
get_condition_value-IsOperand (path keys at ∷ []) line action key capture h =
    IsPath-IsOperand key (condition_path-IsPath keys at key capture h)
get_condition_value-IsOperand (value v at ∷ []) line action key capture h =
    let e : value v at ≡ key = cc in rw (← e) tt
get_condition_value-IsOperand (null at ∷ []) line action key capture h =
    let e : NetworkCaptureToken.null at ≡ key = cc in rw (← e) tt
get_condition_value-IsOperand (pipe at ∷ []) line action key capture h = cc
get_condition_value-IsOperand (replace at ∷ []) line action key capture h = cc
get_condition_value-IsOperand (equal at ∷ []) line action key capture h = cc
get_condition_value-IsOperand (t ∷ u ∷ ts) line action key capture h = cc
