-- ===== src/Policy/Capture/Parse.antt =====
-- The shape of the commands that `NetworkCaptureCommand::parse` returns.
use nmstate.Base.{
  ltb, leb, Bool-cases, Option-cases, length, Text, trim, ℕ, ◌+◌, ◌≡◌, refl, sym, ◌∙◌, ◌≢◌, inl,
  inr, Option, none, some, List, [], ◌∷◌, arith,
}
use nmstate.Error.{Result, ok, bind-eq-ok}
use nmstate.Json.{Value}
use nmstate.Policy.Token.{
  NetworkCaptureToken, path, value, pipe, replace, equal, null, is_pipe, is_equal, is_replace,
  is_path, parse_str_to_capture_tokens,
}
use nmstate.Policy.Capture.{
  default_token, NetworkCaptureAction, no_action, on_equal, on_replace, NetworkCaptureCommand,
  new_command, get_condition_key, get_condition_value, set_key_capture, set_value_capture,
  process_condition, process_path, process_tokens_without_pipe, process_piped, process_tokens,
  find_token, parse, get_value, replace_nbsp, get_input_capture_source,
}
use nmstate.Policy.Capture.Conditions.{
  IsPath, is_path-IsPath, IsOperand, IsCommand, get_condition_key-IsPath,
  get_condition_value-IsOperand,
}

-- A command to which no action has been given yet.
record IsFresh (cmd : NetworkCaptureCommand) : Type 0 where
  action : cmd.action ≡ no_action
  key : cmd.key ≡ default_token
  value : cmd.value ≡ default_token
  value_capture : cmd.value_capture ≡ none

set_value_capture-IsCommand :
    (cmd : NetworkCaptureCommand) (capture : Option (Text × ℕ))
    → cmd.action ≢ no_action
    → IsPath cmd.key
    → IsOperand cmd.value
    → IsCommand (set_value_capture cmd capture)
set_value_capture-IsCommand cmd none a k v = IsCommand.condition a k v
set_value_capture-IsCommand cmd (some (name, at)) a k v = IsCommand.condition a k v

set_key_capture-action :
    (cmd : NetworkCaptureCommand) (capture : Option (Text × ℕ))
    → (set_key_capture cmd capture).action ≡ cmd.action
set_key_capture-action cmd none = refl
set_key_capture-action cmd (some (name, at)) = ground arith

process_condition-IsCommand :
    (cmd : NetworkCaptureCommand) (action : NetworkCaptureAction)
    (before : List NetworkCaptureToken) (token : NetworkCaptureToken)
    (behind : List NetworkCaptureToken) (out : NetworkCaptureCommand)
    → action ≢ no_action
    → process_condition cmd action before token behind ≡ ok out
    → IsCommand out
unfolding process_condition
process_condition-IsCommand cmd action before token behind out acts h =
    let ((key, key_capture), p, h) = bind-eq-ok (get_condition_key before cmd.line token) _ h in
    let ((wanted, value_capture), q, k) =
      bind-eq-ok (get_condition_value behind cmd.line token) _ h in
    let is_path = get_condition_key-IsPath before cmd.line token key key_capture p in
    let operand = get_condition_value-IsOperand behind cmd.line token wanted value_capture q in
    let started = record cmd { action = action } in
    let set = record (set_key_capture started key_capture) { key = key; value = wanted } in
    let same : set_value_capture set value_capture ≡ out = cc in
    let kept = set_key_capture-action started key_capture in
    rw (← same)
      (set_value_capture-IsCommand set value_capture (λ e. acts (sym kept ∙ e)) is_path operand)

process_path-IsCommand :
    (cmd : NetworkCaptureCommand) (ts : List NetworkCaptureToken)
    → IsFresh cmd
    → IsCommand (process_path cmd ts)
process_path-IsCommand cmd [] f = IsCommand.selection f.action (inr f.key) f.value f.value_capture
process_path-IsCommand cmd (t ∷ ts) f = elim (Bool-cases (is_path t)) [
  | inl p ↦ rw p (IsCommand.selection refl (inl (is_path-IsPath t p)) f.value f.value_capture)
  | inr p ↦ rw p (IsCommand.selection f.action (inr f.key) f.value f.value_capture)
]

process_tokens_without_pipe-IsCommand :
    (cmd : NetworkCaptureCommand) (ts : List NetworkCaptureToken) (out : NetworkCaptureCommand)
    → IsFresh cmd
    → process_tokens_without_pipe cmd ts ≡ ok out
    → IsCommand out
unfolding process_tokens_without_pipe
process_tokens_without_pipe-IsCommand cmd ts out f h =
    elim (Option-cases (find_token is_equal ts)) [
      | inr (found, p) ↦ elim (Bool-cases (leb (length ts) (length found.0 + 1))) [
        | inl k ↦ cc (rw (process_tokens_without_pipe, p, k) at h)
        | inr k ↦
            process_condition-IsCommand cmd on_equal found.0 found.1 found.2 out (λ e. cc)
              (rw (process_tokens_without_pipe, p, k) at h)
      ]
      | inl p ↦ elim (Option-cases (find_token is_replace ts)) [
        | inr (found, q) ↦ elim (Bool-cases (ltb (length ts) (length found.0 + 1))) [
          | inl k ↦ cc (rw (process_tokens_without_pipe, p, q, k) at h)
          | inr k ↦
              process_condition-IsCommand cmd on_replace found.0 found.1 found.2 out (λ e. cc)
                (rw (process_tokens_without_pipe, p, q, k) at h)
        ]
        | inl q ↦
            let same : process_path cmd ts ≡ out =
              cc (rw (process_tokens_without_pipe, p, q) at h) in
            rw (← same) (process_path-IsCommand cmd ts f)
      ]
    ]

piped-IsFresh :
    (cmd : NetworkCaptureCommand) (source : Text)
    → IsFresh cmd
    → IsFresh (record cmd { key_capture = some source })
piped-IsFresh cmd source f = record {
  action = f.action;
  key = f.key;
  value = f.value;
  value_capture = f.value_capture;
}

process_piped-IsCommand :
    (cmd : NetworkCaptureCommand) (ts : List NetworkCaptureToken)
    (found : List NetworkCaptureToken × NetworkCaptureToken × List NetworkCaptureToken)
    (source : Text) (out : NetworkCaptureCommand)
    → IsFresh cmd
    → process_piped cmd ts found source ≡ ok out
    → IsCommand out
unfolding process_piped
process_piped-IsCommand cmd ts found source out f h =
    let piped = record cmd { key_capture = some source } in
    elim (Bool-cases (ltb (length found.0 + 1) (length ts))) [
      | inl k ↦
          process_tokens_without_pipe-IsCommand piped found.2 out (piped-IsFresh cmd source f)
            (rw k at h)
      | inr k ↦
          let same : piped ≡ out = cc (rw k at h) in
          rw (← same) (IsCommand.selection f.action (inr f.key) f.value f.value_capture)
    ]

process_tokens-IsCommand :
    (cmd : NetworkCaptureCommand) (ts : List NetworkCaptureToken) (out : NetworkCaptureCommand)
    → IsFresh cmd
    → process_tokens cmd ts ≡ ok out
    → IsCommand out
unfolding process_tokens
process_tokens-IsCommand cmd ts out f h = elim (Option-cases (find_token is_pipe ts)) [
  | inl p ↦ process_tokens_without_pipe-IsCommand cmd ts out f (rw (process_tokens, p) at h)
  | inr (found, p) ↦
      let (source, _, k) =
        bind-eq-ok (get_input_capture_source found.0 cmd.line found.1) (process_piped cmd ts found)
          (rw (process_tokens, p) at h) in
      process_piped-IsCommand cmd ts found source out f k
]

-- A command that `NetworkCaptureCommand::parse` returns with the equal or the replace action has a
-- property path as its key, and a path, a literal or null as its value. One that it returns without
-- an action has a property path or the default token as its key, the default value, and refers to
-- no capture for a value.
pub parse-IsCommand :
    (input : Text) (cmd : NetworkCaptureCommand) → parse input ≡ ok cmd → IsCommand cmd
unfolding parse IsOperand
parse-IsCommand input cmd h =
    let line = trim (replace_nbsp (trim input)) in
    let (ts, _, k) =
      bind-eq-ok (parse_str_to_capture_tokens line) (process_tokens (new_command line)) h in
    process_tokens-IsCommand (new_command line) ts cmd
      (record { action = refl; key = refl; value = refl; value_capture = refl }) k

IsCommand-IsOperand : (cmd : NetworkCaptureCommand) → IsCommand cmd → IsOperand cmd.value
unfolding IsOperand
IsCommand-IsOperand cmd (IsCommand.condition a k v) = v
IsCommand-IsOperand cmd (IsCommand.selection a k v c) = rw v tt

module _ {ℓ} {State : Type ℓ} (to_value : State → Option Value) where
  IsOperand-get_value :
      (t : NetworkCaptureToken) (state : State) (line : Text)
      → IsOperand t
      → (r : Result Value) × (get_value to_value t state line ≡ some r)
  unfolding IsOperand get_value
  IsOperand-get_value (path keys at) state line o = (_, refl)
  IsOperand-get_value (value v at) state line o = (_, refl)
  IsOperand-get_value (null at) state line o = (_, refl)
  IsOperand-get_value (pipe at) state line o = absurd o
  IsOperand-get_value (replace at) state line o = absurd o
  IsOperand-get_value (equal at) state line o = absurd o

  -- The value of a command that `NetworkCaptureCommand::parse` returns is read by `get_value` in
  -- every state, without a panic.
  pub parse-get_value :
      (input : Text) (cmd : NetworkCaptureCommand) (state : State)
      → parse input ≡ ok cmd
      → (r : Result Value) × (get_value to_value cmd.value state cmd.line ≡ some r)
  parse-get_value input cmd state h =
      IsOperand-get_value cmd.value state cmd.line
        (IsCommand-IsOperand cmd (parse-IsCommand input cmd h))
