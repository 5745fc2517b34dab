-- ===== src/Policy/Capture.antt =====
-- The capture commands of rust/src/lib/policy/capture.rs: `NetworkCaptureCommand::parse` and its
-- helpers, and `get_value`.
pub mod Sort
pub mod Conditions
pub mod Parse
use nmstate.Base.{
  ltb, leb, if◌then◌else◌, length, ◌==◌, Text, codes, byte_length, trim, ℕ, ◌+◌, Bool, Option, none,
  some, List, [], ◌∷◌, map, nat_eq, bool_eq, list_eq, option_eq, int_eq, pair_eq,
}
use nmstate.Error.{Result, ok, err, ◌>>=◌, new_error, new_policy_error, bug, invalid_argument}
use nmstate.Json.{Value, null, string}
use nmstate.Policy.Token.{
  NetworkCaptureToken, path, value, token_pos, is_pipe, is_equal, is_replace, is_path,
  parse_str_to_capture_tokens,
}
use nmstate.Policy.Json.{as_object, get_value_from_json}

pub data NetworkCaptureAction : Type 0 where
  no_action on_equal on_replace : NetworkCaptureAction

pub record NetworkCaptureCommand : Type 0 where
  pub key : NetworkCaptureToken
  pub key_capture : Option Text
  pub key_capture_pos : ℕ
  pub action : NetworkCaptureAction
  pub value : NetworkCaptureToken
  pub value_capture : Option Text
  pub value_capture_pos : ℕ
  pub line : Text
  pub capture_priority : ℕ

-- `NetworkCaptureToken::default`
abbrev pub default_token : NetworkCaptureToken
default_token = NetworkCaptureToken.value [] 0

-- A command with its line, and the defaults elsewhere.
abbrev pub new_command : Text → NetworkCaptureCommand
new_command line = record {
  key = default_token;
  key_capture = none;
  key_capture_pos = 0;
  action = no_action;
  value = default_token;
  value_capture = none;
  value_capture_pos = 0;
  line = line;
  capture_priority = 0;
}

abbrev pub parent_capture : NetworkCaptureCommand → Option Text
parent_capture cmd = elim cmd.key_capture [ some name ↦ some name | none ↦ cmd.value_capture ]

-- `position` of a token, with the slices before and behind it.
unfoldable pub find_token :
    (NetworkCaptureToken → Bool)
    → List NetworkCaptureToken
    → Option (List NetworkCaptureToken × NetworkCaptureToken × List NetworkCaptureToken)
find_token p [] = none
find_token p (t ∷ ts) =
    let rest = find_token p ts in
    if p t
    then some ([], t, ts)
    else elim rest [ none ↦ none | some found ↦ some (t ∷ found.0, found.1, found.2) ]

-- The name in `capture.<capture_name>`, before a pipe.
abbrev pub get_input_capture_source :
    List NetworkCaptureToken → Text → NetworkCaptureToken → Result Text
get_input_capture_source [] line pipe_token = err (new_policy_error line (token_pos pipe_token))
get_input_capture_source (path (word ∷ name ∷ []) n ∷ ts) line pipe_token =
    if word == codes "capture" then ok name else err (new_policy_error line n)
get_input_capture_source (t ∷ ts) line pipe_token = err (new_policy_error line (token_pos t))

-- A token, and the name and the position of the capture it refers to.
abbrev pub Condition : Type 0
Condition = NetworkCaptureToken × Option (Text × ℕ)

abbrev pub condition_key : List Text → ℕ → Text → Result Condition
unfolding byte_length
condition_key [] n line = ok (path [] n, none)
condition_key (word ∷ name ∷ key ∷ keys) n line =
    if word == codes "capture"
    then ok (path (key ∷ keys) (n + 8 + byte_length name), some (name, n + 8))
    else ok (path (word ∷ name ∷ key ∷ keys) n, none)
condition_key (word ∷ keys) n line =
    if word == codes "capture"
    then err (new_policy_error line n)
    else ok (path (word ∷ keys) n, none)

unfoldable pub get_condition_key :
    List NetworkCaptureToken → Text → NetworkCaptureToken → Result Condition
unfolding condition_key
get_condition_key (path keys n ∷ []) line action_token = condition_key keys n line
get_condition_key (t ∷ []) line action_token = err (new_policy_error line (token_pos t))
get_condition_key _ line action_token = err (new_policy_error line (token_pos action_token))

abbrev pub condition_path : List Text → ℕ → Result Condition
condition_path [] n = ok (path [] n, none)
condition_path (word ∷ name ∷ key ∷ keys) n =
    if word == codes "capture"
    then ok (path (key ∷ keys) (n + (8 + length name + 1)), some (name, n + 8))
    else ok (path (word ∷ name ∷ key ∷ keys) n, none)
condition_path (word ∷ keys) n =
    if word == codes "capture"
    then err (new_error invalid_argument)
    else ok (path (word ∷ keys) n, none)

unfoldable pub get_condition_value :
    List NetworkCaptureToken → Text → NetworkCaptureToken → Result Condition
get_condition_value [] line action_token = err (new_policy_error line (token_pos action_token))
get_condition_value (path keys n ∷ []) line action_token = condition_path keys n
get_condition_value (NetworkCaptureToken.value v n ∷ []) line action_token =
    ok (NetworkCaptureToken.value v n, none)
get_condition_value (NetworkCaptureToken.null n ∷ []) line action_token =
    ok (NetworkCaptureToken.null n, none)
get_condition_value (t ∷ []) line action_token = err (new_error invalid_argument)
get_condition_value (t ∷ u ∷ ts) line action_token = err (new_policy_error line (token_pos t))

-- The capture that the key refers to counts unless a pipe has set one.
abbrev pub set_key_capture : NetworkCaptureCommand → Option (Text × ℕ) → NetworkCaptureCommand
set_key_capture cmd none = cmd
set_key_capture cmd (some (name, n)) = elim cmd.key_capture [
  | some piped ↦ cmd
  | none ↦ record cmd { key_capture = some name; key_capture_pos = n }
]

abbrev pub set_value_capture : NetworkCaptureCommand → Option (Text × ℕ) → NetworkCaptureCommand
set_value_capture cmd none = cmd
set_value_capture cmd (some (name, n)) = record cmd {
  value_capture = some name;
  value_capture_pos = n;
}

-- The body of the equal and of the replace action, around the action's token.
abbrev pub process_condition :
    NetworkCaptureCommand
    → NetworkCaptureAction
    → List NetworkCaptureToken
    → NetworkCaptureToken
    → List NetworkCaptureToken
    → Result NetworkCaptureCommand
unfolding get_condition_key get_condition_value
process_condition cmd action before token behind = do
  (key, key_capture) ← get_condition_key before cmd.line token
  (wanted, value_capture) ← get_condition_value behind cmd.line token
  ok (
      set_value_capture
        (record (set_key_capture (record cmd { action = action }) key_capture) {
          key = key;
          value = wanted;
        })
        value_capture)

abbrev pub process_path : NetworkCaptureCommand → List NetworkCaptureToken → NetworkCaptureCommand
process_path cmd [] = cmd
process_path cmd (t ∷ ts) = if is_path t then record cmd { action = no_action; key = t } else cmd

unfoldable pub process_tokens_without_pipe :
    NetworkCaptureCommand → List NetworkCaptureToken → Result NetworkCaptureCommand
unfolding find_token process_condition
process_tokens_without_pipe cmd tokens = elim (find_token is_equal tokens) [
  | some found ↦
      if leb (length tokens) (length found.0 + 1)
      then err (new_policy_error cmd.line (token_pos found.1))
      else process_condition cmd on_equal found.0 found.1 found.2
  | none ↦ elim (find_token is_replace tokens) [
    | some found ↦
        if ltb (length tokens) (length found.0 + 1)
        then err (new_policy_error cmd.line (token_pos found.1))
        else process_condition cmd on_replace found.0 found.1 found.2
    | none ↦ ok (process_path cmd tokens)
  ]
]

-- `replace('\u{A0}', " ")`, the non-breaking space.
abbrev pub replace_nbsp : Text → Text
replace_nbsp s = map (λ c. if c == 160 then b' ' else c) s

-- The rest of `parse` behind a pipe.
abbrev pub process_piped :
    NetworkCaptureCommand
    → List NetworkCaptureToken
    → List NetworkCaptureToken × NetworkCaptureToken × List NetworkCaptureToken
    → Text
    → Result NetworkCaptureCommand
unfolding process_tokens_without_pipe
process_piped cmd tokens found source =
    let piped = record cmd { key_capture = some source } in
    if ltb (length found.0 + 1) (length tokens)
    then process_tokens_without_pipe piped found.2
    else ok piped

abbrev pub process_tokens :
    NetworkCaptureCommand → List NetworkCaptureToken → Result NetworkCaptureCommand
unfolding find_token process_piped process_tokens_without_pipe
process_tokens cmd tokens = elim (find_token is_pipe tokens) [
  | none ↦ process_tokens_without_pipe cmd tokens
  | some found ↦
      get_input_capture_source found.0 cmd.line found.1 >>= process_piped cmd tokens found
]

unfoldable pub parse : Text → Result NetworkCaptureCommand
unfolding trim parse_str_to_capture_tokens process_tokens
parse input =
    let line = trim (replace_nbsp (trim input)) in
    do tokens ← parse_str_to_capture_tokens line; process_tokens (new_command line) tokens

-- `get_value`, with the conversion of a network state to JSON; `none` is for the tokens at which
-- the code panics (`todo!`).
module _ {ℓ} {State : Type ℓ} (to_value : State → Option Value) where
  -- The arm of a path.
  unfoldable pub get_path_value : List Text → ℕ → State → Text → Result Value
  unfolding get_value_from_json
  get_path_value keys n state line = elim (to_value state) [
    | none ↦ err (new_error bug)
    | some v ↦ elim (as_object v) [
      | none ↦ err (new_error bug)
      | some m ↦ get_value_from_json keys m line n
    ]
  ]

  unfoldable pub get_value : NetworkCaptureToken → State → Text → Option (Result Value)
  unfolding get_path_value
  get_value (path keys n) state line = some (get_path_value keys n state line)
  get_value (NetworkCaptureToken.value v n) state line = some (ok (string v))
  get_value (NetworkCaptureToken.null n) state line = some (ok null)
  get_value _ state line = none
