-- ===== src/Tests/Policy.antt =====
-- Concrete values for rust/src/lib/policy.
use nmstate.Base.{
  any, differ, list_beq, contains, Text, codes, split_onto, split, insert_by, sort_by, len_utf8,
  byte_length, is_whitespace, trim_start, trim_end, trim, to_lowercase, ℕ, ◌≡◌, refl, ◌≢◌, ◌↔◌, inl,
  inr, none, some, List, [], ◌∷◌, ◌++◌, Memᴰ, arith, nat_eq, bool_eq, list_eq, option_eq, int_eq,
  pair_eq, nat_ord, bool_ord, pair_ord, list_ord,
}
use nmstate.Error.{Result, ok, err, new_policy_error}
use nmstate.Json.{insert, get, null, Value, Fields, string, object, end, field}
use nmstate.Policy.Json.{update_json_value, value_retain_only, get_value_from_json, parse_index}
use nmstate.Json.Paths.{Step, value_at}
use nmstate.Policy.Json.Update.{update_json_value_lem, IsNamePath, Diverges}
use nmstate.Policy.Json.Retain.{value_retain_only_lem, fields_of}
use nmstate.Policy.Token.{
  NetworkCaptureToken, path, value, pipe, equal, scan_pair, take_quoted, scan_word, take_block,
  word_token, scan_char, scan_all, check_pipe, parse_str_to_capture_tokens,
}
use nmstate.Policy.Token.Order.{
  IsOrdered, HasSingleActions, StartsWithPath, parse_str_to_capture_tokens-IsOrdered,
  parse_str_to_capture_tokens-StartsWithPath,
}
use nmstate.Policy.Capture.{
  NetworkCaptureCommand, on_equal, new_command, find_token, process_tokens_without_pipe,
  get_condition_key, get_condition_value, parse, get_value,
}
use nmstate.Policy.Capture.Conditions.{IsCommand}
use nmstate.Policy.Capture.Parse.{parse-IsCommand, parse-get_value}
use nmstate.Policy.Capture.Sort.{
  Commands, sort_captures, sort_rounds, set_capture_priority, set_priorities, last_of, new_priority,
  collect_changes, set_at, apply_changes,
}
use nmstate.Policy.Capture.Sort.Depth.{links, Depth, HasUniqueNames}
use nmstate.Policy.Capture.Sort.Order.{sort_captures-parent_capture, sort_captures-Depth}
use nmstate.Policy.Capture.Sort.Accepts.{IsShallow, sort_captures_ok}

abbrev piped_line : Text
piped_line = codes "capture.a | routes.running==3"

abbrev piped_before : List NetworkCaptureToken
piped_before = path (codes "capture" ∷ codes "a" ∷ []) 0 ∷ []

abbrev piped_behind : List NetworkCaptureToken
piped_behind =
    path (codes "routes" ∷ codes "running" ∷ []) 12 ∷ equal 26 ∷ value (codes "3") 28 ∷ []

tokens_of_piped_line :
    parse_str_to_capture_tokens piped_line ≡ ok (piped_before ++ (pipe 10 ∷ piped_behind))
unfolding parse_str_to_capture_tokens scan_all scan_char scan_pair take_quoted is_whitespace
    scan_word take_block len_utf8 trim trim_start trim_end word_token split split_onto contains any
    to_lowercase list_beq check_pipe
tokens_of_piped_line = refl

parse_str_to_capture_tokens-IsOrdered_example :
    IsOrdered 0 (piped_before ++ (pipe 10 ∷ piped_behind)) (byte_length piped_line)
    × HasSingleActions (piped_before ++ (pipe 10 ∷ piped_behind))
parse_str_to_capture_tokens-IsOrdered_example =
    parse_str_to_capture_tokens-IsOrdered piped_line (piped_before ++ (pipe 10 ∷ piped_behind))
      tokens_of_piped_line

parse_str_to_capture_tokens-StartsWithPath_example : StartsWithPath piped_behind
parse_str_to_capture_tokens-StartsWithPath_example =
    parse_str_to_capture_tokens-StartsWithPath piped_line piped_before 10 piped_behind
      tokens_of_piped_line

-- A pair of equal signs twice.
two_equals :
    parse_str_to_capture_tokens (codes "a.b==c==d") ≡ err (new_policy_error (codes "a.b==c==d") 6)
unfolding parse_str_to_capture_tokens scan_all scan_char scan_pair take_quoted is_whitespace
    scan_word take_block len_utf8 trim trim_start trim_end word_token split split_onto contains any
    to_lowercase list_beq check_pipe
two_equals = refl

-- The byte position stands for an index of characters: behind `ä`, the quote that ends the text is
-- not found.
quote_behind_two_bytes :
    parse_str_to_capture_tokens (codes "ä==\"\"") ≡ err (new_policy_error (codes "ä==\"\"") 4)
unfolding parse_str_to_capture_tokens scan_all scan_char scan_pair take_quoted is_whitespace
    scan_word take_block len_utf8 trim trim_start trim_end word_token split split_onto contains any
    to_lowercase list_beq check_pipe
quote_behind_two_bytes = refl

-- Two captures, the second of which the first one refers to.
abbrev equal_command : NetworkCaptureCommand
equal_command = record (new_command piped_line) {
  key = path (codes "routes" ∷ codes "running" ∷ []) 12;
  key_capture = some (codes "a");
  action = on_equal;
  value = value (codes "3") 28;
}

command_of_piped_line : parse piped_line ≡ ok equal_command
unfolding parse parse_str_to_capture_tokens scan_all scan_char scan_pair take_quoted is_whitespace
    scan_word take_block len_utf8 trim trim_start trim_end word_token split split_onto contains any
    to_lowercase list_beq check_pipe find_token process_tokens_without_pipe get_condition_key
    get_condition_value
command_of_piped_line = refl

parse-IsCommand_example : IsCommand equal_command
parse-IsCommand_example = parse-IsCommand piped_line equal_command command_of_piped_line

parse-get_value_example :
    (r : Result Value) × (get_value (λ v. some v) equal_command.value null equal_command.line
      ≡ some r)
parse-get_value_example =
    parse-get_value (λ v. some v) piped_line equal_command null command_of_piped_line

abbrev consumer : Text × NetworkCaptureCommand
consumer = (codes "b", equal_command)

abbrev source : Text × NetworkCaptureCommand
source = (codes "a", new_command (codes "routes.running"))

abbrev sorted_source : Text × NetworkCaptureCommand
sorted_source = (codes "a", record (new_command (codes "routes.running")) { capture_priority = 1 })

abbrev sorted_consumer : Text × NetworkCaptureCommand
sorted_consumer = (codes "b", record equal_command { capture_priority = 2 })

sorted_captures : sort_captures (consumer ∷ source ∷ []) ≡ ok (sorted_source ∷ sorted_consumer ∷ [])
unfolding sort_captures sort_rounds set_capture_priority set_priorities last_of new_priority
    collect_changes set_at apply_changes sort_by insert_by list_beq
sorted_captures = refl

names_differ : HasUniqueNames (links (consumer ∷ source ∷ []))
unfolding HasUniqueNames list_beq
names_differ = ((differ (codes "b") (codes "a") refl, tt), (tt, tt))

sort_captures-parent_capture_example :
    (y : Text × NetworkCaptureCommand) × Memᴰ y (sorted_source ∷ []) × (y.0 ≡ codes "a")
sort_captures-parent_capture_example =
    sort_captures-parent_capture (consumer ∷ source ∷ []) (sorted_source ∷ []) sorted_consumer []
      (codes "a") names_differ (refl, (refl, tt)) sorted_captures refl

sort_captures-Depth_example :
    Memᴰ (codes "b", some (codes "a")) (links (sorted_source ∷ sorted_consumer ∷ [])) ↔ (
      Memᴰ (codes "b", some (codes "a")) (links (consumer ∷ source ∷ []))
      × ((n : ℕ) × Depth (links (consumer ∷ source ∷ [])) (codes "b") n))
sort_captures-Depth_example =
    sort_captures-Depth (consumer ∷ source ∷ []) (sorted_source ∷ sorted_consumer ∷ []) (codes "b")
      (some (codes "a")) (refl, (refl, tt)) sorted_captures

both_depths : IsShallow (links (consumer ∷ source ∷ [])) 10 (consumer ∷ source ∷ [])
both_depths =
    let root = Depth.alone (Memᴰ.tail (Memᴰ.head refl)) in
    ((2, Depth.below (Memᴰ.head refl) root, omega arith), ((1, root, omega arith), tt))

sort_captures_ok_example : (out : Commands) × (sort_captures (consumer ∷ source ∷ []) ≡ ok out)
sort_captures_ok_example =
    sort_captures_ok (consumer ∷ source ∷ []) names_differ (refl, (refl, tt)) both_depths

-- A command that refers to one capture in its key and to another one in its value.
abbrev both : Text × NetworkCaptureCommand
both = (codes "c", record equal_command { value_capture = some (codes "b") })

-- It is sorted before the capture of its value.
value_capture_behind :
    sort_captures (both ∷ consumer ∷ source ∷ [])
    ≡ ok
        (sorted_source ∷ (codes "c", record both.1 { capture_priority = 2 }) ∷ sorted_consumer ∷ [])
unfolding sort_captures sort_rounds set_capture_priority set_priorities last_of new_priority
    collect_changes set_at apply_changes sort_by insert_by list_beq
value_capture_behind = refl

abbrev next_hop_path : List Text
next_hop_path = codes "a" ∷ codes "b" ∷ []

-- `{"a": {"b": null, "d": "y"}, "c": null}`, and the path `a.d`.
abbrev nested : Fields
nested =
    field (codes "a") (object (field (codes "b") null (field (codes "d") (string (codes "y")) end)))
      (field (codes "c") null end)

abbrev nested_after : Fields
nested_after =
    field (codes "a")
      (object (field (codes "b") (string (codes "x")) (field (codes "d") (string (codes "y")) end)))
      (field (codes "c") null end)

abbrev sibling_path : List Step
sibling_path = Step.by_key (codes "a") ∷ Step.by_key (codes "d") ∷ []

nested_names : IsNamePath next_hop_path
unfolding parse_index
nested_names = (refl, tt)

b_is_not_d : codes "b" ≢ codes "d"
unfolding list_beq
b_is_not_d = differ (codes "b") (codes "d") refl

sibling-Diverges : Diverges next_hop_path sibling_path
sibling-Diverges = inr (refl, inl b_is_not_d)

nested_update : update_json_value next_hop_path (some (codes "x")) nested ≡ ok nested_after
unfolding update_json_value get insert list_beq parse_index
nested_update = refl

update_json_value_lem_example :
    (get_value_from_json next_hop_path nested_after [] 0 ≡ ok (string (codes "x")))
    × (value_at sibling_path (object nested_after) ≡ value_at sibling_path (object nested))
update_json_value_lem_example =
    update_json_value_lem next_hop_path (some (codes "x")) nested nested_after [] 0 sibling_path
      nested_names sibling-Diverges nested_update

value_retain_only_lem_example :
    (get_value_from_json next_hop_path
        (fields_of (value_retain_only (object nested) next_hop_path))
        []
        0
      ≡ get_value_from_json next_hop_path nested [] 0)
    × (value_at sibling_path (value_retain_only (object nested) next_hop_path) ≡ none)
value_retain_only_lem_example =
    value_retain_only_lem next_hop_path nested [] 0 sibling_path nested_names sibling-Diverges
