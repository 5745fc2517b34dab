-- ===== src/Tests/Template.antt =====
-- Concrete values for rust/src/lib/policy/template.rs.
use nmstate.Base.{
  any, position, All, list_beq, contains, Text, codes, split_onto, split, len_utf8, is_whitespace,
  trim_start, trim_end, trim, ◌≡◌, refl, ◌⊎◌, some, List, [], ◌∷◌, nat_eq, bool_eq, list_eq,
  option_eq, int_eq, pair_eq,
}
use nmstate.Error.{ok, err, new_policy_error}
use nmstate.Json.{get, Value, Fields, string, object, end, field}
use nmstate.Policy.Json.{get_value_from_json, parse_index}
use nmstate.Policy.Capture.{get_path_value}
use nmstate.Policy.Template.Token.{
  NetworkTemplateToken, value, path, reference_start, reference_end, skip_whitespace, scan_start,
  scan_end, take_chars, subline_token, scan_text, scan_char, scan_all, pos_at, check_between,
  check_paired, parse_str_to_template_tokens,
}
use nmstate.Policy.Template.Token.Step.{IsText}
use nmstate.Policy.Template.Token.Paired.{IsReference, parse_str_to_template_tokens-IsReference}
use nmstate.Policy.Template.Resolve.{
  texts_of, capture_of, get_capture_value, resolve_string, resolve_capture_data,
  fill_with_captured_data,
}
use nmstate.Policy.Template.Resolve.Plain.{
  IsPlain, ArePlainFields, fill_with_captured_data-ArePlain,
}

abbrev reference_line : Text
reference_line = codes "x-{{ capture.a.b }}"

abbrev reference_tokens : List NetworkTemplateToken
reference_tokens =
    value (codes "x-") 0
    ∷ reference_start 2
    ∷ path (codes "capture" ∷ codes "a" ∷ codes "b" ∷ []) 5
    ∷ reference_end 17
    ∷ []

tokens_of_reference : parse_str_to_template_tokens reference_line ≡ ok reference_tokens
unfolding parse_str_to_template_tokens scan_all scan_char scan_start scan_end skip_whitespace
    scan_text take_chars subline_token is_whitespace len_utf8 trim trim_start trim_end split
    split_onto contains any list_beq check_paired check_between position pos_at
tokens_of_reference = refl

parse_str_to_template_tokens-IsReference_example :
    All IsText reference_tokens ⊎ IsReference reference_tokens
parse_str_to_template_tokens-IsReference_example =
    parse_str_to_template_tokens-IsReference reference_line reference_tokens tokens_of_reference

-- A dotted text before a reference is taken for a path, and refused.
abbrev dotted_line : Text
dotted_line = codes "a.b{{ capture.a.b }}"

abbrev captured : List (Text × Value)
captured = (codes "a", object (field (codes "b") (string (codes "y")) end)) ∷ []

abbrev entry : Text → Fields
entry s = field (codes "k") (string s) end

resolved_reference :
    fill_with_captured_data (λ v. some v) (λ v. some v) (entry reference_line) captured
    ≡ ok (object (entry (codes "x-y")))
unfolding parse_str_to_template_tokens scan_all scan_char scan_start scan_end skip_whitespace
    scan_text take_chars subline_token is_whitespace len_utf8 trim trim_start trim_end split
    split_onto contains any list_beq check_paired check_between position pos_at
    fill_with_captured_data resolve_capture_data resolve_string get_capture_value capture_of
    texts_of get_path_value get_value_from_json get parse_index
resolved_reference = refl

refused_reference :
    fill_with_captured_data (λ (v : Value). some v) (λ v. some v) (entry dotted_line) captured
    ≡ err (new_policy_error dotted_line 0)
unfolding parse_str_to_template_tokens scan_all scan_char scan_start scan_end skip_whitespace
    scan_text take_chars subline_token is_whitespace len_utf8 trim trim_start trim_end split
    split_onto contains any list_beq check_paired check_between position pos_at
    fill_with_captured_data resolve_capture_data resolve_string get_capture_value capture_of
    texts_of get_path_value get_value_from_json get parse_index
refused_reference = refl

plain_entry : ArePlainFields (entry (codes "eth1"))
unfolding ArePlainFields IsPlain
plain_entry = ((refl, (refl, (refl, (refl, tt)))), tt)

fill_with_captured_data-ArePlain_example :
    fill_with_captured_data (λ (v : Value). some v) (λ v. some v) (entry (codes "eth1")) captured
    ≡ ok (object (entry (codes "eth1")))
fill_with_captured_data-ArePlain_example =
    fill_with_captured_data-ArePlain (λ (v : Value). some v) (λ v. some v) (entry (codes "eth1"))
      captured plain_entry
