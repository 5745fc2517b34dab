-- ===== src/Lib.antt =====
-- Nmstate, a declarative manager of network configuration: a model of the core of its library
-- (rust/src/lib), and theorems on it.
--
-- A user gives a desired network state. The library checks and normalizes its parts, merges them
-- with the current state into the state that is to be applied, hands that to a backend, and then
-- compares what the backend reports with what was desired.
--
-- The files, and the code that they model:
--
-- Base      lists, text, order, sorting and numbers that the parts share. Text is a list of code
--           points, a number is a natural number with its bound written out.
-- Error     rust/src/lib/error.rs: `NmstateError` without its message texts, and results.
-- BridgeVlan  rust/src/lib/ifaces/bridge_vlan.rs: the VLAN filter of a bridge port. Overlap and
--           Sanitize are about its checks, Canonical about `flatten_vlan_ranges` and
--           `sort_trunk_tags`, Limit about ranges up to the largest `u16`.
-- Json      the JSON values that rust/src/lib/state.rs works on, as the serialization library keeps
--           them: an object is a list of keys in their order of insertion. Paths leads to the
--           values inside a value.
-- State     rust/src/lib/state.rs: `get_json_value_difference`, `gen_diff_json_value` and
--           `merge_json_value`. Reported and Sound are about a verification without a difference,
--           Verify about that of a merged state, Apply about differences.
-- Ip        the network functions of rust/src/lib/ip.rs, with the parser and the printer of the
--           standard library's addresses (Number, Parse, Print). RoundTrip is about reading a printed
--           IPv4 address.
-- Route     rust/src/lib/route.rs: `RouteEntry` and `Routes`. Match is about `is_match`.
-- Route/Merged  `MergedRoutes` of the same file. Group says what its loops do to the list of merged
--           routes; Safety, Complete (with Placed), Accepts, Refuses and Touched are about the whole of
--           `MergedRoutes::new`.
-- RouteRule  rust/src/lib/route_rule.rs: `RouteRuleEntry`. Match is about `is_match`.
-- RouteRule/Merged  `MergedRouteRules` of the same file. Applied is about the rules that it hands on,
--           Priority about `set_auto_priority`, Changed about `is_changed`.
-- Policy/Json  rust/src/lib/policy/json.rs: reading, writing and cutting down a JSON value by a path.
--           Update is about writing, Retain about cutting down.
-- Policy/Token  `parse_str_to_capture_tokens` of rust/src/lib/policy/token.rs. Step is about one round
--           of its loop, Order about the tokens that it returns.
-- Policy/Capture  rust/src/lib/policy/capture.rs: the parse of a capture command (Parse, with
--           the two sides of an action in Conditions), and `sort_captures` (Sort, with its rounds in
--           Depth, Rounds and Ready, what they return in Order, and what they accept in Accepts).
-- Policy/Template  `parse_str_to_template_tokens` of rust/src/lib/policy/token.rs (Token, with its loop
--           in Step and the pairs of references in Paired), and rust/src/lib/policy/template.rs
--           (Resolve; Plain is about templates without references).
-- Policy/Selection  rust/src/lib/policy/route.rs and route_rule.rs. Wanted is about `get_route_match`.
-- Dns       rust/src/lib/dns.rs: the states of the resolver and their merge. Options and
--           Accepts are about `DnsClientState::sanitize`, Merged about `MergedDnsState::new`,
--           Stable about IPv4 servers that are sanitized twice.
-- Controller  the checks of rust/src/lib/ifaces/inter_ifaces_controller.rs. Overbook is about
--           `check_overbook_ports`, Agree about two checks together, Listed about the port list of a
--           desired controller.
-- Tests     runs on concrete inputs.
--
-- A loop of the code is a function on the list that it runs over; a value that the code updates in
-- place is an argument and a result. A `?` or an early return is the error of a `Result`. A hash
-- set or map is a list whose order no theorem uses. Fuel is in the printing of numbers, where 39
-- digits are enough for 128 bits, and in the tokenizers, where each round takes a character, so
-- that the length of the text is enough; `sort_captures` has ten rounds in the code too. The
-- arithmetic of `u16` and `i64` wraps, as in a release build.
--
-- Of the merged interfaces, the routes read four things, which `KernelIface` holds, and the checks
-- of controllers the fields of their `Interface`. JSON numbers are integers. Not modelled are
-- serialization, logging, the texts of errors, the backends (rust/src/lib/nm, nispor, ovsdb), the
-- bindings, the interface checks of the DNS state, the execution of captures, and the
-- merge of interfaces.
pub mod Base
pub mod Error
pub mod BridgeVlan
pub mod Json
pub mod State
pub mod Ip
pub mod Route
pub mod RouteRule
pub mod Policy
pub mod Dns
pub mod Controller
pub mod Tests
