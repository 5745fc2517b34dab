-- ===== src/Policy/Capture/Sort.antt =====
-- The order of the capture commands: `sort_captures` and `set_capture_priority` of
-- rust/src/lib/policy/capture.rs.
pub mod Depth
pub mod Rounds
pub mod Ready
pub mod Order
pub mod Accepts
use nmstate.Base.{
  if◌then◌else◌, ◌==◌, Text, sort_by, by_key, ℕ, zero, suc, ◌+◌, Bool, true, false, Option, none,
  some, List, [], ◌∷◌, ◌++◌, map, nat_eq, bool_eq, list_eq, option_eq, int_eq, pair_eq, nat_ord,
  bool_ord, pair_ord, list_ord,
}
use nmstate.Error.{Result, ok, err, new_error, invalid_argument}
use nmstate.Policy.Capture.{NetworkCaptureCommand, parent_capture}

-- `NetworkCaptureRules::cmds`
abbrev pub Commands : Type 0
Commands = List (Text × NetworkCaptureCommand)

-- `pending_changes`: an index, the name and the new priority.
abbrev pub Pending : Type 0
Pending = List (ℕ × Text × ℕ)

abbrev pub with_priority : ℕ → Text × NetworkCaptureCommand → Text × NetworkCaptureCommand
with_priority priority cmd = (cmd.0, record cmd.1 { capture_priority = priority })

-- The entries of `cur_capture_priorities` that come from the commands.
unfoldable pub set_priorities : Commands → List (Text × ℕ)
set_priorities [] = []
set_priorities (cmd ∷ cmds) =
    let rest = set_priorities cmds in
    if cmd.1.capture_priority == 0 then rest else (cmd.0, cmd.1.capture_priority) ∷ rest

-- `get` of a map collected from the entries: the last one counts.
unfoldable pub last_of : Text → List (Text × ℕ) → Option ℕ
last_of name [] = none
last_of name (entry ∷ entries) = elim (last_of name entries) [
  | some priority ↦ some priority
  | none ↦ if entry.0 == name then some entry.1 else none
]

abbrev pub cur_capture_priority : Commands → Pending → Text → Option ℕ
unfolding last_of set_priorities
cur_capture_priority cmds pending name =
    last_of name (set_priorities cmds ++ map (λ change. (change.1, change.2)) pending)

-- The change for the command at `index`, if its parent has a priority.
unfoldable pub new_priority : Commands → Pending → NetworkCaptureCommand → Option ℕ
unfolding cur_capture_priority
new_priority cmds pending cmd = elim (parent_capture cmd) [
  | none ↦ some 1
  | some dep_name ↦ elim (cur_capture_priority cmds pending dep_name) [
    | none ↦ none
    | some priority ↦ some (priority + 1)
  ]
]

-- The first loop, from the command at `index` on: whether all have a priority, and the changes.
unfoldable pub collect_changes : Commands → ℕ → Pending → Commands → Bool × Pending
unfolding new_priority
collect_changes cmds index pending [] = (true, pending)
collect_changes cmds index pending (cmd ∷ rest) = elim (new_priority cmds pending cmd.1) [
  | none ↦ (false, (collect_changes cmds (index + 1) pending rest).1)
  | some priority ↦
      collect_changes cmds (index + 1) (pending ++ ((index, cmd.0, priority) ∷ [])) rest
]

-- `cmds[index].1.capture_priority = capture_priority`
unfoldable pub set_at : ℕ → ℕ → Commands → Commands
set_at index priority [] = []
set_at zero priority (cmd ∷ cmds) = with_priority priority cmd ∷ cmds
set_at (suc index) priority (cmd ∷ cmds) = cmd ∷ set_at index priority cmds

-- The second loop.
unfoldable pub apply_changes : Pending → Commands → Commands
unfolding set_at
apply_changes [] cmds = cmds
apply_changes (change ∷ pending) cmds = apply_changes pending (set_at change.0 change.2 cmds)

unfoldable pub set_capture_priority : Commands → Bool × Commands
unfolding collect_changes apply_changes
set_capture_priority cmds =
    let (done, pending) = collect_changes cmds 0 [] cmds in (done, apply_changes pending cmds)

abbrev pub priority_of : Text × NetworkCaptureCommand → ℕ
priority_of cmd = cmd.1.capture_priority

-- The rounds of `sort_captures`. Its sort may reorder equal keys; this one keeps them.
unfoldable pub sort_rounds : ℕ → Commands → Result Commands
unfolding set_capture_priority sort_by
sort_rounds zero cmds = err (new_error invalid_argument)
sort_rounds (suc rounds) cmds =
    let (done, next) = set_capture_priority cmds in
    let again = sort_rounds rounds next in
    if done then ok (sort_by (by_key priority_of) next) else again

abbrev pub sort_capture_max_round : ℕ
sort_capture_max_round = 10

unfoldable pub sort_captures : Commands → Result Commands
unfolding sort_rounds
sort_captures cmds = sort_rounds sort_capture_max_round cmds
