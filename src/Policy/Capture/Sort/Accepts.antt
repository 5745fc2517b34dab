-- ===== src/Policy/Capture/Sort/Accepts.antt =====
-- Which commands `sort_captures` accepts: chains of parents that are no longer than its rounds.
use nmstate.Base.{
  Bool-cases, Option-cases, All, All-Memᴰ, Memᴰ-All, Memᴰ-append_left, map-Memᴰ, Text, sort_by,
  by_key, ℕ, zero, suc, ◌+◌, ◌≤◌, ◌<◌, ◌≡◌, refl, sym, ◌∙◌, inl, inr, true, some, [], ◌∷◌, map,
  Memᴰ, arith, nat_ord, bool_ord, pair_ord, list_ord,
}
use nmstate.Error.{ok}
use nmstate.Policy.Capture.{NetworkCaptureCommand, parent_capture}
use nmstate.Policy.Capture.Sort.{
  Commands, Pending, cur_capture_priority, new_priority, set_capture_priority, priority_of,
  sort_rounds, sort_captures, sort_capture_max_round, last_of,
}
use nmstate.Policy.Capture.Sort.Depth.{
  Links, link, links, Depth, Depth-listed, Depth-pos, HasUniqueNames, AreSettled,
  set_priorities-Memᴰ, last_of-some,
}
use nmstate.Policy.Capture.Sort.Rounds.{get_elem?-Memᴰ, GetsPriority, collect_changes-done}
use nmstate.Policy.Capture.Sort.Ready.{same-links, round-AreSettled, round-IsSetAt, get_elem?-All}
use nmstate.Policy.Capture.Sort.Order.{links-Memᴰ, parent-Depth, AreUnset, AreUnset-AreSettled}

-- The commands up to the depth `r` have priorities.
abbrev IsSetTo : Links → ℕ → Commands → Type 0
IsSetTo ls r cmds = All (λ c. (n : ℕ) → Depth ls c.0 n → n ≤ r → 0 < priority_of c) cmds

-- Every command stands at a depth of at most `r`.
abbrev pub IsShallow : Links → ℕ → Commands → Type 0
IsShallow ls r cmds = All (λ c. (n : ℕ) × Depth ls c.0 n × (n ≤ r)) cmds

cur_capture_priority-some :
    (cmds : Commands) (pending : Pending) (y : Text × NetworkCaptureCommand)
    → Memᴰ y cmds
    → 0 < priority_of y
    → (k : ℕ) × (cur_capture_priority cmds pending y.0 ≡ some k)
unfolding cur_capture_priority last_of
cur_capture_priority-some cmds pending y m lt = last_of-some y.0 _ (priority_of y) (
    Memᴰ-append_left (map (λ change. (change.1, change.2)) pending)
      (set_priorities-Memᴰ y cmds m lt))

IsSetTo-GetsPriority :
    (ls : Links) (r : ℕ) (cmds : Commands) (c : Text × NetworkCaptureCommand) (n : ℕ)
    → HasUniqueNames ls
    → links cmds ≡ ls
    → IsSetTo ls r cmds
    → Memᴰ (link c) ls
    → Depth ls c.0 n
    → n ≤ r + 1
    → GetsPriority cmds c.1
unfolding new_priority
IsSetTo-GetsPriority ls r cmds c n u same set m d le pending =
    elim (Option-cases (parent_capture c.1)) [
      | inl e ↦ (1, rw (new_priority, e) refl)
      | inr (parent, e) ↦
          let (k, above, lt) = parent-Depth ls c.0 parent n u (rw e at m) d in
          let (other, l) = Depth-listed ls parent k above in
          let (y, w, q) = links-Memᴰ (parent, other) cmds (rw (← same) at l) in
          let name : y.0 ≡ parent = cc in
          let has : 0 < priority_of y =
            All-Memᴰ _ set w k (rw name above) (omega (arith, lt, le)) in
          let (p, found) = cur_capture_priority-some cmds pending y w has in
          let there : cur_capture_priority cmds pending parent ≡ some p = rw name at found in
          (p + 1, rw (new_priority, e, there) refl)
    ]

round-IsSetTo :
    (ls : Links) (r : ℕ) (cmds : Commands)
    → HasUniqueNames ls
    → links cmds ≡ ls
    → AreSettled ls cmds
    → IsSetTo ls r cmds
    → IsSetTo ls (r + 1) (set_capture_priority cmds).1
round-IsSetTo ls r cmds u e s set =
    let next = (set_capture_priority cmds).1 in
    let (_, linked) = round-AreSettled ls cmds e s in
    get_elem?-All _ next (λ i c at n d le.
      let (b, there, same) = same-links cmds next i c (linked ∙ sym e) at in
      let name : c.0 ≡ b.0 = cc in
      let listed : Memᴰ (link b) ls = rw (← e) (map-Memᴰ link (get_elem?-Memᴰ cmds i there)) in
      let gets = IsSetTo-GetsPriority ls r cmds b n u e set listed (rw name at d) le in
      let (f, here, lt) = round-IsSetAt ls cmds i b e s there (inr gets) in
      let found : f ≡ c = cc in rw (← found) lt)

round-done :
    (ls : Links) (r : ℕ) (cmds : Commands)
    → HasUniqueNames ls
    → links cmds ≡ ls
    → IsSetTo ls r cmds
    → IsShallow ls (r + 1) cmds
    → (set_capture_priority cmds).0 ≡ true
unfolding set_capture_priority
round-done ls r cmds u e set shallow = collect_changes-done cmds cmds 0 [] (
    Memᴰ-All _ cmds (λ c m.
      let (n, d, le) = All-Memᴰ _ shallow m in
      IsSetTo-GetsPriority ls r cmds c n u e set (rw (← e) (map-Memᴰ link m)) d le))

IsShallow-links :
    (ls : Links) (r : ℕ) (cmds next : Commands)
    → links next ≡ links cmds
    → IsShallow ls r cmds
    → IsShallow ls r next
IsShallow-links ls r [] [] e h = tt
IsShallow-links ls r [] (c ∷ next) e h = cc
IsShallow-links ls r (c ∷ cmds) [] e h = cc
IsShallow-links ls r (c ∷ cmds) (b ∷ next) e ((n, d, le), h) =
    let name : c.0 ≡ b.0 = cc in
    let rest : links next ≡ links cmds = cc in
    ((n, rw name at d, le), IsShallow-links ls r cmds next rest h)

sort_rounds_ok :
    (ls : Links) (rounds r : ℕ) (cmds : Commands)
    → HasUniqueNames ls
    → links cmds ≡ ls
    → AreSettled ls cmds
    → IsSetTo ls r cmds
    → IsShallow ls (r + 1 + rounds) cmds
    → (out : Commands) × (sort_rounds (suc rounds) cmds ≡ ok out)
unfolding sort_rounds
sort_rounds_ok ls zero r cmds u e s set shallow =
    let same : r + 1 + 0 ≡ r + 1 = omega arith in
    let done = round-done ls r cmds u e set (rw same at shallow) in
    (sort_by (by_key priority_of) (set_capture_priority cmds).1, rw (sort_rounds, done) refl)
sort_rounds_ok ls (suc rounds) r cmds u e s set shallow =
    let next = (set_capture_priority cmds).1 in
    let (settled, linked) = round-AreSettled ls cmds e s in
    let same : r + 1 + suc rounds ≡ r + 1 + 1 + rounds = omega arith in
    let (out, h) =
      sort_rounds_ok ls rounds (r + 1) next u linked settled (round-IsSetTo ls r cmds u e s set)
        (IsShallow-links ls _ cmds next (linked ∙ sym e) (rw same at shallow)) in
    elim (Bool-cases (set_capture_priority cmds).0) [
      | inl d ↦ (sort_by (by_key priority_of) next, rw (sort_rounds, d) refl)
      | inr d ↦ (out, rw (sort_rounds, d) h)
    ]

-- `sort_captures` accepts all commands whose names differ, whose priorities are unset, and whose
-- chains of parents have at most ten captures, in whatever order they stand.
pub sort_captures_ok :
    (cmds : Commands)
    → HasUniqueNames (links cmds)
    → AreUnset cmds
    → IsShallow (links cmds) sort_capture_max_round cmds
    → (out : Commands) × (sort_captures cmds ≡ ok out)
unfolding sort_captures
sort_captures_ok cmds u z shallow =
    sort_rounds_ok (links cmds) 9 0 cmds u refl (AreUnset-AreSettled (links cmds) cmds z)
      (Memᴰ-All _ cmds
        (λ c m n d le. let no : ⊥ = omega (arith, Depth-pos (links cmds) c.0 n d, le) in absurd no))
      shallow
