-- ===== src/Policy/Capture/Sort/Order.antt =====
-- What `sort_captures` returns: each capture stands behind the one it refers to. It accepts every
-- set of captures whose chains are no longer than its rounds, and no cycle.
use nmstate.Base.{
  All, All-Memᴰ, Memᴰ-All, Memᴰ-cons, Memᴰ-append_right, Memᴰ-append, map-Memᴰ, Text, sort_by,
  sort_by-Memᴰ, sort_by-All, LeKey, by_key, IsSorted, sort_by-IsSorted, ℕ, ◌<◌, ◌≡◌, refl, sym, ap,
  subst, ◌↔◌, inl, inr, Option, none, some, [], ◌∷◌, ◌++◌, Memᴰ, arith, nat_ord, bool_ord, pair_ord,
  list_ord,
}
use nmstate.Error.{ok}
use nmstate.Policy.Capture.{NetworkCaptureCommand, parent_capture}
use nmstate.Policy.Capture.Sort.{Commands, priority_of, sort_captures}
use nmstate.Policy.Capture.Sort.Depth.{
  Links, link, links, Depth, Depth-unique, Depth-listed, HasUniqueNames, AreSettled, unique-parent,
}
use nmstate.Policy.Capture.Sort.Ready.{IsReady, sort_rounds-IsReady}

-- A link among those of the commands belongs to one of the commands.
pub links-Memᴰ :
    (l : Text × Option Text) (cmds : Commands)
    → Memᴰ l (links cmds)
    → (c : Text × NetworkCaptureCommand) × Memᴰ c cmds × (l ≡ link c)
links-Memᴰ l [] m = elim m [ ]
links-Memᴰ l (c ∷ cmds) (Memᴰ.head e) = (c, Memᴰ.head refl, e)
links-Memᴰ l (c ∷ cmds) (Memᴰ.tail m) = let (d, k, e) = links-Memᴰ l cmds m in (d, Memᴰ.tail k, e)

-- What stands behind an element of a sorted list has no smaller priority.
sorted-behind :
    (before : Commands) (c : Text × NetworkCaptureCommand) (behind : Commands)
    → IsSorted priority_of (before ++ (c ∷ behind))
    → All (LeKey priority_of c) behind
sorted-behind [] c behind s = s.0
sorted-behind (b ∷ before) c behind s = sorted-behind before c behind s.1

sorted-before :
    (before : Commands) (c y : Text × NetworkCaptureCommand) (behind : Commands)
    → IsSorted priority_of (before ++ (c ∷ behind))
    → Memᴰ y (before ++ (c ∷ behind))
    → priority_of y < priority_of c
    → Memᴰ y before
sorted-before before c y behind s m lt = elim (Memᴰ-append before m) [
  | inl k ↦ k
  | inr k ↦ elim (Memᴰ-cons k) [
    | inl e ↦ let no : ⊥ = omega (arith, ap priority_of e) in absurd no
    | inr l ↦
        absurd (All-Memᴰ (LeKey priority_of c) (sorted-behind before c behind s) l (ground arith))
  ]
]

pub parent-Depth :
    (ls : Links) (name parent : Text) (n : ℕ)
    → HasUniqueNames ls
    → Memᴰ (name, some parent) ls
    → Depth ls name n
    → (k : ℕ) × Depth ls parent k × (k < n)
parent-Depth ls name parent n u m (Depth.alone l) =
    cc (unique-parent name none (some parent) ls u l m)
parent-Depth ls name parent n u m (Depth.below {parent = p} {n = k} l d) =
    let same : p ≡ parent = cc (unique-parent name (some p) (some parent) ls u l m) in
    (k, rw same at d, omega arith)

ready-parent :
    (ls : Links) (last : Commands) (c : Text × NetworkCaptureCommand) (parent : Text)
    → HasUniqueNames ls
    → IsReady ls last
    → Memᴰ c last
    → parent_capture c.1 ≡ some parent
    → (y : Text × NetworkCaptureCommand) × Memᴰ y last
      × (y.0 ≡ parent)
      × (priority_of y < priority_of c)
ready-parent ls last c parent u r m e =
    let depth =
      All-Memᴰ _ r.settled m (λ z. let no : ⊥ = omega (arith, z, All-Memᴰ _ r.complete m) in no) in
    let listed : Memᴰ (c.0, some parent) ls = rw (← r.linked, ← e) (map-Memᴰ link m) in
    let (k, d, lt) = parent-Depth ls c.0 parent (priority_of c) u listed depth in
    let (other, l) = Depth-listed ls parent k d in
    let (y, n, q) = links-Memᴰ (parent, other) last (rw (← r.linked) at l) in
    let name : y.0 ≡ parent = cc in
    let of_y =
      All-Memᴰ _ r.settled n (λ z. let no : ⊥ = omega (arith, z, All-Memᴰ _ r.complete n) in no) in
    let same = Depth-unique ls parent (priority_of y) k u (rw name at of_y) d in
    (y, n, name, omega (arith, same))

-- No command has a priority yet, as `parse` leaves them.
abbrev pub AreUnset : Commands → Type 0
AreUnset cmds = All (λ c. priority_of c ≡ 0) cmds

pub AreUnset-AreSettled : (ls : Links) (cmds : Commands) → AreUnset cmds → AreSettled ls cmds
AreUnset-AreSettled ls [] h = tt
AreUnset-AreSettled ls (c ∷ cmds) h = ((λ n. absurd (n h.0)), AreUnset-AreSettled ls cmds h.1)

sort_captures-IsReady :
    (cmds out : Commands)
    → AreUnset cmds
    → sort_captures cmds ≡ ok out
    → (last : Commands) × IsReady (links cmds) last × (out ≡ sort_by (by_key priority_of) last)
unfolding sort_captures
sort_captures-IsReady cmds out z h =
    sort_rounds-IsReady (links cmds) 10 cmds out refl (AreUnset-AreSettled (links cmds) cmds z) h

sort_by-origin :
    (last : Commands) {c : Text × NetworkCaptureCommand}
    → Memᴰ c (sort_by (by_key priority_of) last)
    → Memᴰ c last
sort_by-origin last m =
    All-Memᴰ (λ c. Memᴰ c last)
      (sort_by-All (λ c. Memᴰ c last) (by_key priority_of) last (Memᴰ-All _ last (λ c k. k))) m

-- When `sort_captures` accepts commands whose names differ and whose priorities are unset, then
-- each command that refers to a capture by `parent_capture` stands behind a command of that name.
pub sort_captures-parent_capture :
    (cmds before : Commands) (c : Text × NetworkCaptureCommand) (behind : Commands) (parent : Text)
    → HasUniqueNames (links cmds)
    → AreUnset cmds
    → sort_captures cmds ≡ ok (before ++ (c ∷ behind))
    → parent_capture c.1 ≡ some parent
    → (y : Text × NetworkCaptureCommand) × Memᴰ y before × (y.0 ≡ parent)
sort_captures-parent_capture cmds before c behind parent u z h e =
    let (last, ready, same) = sort_captures-IsReady cmds (before ++ (c ∷ behind)) z h in
    let here : Memᴰ c (before ++ (c ∷ behind)) = Memᴰ-append_right before (Memᴰ.head refl) in
    let (y, m, name, lt) =
      ready-parent (links cmds) last c parent u ready (sort_by-origin last (rw same at here)) e in
    let sorted : IsSorted priority_of (before ++ (c ∷ behind)) =
      rw same (sort_by-IsSorted priority_of last) in
    (
      y,
      sorted-before before c y behind sorted (rw same (sort_by-Memᴰ (by_key priority_of) m)) lt,
      name,
    )

-- When `sort_captures` accepts commands whose priorities are unset, then a name with its parent is
-- among the returned commands exactly when it is among the given ones and has a depth there: the
-- chain of its parents ends. So nothing is lost or added, and no capture refers to itself through
-- others.
pub sort_captures-Depth :
    (cmds out : Commands) (name : Text) (parent : Option Text)
    → AreUnset cmds
    → sort_captures cmds ≡ ok out
    → Memᴰ (name, parent) (links out)
      ↔ (Memᴰ (name, parent) (links cmds) × ((n : ℕ) × Depth (links cmds) name n))
sort_captures-Depth cmds out name parent z h =
    let (last, ready, same) = sort_captures-IsReady cmds out z h in
    (
      λ m.
          let (c, k, e) = links-Memᴰ (name, parent) out m in
          let here = sort_by-origin last (rw same at k) in
          let lt = All-Memᴰ _ ready.complete here in
          let same_name : name ≡ c.0 = cc in
          (
            rw (← ready.linked, e) (map-Memᴰ link here),
            (
              priority_of c,
              subst (λ x. Depth (links cmds) x (priority_of c)) (sym same_name)
                  (All-Memᴰ _ ready.settled here (λ q. let no : ⊥ = omega (arith, q, lt) in no)),
            ),
          ),
      λ (m, d).
          let (c, k, e) = links-Memᴰ (name, parent) last (rw (← ready.linked) at m) in
          rw (e, same) (map-Memᴰ link (sort_by-Memᴰ (by_key priority_of) k)),
    )
