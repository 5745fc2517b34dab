-- ===== src/Policy/Capture/Sort/Rounds.antt =====
-- One round of `set_capture_priority`: which changes it collects, and what they make of the
-- commands.
use nmstate.Base.{
  Option-cases, length, get_elem?, All, All-append, Memᴰ-append_left, Memᴰ-append_right, Text, ℕ,
  zero, suc, ◌+◌, ◌<◌, ◌≡◌, refl, sym, ap, ◌∙◌, ◌⊎◌, inl, inr, true, Option, some, List, [], ◌∷◌,
  ◌++◌, Memᴰ, append_assoc, arith,
}
use nmstate.Policy.Capture.{NetworkCaptureCommand, parent_capture}
use nmstate.Policy.Capture.Sort.{
  Commands, Pending, with_priority, new_priority, collect_changes, set_at, apply_changes,
  priority_of,
}
use nmstate.Policy.Capture.Sort.Depth.{
  Links, link, links, Depth, Depth-pos, AreSettled, IsChange, new_priority-Depth,
}

get_elem?-middle {ℓ} :
    {A : Type ℓ} (before : List A) (x : A) (behind : List A)
    → get_elem? (before ++ (x ∷ behind)) (length before) ≡ some x
get_elem?-middle [] x behind = refl
get_elem?-middle (b ∷ before) x behind = get_elem?-middle before x behind

pub get_elem?-Memᴰ {ℓ} :
    {A : Type ℓ} (xs : List A) (i : ℕ) {x : A} → get_elem? xs i ≡ some x → Memᴰ x xs
get_elem?-Memᴰ [] i h = cc
get_elem?-Memᴰ (y ∷ xs) zero h = Memᴰ.head cc
get_elem?-Memᴰ (y ∷ xs) (suc i) h = Memᴰ.tail (get_elem?-Memᴰ xs i h)

length-push {ℓ} : {A : Type ℓ} (xs : List A) (x : A) → length (xs ++ (x ∷ [])) ≡ length xs + 1
length-push [] x = omega arith
length-push (y ∷ xs) x = omega (arith, length-push xs x)

-- The changes that a round collects are right for the captures at their indices.
pub collect_changes-IsChange :
    (ls : Links) (cmds : Commands) (before : Links) (rest : Commands) (index : ℕ)
    (pending : Pending)
    → AreSettled ls cmds
    → ls ≡ before ++ links rest
    → index ≡ length before
    → All (IsChange ls) pending
    → All (IsChange ls) (collect_changes cmds index pending rest).1
unfolding collect_changes
collect_changes-IsChange ls cmds before [] index pending s parts at p = p
collect_changes-IsChange ls cmds before (c ∷ rest) index pending s parts at p =
    let next : ls ≡ (before ++ (link c ∷ [])) ++ links rest =
      parts ∙ sym (append_assoc before (link c ∷ []) (links rest)) in
    let here : get_elem? ls index ≡ some (link c) =
      rw (parts, at) (get_elem?-middle before (link c) (links rest)) in
    let listed : Memᴰ (link c) ls = rw parts (Memᴰ-append_right before (Memᴰ.head refl)) in
    let step = λ (pending' : Pending) (q : All (IsChange ls) pending').
      collect_changes-IsChange ls cmds (before ++ (link c ∷ [])) rest (index + 1) pending' s next
        (omega (arith, at, length-push before (link c))) q in
    elim (Option-cases (new_priority cmds pending c.1)) [
      | inl e ↦ rw (collect_changes, e) (step pending p)
      | inr (n, e) ↦
          rw (collect_changes, e)
            (step (pending ++ ((index, c.0, n) ∷ [])) (
              All-append (IsChange ls) pending ((index, c.0, n) ∷ []) p (
                (new_priority-Depth ls cmds pending c n s p listed e, (parent_capture c.1, here)),
                tt,
              )))
    ]

-- The changes before stay.
collect_changes-keeps :
    (cmds : Commands) (rest : Commands) (index : ℕ) (pending : Pending) {change : ℕ × Text × ℕ}
    → Memᴰ change pending
    → Memᴰ change (collect_changes cmds index pending rest).1
unfolding collect_changes
collect_changes-keeps cmds [] index pending m = m
collect_changes-keeps cmds (c ∷ rest) index pending m =
    elim (Option-cases (new_priority cmds pending c.1)) [
      | inl e ↦ rw (collect_changes, e) (collect_changes-keeps cmds rest (index + 1) pending m)
      | inr (n, e) ↦
          rw (collect_changes, e)
            (collect_changes-keeps cmds rest (index + 1) (pending ++ ((index, c.0, n) ∷ []))
              (Memᴰ-append_left ((index, c.0, n) ∷ []) m))
    ]

-- A command whose parent has a priority in this round.
abbrev pub GetsPriority : Commands → NetworkCaptureCommand → Type 0
GetsPriority cmds c = (pending : Pending) → (n : ℕ) × (new_priority cmds pending c ≡ some n)

abbrev IsTouched : ℕ → Pending → Type 0
IsTouched index pending = (name : Text) × (n : ℕ) × Memᴰ (index, name, n) pending

pub collect_changes-IsTouched :
    (cmds : Commands) (rest : Commands) (index : ℕ) (pending : Pending) (i : ℕ)
    (c : Text × NetworkCaptureCommand)
    → get_elem? rest i ≡ some c
    → ((collect_changes cmds index pending rest).0 ≡ true) ⊎ GetsPriority cmds c.1
    → IsTouched (index + i) (collect_changes cmds index pending rest).1
unfolding collect_changes
collect_changes-IsTouched cmds [] index pending i c at h = cc
collect_changes-IsTouched cmds (d ∷ rest) index pending zero c at h =
    elim (Option-cases (new_priority cmds pending d.1)) [
      | inl e ↦ elim h [
        | inl t ↦ cc (rw (collect_changes, e) at t)
        | inr g ↦ let same : d ≡ c = cc in let (n, f) = g pending in cc (rw (← same, e) at f)
      ]
      | inr (n, e) ↦
          let here : index ≡ index + 0 = omega arith in
          rw (collect_changes, e, ← here)
            (
              d.0,
              n,
              collect_changes-keeps cmds rest (index + 1) _
                  (Memᴰ-append_right pending (Memᴰ.head refl)),
            )
    ]
collect_changes-IsTouched cmds (d ∷ rest) index pending (suc i) c at h =
    let there : index + 1 + i ≡ index + suc i = omega arith in
    elim (Option-cases (new_priority cmds pending d.1)) [
      | inl e ↦ elim h [
        | inl t ↦ cc (rw (collect_changes, e) at t)
        | inr g ↦
            rw (collect_changes, e, ← there)
              (collect_changes-IsTouched cmds rest (index + 1) pending i c at (inr g))
      ]
      | inr (n, e) ↦
          rw (collect_changes, e, ← there)
            (collect_changes-IsTouched cmds rest (index + 1) (pending ++ ((index, d.0, n) ∷ [])) i c
              at (elim h [ inl t ↦ inl (rw (collect_changes, e) at t) | inr g ↦ inr g ]))
    ]

pub collect_changes-done :
    (cmds : Commands) (rest : Commands) (index : ℕ) (pending : Pending)
    → All (λ c. GetsPriority cmds c.1) rest
    → (collect_changes cmds index pending rest).0 ≡ true
unfolding collect_changes
collect_changes-done cmds [] index pending h = refl
collect_changes-done cmds (c ∷ rest) index pending h =
    let (n, e) = h.0 pending in
    rw (collect_changes, e)
      (collect_changes-done cmds rest (index + 1) (pending ++ ((index, c.0, n) ∷ [])) h.1)

links-set_at : (i n : ℕ) (cmds : Commands) → links (set_at i n cmds) ≡ links cmds
unfolding set_at
links-set_at i n [] = refl
links-set_at zero n (c ∷ cmds) = refl
links-set_at (suc i) n (c ∷ cmds) = ap (λ r. link c ∷ r) (links-set_at i n cmds)

set_at-AreSettled :
    (ls : Links) (i n : ℕ) (cmds : Commands) (name : Text) (parent : Option Text)
    → get_elem? (links cmds) i ≡ some (name, parent)
    → Depth ls name n
    → AreSettled ls cmds
    → AreSettled ls (set_at i n cmds)
unfolding set_at
set_at-AreSettled ls i n [] name parent at d s = tt
set_at-AreSettled ls zero n (c ∷ cmds) name parent at d s =
    let same : name ≡ c.0 = cc in ((λ z. rw (← same) d), s.1)
set_at-AreSettled ls (suc i) n (c ∷ cmds) name parent at d s =
    (s.0, set_at-AreSettled ls i n cmds name parent at d s.1)

pub apply_changes-AreSettled :
    (ls : Links) (pending : Pending) (cmds : Commands)
    → All (IsChange ls) pending
    → links cmds ≡ ls
    → AreSettled ls cmds
    → AreSettled ls (apply_changes pending cmds) × (links (apply_changes pending cmds) ≡ ls)
unfolding apply_changes
apply_changes-AreSettled ls [] cmds p e s = (s, e)
apply_changes-AreSettled ls (change ∷ pending) cmds ((d, (parent, at)), p) e s =
    apply_changes-AreSettled ls pending (set_at change.0 change.2 cmds) p
      (links-set_at change.0 change.2 cmds ∙ e)
      (set_at-AreSettled ls change.0 change.2 cmds change.1 parent (rw e at) d s)

-- The command at the index has a priority.
abbrev pub IsSetAt : ℕ → Commands → Type 0
IsSetAt i cmds =
    (c : Text × NetworkCaptureCommand) × (get_elem? cmds i ≡ some c) × (0 < priority_of c)

set_at-IsSetAt :
    (i j n : ℕ) (cmds : Commands) → 0 < n → IsSetAt i cmds → IsSetAt i (set_at j n cmds)
unfolding set_at
set_at-IsSetAt i j n [] lt h = h
set_at-IsSetAt zero zero n (c ∷ cmds) lt h = (with_priority n c, refl, lt)
set_at-IsSetAt (suc i) zero n (c ∷ cmds) lt h = h
set_at-IsSetAt zero (suc j) n (c ∷ cmds) lt h = h
set_at-IsSetAt (suc i) (suc j) n (c ∷ cmds) lt h = set_at-IsSetAt i j n cmds lt h

set_at-sets : (i n : ℕ) (cmds : Commands) → 0 < n → i < length cmds → IsSetAt i (set_at i n cmds)
unfolding set_at
set_at-sets i n [] lt h = let no : ⊥ = omega (arith, h) in absurd no
set_at-sets zero n (c ∷ cmds) lt h = (with_priority n c, refl, lt)
set_at-sets (suc i) n (c ∷ cmds) lt h = set_at-sets i n cmds lt (omega arith)

length-set_at : (i n : ℕ) (cmds : Commands) → length (set_at i n cmds) ≡ length cmds
unfolding set_at
length-set_at i n [] = refl
length-set_at zero n (c ∷ cmds) = refl
length-set_at (suc i) n (c ∷ cmds) = ap suc (length-set_at i n cmds)

apply_changes-IsSetAt :
    (ls : Links) (pending : Pending) (cmds : Commands) (i : ℕ)
    → All (IsChange ls) pending
    → IsSetAt i cmds
    → IsSetAt i (apply_changes pending cmds)
unfolding apply_changes
apply_changes-IsSetAt ls [] cmds i p h = h
apply_changes-IsSetAt ls (change ∷ pending) cmds i ((d, _), p) h =
    apply_changes-IsSetAt ls pending _ i p
      (set_at-IsSetAt i change.0 change.2 cmds (Depth-pos ls change.1 change.2 d) h)

pub apply_changes-sets :
    (ls : Links) (pending : Pending) (cmds : Commands) (i : ℕ)
    → All (IsChange ls) pending
    → i < length cmds
    → IsTouched i pending
    → IsSetAt i (apply_changes pending cmds)
unfolding apply_changes
apply_changes-sets ls [] cmds i p lt (name, n, m) = elim m [ ]
apply_changes-sets ls (change ∷ pending) cmds i ((d, _), p) lt (name, n, Memᴰ.tail m) =
    apply_changes-sets ls pending (set_at change.0 change.2 cmds) i p
      (omega (arith, length-set_at change.0 change.2 cmds)) (name, n, m)
apply_changes-sets ls (change ∷ pending) cmds i ((d, _), p) lt (name, n, Memᴰ.head e) =
    let index : change.0 ≡ i = cc in
    apply_changes-IsSetAt ls pending (set_at change.0 change.2 cmds) i p
      (rw index (set_at-sets i change.2 cmds (Depth-pos ls change.1 change.2 d) lt))
