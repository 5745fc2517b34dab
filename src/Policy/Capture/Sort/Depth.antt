-- ===== src/Policy/Capture/Sort/Depth.antt =====
-- The depth of a capture: how many captures its chain of parents has. The priorities that
-- `set_capture_priority` sets are depths.
use nmstate.Base.{
  Bool-cases, Option-cases, get_elem?, All, All-append, All-Memᴰ, ◌==◌, ==_refl, ==→≡, ==_ne, Text,
  ℕ, ◌+◌, ◌<◌, ◌≡◌, refl, ap, ◌≢◌, inl, inr, false, Option, none, some, List, [], ◌∷◌, map, Memᴰ,
  arith, nat_eq, bool_eq, list_eq, option_eq, int_eq, pair_eq,
}
use nmstate.Policy.Capture.{NetworkCaptureCommand, parent_capture}
use nmstate.Policy.Capture.Sort.{
  Commands, Pending, set_priorities, last_of, cur_capture_priority, new_priority, priority_of,
}

-- The names of the captures with the names of their parents, which the rounds leave alone.
abbrev pub Links : Type 0
Links = List (Text × Option Text)

abbrev pub link : Text × NetworkCaptureCommand → Text × Option Text
link cmd = (cmd.0, parent_capture cmd.1)

abbrev pub links : Commands → Links
links cmds = map link cmds

-- The capture `name` stands at the depth `n`, counted from 1.
pub data Depth (ls : Links) : Text → ℕ → Type 0 where
  alone : {name : Text} → Memᴰ (name, none) ls → Depth ls name 1
  below :
      {name parent : Text} {n : ℕ}
      → Memᴰ (name, some parent) ls
      → Depth ls parent n
      → Depth ls name (n + 1)

-- No two captures have one name.
unfoldable pub HasUniqueNames : Links → Type 0
HasUniqueNames [] = Unit
HasUniqueNames (l ∷ ls) = All (λ k. l.0 ≢ k.0) ls × HasUniqueNames ls

pub unique-parent :
    (name : Text) (a b : Option Text) (ls : Links)
    → HasUniqueNames ls
    → Memᴰ (name, a) ls
    → Memᴰ (name, b) ls
    → a ≡ b
unfolding HasUniqueNames
unique-parent name a b ls u (Memᴰ.head e) (Memᴰ.head f) = cc
unique-parent name a b ls u (Memᴰ.head e) (Memᴰ.tail n) = absurd (All-Memᴰ _ u.0 n cc)
unique-parent name a b ls u (Memᴰ.tail m) (Memᴰ.head f) = absurd (All-Memᴰ _ u.0 m cc)
unique-parent name a b ls u (Memᴰ.tail {xs = xs} m) (Memᴰ.tail n) =
    unique-parent name a b xs u.1 m n

pub Depth-pos : (ls : Links) (name : Text) (n : ℕ) → Depth ls name n → 0 < n
Depth-pos ls name n (Depth.alone m) = omega arith
Depth-pos ls name n (Depth.below m d) = omega arith

pub Depth-unique :
    (ls : Links) (name : Text) (n k : ℕ)
    → HasUniqueNames ls
    → Depth ls name n
    → Depth ls name k
    → n ≡ k
Depth-unique ls name n k u (Depth.alone m) (Depth.alone l) = refl
Depth-unique ls name n k u (Depth.alone m) (Depth.below {parent = q} l e) =
    cc (unique-parent name none (some q) ls u m l)
Depth-unique ls name n k u (Depth.below {parent = q} m d) (Depth.alone l) =
    cc (unique-parent name none (some q) ls u l m)
Depth-unique ls name n k u (Depth.below {parent = p} {n = i} m d)
      (Depth.below {parent = q} {n = j} l e) =
    let same : p ≡ q = cc (unique-parent name (some p) (some q) ls u m l) in
    ap (λ x. x + 1) (Depth-unique ls p i j u d (rw same e))

pub Depth-listed :
    (ls : Links) (name : Text) (n : ℕ)
    → Depth ls name n
    → (parent : Option Text) × Memᴰ (name, parent) ls
Depth-listed ls name n (Depth.alone m) = (none, m)
Depth-listed ls name n (Depth.below {parent = p} m d) = (some p, m)

-- What the entries of `cur_capture_priorities` say of their captures.
abbrev pub AreDepths : Links → List (Text × ℕ) → Type 0
AreDepths ls entries = All (λ e. Depth ls e.0 e.1) entries

pub last_of-Depth :
    (ls : Links) (name : Text) (entries : List (Text × ℕ)) (n : ℕ)
    → AreDepths ls entries
    → last_of name entries ≡ some n
    → Depth ls name n
unfolding last_of
last_of-Depth ls name [] n a h = cc
last_of-Depth ls name (entry ∷ entries) n a h = elim (Option-cases (last_of name entries)) [
  | inr (k, e) ↦ last_of-Depth ls name entries n a.1 (cc (rw e at h))
  | inl e ↦ elim (Bool-cases (entry.0 == name)) [
    | inl q ↦
        let same = ==→≡ entry.0 name q in
        let level : entry.1 ≡ n = cc (rw (e, q) at h) in rw (← same, ← level) a.0
    | inr q ↦ cc (rw (e, q) at h)
  ]
]

pub last_of-some :
    (name : Text) (entries : List (Text × ℕ)) (n : ℕ)
    → Memᴰ (name, n) entries
    → (k : ℕ) × (last_of name entries ≡ some k)
unfolding last_of
last_of-some name (entry ∷ entries) n m = elim (Option-cases (last_of name entries)) [
  | inr (k, e) ↦ (k, rw e refl)
  | inl e ↦ first m (λ l. last_of-some name entries n l) e
]
  where
    first :
        Memᴰ (name, n) (entry ∷ entries)
        → (Memᴰ (name, n) entries → (k : ℕ) × (last_of name entries ≡ some k))
        → last_of name entries ≡ none
        → (k : ℕ) × (last_of name (entry ∷ entries) ≡ some k)
    first (Memᴰ.head q) ih e = (entry.1, rw (e, ← q, ==_refl name) refl)
    first (Memᴰ.tail l) ih e = let (k, f) = ih l in cc
last_of-some name [] n m = elim m [ ]

-- The priorities that are set are depths.
abbrev pub AreSettled : Links → Commands → Type 0
AreSettled ls cmds = All (λ c. priority_of c ≢ 0 → Depth ls c.0 (priority_of c)) cmds

set_priorities-AreDepths :
    (ls : Links) (cmds : Commands) → AreSettled ls cmds → AreDepths ls (set_priorities cmds)
unfolding set_priorities
set_priorities-AreDepths ls [] h = tt
set_priorities-AreDepths ls (c ∷ cmds) h = elim (Bool-cases (priority_of c == 0)) [
  | inl e ↦ rw e (set_priorities-AreDepths ls cmds h.1)
  | inr e ↦ rw e (h.0 (λ z. cc (rw z at e)), set_priorities-AreDepths ls cmds h.1)
]

pub set_priorities-Memᴰ :
    (c : Text × NetworkCaptureCommand) (cmds : Commands)
    → Memᴰ c cmds
    → 0 < priority_of c
    → Memᴰ (c.0, priority_of c) (set_priorities cmds)
unfolding set_priorities
set_priorities-Memᴰ c (d ∷ cmds) (Memᴰ.head e) lt =
    let set : (priority_of d == 0) ≡ false = ==_ne (priority_of d) 0 (rw (← e) (omega arith)) in
    rw set (Memᴰ.head (rw e refl))
set_priorities-Memᴰ c (d ∷ cmds) (Memᴰ.tail m) lt = elim (Bool-cases (priority_of d == 0)) [
  | inl e ↦ rw e (set_priorities-Memᴰ c cmds m lt)
  | inr e ↦ rw e (Memᴰ.tail (set_priorities-Memᴰ c cmds m lt))
]
set_priorities-Memᴰ c [] m lt = elim m [ ]

-- A change gives the command at its index the depth of the capture that stands there.
abbrev pub IsChange : Links → ℕ × Text × ℕ → Type 0
IsChange ls change =
    Depth ls change.1 change.2
    × ((parent : Option Text) × (get_elem? ls change.0 ≡ some (change.1, parent)))

pending-AreDepths :
    (ls : Links) (pending : Pending)
    → All (IsChange ls) pending
    → AreDepths ls (map (λ change. (change.1, change.2)) pending)
pending-AreDepths ls [] h = tt
pending-AreDepths ls (change ∷ pending) h = (h.0.0, pending-AreDepths ls pending h.1)

pub new_priority-Depth :
    (ls : Links) (cmds : Commands) (pending : Pending) (c : Text × NetworkCaptureCommand) (n : ℕ)
    → AreSettled ls cmds
    → All (IsChange ls) pending
    → Memᴰ (link c) ls
    → new_priority cmds pending c.1 ≡ some n
    → Depth ls c.0 n
unfolding new_priority
new_priority-Depth ls cmds pending c n s p m h = elim (Option-cases (parent_capture c.1)) [
  | inl e ↦ let one : 1 ≡ n = cc (rw (new_priority, e) at h) in rw (← one) (Depth.alone (rw e at m))
  | inr (dep, e) ↦ elim (Option-cases (cur_capture_priority cmds pending dep)) [
    | inl q ↦ cc (rw (new_priority, e, q) at h)
    | inr (k, q) ↦
        let entries =
          All-append (λ x. Depth ls x.0 x.1) (set_priorities cmds)
            (map (λ change. (change.1, change.2)) pending) (set_priorities-AreDepths ls cmds s)
            (pending-AreDepths ls pending p) in
        let next : k + 1 ≡ n = cc (rw (new_priority, e, q) at h) in
        rw (← next) (Depth.below (rw e at m) (last_of-Depth ls dep _ k entries q))
  ]
]
