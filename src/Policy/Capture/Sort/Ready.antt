-- ===== src/Policy/Capture/Sort/Ready.antt =====
-- The commands that `sort_captures` sorts after its last round.
use nmstate.Base.{
  Bool-cases, length, get_elem?, All, Text, sort_by, by_key, ℕ, zero, suc, ◌+◌, ◌<◌, ◌≡◌, refl, sym,
  ◌∙◌, ◌⊎◌, inl, inr, true, some, List, [], ◌∷◌, arith, nat_ord, bool_ord, pair_ord, list_ord,
}
use nmstate.Error.{ok}
use nmstate.Policy.Capture.{NetworkCaptureCommand}
use nmstate.Policy.Capture.Sort.{
  Commands, collect_changes, set_capture_priority, priority_of, sort_rounds,
}
use nmstate.Policy.Capture.Sort.Depth.{Links, link, links, AreSettled}
use nmstate.Policy.Capture.Sort.Rounds.{
  collect_changes-IsChange, GetsPriority, collect_changes-IsTouched, IsSetAt,
  apply_changes-AreSettled, apply_changes-sets,
}

get_elem?-length {ℓ} :
    {A : Type ℓ} (xs : List A) (i : ℕ) {x : A} → get_elem? xs i ≡ some x → i < length xs
get_elem?-length [] i h = cc
get_elem?-length (y ∷ xs) zero h = omega arith
get_elem?-length (y ∷ xs) (suc i) h = omega (arith, get_elem?-length xs i h)

pub get_elem?-All {ℓ κ} :
    {A : Type ℓ} (P : A → Type κ) (xs : List A)
    → ((i : ℕ) (x : A) → get_elem? xs i ≡ some x → P x)
    → All P xs
get_elem?-All P [] h = tt
get_elem?-All P (x ∷ xs) h = (h 0 x refl, get_elem?-All P xs (λ i y e. h (suc i) y e))

-- Commands with the same links, at one index.
pub same-links :
    (cmds out : Commands) (i : ℕ) (c : Text × NetworkCaptureCommand)
    → links out ≡ links cmds
    → get_elem? out i ≡ some c
    → (d : Text × NetworkCaptureCommand) × (get_elem? cmds i ≡ some d) × (link c ≡ link d)
same-links cmds [] i c e h = cc
same-links [] (b ∷ out) i c e h = cc
same-links (a ∷ cmds) (b ∷ out) zero c e h = (a, refl, cc)
same-links (a ∷ cmds) (b ∷ out) (suc i) c e h =
    let rest : links out ≡ links cmds = cc in same-links cmds out i c rest h

pub round-AreSettled :
    (ls : Links) (cmds : Commands)
    → links cmds ≡ ls
    → AreSettled ls cmds
    → AreSettled ls (set_capture_priority cmds).1 × (links (set_capture_priority cmds).1 ≡ ls)
unfolding set_capture_priority
round-AreSettled ls cmds e s =
    apply_changes-AreSettled ls (collect_changes cmds 0 [] cmds).1 cmds
      (collect_changes-IsChange ls cmds [] cmds 0 [] s (sym e) refl tt) e s

pub round-IsSetAt :
    (ls : Links) (cmds : Commands) (i : ℕ) (c : Text × NetworkCaptureCommand)
    → links cmds ≡ ls
    → AreSettled ls cmds
    → get_elem? cmds i ≡ some c
    → ((set_capture_priority cmds).0 ≡ true) ⊎ GetsPriority cmds c.1
    → IsSetAt i (set_capture_priority cmds).1
unfolding set_capture_priority
round-IsSetAt ls cmds i c e s at h =
    let here : 0 + i ≡ i = omega arith in
    apply_changes-sets ls (collect_changes cmds 0 [] cmds).1 cmds i
      (collect_changes-IsChange ls cmds [] cmds 0 [] s (sym e) refl tt) (get_elem?-length cmds i at)
      (rw here at (collect_changes-IsTouched cmds cmds 0 [] i c at h))

-- A round that is the last one leaves no command without a priority.
round-All :
    (ls : Links) (cmds : Commands)
    → links cmds ≡ ls
    → AreSettled ls cmds
    → (set_capture_priority cmds).0 ≡ true
    → All (λ c. 0 < priority_of c) (set_capture_priority cmds).1
round-All ls cmds e s done =
    let next = (set_capture_priority cmds).1 in
    let kept = (round-AreSettled ls cmds e s).1 ∙ sym e in
    get_elem?-All (λ c. 0 < priority_of c) next
      (λ i c at.
        let (d, there, _) = same-links cmds next i c kept at in
        let (f, here, lt) = round-IsSetAt ls cmds i d e s there (inl done) in
        let same : f ≡ c = cc in rw (← same) lt)

-- The commands after the last round, before they are sorted.
pub record IsReady (ls : Links) (cmds : Commands) : Type 0 where
  pub settled : AreSettled ls cmds
  pub linked : links cmds ≡ ls
  pub complete : All (λ c. 0 < priority_of c) cmds

pub sort_rounds-IsReady :
    (ls : Links) (rounds : ℕ) (cmds out : Commands)
    → links cmds ≡ ls
    → AreSettled ls cmds
    → sort_rounds rounds cmds ≡ ok out
    → (last : Commands) × IsReady ls last × (out ≡ sort_by (by_key priority_of) last)
unfolding sort_rounds
sort_rounds-IsReady ls zero cmds out e s h = cc
sort_rounds-IsReady ls (suc rounds) cmds out e s h =
    let next = (set_capture_priority cmds).1 in
    let (settled, linked) = round-AreSettled ls cmds e s in
    elim (Bool-cases (set_capture_priority cmds).0) [
      | inl d ↦ (
        next,
        record { settled = settled; linked = linked; complete = round-All ls cmds e s d },
        cc (rw (sort_rounds, d) at h),
      )
      | inr d ↦ sort_rounds-IsReady ls rounds next out linked settled (rw (sort_rounds, d) at h)
    ]
