-- ===== src/Scheduler/Pick.antt =====
-- scheduler.go: `pickGroup` returns the smallest group that has room, and the candidates of the
-- eviction rules are the models that qualify, in order.
use v_llm_orchestrator.Base.{
  ℕ, zero, suc, ◌+◌, ℤ, ◌≤ℤ◌, leb_ℤ, ltb_ℤ, ◌≡◌, refl, ◌⊎◌, inl, inr, ◌&&◌, not, false, List, [],
  ◌∷◌, Option, none, some, get_elem?, arith, Bool-cases, Option-cases,
}
use v_llm_orchestrator.Memory.{GroupState}
use v_llm_orchestrator.Scheduler.{excludes, consider, pick_from, pick_group}

module _ (needed : ℤ) (exclude : Option (List ℕ)) where
  -- A group qualifies if it is not excluded and has the room.
  abbrev pub Qualifies : ℕ → GroupState → Type 0
  Qualifies i gs = (excludes exclude i ≡ false) × (needed ≤ℤ gs.measured_free_mb)

  consider-some :
      (i : ℕ) (gs : GroupState) (best : Option (ℕ × ℤ)) (j : ℕ) (t : ℤ)
      → consider needed exclude i gs best ≡ some (j, t)
      → (best ≡ some (j, t)) ⊎ (j ≡ i) × (t ≡ gs.measured_total_vram_mb) × Qualifies i gs
  unfolding consider
  consider-some i gs none j t h = ground arith
  consider-some i gs (some (b, s)) j t h = ground arith

  -- What was found before, and a group that qualifies, is matched or beaten.
  consider-before :
      (i : ℕ) (gs : GroupState) (b : ℕ) (s : ℤ)
      → (j : ℕ) × (t : ℤ) × (consider needed exclude i gs (some (b, s)) ≡ some (j, t)) × (t ≤ℤ s)
  unfolding consider
  consider-before i gs b s =
      elim (Bool-cases (
        ltb_ℤ gs.measured_total_vram_mb s
        && (not (excludes exclude i) && leb_ℤ needed gs.measured_free_mb))) [
          | inl beaten ↦ (i, gs.measured_total_vram_mb, ground arith, ground arith)
          | inr kept ↦ (b, s, ground arith, ground arith)
        ]

  consider-here :
      (i : ℕ) (gs : GroupState) (best : Option (ℕ × ℤ))
      → Qualifies i gs
      → (j : ℕ) × (t : ℤ) × (consider needed exclude i gs best ≡ some (j, t))
        × (t ≤ℤ gs.measured_total_vram_mb)
  unfolding consider
  consider-here i gs none q = (i, gs.measured_total_vram_mb, ground arith, ground arith)
  consider-here i gs (some (b, s)) q = elim (Bool-cases (ltb_ℤ gs.measured_total_vram_mb s)) [
    | inl beaten ↦ (i, gs.measured_total_vram_mb, ground arith, ground arith)
    | inr kept ↦ (b, s, ground arith, ground arith)
  ]

  pick_from-some :
      (i : ℕ) (best : Option (ℕ × ℤ)) (groups : List GroupState) (j : ℕ) (t : ℤ)
      → pick_from needed exclude i best groups ≡ some (j, t)
      → (best ≡ some (j, t))
        ⊎ ((k : ℕ) × (gs : GroupState) × (get_elem? groups k ≡ some gs)
            × (j ≡ i + k)
            × (t ≡ gs.measured_total_vram_mb)
            × Qualifies j gs)
  unfolding pick_from
  pick_from-some i best [] j t h = inl h
  pick_from-some i best (gs ∷ rest) j t h =
      elim (pick_from-some (suc i) (consider needed exclude i gs best) rest j t h) [
        | inr (k, g, e, at, total, q) ↦ inr (suc k, g, e, omega arith, total, q)
        | inl now ↦ elim (consider-some i gs best j t now) [
          | inl before ↦ inl before
          | inr (at, total, q) ↦ inr (zero, gs, refl, omega arith, total, rw at q)
        ]
      ]

  pick_from-before :
      (i b : ℕ) (s : ℤ) (groups : List GroupState)
      → (j : ℕ) × (t : ℤ) × (pick_from needed exclude i (some (b, s)) groups ≡ some (j, t))
        × (t ≤ℤ s)
  unfolding pick_from
  pick_from-before i b s [] = (b, s, refl, omega arith)
  pick_from-before i b s (gs ∷ rest) =
      let (c, r, e, le) = consider-before i gs b s in
      let (j, t, e', le') = pick_from-before (suc i) c r rest in (j, t, rw e e', omega arith)

  -- A group that qualifies makes the search succeed, with a total that is not larger.
  pick_from-least :
      (i : ℕ) (best : Option (ℕ × ℤ)) (groups : List GroupState) (n k : ℕ) (gs : GroupState)
      → n ≡ i + k
      → get_elem? groups k ≡ some gs
      → Qualifies n gs
      → (j : ℕ) × (t : ℤ) × (pick_from needed exclude i best groups ≡ some (j, t))
        × (t ≤ℤ gs.measured_total_vram_mb)
  unfolding pick_from
  pick_from-least i best [] n k gs at e q = absurd (ground arith)
  pick_from-least i best (x ∷ rest) n zero gs at e q =
      let same : x ≡ gs = cc in
      let here : n ≡ i = omega arith in
      let (c, r, e₁, le) = consider-here i x best (rw (same, ← here) q) in
      let (j, t, e₂, le') = pick_from-before (suc i) c r rest in (j, t, rw e₁ e₂, ground arith)
  pick_from-least i best (x ∷ rest) n (suc k) gs at e q =
      pick_from-least (suc i) (consider needed exclude i x best) rest n k gs (omega arith) e q

-- `pickGroup` chooses a group exactly if one qualifies: a group that is not excluded and has the
-- megabytes free. The group it chooses exists and qualifies, and no group that qualifies is smaller
-- in total.
pub pick_group-smallest :
    (needed : ℤ) (exclude : Option (List ℕ)) (groups : List GroupState)
    → ((j : ℕ)
        → pick_group needed exclude groups ≡ some j
        → (gs : GroupState) × (get_elem? groups j ≡ some gs)
          × Qualifies needed exclude j gs
          × ((k : ℕ) (other : GroupState)
              → get_elem? groups k ≡ some other
              → Qualifies needed exclude k other
              → gs.measured_total_vram_mb ≤ℤ other.measured_total_vram_mb))
      × (pick_group needed exclude groups ≡ none
          → (k : ℕ) (gs : GroupState) → get_elem? groups k ≡ some gs
          → ¬ Qualifies needed exclude k gs)
unfolding pick_group
pick_group-smallest needed exclude groups = (
  (λ j h. elim (Option-cases (pick_from needed exclude 0 none groups)) [
    | inl nothing ↦ absurd (ground arith)
    | inr ((i, t), found) ↦ let same : i ≡ j = ground arith in chosen j t (rw same at found)
  ]),
  λ h k gs e q.
      let (j, t, found, _) =
        pick_from-least needed exclude 0 none groups k k gs (omega arith) e q in
      absurd (ground arith),
)
  where
    chosen :
        (j : ℕ) (t : ℤ)
        → pick_from needed exclude 0 none groups ≡ some (j, t)
        → (gs : GroupState) × (get_elem? groups j ≡ some gs)
          × Qualifies needed exclude j gs
          × ((k : ℕ) (other : GroupState)
              → get_elem? groups k ≡ some other
              → Qualifies needed exclude k other
              → gs.measured_total_vram_mb ≤ℤ other.measured_total_vram_mb)
    chosen j t found = elim (pick_from-some needed exclude 0 none groups j t found) [
      | inl before ↦ absurd (ground arith)
      | inr (k, gs, e, at, total, q) ↦
          let here : k ≡ j = omega arith in
          (
            gs,
            rw here at e,
            q,
            λ n other e' q'.
                let (j', t', found', le) =
                  pick_from-least needed exclude 0 none groups n n other (omega arith) e' q' in
                ground arith,
          )
    ]
