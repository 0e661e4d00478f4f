-- ===== src/Mm/AvailableMem/Ends.antt =====
-- The loop of `calc_available_mem` ends within the fuel it is given.
use kruspix.Base.{
  ℕ, zero, suc, ◌+◌, ◌-◌, ◌<◌, inl, inr, ◌||◌, List, [], ◌∷◌, arith, Bool-cases, ◌==◌, leb, length,
}
use kruspix.Base.Outcome.{Outcome, ok, panic, out_of_fuel, ◌>>=◌}
use kruspix.Mm.Region.{Region}
use kruspix.Mm.AvailableMem.{
  max_regions, is_used, pass, append_pieces, calc_loop, add_piece, carve, visit,
}

-- Neither a pass nor what it calls runs out of fuel.
abbrev pub Ends {ℓ} : {A : Type ℓ} → Outcome A → Type 0
Ends (ok a) = Unit
Ends panic = Unit
Ends out_of_fuel = ⊥

bind-Ends {ℓ κ} :
    {A : Type ℓ} {B : Type κ} (m : Outcome A) (f : A → Outcome B)
    → Ends m
    → ((a : A) → Ends (f a))
    → Ends (m >>= f)
bind-Ends (ok a) f h g = g a
bind-Ends panic f h g = tt
bind-Ends out_of_fuel f h g = h

add_piece-Ends : (p : Region) (new : List Region) → Ends (add_piece p new)
unfolding add_piece
add_piece-Ends p new = ground arith

carve-Ends : (rsvs : List Region) (mem : Region) (new : List Region) → Ends (carve rsvs mem new)
unfolding carve
carve-Ends [] mem new = tt
carve-Ends (r ∷ rs) mem new = bind-Ends _ _ (add_piece-Ends _ new) (λ new'. carve-Ends rs _ new')

visit-Ends :
    (rsvs : List Region) (skip : ℕ) (mem : Region) (new : List Region)
    → Ends (visit rsvs skip mem new)
unfolding visit
visit-Ends rsvs skip mem new = elim (Bool-cases (is_used mem)) [
  | inl e ↦ rw e (elim (Bool-cases (0 == skip)) [
    | inl e' ↦ rw e' (bind-Ends _ _ (carve-Ends rsvs mem new) λ r. tt)
    | inr e' ↦ rw e' tt
  ])
  | inr e ↦ rw e tt
]

pass-Ends : (rsvs : List Region) (skip : ℕ) (mem new : List Region) → Ends (pass rsvs skip mem new)
unfolding pass
pass-Ends rsvs skip [] new = tt
pass-Ends rsvs skip (m ∷ ms) new =
    bind-Ends _ _ (visit-Ends rsvs skip m new)
      λ (skip', m', new'). bind-Ends _ _ (pass-Ends rsvs skip' ms new') λ r. tt

-- Each further round starts with at least one piece more, so 33 rounds are enough.
pub calc_loop-Ends :
    (rsvs : List Region) (fuel : ℕ) (mem : List Region) (skip index : ℕ)
    → max_regions - index < fuel
    → Ends (calc_loop rsvs fuel mem skip index)
unfolding calc_loop
calc_loop-Ends rsvs zero mem skip index h = absurd (omega arith)
calc_loop-Ends rsvs (suc fuel) mem skip index h =
    bind-Ends _ _ (pass-Ends rsvs skip mem []) λ (mem', new).
      elim (Bool-cases ((length new == 0) || leb max_regions index)) [
        | inl e ↦ rw e tt
        | inr e ↦ rw e (
            calc_loop-Ends rsvs fuel (append_pieces mem' new index) index (index + length new)
              (ground arith))
      ]
