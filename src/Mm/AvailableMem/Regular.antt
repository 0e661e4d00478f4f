-- ===== src/Mm/AvailableMem/Regular.antt =====
-- The runs of `calc_available_mem` in which no region vanishes and no piece is lost. They return.
use kruspix.Base.{
  ℕ, zero, suc, ◌+◌, ◌<◌, ◌≡◌, leb→le, not_==→ne, refl, inl, inr, Bool, true, false, ◌&&◌, List, [],
  ◌∷◌, arith, Bool-cases, if◌then◌else◌, ◌==◌, leb, length, take,
}
use kruspix.Base.Outcome.{Outcome, ok, panic, out_of_fuel}
use kruspix.Mm.Region.{Region}
use kruspix.Mm.AvailableMem.{max_regions, is_used, pass, append_pieces, calc_loop}
use kruspix.Mm.AvailableMem.Cover.{AllUsed}

unfoldable pub all_used : List Region → Bool
all_used [] = true
all_used (r ∷ rs) = is_used r && all_used rs

pub all_used-AllUsed : (rs : List Region) → all_used rs ≡ true → AllUsed rs
unfolding all_used
all_used-AllUsed [] h = tt
all_used-AllUsed (r ∷ rs) h = (ground arith, all_used-AllUsed rs (ground arith))

-- A run in which no region that was in use becomes empty, and no piece is dropped for want of room,
-- before a further round.
unfoldable pub regular : List Region → ℕ → List Region → ℕ → ℕ → Bool
unfolding append_pieces
regular rsvs zero mem skip index = false
regular rsvs (suc fuel) mem skip index = elim (pass rsvs skip mem []) [
  | ok (mem', new) ↦
      let again = regular rsvs fuel (append_pieces mem' new index) index (index + length new) in
      if length new == 0
      then true
      else if leb (index + length new) max_regions && all_used (take index mem')
      then again
      else false
  | _ ↦ false
]

pub and_parts : (p q : Bool) → (p && q) ≡ true → (p ≡ true) × (q ≡ true)
and_parts p q h = ground arith

pub le_not : (a b : ℕ) → b < a → leb a b ≡ false
le_not a b h = ground arith

regular-round :
    (rsvs : List Region) (fuel : ℕ) (mem : List Region) (skip index : ℕ)
    (r : Outcome (List Region × List Region))
    → ((m : List Region) (i j : ℕ)
        → regular rsvs fuel m i j ≡ true
        → (out : List Region) × (calc_loop rsvs fuel m i j ≡ ok out))
    → pass rsvs skip mem [] ≡ r
    → regular rsvs (suc fuel) mem skip index ≡ true
    → (out : List Region) × (calc_loop rsvs (suc fuel) mem skip index ≡ ok out)
unfolding regular calc_loop
regular-round rsvs fuel mem skip index panic ih e reg =
    absurd (let d = rw (regular, e) at reg in cc)
regular-round rsvs fuel mem skip index out_of_fuel ih e reg =
    absurd (let d = rw (regular, e) at reg in cc)
regular-round rsvs fuel mem skip index (ok (mem', new)) ih e reg =
    let reg' = rw (regular, e) at reg in
    elim (Bool-cases (length new == 0)) [
      | inl z ↦ (mem', rw (e, z) refl)
      | inr z ↦
          let reg'' = rw z at reg' in
          elim (Bool-cases (leb (index + length new) max_regions && all_used (take index mem'))) [
            | inl y ↦
                let parts = and_parts (leb (index + length new) max_regions) _ y in
                let room = leb→le (index + length new) max_regions parts.0 in
                let some_new = not_==→ne (length new) 0 z in
                let small : leb max_regions index ≡ false =
                  le_not max_regions index (omega arith) in
                let (out, runs) =
                  ih (append_pieces mem' new index) index (index + length new) (rw y at reg'') in
                (out, rw (e, z, small) runs)
            | inr y ↦ absurd (let d = rw y at reg'' in cc)
          ]
    ]

-- A regular run returns.
pub regular-returns :
    (rsvs : List Region) (fuel : ℕ) (mem : List Region) (skip index : ℕ)
    → regular rsvs fuel mem skip index ≡ true
    → (out : List Region) × (calc_loop rsvs fuel mem skip index ≡ ok out)
regular-returns rsvs zero mem skip index reg = absurd (unfold regular in cc)
regular-returns rsvs (suc fuel) mem skip index reg =
    regular-round rsvs fuel mem skip index (pass rsvs skip mem []) (regular-returns rsvs fuel) refl
      reg
