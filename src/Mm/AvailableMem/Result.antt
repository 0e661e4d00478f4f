-- ===== src/Mm/AvailableMem/Result.antt =====
-- What `calc_available_mem` returns.
use kruspix.Base.{
  ℕ, zero, suc, ◌+◌, ◌-◌, ◌≤◌, ◌≡◌, ◌≢◌, refl, sym, ap, ◌∙◌, inl, inr, true, not, ◌&&◌, ◌||◌, List,
  [], ◌∷◌, ◌++◌, arith, Bool-cases, length, replicate,
}
use mathlib.Core.List.{Perm}
use kruspix.Base.Outcome.{Outcome, ok, panic, out_of_fuel, ◌>>=◌, >>=-eq-ok, ok-injective}
use kruspix.Mm.Region.{Region, Fits, contains}
use kruspix.Mm.AvailableMem.{
  max_regions, is_used, reserved_iter, first_free, calc_loop, calc_available_mem,
}
use kruspix.Mm.AvailableMem.Cover.{
  covered, AllFit, AllUsed, covered-empty, covered-perm, AllEmpty-replicate,
}
use kruspix.Mm.AvailableMem.Loop.{loop_exact}
use kruspix.Mm.AvailableMem.Regular.{regular, regular-returns}
use kruspix.Mm.AvailableMem.Ends.{Ends, calc_loop-Ends}
use kruspix.Mm.AvailableMem.Shrink.{calc_loop-covered}

covered-reserved_iter :
    (reserved : List Region) (kernel : Region) (a : ℕ)
    → covered (reserved_iter reserved kernel) a ≡ (covered reserved a || contains kernel a)
unfolding covered reserved_iter
covered-reserved_iter [] kernel a = ground arith
covered-reserved_iter ((s, n) ∷ rs) kernel a = ground (arith, covered-reserved_iter rs kernel a)

AllFit-reserved_iter :
    (reserved : List Region) (kernel : Region)
    → AllFit reserved
    → Fits kernel
    → AllFit (reserved_iter reserved kernel)
unfolding reserved_iter
AllFit-reserved_iter [] kernel f g = (g, tt)
AllFit-reserved_iter (r ∷ rs) kernel f g = elim (Bool-cases (is_used r)) [
  | inl e ↦ rw e (f.0, AllFit-reserved_iter rs kernel f.1 g)
  | inr e ↦ rw e (AllFit-reserved_iter rs kernel f.1 g)
]

first_free_lem :
    (used : List Region) (n : ℕ)
    → AllUsed used
    → first_free (used ++ replicate n (0, 0)) ≡ length used
unfolding first_free
first_free_lem [] zero u = refl
first_free_lem [] (suc n) u = refl
first_free_lem (r ∷ rs) n u = rw (u.0, first_free_lem rs n u.1)

first_free-le : (mem : List Region) → first_free mem ≤ length mem
unfolding first_free
first_free-le [] = omega arith
first_free-le (r ∷ rs) = ground (arith, first_free-le rs)

-- The table of `used` regions, as `parse_memory` leaves it: empty entries behind.
abbrev pub table : List Region → List Region
table used = used ++ replicate (max_regions - length used) (0, 0)

-- The run of the loop that the function starts is regular.
abbrev pub Regular : List Region → List Region → Region → Type 0
Regular used reserved kernel =
    regular (reserved_iter reserved kernel) (suc max_regions) (table used) 0 (length used) ≡ true

-- What the code relies on of `sort_unstable_by`: it only moves the entries.
pub record Sorts (sort : List Region → List Region) : Type 0 where
  pub perm : (xs : List Region) → Perm (sort xs) xs

module _ (sort : List Region → List Region) where
  -- The loop ends on any tables: the function returns or panics, and 33 rounds are enough.
  pub calc_available_mem-Ends :
      (mem reserved : List Region) (kernel : Region)
      → calc_available_mem sort mem reserved kernel ≢ out_of_fuel
  unfolding calc_available_mem
  calc_available_mem-Ends mem reserved kernel h =
      ends_bind (calc_loop (reserved_iter reserved kernel) (suc max_regions) mem 0 (first_free mem))
        (calc_loop-Ends (reserved_iter reserved kernel) (suc max_regions) mem 0 (first_free mem)
          (omega arith))
        h
    where
      ends_bind : (m : Outcome (List Region)) → Ends m → (m >>= λ out. ok (sort out)) ≢ out_of_fuel
      ends_bind (ok a) e h = cc
      ends_bind panic e h = cc
      ends_bind out_of_fuel e h = e

  -- Where all regions end below the top of the address space and the sort only permutes, a table that the
  -- function returns covers no address that the memory regions do not cover.
  pub calc_available_mem-covered :
      (mem reserved out : List Region) (kernel : Region)
      → Sorts sort
      → AllFit mem
      → AllFit reserved
      → Fits kernel
      → calc_available_mem sort mem reserved kernel ≡ ok out
      → (a : ℕ) → covered out a ≡ true
      → covered mem a ≡ true
  unfolding calc_available_mem
  calc_available_mem-covered mem reserved out kernel sorts f g k run a h =
      let (found, step, rest) =
        >>=-eq-ok
          (calc_loop (reserved_iter reserved kernel) (suc max_regions) mem 0 (first_free mem)) _
          run in
      calc_loop-covered (reserved_iter reserved kernel) (suc max_regions) mem 0 (first_free mem)
        found (AllFit-reserved_iter reserved kernel g k) f step a
        (sym (covered-perm (sort found) found a (sorts.perm found))
          ∙ ap (λ l. covered l a) (ok-injective rest)
          ∙ h)

  exact_of_run :
      (used reserved out : List Region) (kernel : Region)
      → Sorts sort
      → AllUsed used
      → AllFit used
      → AllFit reserved
      → Fits kernel
      → Regular used reserved kernel
      → calc_available_mem sort (table used) reserved kernel ≡ ok out
      → (a : ℕ) → covered out a ≡ (covered used a && not (covered reserved a || contains kernel a))
  unfolding calc_available_mem
  exact_of_run used reserved out kernel sorts u f g k reg run a =
      let rsvs = reserved_iter reserved kernel in
      let n = first_free_lem used (max_regions - length used) u in
      let (found, step, rest) =
        >>=-eq-ok (calc_loop rsvs (suc max_regions) (table used) 0 (first_free (table used))) _
          run in
      let start : 0 + length used ≡ length used = omega arith in
      sym (ap (λ l. covered l a) (ok-injective rest))
      ∙ covered-perm (sort found) found a (sorts.perm found)
      ∙ loop_exact rsvs (suc max_regions) [] used (replicate (max_regions - length used) (0, 0))
          found (AllFit-reserved_iter reserved kernel g k) f tt
          (AllEmpty-replicate (max_regions - length used) 0) (λ b h. covered-empty [] b tt)
          (ap (calc_loop rsvs (suc max_regions) (table used) 0) (start ∙ sym n) ∙ step)
          (ap (regular rsvs (suc max_regions) (table used) 0) start ∙ reg) a
      ∙ ap (λ b. covered used a && not b) (covered-reserved_iter reserved kernel a)

  -- With at most the regions of `used` in the table, all of them in use and, like the reserved ones and
  -- the kernel, below the top of the address space, a regular run returns a table that covers exactly
  -- the addresses that a region of `used` covers and neither a reserved region nor the kernel does.
  pub calc_available_mem-exact :
      (used reserved : List Region) (kernel : Region)
      → Sorts sort
      → AllUsed used
      → AllFit used
      → AllFit reserved
      → Fits kernel
      → Regular used reserved kernel
      → (out : List Region) × (calc_available_mem sort (table used) reserved kernel ≡ ok out)
        × ((a : ℕ)
            → covered out a ≡ (covered used a && not (covered reserved a || contains kernel a)))
  calc_available_mem-exact used reserved kernel sorts u f g k reg =
      let rsvs = reserved_iter reserved kernel in
      let (found, runs) = regular-returns rsvs (suc max_regions) (table used) 0 (length used) reg in
      let n = first_free_lem used (max_regions - length used) u in
      let returns : calc_available_mem sort (table used) reserved kernel ≡ ok (sort found) =
        unfold calc_available_mem in rw (n, runs) refl in
      (
        sort found,
        returns,
        exact_of_run used reserved (sort found) kernel sorts u f g k reg returns,
      )
