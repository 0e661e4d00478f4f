-- ===== src/Mm/AvailableMem/Loop.antt =====
-- The loop of `calc_available_mem` in a regular run.
use kruspix.Base.{
  ℕ, zero, suc, ◌+◌, ◌-◌, ◌≤◌, ◌≡◌, ◌⊎◌, ==→eq, leb→le, not_==→ne, sym, ap, ◌∙◌, inl, inr, true,
  false, not, ◌&&◌, List, [], ◌∷◌, ◌++◌, append_assoc, arith, Bool-cases, subst, ◌==◌, leb, length,
  length-append, take, replicate, ap₂, take-append_left_all, take-append_right,
}
use kruspix.Base.Outcome.{ok, >>=-eq-ok}
use kruspix.Mm.Region.{Region}
use kruspix.Mm.AvailableMem.{max_regions, pass, append_pieces, calc_loop}
use kruspix.Mm.AvailableMem.Cover.{
  covered, AllFit, AllUsed, AllEmpty, covered-append, AllEmpty-take, AllEmpty-replicate,
  covered-empty,
}
use kruspix.Mm.AvailableMem.Pass.{Passed, pass-Passed, pass-append_empty, behind, pass-append}
use kruspix.Mm.AvailableMem.Regular.{all_used, all_used-AllUsed, regular, and_parts, le_not}

-- The next table: the regions done with, the new pieces, and empty entries behind.
append_pieces_lem :
    (front zeros new : List Region) (index : ℕ)
    → length front ≡ index
    → index + length new ≤ max_regions
    → append_pieces (front ++ zeros) new index
      ≡ front
        ++ (new
            ++ take
                (max_regions - index - length new)
                (replicate (max_regions - length new) (0, 0)))
unfolding append_pieces
append_pieces_lem front zeros new index e room =
    ap₂ ◌++◌ (take-append_left_all index front zeros e) (
      take-append_right (max_regions - index) new (replicate (max_regions - length new) (0, 0))
        (omega arith))

-- Each region done with is disjoint from the reserved ones.
abbrev Clear : List Region → List Region → Type 0
Clear rsvs done = (a : ℕ) → covered rsvs a ≡ true → covered done a ≡ false

-- What a round does with the result of its pass.
abbrev Last : List Region → List Region → List Region → Type 0
Last mem' new out = (length new ≡ 0) × (mem' ≡ out)

abbrev Again : List Region → ℕ → ℕ → List Region → List Region → List Region → Type 0
Again rsvs fuel index mem' new out =
    (index + length new ≤ max_regions)
    × (all_used (take index mem') ≡ true)
    × (calc_loop rsvs fuel (append_pieces mem' new index) index (index + length new) ≡ ok out)
    × (regular rsvs fuel (append_pieces mem' new index) index (index + length new) ≡ true)

round_cases :
    (rsvs : List Region) (fuel : ℕ) (mem : List Region) (skip index : ℕ)
    (out mem' new : List Region)
    → pass rsvs skip mem [] ≡ ok (mem', new)
    → calc_loop rsvs (suc fuel) mem skip index ≡ ok out
    → regular rsvs (suc fuel) mem skip index ≡ true
    → Last mem' new out ⊎ Again rsvs fuel index mem' new out
unfolding calc_loop regular
round_cases rsvs fuel mem skip index out mem' new step run reg =
    let run' = rw step at run in
    let reg' = rw (step, regular) at reg in
    elim (Bool-cases (length new == 0)) [
      | inl z ↦ inl (==→eq (length new) 0 z, (let d = rw z at run' in cc))
      | inr z ↦
          let reg'' = rw z at reg' in
          elim (Bool-cases (leb (index + length new) max_regions && all_used (take index mem'))) [
            | inl y ↦
                let parts = and_parts (leb (index + length new) max_regions) _ y in
                let room = leb→le (index + length new) max_regions parts.0 in
                let some_new = not_==→ne (length new) 0 z in
                let small : leb max_regions index ≡ false =
                  le_not (max_regions) index (omega arith) in
                inr (room, parts.1, (rw (z, small) at run'), (rw y at reg''))
            | inr y ↦ let d = rw y at reg'' in cc
          ]
    ]

-- The pass of a round, with the table in its three parts.
round :
    (rsvs done todo zeros mem' new : List Region)
    → AllFit rsvs
    → AllFit todo
    → AllUsed done
    → AllEmpty zeros
    → pass rsvs (length done) (done ++ (todo ++ zeros)) [] ≡ ok (mem', new)
    → (ks : List Region) × (mem' ≡ (done ++ ks) ++ zeros) × Passed rsvs todo ks new
round rsvs done todo zeros mem' new f g u e h =
    let h' = sym (pass-append rsvs done (todo ++ zeros) [] u) ∙ h in
    let ((kept, new'), step, rest) = >>=-eq-ok (pass rsvs 0 (todo ++ zeros) []) (behind done) h' in
    let (ks, eq, step') = pass-append_empty rsvs todo zeros [] kept new' e step in
    let (ps, eq', p) = pass-Passed rsvs todo ks [] new' f g step' in
    let em : done ++ kept ≡ mem' = cc in
    let en : new' ≡ new = cc in
    (
      ks,
      sym em ∙ ap (◌++◌ done) eq ∙ sym (append_assoc done ks zeros),
      subst (Passed rsvs todo ks) (sym eq' ∙ en) p,
    )

module _ (rsvs done todo ks new : List Region) (c : Clear rsvs done)
    (p : Passed rsvs todo ks new) where
  -- After the last round, or before the next.
  round-covered :
      (a : ℕ)
      → (covered ((done ++ ks) ++ new) a && not (covered rsvs a))
        ≡ (covered (done ++ todo) a && not (covered rsvs a))
  round-covered a = ground (
    arith,
    covered-append (done ++ ks) new a,
    covered-append done ks a,
    covered-append done todo a,
    p.sound a,
    p.complete a,
  )

  round-Clear : Clear rsvs (done ++ ks)
  round-Clear a h = ground (arith, covered-append done ks a, c a h, p.excluded a h)

size_of_round :
    (rsvs done todo ks new : List Region)
    → Passed rsvs todo ks new
    → length (done ++ ks) ≡ length done + length todo
size_of_round rsvs done todo ks new p =
    let s = p.same_length in omega (arith, length-append done ks)

-- The last round has no new piece.
last_round :
    (rsvs done todo ks new zeros mem' out : List Region)
    → Clear rsvs done
    → Passed rsvs todo ks new
    → AllEmpty zeros
    → length new ≡ 0
    → mem' ≡ (done ++ ks) ++ zeros
    → mem' ≡ out
    → (a : ℕ) → covered out a ≡ (covered (done ++ todo) a && not (covered rsvs a))
last_round rsvs done todo ks (x ∷ xs) zeros mem' out c p e none_new eq same a = absurd (omega arith)
last_round rsvs done todo ks [] zeros mem' out c p e none_new eq same a =
    ap (λ l. covered l a) (sym same ∙ eq)
    ∙ ground (
      arith,
      covered-append (done ++ ks) zeros a,
      covered-empty zeros a e,
      covered-append (done ++ ks) [] a,
      covered-empty [] a tt,
      round-covered rsvs done todo ks [] c p a,
      round-Clear rsvs done todo ks [] c p a,
    )

loop_step :
    (rsvs : List Region) (fuel : ℕ) (mem : List Region) (skip index : ℕ) (out : List Region)
    → calc_loop rsvs (suc fuel) mem skip index ≡ ok out
    → (r : List Region × List Region) × (pass rsvs skip mem [] ≡ ok r) × Unit {0}
unfolding calc_loop
loop_step rsvs fuel mem skip index out run =
    let (r, step, rest) = >>=-eq-ok (pass rsvs skip mem []) _ run in (r, step, tt)

pub loop_exact :
    (rsvs : List Region) (fuel : ℕ) (done todo zeros out : List Region)
    → AllFit rsvs
    → AllFit todo
    → AllUsed done
    → AllEmpty zeros
    → Clear rsvs done
    → calc_loop rsvs fuel (done ++ (todo ++ zeros)) (length done) (length done + length todo)
      ≡ ok out
    → regular rsvs fuel (done ++ (todo ++ zeros)) (length done) (length done + length todo) ≡ true
    → (a : ℕ) → covered out a ≡ (covered (done ++ todo) a && not (covered rsvs a))
loop_exact rsvs zero done todo zeros out f g u e c run reg a = unfold calc_loop in cc
loop_exact rsvs (suc fuel) done todo zeros out f g u e c run reg a =
    let ((mem', new), step, _) =
      loop_step rsvs fuel (done ++ (todo ++ zeros)) (length done) (length done + length todo) out
        run in
    let (ks, eq, p) = round rsvs done todo zeros mem' new f g u e step in
    elim (round_cases rsvs fuel (done ++ (todo ++ zeros)) (length done) (length done + length todo)
      out mem' new step run reg) [
        | inl (none_new, same) ↦
            last_round rsvs done todo ks new zeros mem' out c p e none_new eq same a
        | inr (room, used, run', reg') ↦
            let n = length done + length todo in
            let size = size_of_round rsvs done todo ks new p in
            let same = append_pieces_lem (done ++ ks) zeros new n size room in
            let table = sym (ap (λ m. append_pieces m new n) eq ∙ same) in
            let front = ap (take n) eq ∙ take-append_left_all n (done ++ ks) zeros size in
            loop_exact rsvs fuel (done ++ ks) new
              (take (max_regions - n - length new) (replicate (max_regions - length new) (0, 0)))
              out f p.pieces_fit (all_used-AllUsed (done ++ ks) (ap all_used (sym front) ∙ used))
              (AllEmpty-take _ _ (AllEmpty-replicate (max_regions - length new) 0))
              (round-Clear rsvs done todo ks new c p)
              (ap₂ (λ m i. calc_loop rsvs fuel m i (i + length new)) table size ∙ run')
              (ap₂ (λ m i. regular rsvs fuel m i (i + length new)) table size ∙ reg') a
            ∙ round-covered rsvs done todo ks new c p a
      ]
