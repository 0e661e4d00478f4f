-- ===== src/Mm/AvailableMem/Shrink.antt =====
use kruspix.Base.{
  ℕ, zero, suc, ◌+◌, ◌-◌, ◌≡◌, sym, ap, ◌∙◌, inl, inr, true, ◌||◌, List, [], ◌∷◌, ◌++◌, append-nil,
  append_assoc, arith, Bool-cases, subst, ◌==◌, leb, length, take, replicate,
}
use kruspix.Base.Outcome.{ok, >>=-eq-ok, if-eq-ok}
use kruspix.Mm.Region.{Region, Fits}
use kruspix.Mm.AvailableMem.{max_regions, is_used, pass, append_pieces, calc_loop, carve, visit}
use kruspix.Mm.AvailableMem.Cover.{
  covered, AllFit, covered-append, covered-take, AllFit-append, AllFit-take, AllFit-replicate,
  covered-replicate,
}
use kruspix.Mm.AvailableMem.Carve.{Carved, carve-Carved}

-- What a step makes of some regions: it covers no address that they do not cover.
record Shrunk (mem kept ps : List Region) : Type 0 where
  kept_fits : AllFit kept
  pieces_fit : AllFit ps
  sound : (a : ℕ) → (covered kept a || covered ps a) ≡ true → covered mem a ≡ true

Shrunk-same : (mem : List Region) → AllFit mem → Shrunk mem mem []
unfolding covered
Shrunk-same mem f = record { kept_fits = f; pieces_fit = tt; sound = λ a h. ground arith }

Shrunk-append :
    (ms ks ps ms' ks' ps' : List Region)
    → Shrunk ms ks ps
    → Shrunk ms' ks' ps'
    → Shrunk (ms ++ ms') (ks ++ ks') (ps ++ ps')
Shrunk-append ms ks ps ms' ks' ps' r s = record {
  kept_fits = AllFit-append ks ks' r.kept_fits s.kept_fits;
  pieces_fit = AllFit-append ps ps' r.pieces_fit s.pieces_fit;
  sound = λ a h. ground (
    arith,
    r.sound a,
    s.sound a,
    covered-append ms ms' a,
    covered-append ks ks' a,
    covered-append ps ps' a,
  );
}

Carved-Shrunk :
    (rsvs : List Region) (m k : Region) (ps : List Region)
    → Carved rsvs m k ps
    → Shrunk (m ∷ []) (k ∷ []) ps
unfolding covered
Carved-Shrunk rsvs m k ps c = record {
  kept_fits = (c.kept_fits, tt);
  pieces_fit = c.pieces_fit;
  sound = λ a h. ground (arith, c.sound a);
}

visit-Shrunk :
    (rsvs new new' : List Region) (skip skip' : ℕ) (m k : Region)
    → AllFit rsvs
    → Fits m
    → visit rsvs skip m new ≡ ok (skip', k, new')
    → (ps : List Region) × (new' ≡ new ++ ps) × Shrunk (m ∷ []) (k ∷ []) ps
unfolding visit
visit-Shrunk rsvs new new' skip skip' m k f g h = elim (Bool-cases (is_used m)) [
  | inl e ↦
      let h' = rw e at h in
      elim (Bool-cases (0 == skip)) [
        | inl z ↦
            let (r, step, rest) = >>=-eq-ok (carve rsvs m new) _ (rw z at h') in
            let ek : r.0 ≡ k = cc in
            let en : r.1 ≡ new' = cc in
            let (ps, eq, c) = carve-Carved rsvs m r.0 new r.1 f g step in
            (
              ps,
              sym en ∙ eq,
              subst (λ k. Shrunk (m ∷ []) (k ∷ []) ps) ek (Carved-Shrunk rsvs m r.0 ps c),
            )
        | inr z ↦
            let u = rw z at h' in let ek : m ≡ k = cc in let en : new ≡ new' = cc in unchanged ek en
      ]
  | inr e ↦ let u = rw e at h in let ek : m ≡ k = cc in let en : new ≡ new' = cc in unchanged ek en
]
  where
    unchanged :
        m ≡ k → new ≡ new' → (ps : List Region) × (new' ≡ new ++ ps) × Shrunk (m ∷ []) (k ∷ []) ps
    unchanged ek en = (
      [],
      sym en ∙ sym (append-nil new),
      subst (λ k. Shrunk (m ∷ []) (k ∷ []) []) ek (Shrunk-same (m ∷ []) (g, tt)),
    )

pass-Shrunk :
    (rsvs : List Region) (skip : ℕ) (mem kept new new' : List Region)
    → AllFit rsvs
    → AllFit mem
    → pass rsvs skip mem new ≡ ok (kept, new')
    → (ps : List Region) × (new' ≡ new ++ ps) × Shrunk mem kept ps
unfolding pass
pass-Shrunk rsvs skip [] kept new new' f g h =
    let ek : [] ≡ kept = cc in
    ([], cc (append-nil new), subst (λ ks. Shrunk [] ks []) ek (Shrunk-same [] tt))
pass-Shrunk rsvs skip (m ∷ ms) kept new new' f g h =
    let ((skip', k, added), step, rest) = >>=-eq-ok (visit rsvs skip m new) _ h in
    let (ps, eq, s) = visit-Shrunk rsvs new added skip skip' m k f g.0 step in
    let ((ks, all), step', rest') = >>=-eq-ok (pass rsvs skip' ms added) _ rest in
    let (qs, eq', s') = pass-Shrunk rsvs skip' ms ks added all f g.1 step' in
    let ek : k ∷ ks ≡ kept = cc in
    let en : all ≡ new' = cc in
    (
      ps ++ qs,
      sym en ∙ eq' ∙ ap (λ xs. xs ++ qs) eq ∙ append_assoc new ps qs,
      subst (λ ks. Shrunk (m ∷ ms) ks (ps ++ qs)) ek
          (Shrunk-append (m ∷ []) (k ∷ []) ps ms ks qs s s'),
    )

-- The next table covers no more than the regions kept and the new pieces.
append_pieces-Fit :
    (mem new : List Region) (index : ℕ)
    → AllFit mem
    → AllFit new
    → AllFit (append_pieces mem new index)
unfolding append_pieces
append_pieces-Fit mem new index f g = AllFit-append (take index mem) _ (AllFit-take index mem f) (
    AllFit-take (max_regions - index) _
      (AllFit-append new _ g (AllFit-replicate (max_regions - length new))))

append_pieces-covered :
    (mem new : List Region) (index a : ℕ)
    → covered (append_pieces mem new index) a ≡ true
    → (covered mem a || covered new a) ≡ true
unfolding append_pieces
append_pieces-covered mem new index a h =
    let zeros : List Region = replicate (max_regions - length new) (0, 0) in
    ground (
      arith,
      covered-append (take index mem) (take (max_regions - index) (new ++ zeros)) a,
      covered-take index mem a,
      covered-take (max_regions - index) (new ++ zeros) a,
      covered-append new zeros a,
      covered-replicate (max_regions - length new) a,
    )

pub calc_loop-covered :
    (rsvs : List Region) (fuel : ℕ) (mem : List Region) (skip index : ℕ) (out : List Region)
    → AllFit rsvs
    → AllFit mem
    → calc_loop rsvs fuel mem skip index ≡ ok out
    → (a : ℕ) → covered out a ≡ true
    → covered mem a ≡ true
unfolding calc_loop
calc_loop-covered rsvs zero mem skip index out f g run a h = cc
calc_loop-covered rsvs (suc fuel) mem skip index out f g run a h =
    let ((mem', new), step, rest) = >>=-eq-ok (pass rsvs skip mem []) _ run in
    let (ps, eq, s) = pass-Shrunk rsvs skip mem mem' [] new f g step in
    let n = append_pieces mem' new index in
    let fit = subst AllFit (sym eq) s.pieces_fit in
    elim (if-eq-ok ((length new == 0) || leb max_regions index) mem' _ rest) [
      | inl r ↦ s.sound a (ground (arith, ap (λ l. covered l a) r))
      | inr r ↦ s.sound a (
          ap (λ l. covered mem' a || covered l a) (sym eq)
          ∙ append_pieces-covered mem' new index a (
              calc_loop-covered rsvs fuel n index (index + length new) out f
                (append_pieces-Fit mem' new index s.kept_fits fit) r a h))
    ]
