-- ===== src/Mm/AvailableMem/Carve.antt =====
-- One memory region against the reserved ones: what it keeps and the pieces it gives.
use kruspix.Base.{
  ℕ, zero, suc, ◌≡◌, ap, ◌∙◌, true, false, ◌||◌, List, [], ◌∷◌, ◌++◌, append-nil, append_assoc,
  arith,
}
use kruspix.Base.Outcome.{ok, >>=-eq-ok}
use kruspix.Mm.Region.{Region, Fits, contains, region_diff, region_diff-contains, region_diff-Fits}
use kruspix.Mm.AvailableMem.{add_piece, carve}
use kruspix.Mm.AvailableMem.Cover.{
  covered, AllFit, AllUsed, covered-append, AllFit-append, AllUsed-append,
}

-- A step appends the pieces `ps`.
abbrev Appends : Region → List Region → List Region → List Region → Type 0
Appends p new new' ps =
    (new' ≡ new ++ ps) × AllUsed ps × ((a : ℕ) → covered ps a ≡ contains p a) × (Fits p → AllFit ps)

add_piece-Appends :
    (p : Region) (new new' : List Region)
    → add_piece p new ≡ ok new'
    → (ps : List Region) × Appends p new new' ps
unfolding add_piece covered
add_piece-Appends (s, zero) new new' h =
    ([], (cc (append-nil new), tt, (λ a. ground arith), λ f. tt))
add_piece-Appends (s, suc n) new new' h =
    ((s, suc n) ∷ [], (ground arith, (ground arith, tt), (λ a. ground arith), λ f. (f, tt)))

-- What one region becomes: `kept` in its place and the pieces `ps` behind.
pub record Carved (rsvs : List Region) (mem kept : Region) (ps : List Region) : Type 0 where
  pub kept_fits : Fits kept
  pub pieces_fit : AllFit ps
  pub pieces_used : AllUsed ps
  pub excluded : (a : ℕ) → covered rsvs a ≡ true → contains kept a ≡ false
  pub sound : (a : ℕ) → (contains kept a || covered ps a) ≡ true → contains mem a ≡ true
  pub complete :
      (a : ℕ)
      → covered rsvs a ≡ false
      → contains mem a ≡ true
      → (contains kept a || covered ps a) ≡ true

carve_step :
    (rsv : Region) (rsvs : List Region) (mem kept : Region) (ps qs : List Region)
    → Fits rsv
    → Fits mem
    → AllUsed ps
    → ((a : ℕ) → covered ps a ≡ contains (region_diff mem rsv).1 a)
    → AllFit ps
    → Carved rsvs (region_diff mem rsv).0 kept qs
    → Carved (rsv ∷ rsvs) mem kept (ps ++ qs)
unfolding covered
carve_step rsv rsvs mem kept ps qs fr fm used pieces fit c = record {
  kept_fits = c.kept_fits;
  pieces_fit = AllFit-append ps qs fit c.pieces_fit;
  pieces_used = AllUsed-append ps qs used c.pieces_used;
  excluded = λ a h. ground (
    arith,
    region_diff-contains mem rsv a fm fr,
    c.excluded a,
    c.sound a,
    covered-append ps qs a,
  );
  sound = λ a h.
      ground
        (arith, region_diff-contains mem rsv a fm fr, c.sound a, pieces a, covered-append ps qs a);
  complete = λ a g h.
      ground (
        arith,
        region_diff-contains mem rsv a fm fr,
        c.complete a,
        pieces a,
        covered-append ps qs a,
      );
}

pub carve-Carved :
    (rsvs : List Region) (mem kept : Region) (new new' : List Region)
    → AllFit rsvs
    → Fits mem
    → carve rsvs mem new ≡ ok (kept, new')
    → (ps : List Region) × (new' ≡ new ++ ps) × Carved rsvs mem kept ps
unfolding carve covered
carve-Carved [] mem kept new new' f g h =
    let e : mem ≡ kept = cc in
    let e' : new ≡ new' = cc in
    (
      [],
      cc (append-nil new),
      rw (← e) (record {
        kept_fits = g;
        pieces_fit = tt;
        pieces_used = tt;
        excluded = λ a p. cc;
        sound = λ a p. ground arith;
        complete = λ a p q. ground arith;
      }),
    )
carve-Carved (rsv ∷ rsvs) mem kept new new' f g h =
    let (added, step, rest) = >>=-eq-ok (add_piece (region_diff mem rsv).1 new) _ h in
    let (ps, (eq, used, pieces, fit)) = add_piece-Appends (region_diff mem rsv).1 new added step in
    let fits = region_diff-Fits mem rsv g f.0 in
    let (qs, eq', c) = carve-Carved rsvs (region_diff mem rsv).0 kept added new' f.1 fits.0 rest in
    (
      ps ++ qs,
      eq' ∙ ap (λ xs. xs ++ qs) eq ∙ append_assoc new ps qs,
      carve_step rsv rsvs mem kept ps qs f.0 g used pieces (fit fits.1) c,
    )
