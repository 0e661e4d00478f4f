-- ===== src/Mm/AvailableMem/Pass.antt =====
-- One pass over the memory regions: what the pieces it keeps and the pieces it adds cover.
use kruspix.Base.{
  ℕ, suc, ◌-◌, ◌≡◌, refl, sym, ap, ◌∙◌, inl, inr, true, false, ◌||◌, List, [], ◌∷◌, ◌++◌,
  append-nil, append_assoc, arith, Bool-cases, ne→not_==, subst, length,
}
use kruspix.Base.Outcome.{Outcome, ok, panic, out_of_fuel, ◌>>=◌, >>=-eq-ok, bind-ok}
use kruspix.Mm.Region.{Region, Fits, contains}
use kruspix.Mm.AvailableMem.{is_used, carve, visit, pass}
use kruspix.Mm.AvailableMem.Cover.{
  covered, AllFit, AllUsed, AllEmpty, covered-append, AllFit-append, AllUsed-append,
}
use kruspix.Mm.AvailableMem.Carve.{Carved, carve-Carved}

-- What a list of regions becomes.
pub record Passed (rsvs mem kept ps : List Region) : Type 0 where
  pub same_length : length kept ≡ length mem
  pub kept_fits : AllFit kept
  pub pieces_fit : AllFit ps
  pub pieces_used : AllUsed ps
  pub excluded : (a : ℕ) → covered rsvs a ≡ true → covered kept a ≡ false
  pub sound : (a : ℕ) → (covered kept a || covered ps a) ≡ true → covered mem a ≡ true
  pub complete :
      (a : ℕ)
      → covered rsvs a ≡ false
      → covered mem a ≡ true
      → (covered kept a || covered ps a) ≡ true

unused-contains : (m : Region) (a : ℕ) → is_used m ≡ false → contains m a ≡ false
unused-contains (s, n) a h = ground arith

pass_cons :
    (rsvs : List Region) (m k : Region) (ms ks ps qs : List Region)
    → Carved rsvs m k ps
    → Passed rsvs ms ks qs
    → Passed rsvs (m ∷ ms) (k ∷ ks) (ps ++ qs)
unfolding covered
pass_cons rsvs m k ms ks ps qs c p = record {
  same_length = ap suc p.same_length;
  kept_fits = (c.kept_fits, p.kept_fits);
  pieces_fit = AllFit-append ps qs c.pieces_fit p.pieces_fit;
  pieces_used = AllUsed-append ps qs c.pieces_used p.pieces_used;
  excluded = λ a h. ground (arith, c.excluded a, p.excluded a);
  sound = λ a h. ground (arith, c.sound a, p.sound a, covered-append ps qs a);
  complete = λ a g h. ground (arith, c.complete a, p.complete a, covered-append ps qs a);
}

-- An empty region stays as it is.
unused-Carved : (rsvs : List Region) (m : Region) → Fits m → is_used m ≡ false → Carved rsvs m m []
unfolding covered
unused-Carved rsvs m f h = record {
  kept_fits = f;
  pieces_fit = tt;
  pieces_used = tt;
  excluded = λ a p. unused-contains m a h;
  sound = λ a p. ground arith;
  complete = λ a p q. ground arith;
}

visit-Carved :
    (rsvs new new' : List Region) (skip : ℕ) (m k : Region)
    → AllFit rsvs
    → Fits m
    → visit rsvs 0 m new ≡ ok (skip, k, new')
    → (skip ≡ 0) × (ps : List Region) × (new' ≡ new ++ ps) × Carved rsvs m k ps
unfolding visit
visit-Carved rsvs new new' skip m k f g h = elim (Bool-cases (is_used m)) [
  | inl e ↦
      let (r, step, rest) = >>=-eq-ok (carve rsvs m new) _ (rw e at h) in
      let ek : r.0 ≡ k = cc in
      let en : r.1 ≡ new' = cc in
      let (ps, eq, c) = carve-Carved rsvs m r.0 new r.1 f g step in
      (cc, ps, sym en ∙ eq, subst (λ k. Carved rsvs m k ps) ek c)
  | inr e ↦
      let u = rw e at h in
      let ek : m ≡ k = cc in
      let en : new ≡ new' = cc in
      (cc, [], sym en ∙ sym (append-nil new), rw (← ek) (unused-Carved rsvs m g e))
]

Passed-nil : (rsvs : List Region) → Passed rsvs [] [] []
unfolding covered
Passed-nil rsvs = record {
  same_length = refl;
  kept_fits = tt;
  pieces_fit = tt;
  pieces_used = tt;
  excluded = λ a p. refl;
  sound = λ a p. p;
  complete = λ a p q. q;
}

-- A pass carves every region of the list.
pub pass-Passed :
    (rsvs mem kept new new' : List Region)
    → AllFit rsvs
    → AllFit mem
    → pass rsvs 0 mem new ≡ ok (kept, new')
    → (ps : List Region) × (new' ≡ new ++ ps) × Passed rsvs mem kept ps
unfolding pass
pass-Passed rsvs [] kept new new' f g h =
    let ek : [] ≡ kept = cc in
    ([], cc (append-nil new), subst (λ ks. Passed rsvs [] ks []) ek (Passed-nil rsvs))
pass-Passed rsvs (m ∷ ms) kept new new' f g h =
    let ((skip, k, added), step, rest) = >>=-eq-ok (visit rsvs 0 m new) _ h in
    let (zero_skip, ps, eq, c) = visit-Carved rsvs new added skip m k f g.0 step in
    let ((ks, all), step', rest') = >>=-eq-ok (pass rsvs skip ms added) _ rest in
    let (qs, eq', p) =
      pass-Passed rsvs ms ks added all f g.1
        (ap (λ s. pass rsvs s ms added) (sym zero_skip) ∙ step') in
    let ek : k ∷ ks ≡ kept = cc in
    let en : all ≡ new' = cc in
    (
      ps ++ qs,
      sym en ∙ eq' ∙ ap (λ xs. xs ++ qs) eq ∙ append_assoc new ps qs,
      subst (λ ks. Passed rsvs (m ∷ ms) ks (ps ++ qs)) ek (pass_cons rsvs m k ms ks ps qs c p),
    )

-- The result of a pass over what follows `ds`.
abbrev pub behind : List Region → List Region × List Region → Outcome (List Region × List Region)
behind ds (ms, new) = ok (ds ++ ms, new)

bind_unit : (m : Outcome (List Region × List Region)) → m ≡ (m >>= behind [])
bind_unit (ok x) = refl
bind_unit panic = refl
bind_unit out_of_fuel = refl

bind_cons :
    (d : Region) (ds : List Region) (m : Outcome (List Region × List Region))
    → (m >>= behind ds >>= behind (d ∷ [])) ≡ (m >>= behind (d ∷ ds))
bind_cons d ds (ok x) = refl
bind_cons d ds panic = refl
bind_cons d ds out_of_fuel = refl

visit-skip :
    (rsvs new : List Region) (n : ℕ) (d : Region)
    → is_used d ≡ true
    → visit rsvs (suc n) d new ≡ ok (n, d, new)
unfolding visit
visit-skip rsvs new n d u =
    let e : suc n - 1 ≡ n = omega arith in rw (u, ne→not_== 0 (suc n) (omega arith), e)

pass-skip :
    (rsvs new ms : List Region) (n : ℕ) (d : Region)
    → is_used d ≡ true
    → pass rsvs (suc n) (d ∷ ms) new ≡ (pass rsvs n ms new >>= behind (d ∷ []))
unfolding pass
pass-skip rsvs new ms n d u = rw (visit-skip rsvs new n d u)

-- The regions in use at the front are passed over.
pub pass-append :
    (rsvs done rest new : List Region)
    → AllUsed done
    → pass rsvs (length done) (done ++ rest) new ≡ (pass rsvs 0 rest new >>= behind done)
pass-append rsvs [] rest new u = bind_unit (pass rsvs 0 rest new)
pass-append rsvs (d ∷ ds) rest new u =
    pass-skip rsvs new (ds ++ rest) (length ds) d u.0
    ∙ ap (λ m. m >>= behind (d ∷ [])) (pass-append rsvs ds rest new u.1)
    ∙ bind_cons d ds (pass rsvs 0 rest new)

visit-zero :
    (rsvs new new' : List Region) (skip : ℕ) (m k : Region)
    → visit rsvs 0 m new ≡ ok (skip, k, new')
    → skip ≡ 0
unfolding visit
visit-zero rsvs new new' skip m k h = elim (Bool-cases (is_used m)) [
  | inl e ↦ let (r, step, rest) = >>=-eq-ok (carve rsvs m new) _ (rw e at h) in cc
  | inr e ↦ let u = rw e at h in cc
]

-- Empty regions are filtered out, whatever is still to be passed over.
pass-empty :
    (rsvs zeros new : List Region) → AllEmpty zeros → pass rsvs 0 zeros new ≡ ok (zeros, new)
unfolding pass visit
pass-empty rsvs [] new e = refl
pass-empty rsvs (z ∷ zs) new e = rw (e.0, pass-empty rsvs zs new e.1)

-- Empty regions behind the others stay where they are.
pub pass-append_empty :
    (rsvs xs zeros new : List Region) (kept new' : List Region)
    → AllEmpty zeros
    → pass rsvs 0 (xs ++ zeros) new ≡ ok (kept, new')
    → (ks : List Region) × (kept ≡ ks ++ zeros) × (pass rsvs 0 xs new ≡ ok (ks, new'))
unfolding pass
pass-append_empty rsvs [] zeros new kept new' e h =
    let p = pass-empty rsvs zeros new e in ([], cc, cc)
pass-append_empty rsvs (x ∷ xs) zeros new kept new' e h =
    let ((skip, k, added), step, rest) = >>=-eq-ok (visit rsvs 0 x new) _ h in
    let z = visit-zero rsvs new added skip x k step in
    let ((ks, all), step', rest') = >>=-eq-ok (pass rsvs skip (xs ++ zeros) added) _ rest in
    let (ls, eq, step'') =
      pass-append_empty rsvs xs zeros added ks all e
        (ap (λ s. pass rsvs s (xs ++ zeros) added) (sym z) ∙ step') in
    let en : all ≡ new' = cc in
    let ek : kept ≡ k ∷ ks = cc in
    (
      k ∷ ls,
      ek ∙ ap (◌∷◌ k) eq,
      bind-ok (visit rsvs 0 x new) _ step (
          bind-ok (pass rsvs skip xs added) _ (ap (λ s. pass rsvs s xs added) z ∙ step'')
            (ap (λ n. ok (k ∷ ls, n)) en)),
    )
