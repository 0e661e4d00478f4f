-- ===== src/Kernel/Fdt/Block/Props.antt =====
-- The properties that `PropIter` gives of a node.
use kruspix.Base.{
  ℕ, zero, suc, ◌+◌, ◌%◌, ◌^◌, ◌<◌, ◌≤◌, ◌≡◌, refl, ap, ap₂, ◌∙◌, Bool, true, false, some, List, [],
  ◌∷◌, ◌++◌, length, arith, ◌==◌, eq→==, subst, append_assoc, ne→not_==, ◌⊎◌, inl, inr,
}
use kruspix.Base.Outcome.{Outcome, ok}
use kruspix.Base.Text.{Bytes}
use kruspix.Kernel.Fdt.Memory.{Memory, be32, At, At-move, word, At-word}
use kruspix.Kernel.Fdt.RawProp.{RawProp}
use kruspix.Kernel.Fdt.Block.{
  behind_prop, slice, next_prop_token, read_prop, next_prop, more_props, props,
}
use kruspix.Kernel.Fdt.Block.Pieces.{
  Filler, nop, prop, Piece, filler, pad_value, encode_filler, encode_piece, encode, AreChars, Lies,
  token_of, be32-token_of,
}
use kruspix.Kernel.Fdt.Block.Names.{cstr-At}
use kruspix.Kernel.Fdt.Block.Tokens.{Lies-nop, Lies-prop}
use kruspix.Kernel.Fdt.Block.Forest.{fillers}

slice-At :
    (mem : Memory) (a : ℕ) (bs rest : Bytes) → At mem a (bs ++ rest) → slice mem a (length bs) ≡ bs
unfolding slice At
slice-At mem a [] rest h = refl
slice-At mem a (b ∷ bs) rest (e, h) =
    ap₂ (λ (c : ℕ) (cs : Bytes). c ∷ cs) e (slice-At mem (a + 1) bs rest h)

-- the zeros behind the value
pad_value-split : (value : Bytes) → (zeros : Bytes) × (pad_value value ≡ value ++ zeros)
unfolding pad_value
pad_value-split [] = ([], refl)
pad_value-split (a ∷ []) = (0 ∷ 0 ∷ 0 ∷ [], refl)
pad_value-split (a ∷ b ∷ []) = (0 ∷ 0 ∷ [], refl)
pad_value-split (a ∷ b ∷ c ∷ []) = (0 ∷ [], refl)
pad_value-split (a ∷ b ∷ c ∷ d ∷ bs) =
    let (zeros, e) = pad_value-split bs in (zeros, ap (λ (x : Bytes). a ∷ b ∷ c ∷ d ∷ x) e)

-- The length, the offset of the name and the value of the property at `p`.
prop-fields :
    (mem : Memory) (o : ℕ) (v : Bytes) (xs : List Piece) (p : ℕ)
    → length v < 2 ^ 32
    → o < 2 ^ 32
    → Lies mem (filler (prop o v) ∷ xs) p
    → (be32 mem (p + 4) ≡ length v) × (be32 mem (p + 8) ≡ o) × (slice mem (p + 12) (length v) ≡ v)
unfolding encode encode_piece encode_filler
prop-fields mem o v xs p h k l =
    let rest = pad_value v ++ encode xs in
    let (t, at) = At-word mem p 3 (word (length v) ++ (word o ++ rest)) (omega arith) l.here in
    let (len, at1) = At-word mem (p + 4) (length v) (word o ++ rest) h at in
    let (off, at2) =
      At-word mem (p + 8) o rest k
        (At-move mem (p + 4 + 4) (p + 8) (word o ++ rest) (omega arith) at1) in
    let (zeros, e) = pad_value-split v in
    let whole : rest ≡ v ++ (zeros ++ encode xs) =
      ap (λ (x : Bytes). x ++ encode xs) e ∙ append_assoc v zeros (encode xs) in
    (
      len,
      off,
      slice-At mem (p + 12) v (zeros ++ encode xs)
          (subst (At mem (p + 12)) whole (At-move mem (p + 8 + 4) (p + 12) rest (omega arith) at2)),
    )

-- What the iterator is to give, where `name_at` is the name at an offset of the strings block.
unfoldable pub named : (ℕ → Bytes) → List Filler → List RawProp
named name_at [] = []
named name_at (nop ∷ fs) = named name_at fs
named name_at (prop o v ∷ fs) = (record { name = name_at o; value = v }) ∷ named name_at fs

module _ (valid_utf8 : Bytes → Bool) (fuel : ℕ) (mem : Memory) (strings : ℕ)
    (name_at : ℕ → Bytes) where
  -- Lengths and offsets fit 32 bits, and the names are valid and lie in the strings block.
  unfoldable pub AreNamed : List Filler → Type 0
  AreNamed [] = Unit {0}
  AreNamed (nop ∷ fs) = AreNamed fs
  AreNamed (prop o v ∷ fs) =
      ((length v < 2 ^ 32)
        × (o < 2 ^ 32)
        × AreChars (name_at o)
        × At mem (strings + o) (name_at o ++ 0 ∷ [])
        × (length (name_at o) < fuel)
        × (valid_utf8 (name_at o) ≡ true))
      × AreNamed fs

  read_prop-Lies :
      (o : ℕ) (v : Bytes) (fs : List Filler) (xs : List Piece) (p : ℕ)
      → AreNamed (prop o v ∷ fs)
      → Lies mem (fillers (prop o v ∷ fs) xs) p
      → read_prop valid_utf8 strings fuel mem p
        ≡ ok (some (record { name = name_at o; value = v }, behind_prop mem p))
  unfolding AreNamed read_prop fillers
  read_prop-Lies o v fs xs p ((hv, ho, chars, at, len, valid), hs) l =
      let (elen, eoff, evalue) = prop-fields mem o v (fillers fs xs) p hv ho l in
      let next = Lies-prop mem o v (fillers fs xs) p hv ho l in
      let aligned : (behind_prop mem p % 4 == 0) ≡ true =
        eq→== (behind_prop mem p % 4) 0 next.on_word in
      let not_null : (p == 0) ≡ false = ne→not_== p 0 (λ e. omega (arith, e, l.positive)) in
      let s = cstr-At fuel mem (strings + o) (name_at o) [] chars at len in
      rw (not_null, aligned, eoff, s, valid, elen, evalue) refl

  behind_found :
      (o : ℕ) (v : Bytes) (fs : List Filler) (xs : List Piece) (p : ℕ)
      → AreNamed (prop o v ∷ fs)
      → Lies mem (fillers (prop o v ∷ fs) xs) p
      → AreNamed fs × Lies mem (fillers fs xs) (behind_prop mem p)
  unfolding AreNamed fillers
  behind_found o v fs xs p ((hv, ho, chars, at, len, valid), hs) l =
      (hs, Lies-prop mem o v (fillers fs xs) p hv ho l)

  -- the next property among the fillers
  record Seen (fs : List Filler) (xs : List Piece) (run : Outcome ℕ) : Type 0 where
    offset : ℕ
    value : Bytes
    behind : List Filler
    ptr : ℕ
    returns : run ≡ ok ptr
    lies : Lies mem (fillers (prop offset value ∷ behind) xs) ptr
    are_named : AreNamed (prop offset value ∷ behind)
    same : named name_at fs ≡ named name_at (prop offset value ∷ behind)
    less : length behind < length fs

  token_stops :
      (tokens : ℕ) (xs : List Piece) (p : ℕ)
      → Lies mem xs p
      → (token_of xs == 3) ≡ false
      → (token_of xs == 4) ≡ false
      → next_prop_token (suc tokens) mem p ≡ ok 0
  unfolding next_prop_token
  token_stops tokens xs p l h k = rw (be32-token_of mem xs p l.here, h, k) refl

  token_passes :
      (tokens : ℕ) (xs : List Piece) (p : ℕ)
      → Lies mem (filler nop ∷ xs) p
      → next_prop_token (suc tokens) mem p ≡ next_prop_token tokens mem (p + 4)
  unfolding next_prop_token
  token_passes tokens xs p l = rw (be32-token_of mem (filler nop ∷ xs) p l.here) refl

  token_found :
      (tokens o : ℕ) (v : Bytes) (xs : List Piece) (p : ℕ)
      → Lies mem (filler (prop o v) ∷ xs) p
      → next_prop_token (suc tokens) mem p ≡ ok p
  unfolding next_prop_token
  token_found tokens o v xs p l = rw (be32-token_of mem (filler (prop o v) ∷ xs) p l.here) refl

  next_prop_token-Seen :
      (tokens : ℕ) (fs : List Filler) (xs : List Piece) (p : ℕ)
      → (token_of xs == 3) ≡ false
      → (token_of xs == 4) ≡ false
      → AreNamed fs
      → Lies mem (fillers fs xs) p
      → length fs < tokens
      → ((next_prop_token tokens mem p ≡ ok 0) × (named name_at fs ≡ []))
        ⊎ Seen fs xs (next_prop_token tokens mem p)
  unfolding fillers named AreNamed
  next_prop_token-Seen zero fs xs p h k n l f = absurd (omega arith)
  next_prop_token-Seen (suc tokens) [] xs p h k n l f = inl (token_stops tokens xs p l h k, refl)
  next_prop_token-Seen (suc tokens) (nop ∷ fs) xs p h k n l f =
      let pass = token_passes tokens (fillers fs xs) p l in
      elim (next_prop_token-Seen tokens fs xs (p + 4) h k n (Lies-nop mem (fillers fs xs) p l)
        (omega arith)) [
          | inl (e, q) ↦ inl (pass ∙ e, q)
          | inr s ↦ inr (record {
            offset = s.offset;
            value = s.value;
            behind = s.behind;
            ptr = s.ptr;
            returns = pass ∙ s.returns;
            lies = s.lies;
            are_named = s.are_named;
            same = s.same;
            less = omega (arith, s.less);
          })
        ]
  next_prop_token-Seen (suc tokens) (prop o v ∷ fs) xs p h k n l f = inr (record {
    offset = o;
    value = v;
    behind = fs;
    ptr = p;
    returns = token_found tokens o v (fillers fs xs) p l;
    lies = l;
    are_named = n;
    same = refl;
    less = omega arith;
  })

  props_loop :
      (rounds : ℕ) (fs : List Filler) (xs : List Piece) (p : ℕ)
      → (token_of xs == 3) ≡ false
      → (token_of xs == 4) ≡ false
      → AreNamed fs
      → Lies mem (fillers fs xs) p
      → length fs < rounds
      → rounds ≤ fuel
      → props valid_utf8 strings rounds fuel mem p ≡ ok (named name_at fs)
  unfolding props next_prop more_props
  props_loop zero fs xs p h k n l f g = absurd (omega arith)
  props_loop (suc rounds) fs xs p h k n l f g =
      elim (next_prop_token-Seen fuel fs xs p h k n l (omega arith)) [
        | inl (e, q) ↦ unfold read_prop in rw (e, q) refl
        | inr s ↦
            let one = read_prop-Lies s.offset s.value s.behind xs s.ptr s.are_named s.lies in
            let (rest, l') = behind_found s.offset s.value s.behind xs s.ptr s.are_named s.lies in
            let ih =
              props_loop rounds s.behind xs (behind_prop mem s.ptr) h k rest l'
                (omega (arith, s.less)) (omega arith) in
            rw (s.returns, one, ih, s.same) (unfold named in refl)
      ]

-- From a pointer to NOPs and properties, those properties come out.
pub props-fillers :
    (valid_utf8 : Bytes → Bool) (fuel : ℕ) (mem : Memory) (strings : ℕ) (name_at : ℕ → Bytes)
    (fs : List Filler) (xs : List Piece) (prop_ptr : ℕ)
    → (token_of xs == 3) ≡ false
    → (token_of xs == 4) ≡ false
    → AreNamed valid_utf8 fuel mem strings name_at fs
    → Lies mem (fillers fs xs) prop_ptr
    → length fs < fuel
    → props valid_utf8 strings fuel fuel mem prop_ptr ≡ ok (named name_at fs)
props-fillers valid_utf8 fuel mem strings name_at fs xs p h k n l f =
    props_loop valid_utf8 fuel mem strings name_at fuel fs xs p h k n l f (omega arith)
