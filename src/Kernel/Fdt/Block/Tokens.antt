-- ===== src/Kernel/Fdt/Block/Tokens.antt =====
-- The token that the walk finds next, behind NOPs and properties.
use kruspix.Base.{
  ℕ, zero, suc, ◌+◌, ◌%◌, ◌^◌, ◌<◌, ◌≤◌, ◌≡◌, refl, sym, Bool, true, false, List, [], ◌∷◌, ◌++◌,
  length, arith, ◌==◌, eq→==, subst,
}
use kruspix.Base.Outcome.{Outcome, ok, ◌>>=◌}
use kruspix.Base.Text.{Bytes}
use kruspix.Kernel.Fdt.Memory.{Memory, At-move, At-append, word, At-word}
use kruspix.Kernel.Fdt.Block.{
  next_non_nop_token, next_non_nop_token_without_props, behind_prop, skip_prop,
}
use kruspix.Kernel.Fdt.Block.Pieces.{
  nop, prop, Piece, filler, opening, closing, pad_value, encode_filler, encode_piece, encode,
  IsPiece, ArePieces, Lies, length-pad_value, token_of, be32-token_of,
}

unfoldable pub drop_nops : List Piece → List Piece
drop_nops (filler nop ∷ xs) = drop_nops xs
drop_nops (filler (prop name_offset value) ∷ xs) = filler (prop name_offset value) ∷ xs
drop_nops (opening name ∷ xs) = opening name ∷ xs
drop_nops (closing ∷ xs) = closing ∷ xs
drop_nops [] = []

unfoldable pub drop_fillers : List Piece → List Piece
drop_fillers (filler f ∷ xs) = drop_fillers xs
drop_fillers (opening name ∷ xs) = opening name ∷ xs
drop_fillers (closing ∷ xs) = closing ∷ xs
drop_fillers [] = []

-- What a loop finds: the token and the pointer of the pieces `xs`.
pub record Finds (mem : Memory) (xs : List Piece) (run : Outcome (ℕ × ℕ)) : Type 0 where
  pub ptr : ℕ
  pub returns : run ≡ ok (token_of xs, ptr)
  pub lies : Lies mem xs ptr

pub Lies-nop :
    (mem : Memory) (xs : List Piece) (p : ℕ) → Lies mem (filler nop ∷ xs) p → Lies mem xs (p + 4)
unfolding encode encode_piece encode_filler
Lies-nop mem xs p l = record {
  here = (At-word mem p 4 (encode xs) (omega arith) l.here).1;
  on_word = omega (arith, l.on_word);
  positive = omega arith;
}

pub Lies-prop :
    (mem : Memory) (name_offset : ℕ) (value : Bytes) (xs : List Piece) (p : ℕ)
    → length value < 2 ^ 32
    → name_offset < 2 ^ 32
    → Lies mem (filler (prop name_offset value) ∷ xs) p
    → Lies mem xs (behind_prop mem p)
unfolding encode encode_piece encode_filler
Lies-prop mem name_offset value xs p h k l =
    let rest = pad_value value ++ encode xs in
    let (t, at) =
      At-word mem p 3 (word (length value) ++ (word name_offset ++ rest)) (omega arith) l.here in
    let (len, at') = At-word mem (p + 4) (length value) (word name_offset ++ rest) h at in
    let (off, at'') = At-word mem (p + 4 + 4) name_offset rest k at' in
    let (v, at''') = At-append mem (p + 4 + 4 + 4) (pad_value value) (encode xs) at'' in
    let behind : p + 4 + 4 + 4 + length (pad_value value) ≡ behind_prop mem p =
      omega (arith, length-pad_value value, len) in
    record {
      here =
          At-move mem (p + 4 + 4 + 4 + length (pad_value value)) (behind_prop mem p) (encode xs)
            behind at''';
      on_word = omega (arith, l.on_word);
      positive = omega arith;
    }

stops :
    (fuel : ℕ) (mem : Memory) (xs : List Piece) (p : ℕ)
    → Lies mem xs p
    → (token_of xs == 4) ≡ false
    → Finds mem xs (next_non_nop_token (suc fuel) mem p)
unfolding next_non_nop_token
stops fuel mem xs p l ne =
    let t = be32-token_of mem xs p l.here in record { ptr = p; returns = rw (t, ne) refl; lies = l }

passes :
    (fuel : ℕ) (mem : Memory) (xs : List Piece) (p : ℕ)
    → Lies mem (filler nop ∷ xs) p
    → next_non_nop_token (suc fuel) mem p ≡ next_non_nop_token fuel mem (p + 4)
unfolding next_non_nop_token
passes fuel mem xs p l = rw (be32-token_of mem (filler nop ∷ xs) p l.here) refl

pub next_non_nop_token-Finds :
    (fuel : ℕ) (mem : Memory) (xs : List Piece) (p : ℕ)
    → Lies mem xs p
    → length xs < fuel
    → Finds mem (drop_nops xs) (next_non_nop_token fuel mem p)
unfolding drop_nops
next_non_nop_token-Finds zero mem xs p l f = absurd (omega arith)
next_non_nop_token-Finds (suc fuel) mem (filler nop ∷ xs) p l f =
    subst (Finds mem (drop_nops xs)) (sym (passes fuel mem xs p l))
      (next_non_nop_token-Finds fuel mem xs (p + 4) (Lies-nop mem xs p l) (omega arith))
next_non_nop_token-Finds (suc fuel) mem (filler (prop o v) ∷ xs) p l f =
    stops fuel mem (filler (prop o v) ∷ xs) p l refl
next_non_nop_token-Finds (suc fuel) mem (opening name ∷ xs) p l f =
    stops fuel mem (opening name ∷ xs) p l refl
next_non_nop_token-Finds (suc fuel) mem (closing ∷ xs) p l f =
    stops fuel mem (closing ∷ xs) p l refl
next_non_nop_token-Finds (suc fuel) mem [] p l f = stops fuel mem [] p l refl

-- What stands behind the NOPs and a property is less.
pub length-drop_nops : (xs : List Piece) → length (drop_nops xs) ≤ length xs
unfolding drop_nops
length-drop_nops (filler nop ∷ xs) = omega (arith, length-drop_nops xs)
length-drop_nops (filler (prop o v) ∷ xs) = omega arith
length-drop_nops (opening name ∷ xs) = omega arith
length-drop_nops (closing ∷ xs) = omega arith
length-drop_nops [] = omega arith

pub length-drop_fillers : (xs : List Piece) → length (drop_fillers xs) ≤ length xs
unfolding drop_fillers
length-drop_fillers (filler f ∷ xs) = omega (arith, length-drop_fillers xs)
length-drop_fillers (opening name ∷ xs) = omega arith
length-drop_fillers (closing ∷ xs) = omega arith
length-drop_fillers [] = omega arith

pub drop_fillers_idem : (xs : List Piece) → drop_fillers (drop_fillers xs) ≡ drop_fillers xs
unfolding drop_fillers
drop_fillers_idem (filler f ∷ xs) = drop_fillers_idem xs
drop_fillers_idem (opening name ∷ xs) = refl
drop_fillers_idem (closing ∷ xs) = refl
drop_fillers_idem [] = refl

pub drop_fillers-drop_nops : (xs : List Piece) → drop_fillers (drop_nops xs) ≡ drop_fillers xs
unfolding drop_nops drop_fillers
drop_fillers-drop_nops (filler nop ∷ xs) = drop_fillers-drop_nops xs
drop_fillers-drop_nops (filler (prop o v) ∷ xs) = refl
drop_fillers-drop_nops (opening name ∷ xs) = refl
drop_fillers-drop_nops (closing ∷ xs) = refl
drop_fillers-drop_nops [] = refl

token_of-drop_nops : (xs : List Piece) → (token_of (drop_nops xs) == 4) ≡ false
unfolding drop_nops
token_of-drop_nops (filler nop ∷ xs) = token_of-drop_nops xs
token_of-drop_nops (filler (prop o v) ∷ xs) = refl
token_of-drop_nops (opening name ∷ xs) = refl
token_of-drop_nops (closing ∷ xs) = refl
token_of-drop_nops [] = refl

module _ (valid_utf8 : Bytes → Bool) where
  pub ArePieces-drop_nops :
      (xs : List Piece) → ArePieces valid_utf8 xs → ArePieces valid_utf8 (drop_nops xs)
  unfolding drop_nops ArePieces
  ArePieces-drop_nops (filler nop ∷ xs) (h, hs) = ArePieces-drop_nops xs hs
  ArePieces-drop_nops (filler (prop o v) ∷ xs) h = h
  ArePieces-drop_nops (opening name ∷ xs) h = h
  ArePieces-drop_nops (closing ∷ xs) h = h
  ArePieces-drop_nops [] h = h

  pub ArePieces-drop_fillers :
      (xs : List Piece) → ArePieces valid_utf8 xs → ArePieces valid_utf8 (drop_fillers xs)
  unfolding drop_fillers ArePieces
  ArePieces-drop_fillers (filler f ∷ xs) (h, hs) = ArePieces-drop_fillers xs hs
  ArePieces-drop_fillers (opening name ∷ xs) h = h
  ArePieces-drop_fillers (closing ∷ xs) h = h
  ArePieces-drop_fillers [] h = h

  -- The rest of a round, behind the NOPs.
  skip_prop-Finds :
      (fuel : ℕ) (mem : Memory) (ys : List Piece) (run : Outcome (ℕ × ℕ))
      → ((zs : List Piece) (q : ℕ)
          → ArePieces valid_utf8 zs
          → Lies mem zs q
          → length zs < fuel
          → Finds mem (drop_fillers zs) (next_non_nop_token_without_props fuel mem q))
      → ArePieces valid_utf8 ys
      → (token_of ys == 4) ≡ false
      → length ys < suc fuel
      → Finds mem ys run
      → Finds mem
          (drop_fillers ys)
          (run >>= skip_prop (next_non_nop_token_without_props fuel mem) mem)
  unfolding drop_fillers ArePieces IsPiece
  skip_prop-Finds fuel mem (filler nop ∷ ys) run ih h ne f found = absurd (ground arith)
  skip_prop-Finds fuel mem (filler (prop o v) ∷ ys) run ih ((hv, ho), hs) ne f found =
      let l = Lies-prop mem o v ys found.ptr hv ho found.lies in
      let aligned : (behind_prop mem found.ptr % 4 == 0) ≡ true =
        eq→== (behind_prop mem found.ptr % 4) 0 l.on_word in
      rw (found.returns, aligned) (ih ys (behind_prop mem found.ptr) hs l (omega arith))
  skip_prop-Finds fuel mem (opening name ∷ ys) run ih h ne f found =
      rw found.returns (record { ptr = found.ptr; returns = refl; lies = found.lies })
  skip_prop-Finds fuel mem (closing ∷ ys) run ih h ne f found =
      rw found.returns (record { ptr = found.ptr; returns = refl; lies = found.lies })
  skip_prop-Finds fuel mem [] run ih h ne f found =
      rw found.returns (record { ptr = found.ptr; returns = refl; lies = found.lies })

  pub without_props-Finds :
      (fuel : ℕ) (mem : Memory) (xs : List Piece) (p : ℕ)
      → ArePieces valid_utf8 xs
      → Lies mem xs p
      → length xs < fuel
      → Finds mem (drop_fillers xs) (next_non_nop_token_without_props fuel mem p)
  unfolding next_non_nop_token_without_props
  without_props-Finds zero mem xs p h l f = absurd (omega arith)
  without_props-Finds (suc fuel) mem xs p h l f =
      subst (λ ys. Finds mem ys (next_non_nop_token_without_props (suc fuel) mem p))
        (drop_fillers-drop_nops xs)
        (skip_prop-Finds fuel mem (drop_nops xs) (next_non_nop_token (suc fuel) mem p)
          (λ zs q. without_props-Finds fuel mem zs q) (ArePieces-drop_nops xs h)
          (token_of-drop_nops xs) (omega (arith, length-drop_nops xs))
          (next_non_nop_token-Finds (suc fuel) mem xs p l f))
