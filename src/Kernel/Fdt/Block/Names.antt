-- ===== src/Kernel/Fdt/Block/Names.antt =====
-- A node's name as it lies in the structure block: its words are counted up to the one with the NUL.
use kruspix.Base.{
  ℕ, zero, suc, ◌+◌, ◌*◌, ◌<◌, ◌≤◌, ◌≡◌, refl, ap, ◌∙◌, false, some, [], ◌∷◌, ◌++◌, length, arith,
  le→leb, ◌==◌, append_assoc, subst, lt→not_leb,
}
use kruspix.Base.Outcome.{ok}
use kruspix.Base.Text.{Bytes}
use kruspix.Kernel.Fdt.Memory.{Memory, le32, cstr, At, At-move}
use kruspix.Kernel.Fdt.Block.{name_parts}
use kruspix.Kernel.Fdt.Block.Pieces.{pad_name, AreChars}

-- The words of a name but the last.
unfoldable pub more_words : Bytes → ℕ
more_words (a ∷ b ∷ c ∷ d ∷ bs) = suc (more_words bs)
more_words bs = 0

pub more_words-le : (name : Bytes) → 4 * more_words name ≤ length name
unfolding more_words
more_words-le [] = omega arith
more_words-le (a ∷ []) = omega arith
more_words-le (a ∷ b ∷ []) = omega arith
more_words-le (a ∷ b ∷ c ∷ []) = omega arith
more_words-le (a ∷ b ∷ c ∷ d ∷ bs) = omega (arith, more_words-le bs)

At-le32 :
    (mem : Memory) (q a b c d : ℕ) (rest : Bytes)
    → At mem q (a ∷ b ∷ c ∷ d ∷ rest)
    → (le32 mem q ≡ a + b * 256 + c * 65536 + d * 16777216) × At mem (q + 4) rest
unfolding At
At-le32 mem q a b c d rest (b0, (b1, (b2, (b3, r)))) =
    let e2 : mem (q + 2) ≡ c = ap mem (omega arith) ∙ b2 in
    let e3 : mem (q + 3) ≡ d = ap mem (omega arith) ∙ b3 in
    (omega (arith, b0, b1, e2, e3), At-move mem (q + 1 + 1 + 1 + 1) (q + 4) rest (omega arith) r)

name_parts-last :
    (rounds count : ℕ) (mem : Memory) (p : ℕ)
    → le32 mem (p + 4 * count) ≤ 16777215
    → name_parts (suc rounds) count mem p ≡ some count
unfolding name_parts
name_parts-last rounds count mem p h = rw (le→leb (le32 mem (p + 4 * count)) 16777215 h) refl

name_parts-more :
    (rounds count : ℕ) (mem : Memory) (p : ℕ)
    → 16777215 < le32 mem (p + 4 * count)
    → name_parts (suc rounds) count mem p ≡ name_parts rounds (count + 1) mem p
unfolding name_parts
name_parts-more rounds count mem p h = rw (lt→not_leb 16777215 (le32 mem (p + 4 * count)) h) refl

last_word :
    (rounds count : ℕ) (mem : Memory) (p : ℕ) (rest : Bytes)
    → le32 mem (p + 4 * count) ≤ 16777215
    → At mem (p + 4 * count + 4) rest
    → (name_parts (suc rounds) count mem p ≡ some (count + 0))
      × At mem (p + 4 * (1 + (count + 0))) rest
last_word rounds count mem p rest h at = (
  name_parts-last rounds count mem p h ∙ ap some (omega arith),
  At-move mem (p + 4 * count + 4) (p + 4 * (1 + (count + 0))) rest (omega arith) at,
)

pub name_parts-At :
    (rounds count : ℕ) (mem : Memory) (p : ℕ) (name rest : Bytes)
    → AreChars name
    → At mem (p + 4 * count) (pad_name name ++ rest)
    → more_words name < rounds
    → (name_parts rounds count mem p ≡ some (count + more_words name))
      × At mem (p + 4 * (1 + (count + more_words name))) rest
unfolding more_words pad_name AreChars
name_parts-At zero count mem p name rest h at f = absurd (omega arith)
name_parts-At (suc rounds) count mem p [] rest h at f =
    let (e, at') = At-le32 mem (p + 4 * count) 0 0 0 0 rest at in
    last_word rounds count mem p rest (omega (arith, e)) at'
name_parts-At (suc rounds) count mem p (a ∷ []) rest (a0, a1, h) at f =
    let (e, at') = At-le32 mem (p + 4 * count) a 0 0 0 rest at in
    last_word rounds count mem p rest (omega (arith, e)) at'
name_parts-At (suc rounds) count mem p (a ∷ b ∷ []) rest (a0, a1, (b0, b1, h)) at f =
    let (e, at') = At-le32 mem (p + 4 * count) a b 0 0 rest at in
    last_word rounds count mem p rest (omega (arith, e)) at'
name_parts-At (suc rounds) count mem p (a ∷ b ∷ c ∷ []) rest (a0, a1, (b0, b1, (c0, c1, h))) at f =
    let (e, at') = At-le32 mem (p + 4 * count) a b c 0 rest at in
    last_word rounds count mem p rest (omega (arith, e)) at'
name_parts-At (suc rounds) count mem p (a ∷ b ∷ c ∷ d ∷ bs) rest
      (a0, a1, (b0, b1, (c0, c1, (d0, d1, h)))) at f =
    let (e, at') = At-le32 mem (p + 4 * count) a b c d (pad_name bs ++ rest) at in
    let (ih, at'') =
      name_parts-At rounds (count + 1) mem p bs rest h
        (At-move mem (p + 4 * count + 4) (p + 4 * (count + 1)) (pad_name bs ++ rest) (omega arith)
          at')
        (omega arith) in
    (
      name_parts-more rounds count mem p (omega (arith, e)) ∙ ih ∙ ap some (omega arith),
      At-move mem (p + 4 * (1 + (count + 1 + more_words bs)))
          (p + 4 * (1 + (count + suc (more_words bs)))) rest (omega arith) at'',
    )

-- the zeros behind the NUL
pub pad_name-split : (name : Bytes) → (zeros : Bytes) × (pad_name name ≡ name ++ 0 ∷ zeros)
unfolding pad_name
pad_name-split [] = (0 ∷ 0 ∷ 0 ∷ [], refl)
pad_name-split (a ∷ []) = (0 ∷ 0 ∷ [], refl)
pad_name-split (a ∷ b ∷ []) = (0 ∷ [], refl)
pad_name-split (a ∷ b ∷ c ∷ []) = ([], refl)
pad_name-split (a ∷ b ∷ c ∷ d ∷ bs) =
    let (zeros, e) = pad_name-split bs in (zeros, ap (λ (x : Bytes). a ∷ b ∷ c ∷ d ∷ x) e)

pub cstr-At :
    (fuel : ℕ) (mem : Memory) (a : ℕ) (name rest : Bytes)
    → AreChars name
    → At mem a (name ++ 0 ∷ rest)
    → length name < fuel
    → cstr fuel mem a ≡ ok name
unfolding cstr AreChars At
cstr-At zero mem a name rest h at f = absurd (omega arith)
cstr-At (suc fuel) mem a [] rest h (z, at) f = rw z refl
cstr-At (suc fuel) mem a (b ∷ name) rest (pos, lt, h) (e, at) f =
    let ne : (mem a == 0) ≡ false = ground arith in
    rw (ne, cstr-At fuel mem (a + 1) name rest h at (omega arith), e) refl

pub cstr-pad_name :
    (fuel : ℕ) (mem : Memory) (a : ℕ) (name rest : Bytes)
    → AreChars name
    → At mem a (pad_name name ++ rest)
    → length name < fuel
    → cstr fuel mem a ≡ ok name
cstr-pad_name fuel mem a name rest h at f =
    let (zeros, e) = pad_name-split name in
    let whole : pad_name name ++ rest ≡ name ++ 0 ∷ (zeros ++ rest) =
      ap (λ (x : Bytes). x ++ rest) e ∙ append_assoc name (0 ∷ zeros) rest in
    cstr-At fuel mem a name (zeros ++ rest) h (subst (At mem a) whole at) f
