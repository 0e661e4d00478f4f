-- ===== src/Kernel/Fdt/RawProp/Cells.antt =====
-- Arrays of pairs of cells, as `reg` and the like hold them.
use kruspix.Base.{
  ℕ, zero, suc, ◌+◌, ◌-◌, ◌*◌, ◌/◌, ◌%◌, ◌^◌, ◌<◌, ◌≤◌, ◌≡◌, ◌⊎◌, inl, inr, refl, sym, ap, ap₂, ◌∙◌,
  List, [], ◌∷◌, ◌++◌, if◌then◌else◌, ◌==◌, lt→ltb, le→leb, length, arith, length-append,
  take-append_left_all, drop-append_right_all,
}
use native.Mathlib.Nat.{mul-mod_left}
use kruspix.Base.Outcome.{ok}
use kruspix.Base.Text.{Bytes}
use kruspix.Kernel.Fdt.Memory.{word}
use kruspix.Kernel.Fdt.RawProp.{
  from_be_bytes, chunks, join_words, number, read_pair, read_pairs,
  value_as_prop_encoded_array_cells_pair_iter,
}

-- A number in `size` cells of 32 bits, which is 1 or 2.
unfoldable pub cells : ℕ → ℕ → Bytes
cells size n = if size == 1 then word n else word (n / 2 ^ 32) ++ word (n % 2 ^ 32)

abbrev pub IsSize : ℕ → Type 0
IsSize size = (0 < size) × (size ≤ 2)

abbrev pub Fits : ℕ → ℕ → Type 0
Fits size n = n < 2 ^ (32 * size)

unfoldable pub encode : ℕ → ℕ → List (ℕ × ℕ) → Bytes
encode size_1 size_2 [] = []
encode size_1 size_2 ((a, b) ∷ ps) = (cells size_1 a ++ cells size_2 b) ++ encode size_1 size_2 ps

unfoldable pub AllFit : ℕ → ℕ → List (ℕ × ℕ) → Type 0
AllFit size_1 size_2 [] = Unit {0}
AllFit size_1 size_2 ((a, b) ∷ ps) = Fits size_1 a × Fits size_2 b × AllFit size_1 size_2 ps

size-cases : (size : ℕ) → IsSize size → (size ≡ 1) ⊎ (size ≡ 2)
size-cases size h = omega arith

length-cells : (size n : ℕ) → IsSize size → length (cells size n) ≡ size * 4
unfolding cells
length-cells size n h = elim (size-cases size h) [ inl e ↦ rw e refl | inr e ↦ rw e refl ]

number-word : (n : ℕ) → n < 2 ^ 32 → number (word n) ≡ ok n
unfolding chunks join_words from_be_bytes
number-word n h = ap ok (omega arith)

number-double : (n : ℕ) → n < 2 ^ 64 → number (word (n / 2 ^ 32) ++ word (n % 2 ^ 32)) ≡ ok n
unfolding chunks join_words from_be_bytes
number-double n h = ap ok (omega arith)

number-cells : (size n : ℕ) → IsSize size → Fits size n → number (cells size n) ≡ ok n
unfolding cells
number-cells size n h f = elim (size-cases size h) [
  | inl e ↦ rw e (number-word n (rw e at f))
  | inr e ↦ rw e (number-double n (rw e at f))
]

read_pair-cells :
    (size_1 size_2 a b : ℕ)
    → IsSize size_1
    → IsSize size_2
    → Fits size_1 a
    → Fits size_2 b
    → read_pair size_1 (cells size_1 a ++ cells size_2 b) ≡ ok (a, b)
unfolding read_pair
read_pair-cells size_1 size_2 a b h k f g =
    let len = length-cells size_1 a h in
    rw
      (
        take-append_left_all (size_1 * 4) (cells size_1 a) (cells size_2 b) len,
        drop-append_right_all (size_1 * 4) (cells size_1 a) (cells size_2 b) len,
        number-cells size_1 a h f,
        number-cells size_2 b k g,
      )
      refl

chunks-append :
    (fuel n : ℕ) (x rest : Bytes)
    → length x ≡ suc n
    → chunks (suc fuel) (suc n) (x ++ rest) ≡ x ∷ chunks fuel (suc n) rest
unfolding chunks
chunks-append fuel n [] rest h = absurd (omega arith)
chunks-append fuel n (b ∷ x) rest h =
    ap₂ (λ (c : Bytes) cs. c ∷ cs) (take-append_left_all (suc n) (b ∷ x) rest h)
      (ap (chunks fuel (suc n)) (drop-append_right_all (suc n) (b ∷ x) rest h))

-- The bytes of one pair.
chunk_length :
    (size_1 size_2 a b : ℕ)
    → IsSize size_1
    → IsSize size_2
    → length (cells size_1 a ++ cells size_2 b) ≡ (size_1 + size_2) * 4
chunk_length size_1 size_2 a b h k = omega (
  arith,
  length-append (cells size_1 a) (cells size_2 b),
  length-cells size_1 a h,
  length-cells size_2 b k,
)

length-encode :
    (size_1 size_2 : ℕ) (ps : List (ℕ × ℕ))
    → IsSize size_1
    → IsSize size_2
    → length (encode size_1 size_2 ps) ≡ length ps * ((size_1 + size_2) * 4)
unfolding encode
length-encode size_1 size_2 [] h k = omega arith
length-encode size_1 size_2 ((a, b) ∷ ps) h k =
    let pair = chunk_length size_1 size_2 a b h k in
    let ih = length-encode size_1 size_2 ps h k in
    let both = length-append (cells size_1 a ++ cells size_2 b) (encode size_1 size_2 ps) in
    let step : suc (length ps) * ((size_1 + size_2) * 4)
        ≡ (size_1 + size_2) * 4 + length ps * ((size_1 + size_2) * 4) =
      grind arith in
    both ∙ ap₂ (◌+◌) pair ih ∙ sym step

read_pairs-encode :
    (fuel size_1 size_2 : ℕ) (ps : List (ℕ × ℕ))
    → IsSize size_1
    → IsSize size_2
    → AllFit size_1 size_2 ps
    → length ps ≤ fuel
    → read_pairs size_1 (chunks fuel ((size_1 + size_2) * 4) (encode size_1 size_2 ps)) ≡ ok ps
unfolding read_pairs encode AllFit
read_pairs-encode zero size_1 size_2 [] h k f enough = unfold chunks in refl
read_pairs-encode (suc fuel) size_1 size_2 [] h k f enough = unfold chunks in refl
read_pairs-encode zero size_1 size_2 (p ∷ ps) h k f enough = absurd (omega arith)
read_pairs-encode (suc fuel) size_1 size_2 ((a, b) ∷ ps) h k (f, g, rest) enough =
    let chunk = cells size_1 a ++ cells size_2 b in
    let n : suc ((size_1 + size_2) * 4 - 1) ≡ (size_1 + size_2) * 4 = omega arith in
    let first =
      chunks-append fuel ((size_1 + size_2) * 4 - 1) chunk (encode size_1 size_2 ps)
        (chunk_length size_1 size_2 a b h k ∙ sym n) in
    let first' = rw n at first in
    rw
      (
        first',
        read_pair-cells size_1 size_2 a b h k f g,
        read_pairs-encode fuel size_1 size_2 ps h k rest (omega arith),
      )
      refl

-- The value that holds pairs of numbers, in one or two cells each, is decoded to these pairs, without a
-- failing assertion.
pub cells_pair_iter-encode :
    (size_1 size_2 : ℕ) (name : Bytes) (ps : List (ℕ × ℕ))
    → IsSize size_1
    → IsSize size_2
    → AllFit size_1 size_2 ps
    → value_as_prop_encoded_array_cells_pair_iter size_1 size_2
        (record { name = name; value = encode size_1 size_2 ps })
      ≡ ok ps
unfolding value_as_prop_encoded_array_cells_pair_iter
cells_pair_iter-encode size_1 size_2 name ps h k f =
    let len = length-encode size_1 size_2 ps h k in
    let whole : length (encode size_1 size_2 ps) % ((size_1 + size_2) * 4) ≡ 0 =
      ap (λ l. l % ((size_1 + size_2) * 4)) len
      ∙ mul-mod_left (length ps) ((size_1 + size_2) * 4) in
    let enough : length ps ≤ length (encode size_1 size_2 ps) =
      (let one : length ps * 1 ≤ length ps * ((size_1 + size_2) * 4) = grind arith in
        omega (arith, len, one)) in
    rw (lt→ltb 0 size_1 h.0, le→leb size_1 2 h.1, lt→ltb 0 size_2 k.0, le→leb size_2 2 k.1, whole)
      (read_pairs-encode (length (encode size_1 size_2 ps)) size_1 size_2 ps h k f enough)
