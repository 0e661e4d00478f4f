-- ===== src/Kernel/Fdt/RawProp.antt =====
-- src/kernel/devicetree/fdt/raw_prop.rs: a property and the decoding of its value.
pub mod Cells
mod Tests
use kruspix.Base.{
  ℕ, zero, suc, ◌+◌, ◌*◌, ◌%◌, ◌^◌, ◌≡◌, Bool, true, false, not, ◌&&◌, Option, none, some, List, [],
  ◌∷◌, ◌++◌, if◌then◌else◌, ltb, leb, ◌==◌, length, take, drop,
}
use kruspix.Base.Outcome.{Outcome, ok, panic, out_of_fuel, ◌>>=◌, ◌>>◌, assert}
use kruspix.Base.Text.{Bytes, bytes, eq_bytes}

pub record RawProp : Type 0 where
  pub name : Bytes
  pub value : Bytes

-- `u32::from_be_bytes(chunk.try_into().unwrap())`
unfoldable pub from_be_bytes : Bytes → Outcome ℕ
from_be_bytes (a ∷ b ∷ c ∷ d ∷ []) = ok (a * 16777216 + b * 65536 + c * 256 + d)
from_be_bytes bs = panic

-- `slice.chunks(n)` for `n` that is not 0, with fuel for the chunks
unfoldable pub chunks : ℕ → ℕ → Bytes → List Bytes
chunks zero n bs = []
chunks (suc fuel) n [] = []
chunks (suc fuel) n (b ∷ bs) = take n (b ∷ bs) ∷ chunks fuel n (drop n (b ∷ bs))

-- `for chunk in … { result <<= 32; result += … }`
unfoldable pub join_words : ℕ → List Bytes → Outcome ℕ
join_words result [] = ok result
join_words result (chunk ∷ rest) =
    from_be_bytes chunk >>= λ w. join_words ((result * 2 ^ 32 % 2 ^ 64 + w) % 2 ^ 64) rest

abbrev pub number : Bytes → Outcome ℕ
number part = join_words 0 (chunks (length part) 4 part)

unfoldable pub value_as_u32 : RawProp → Option ℕ
value_as_u32 prop =
    if not (length prop.value * 8 == 32)
    then none
    else elim (from_be_bytes prop.value) [ ok n ↦ some n | panic ↦ none | out_of_fuel ↦ none ]

unfoldable pub value_as_u64 : RawProp → Option ℕ
value_as_u64 prop =
    if not (length prop.value * 8 == 64)
    then none
    else elim (number prop.value) [ ok n ↦ some n | panic ↦ none | out_of_fuel ↦ none ]

abbrev pub value_as_phandle : RawProp → Option ℕ
value_as_phandle = value_as_u32

-- `CStr::from_bytes_with_nul`: one NUL, at the end
unfoldable pub from_bytes_with_nul : Bytes → Option Bytes
from_bytes_with_nul [] = none
from_bytes_with_nul (b ∷ []) = if b == 0 then some [] else none
from_bytes_with_nul (b ∷ c ∷ bs) =
    let rest = from_bytes_with_nul (c ∷ bs) in
    if b == 0 then none else elim rest [ none ↦ none | some s ↦ some (b ∷ s) ]

-- What `to_str` accepts is a parameter.
module _ (valid_utf8 : Bytes → Bool) where
  unfoldable pub to_str : Option Bytes → Option Bytes
  to_str none = none
  to_str (some s) = if valid_utf8 s then some s else none

  unfoldable pub value_as_string : RawProp → Option Bytes
  value_as_string prop = to_str (from_bytes_with_nul prop.value)

-- `CStr::from_bytes_until_nul`: the bytes before the first NUL, and those behind it
unfoldable pub until_nul : Bytes → Option (Bytes × Bytes)
until_nul [] = none
until_nul (b ∷ bs) =
    let rest = until_nul bs in
    if b == 0 then some ([], bs) else elim rest [ none ↦ none | some (s, t) ↦ some (b ∷ s, t) ]

-- The items of `StringListIter`; `none` is an error. Fuel for the rounds.
module _ (valid_utf8 : Bytes → Bool) where
  unfoldable pub string_list : ℕ → Bytes → List (Option Bytes)
  string_list zero bs = []
  string_list (suc fuel) [] = []
  string_list (suc fuel) (b ∷ bs) = elim (until_nul (b ∷ bs)) [
    | none ↦ none ∷ []
    | some (s, rest) ↦ to_str valid_utf8 (some s) ∷ string_list fuel rest
  ]

  abbrev pub value_as_string_list_iter : RawProp → List (Option Bytes)
  value_as_string_list_iter prop = string_list (length prop.value) prop.value

unfoldable pub read_all : List Bytes → Outcome (List ℕ)
read_all [] = ok []
read_all (chunk ∷ rest) = number chunk >>= λ n. read_all rest >>= λ ns. ok (n ∷ ns)

unfoldable pub value_as_prop_encoded_array_cells_iter : ℕ → RawProp → Outcome (List ℕ)
value_as_prop_encoded_array_cells_iter size prop = do
  assert (ltb 0 size)
  let chunk_size = size * 4
  assert (length prop.value % chunk_size == 0)
  read_all (chunks (length prop.value) chunk_size prop.value)

unfoldable pub read_pair : ℕ → Bytes → Outcome (ℕ × ℕ)
read_pair size_1 chunk = do
  first ← number (take (size_1 * 4) chunk)
  second ← number (drop (size_1 * 4) chunk)
  ok (first, second)

unfoldable pub read_pairs : ℕ → List Bytes → Outcome (List (ℕ × ℕ))
read_pairs size_1 [] = ok []
read_pairs size_1 (chunk ∷ rest) =
    read_pair size_1 chunk >>= λ p. read_pairs size_1 rest >>= λ ps. ok (p ∷ ps)

unfoldable pub value_as_prop_encoded_array_cells_pair_iter :
    ℕ → ℕ → RawProp → Outcome (List (ℕ × ℕ))
value_as_prop_encoded_array_cells_pair_iter size_1 size_2 prop = do
  assert (ltb 0 size_1)
  assert (leb size_1 2)
  assert (ltb 0 size_2)
  assert (leb size_2 2)
  let chunk_size = (size_1 + size_2) * 4
  assert (length prop.value % chunk_size == 0)
  read_pairs size_1 (chunks (length prop.value) chunk_size prop.value)

unfoldable pub read_triplet : ℕ → ℕ → Bytes → Outcome (ℕ × ℕ × ℕ)
read_triplet size_1 size_2 chunk = do
  first ← number (take (size_1 * 4) chunk)
  second ← number (drop (size_1 * 4) (take ((size_1 + size_2) * 4) chunk))
  third ← number (drop ((size_1 + size_2) * 4) chunk)
  ok (first, second, third)

unfoldable pub read_triplets : ℕ → ℕ → List Bytes → Outcome (List (ℕ × ℕ × ℕ))
read_triplets size_1 size_2 [] = ok []
read_triplets size_1 size_2 (chunk ∷ rest) =
    read_triplet size_1 size_2 chunk >>= λ t. read_triplets size_1 size_2 rest >>= λ ts. ok (t ∷ ts)

unfoldable pub value_as_prop_encoded_array_cells_triplet_iter :
    ℕ → ℕ → ℕ → RawProp → Outcome (List (ℕ × ℕ × ℕ))
value_as_prop_encoded_array_cells_triplet_iter size_1 size_2 size_3 prop = do
  assert (ltb 0 size_1)
  assert (ltb 0 size_2)
  assert (ltb 0 size_3)
  let chunk_size = (size_1 + size_2 + size_3) * 4
  assert (length prop.value % chunk_size == 0)
  read_triplets size_1 size_2 (chunks (length prop.value) chunk_size prop.value)
