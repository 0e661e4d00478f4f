-- ===== src/Kernel/Fdt/Block/Pieces.antt =====
-- The tokens of a structure block with what belongs to them, and how they lie in memory.
use kruspix.Base.{ℕ, ◌%◌, ◌^◌, ◌<◌, ◌≤◌, ◌≡◌, refl, Bool, true, List, [], ◌∷◌, ◌++◌, length, arith}
use kruspix.Base.Text.{Bytes}
use kruspix.Kernel.Fdt.Memory.{Memory, be32, align4, At, word, At-word}

-- what a walk over the nodes skips
pub data Filler : Type 0 where
  nop : Filler
  -- the offset of the name in the strings block, and the value
  prop : ℕ → Bytes → Filler

pub data Piece : Type 0 where
  filler : Filler → Piece
  opening : Bytes → Piece
  closing : Piece

unfoldable pub pad_value : Bytes → Bytes
pad_value [] = []
pad_value (a ∷ []) = a ∷ 0 ∷ 0 ∷ 0 ∷ []
pad_value (a ∷ b ∷ []) = a ∷ b ∷ 0 ∷ 0 ∷ []
pad_value (a ∷ b ∷ c ∷ []) = a ∷ b ∷ c ∷ 0 ∷ []
pad_value (a ∷ b ∷ c ∷ d ∷ bs) = a ∷ b ∷ c ∷ d ∷ pad_value bs

-- with the NUL behind it
unfoldable pub pad_name : Bytes → Bytes
pad_name [] = 0 ∷ 0 ∷ 0 ∷ 0 ∷ []
pad_name (a ∷ []) = a ∷ 0 ∷ 0 ∷ 0 ∷ []
pad_name (a ∷ b ∷ []) = a ∷ b ∷ 0 ∷ 0 ∷ []
pad_name (a ∷ b ∷ c ∷ []) = a ∷ b ∷ c ∷ 0 ∷ []
pad_name (a ∷ b ∷ c ∷ d ∷ bs) = a ∷ b ∷ c ∷ d ∷ pad_name bs

unfoldable pub encode_filler : Filler → Bytes
encode_filler nop = word 4
encode_filler (prop name_offset value) =
    word 3 ++ (word (length value) ++ (word name_offset ++ pad_value value))

unfoldable pub encode_piece : Piece → Bytes
encode_piece (filler f) = encode_filler f
encode_piece (opening name) = word 1 ++ pad_name name
encode_piece closing = word 2

unfoldable pub encode : List Piece → Bytes
encode [] = word 9
encode (x ∷ xs) = encode_piece x ++ encode xs

-- The bytes of a name are not 0.
unfoldable pub AreChars : Bytes → Type 0
AreChars [] = Unit {0}
AreChars (b ∷ bs) = (0 < b) × (b < 256) × AreChars bs

unfoldable pub IsPiece : (Bytes → Bool) → Piece → Type 0
IsPiece valid_utf8 (filler nop) = Unit {0}
IsPiece valid_utf8 (filler (prop name_offset value)) =
    (length value < 2 ^ 32) × (name_offset < 2 ^ 32)
IsPiece valid_utf8 (opening name) = AreChars name × (length name ≤ 51) × (valid_utf8 name ≡ true)
IsPiece valid_utf8 closing = Unit {0}

unfoldable pub ArePieces : (Bytes → Bool) → List Piece → Type 0
ArePieces valid_utf8 [] = Unit {0}
ArePieces valid_utf8 (x ∷ xs) = IsPiece valid_utf8 x × ArePieces valid_utf8 xs

-- The pieces lie at `p`, which is aligned and not null.
pub record Lies (mem : Memory) (xs : List Piece) (p : ℕ) : Type 0 where
  pub here : At mem p (encode xs)
  pub on_word : p % 4 ≡ 0
  pub positive : 0 < p

pub length-pad_value : (value : Bytes) → length (pad_value value) ≡ align4 (length value)
unfolding pad_value
length-pad_value [] = refl
length-pad_value (a ∷ []) = refl
length-pad_value (a ∷ b ∷ []) = refl
length-pad_value (a ∷ b ∷ c ∷ []) = refl
length-pad_value (a ∷ b ∷ c ∷ d ∷ bs) = omega (arith, length-pad_value bs)

abbrev pub token_of : List Piece → ℕ
token_of [] = 9
token_of (filler nop ∷ xs) = 4
token_of (filler (prop name_offset value) ∷ xs) = 3
token_of (opening name ∷ xs) = 1
token_of (closing ∷ xs) = 2

-- The word at the pointer is the token.
pub be32-token_of :
    (mem : Memory) (xs : List Piece) (p : ℕ) → At mem p (encode xs) → be32 mem p ≡ token_of xs
unfolding encode encode_piece encode_filler
be32-token_of mem [] p h = (At-word mem p 9 [] (omega arith) h).0
be32-token_of mem (filler nop ∷ xs) p h = (At-word mem p 4 (encode xs) (omega arith) h).0
be32-token_of mem (filler (prop name_offset value) ∷ xs) p h =
    (At-word mem p 3 (word (length value) ++ (word name_offset ++ pad_value value) ++ encode xs)
      (omega arith) h).0
be32-token_of mem (opening name ∷ xs) p h =
    (At-word mem p 1 (pad_name name ++ encode xs) (omega arith) h).0
be32-token_of mem (closing ∷ xs) p h = (At-word mem p 2 (encode xs) (omega arith) h).0
