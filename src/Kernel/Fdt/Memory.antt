-- ===== src/Kernel/Fdt/Memory.antt =====
-- Reading numbers and strings from memory, and what lies there.
use kruspix.Base.{
  ℕ, zero, suc, ◌+◌, ◌*◌, ◌/◌, ◌%◌, ◌^◌, ◌<◌, ◌≡◌, ap, ◌∙◌, subst, Bool, true, [], ◌∷◌, ◌++◌,
  if◌then◌else◌, ◌==◌, ◌&&◌, inl, inr, Bool-cases, ==→eq, length, arith,
}
use kruspix.Base.Outcome.{Outcome, ok, out_of_fuel, ◌>>=◌}
use kruspix.Base.Text.{Bytes}

abbrev pub Memory : Type 0
Memory = ℕ → ℕ

-- `u32::from_be` and `u64::from_be` of what a pointer points at, on this machine, whose order is the other
abbrev pub be32 : Memory → ℕ → ℕ
be32 mem a = mem a * 16777216 + mem (a + 1) * 65536 + mem (a + 2) * 256 + mem (a + 3)

abbrev pub be64 : Memory → ℕ → ℕ
be64 mem a = be32 mem a * 2 ^ 32 + be32 mem (a + 4)

-- the number itself
abbrev pub le32 : Memory → ℕ → ℕ
le32 mem a = mem a + mem (a + 1) * 256 + mem (a + 2) * 65536 + mem (a + 3) * 16777216

-- `CStr::from_ptr`, with fuel for the bytes
unfoldable pub cstr : ℕ → Memory → ℕ → Outcome Bytes
cstr zero mem a = out_of_fuel
cstr (suc fuel) mem a =
    let rest = cstr fuel mem (a + 1) >>= λ s. ok (mem a ∷ s) in if mem a == 0 then ok [] else rest

-- `len.next_multiple_of(4)`
abbrev pub align4 : ℕ → ℕ
align4 n = (n + 3) / 4 * 4

-- The bytes `bs` lie at `a`.
unfoldable pub At : Memory → ℕ → Bytes → Type 0
At mem a [] = Unit {0}
At mem a (b ∷ bs) = (mem a ≡ b) × At mem (a + 1) bs

-- a number as four big-endian bytes
abbrev pub word : ℕ → Bytes
word n = n / 16777216 % 256 ∷ n / 65536 % 256 ∷ n / 256 % 256 ∷ n % 256 ∷ []

pub At-move : (mem : Memory) (a b : ℕ) (bs : Bytes) → a ≡ b → At mem a bs → At mem b bs
At-move mem a b bs e h = subst (λ p. At mem p bs) e h

pub At-append :
    (mem : Memory) (a : ℕ) (bs cs : Bytes)
    → At mem a (bs ++ cs)
    → At mem a bs × At mem (a + length bs) cs
unfolding At
At-append mem a [] cs h = (tt, subst (λ p. At mem p cs) (omega arith) h)
At-append mem a (b ∷ bs) cs (e, h) =
    let (l, r) = At-append mem (a + 1) bs cs h in ((e, l), subst (λ p. At mem p cs) (omega arith) r)

pub At-word :
    (mem : Memory) (a n : ℕ) (rest : Bytes)
    → n < 2 ^ 32
    → At mem a (word n ++ rest)
    → (be32 mem a ≡ n) × At mem (a + 4) rest
unfolding At
At-word mem a n rest h (b0, (b1, (b2, (b3, r)))) =
    let e1 : mem (a + 1) ≡ n / 65536 % 256 = b1 in
    let e2 : mem (a + 2) ≡ n / 256 % 256 = ap mem (omega arith) ∙ b2 in
    let e3 : mem (a + 3) ≡ n % 256 = ap mem (omega arith) ∙ b3 in
    (omega (arith, b0, e1, e2, e3), At-move mem (a + 1 + 1 + 1 + 1) (a + 4) rest (omega arith) r)

-- Memory that holds `bs` from `a` on, and zeros elsewhere.
unfoldable pub load : ℕ → Bytes → Memory
load a [] p = 0
load a (b ∷ bs) p = if p == a then b else load (a + 1) bs p

unfoldable pub holds : Memory → ℕ → Bytes → Bool
holds mem a [] = true
holds mem a (b ∷ bs) = (mem a == b) && holds mem (a + 1) bs

pub holds→At : (mem : Memory) (a : ℕ) (bs : Bytes) → holds mem a bs ≡ true → At mem a bs
unfolding holds At
holds→At mem a [] h = tt
holds→At mem a (b ∷ bs) h = elim (Bool-cases (mem a == b)) [
  | inl e ↦ (==→eq (mem a) b e, holds→At mem (a + 1) bs (rw e at h))
  | inr e ↦ absurd (ground arith)
]
