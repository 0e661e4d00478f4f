-- ===== src/Kernel/Fdt/Reserve.antt =====
-- src/kernel/devicetree/fdt/fdt_reserve_entry.rs: the memory reservation block.
mod Tests
use kruspix.Base.{
  ℕ, zero, suc, ◌+◌, ◌*◌, ◌/◌, ◌%◌, ◌^◌, ◌<◌, ◌≡◌, refl, sym, ap, ◌∙◌, Bool, true, false, not, ◌&&◌,
  ◌||◌, Option, none, some, List, [], ◌∷◌, ◌++◌, if◌then◌else◌, ◌==◌, arith, append_assoc, length,
  inl, inr, Bool-cases,
}
use kruspix.Base.Outcome.{Outcome, ok, out_of_fuel, ◌>>=◌}
use kruspix.Base.Text.{Bytes}
use kruspix.Kernel.Fdt.Memory.{Memory, be32, be64, At, At-move, word, At-word}

abbrev pub address : Memory → ℕ → ℕ
address mem entry = be64 mem entry

abbrev pub size : Memory → ℕ → ℕ
size mem entry = be64 mem (entry + 8)

-- The next entry, and the pointer behind it.
unfoldable pub next : Memory → ℕ → Option ((ℕ × ℕ) × ℕ)
next mem current =
    if (address mem current == 0) && (size mem current == 0)
    then none
    else some ((address mem current, size mem current), current + 16)

-- `for entry in fdt.memory_reservation_block_iter()`, with fuel for the rounds
abbrev pub for_each : (ℕ → Outcome (List (ℕ × ℕ))) → Option ((ℕ × ℕ) × ℕ) → Outcome (List (ℕ × ℕ))
for_each rest none = ok []
for_each rest (some (entry, current)) = rest current >>= λ es. ok (entry ∷ es)

unfoldable pub entries : ℕ → Memory → ℕ → Outcome (List (ℕ × ℕ))
entries zero mem current = out_of_fuel
entries (suc fuel) mem current = for_each (entries fuel mem) (next mem current)

abbrev pub double_word : ℕ → Bytes
double_word n = word (n / 2 ^ 32) ++ word (n % 2 ^ 32)

-- the block: the entries, and one of zeros
unfoldable pub encode : List (ℕ × ℕ) → Bytes
encode [] = double_word 0 ++ double_word 0
encode ((base, bytes) ∷ es) = double_word base ++ (double_word bytes ++ encode es)

-- an entry of two numbers of 64 bits that are not both 0
unfoldable pub AreEntries : List (ℕ × ℕ) → Type 0
AreEntries [] = Unit {0}
AreEntries ((base, bytes) ∷ es) =
    (base < 2 ^ 64) × (bytes < 2 ^ 64) × (((base == 0) && (bytes == 0)) ≡ false) × AreEntries es

At-double_word :
    (mem : Memory) (a n : ℕ) (rest : Bytes)
    → n < 2 ^ 64
    → At mem a (double_word n ++ rest)
    → (be64 mem a ≡ n) × At mem (a + 8) rest
At-double_word mem a n rest h at =
    let (high, at') = At-word mem a (n / 2 ^ 32) (word (n % 2 ^ 32) ++ rest) (omega arith) at in
    let (low, at'') = At-word mem (a + 4) (n % 2 ^ 32) rest (omega arith) at' in
    (omega (arith, high, low), At-move mem (a + 4 + 4) (a + 8) rest (omega arith) at'')

next-none : (mem : Memory) (a : ℕ) → address mem a ≡ 0 → size mem a ≡ 0 → next mem a ≡ none
unfolding next
next-none mem a p q = rw (p, q) refl

next-some :
    (mem : Memory) (a base bytes : ℕ)
    → address mem a ≡ base
    → size mem a ≡ bytes
    → ((base == 0) && (bytes == 0)) ≡ false
    → next mem a ≡ some ((base, bytes), a + 16)
unfolding next
next-some mem a base bytes p q ne = rw (p, q, ne) refl

-- The iterator gives the entries of the block that lies at the pointer, in order, with fuel for one round
-- more than there are entries.
pub entries-encode :
    (mem : Memory) (current : ℕ) (es : List (ℕ × ℕ))
    → AreEntries es
    → At mem current (encode es)
    → entries (suc (length es)) mem current ≡ ok es
unfolding entries encode AreEntries
entries-encode mem current [] h at =
    let (a, at') = At-double_word mem current 0 (double_word 0) (omega arith) at in
    let (s, at'') = At-double_word mem (current + 8) 0 [] (omega arith) at' in
    rw (next-none mem current a s) refl
entries-encode mem current ((base, bytes) ∷ es) (ha, hs, ne, hes) at =
    let (a, at') = At-double_word mem current base (double_word bytes ++ encode es) ha at in
    let (s, at'') = At-double_word mem (current + 8) bytes (encode es) hs at' in
    let ih =
      entries-encode mem (current + 16) es hes
        (At-move mem (current + 8 + 8) (current + 16) (encode es) (omega arith) at'') in
    rw (next-some mem current base bytes a s ne, ih) refl
