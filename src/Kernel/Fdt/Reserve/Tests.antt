-- ===== src/Kernel/Fdt/Reserve/Tests.antt =====
-- A block with two entries: a secure region and a framebuffer above four gigabytes.
use kruspix.Base.{ℕ, ◌≡◌, refl, true, arith, List, [], ◌∷◌}
use kruspix.Base.Outcome.{ok}
use kruspix.Kernel.Fdt.Memory.{Memory, load, holds, holds→At}
use kruspix.Kernel.Fdt.Reserve.{entries, encode, AreEntries, entries-encode}

abbrev two : List (ℕ × ℕ)
two = (4096, 65536) ∷ (4294967296, 8388608) ∷ []

abbrev mem : Memory
unfolding load encode
mem = load 40 (encode two)

two-AreEntries : AreEntries two
unfolding AreEntries
two-AreEntries = (omega arith, omega arith, refl, (omega arith, omega arith, refl, tt))

mem-holds : holds mem 40 (encode two) ≡ true
unfolding holds load encode
mem-holds = refl

entries-encode_example : entries 3 mem 40 ≡ ok two
entries-encode_example =
    entries-encode mem 40 two two-AreEntries (holds→At mem 40 (encode two) mem-holds)
