-- ===== src/Kernel/Fdt/Header.antt =====
-- src/kernel/devicetree/fdt/fdt_header.rs, and the functions of `Fdt` that only read the header.
use kruspix.Base.{ℕ, ◌+◌, Bool, Option, none, some, if◌then◌else◌, ◌==◌}
use kruspix.Kernel.Fdt.Memory.{Memory, be32}

abbrev pub fdt_magic : ℕ
fdt_magic = 3490578157

abbrev pub is_valid : Memory → ℕ → Bool
is_valid mem header = be32 mem header == fdt_magic

abbrev pub total_size : Memory → ℕ → ℕ
total_size mem header = be32 mem (header + 4)

abbrev pub structure_block_offset : Memory → ℕ → ℕ
structure_block_offset mem header = be32 mem (header + 8)

abbrev pub strings_block_offset : Memory → ℕ → ℕ
strings_block_offset mem header = be32 mem (header + 12)

abbrev pub mem_rsv_map_offset : Memory → ℕ → ℕ
mem_rsv_map_offset mem header = be32 mem (header + 16)

abbrev pub version : Memory → ℕ → ℕ
version mem header = be32 mem (header + 20)

abbrev pub last_comp_version : Memory → ℕ → ℕ
last_comp_version mem header = be32 mem (header + 24)

abbrev pub boot_cpuid_phys : Memory → ℕ → ℕ
boot_cpuid_phys mem header = be32 mem (header + 28)

abbrev pub strings_block_size : Memory → ℕ → ℕ
strings_block_size mem header = be32 mem (header + 32)

abbrev pub structure_block_size : Memory → ℕ → ℕ
structure_block_size mem header = be32 mem (header + 36)

-- `Fdt::new`; a blob is its address.
abbrev pub new : Memory → ℕ → Option ℕ
new mem address = if is_valid mem address then some address else none
