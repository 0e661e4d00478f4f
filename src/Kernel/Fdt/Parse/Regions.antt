-- ===== src/Kernel/Fdt/Parse/Regions.antt =====
-- The regions of a `reg` property in the table.
use kruspix.Base.{ℕ, ◌≡◌, Bool, some, List, [], ◌∷◌, ◌++◌, true, false, ◌⊎◌, Option, none}
use kruspix.Base.Outcome.{Outcome, ok}
use kruspix.Base.Text.{Bytes, bytes}
use kruspix.Kernel.Fdt.Memory.{Memory}
use kruspix.Kernel.Fdt.RawProp.Cells.{AllFit, encode}
use kruspix.Kernel.Fdt.RawProp.{RawProp}
use kruspix.Kernel.Fdt.Block.{RawNode, props}
use kruspix.Kernel.Fdt.Nodes.{is_memory, strings_block_address}
use kruspix.Kernel.Fdt.Nodes.Named.{has_name}
use kruspix.Kernel.Fdt.Nodes.Find.{first_where}

module _ (valid_utf8 : Bytes → Bool) (fuel : ℕ) (mem : Memory) (fdt : ℕ) where
  -- The properties of the memory nodes among `ns`, in order.
  unfoldable pub AreMemoryProps : List RawNode → List RawProp → Type 0
  AreMemoryProps [] qs = qs ≡ []
  AreMemoryProps (n ∷ ns) qs =
      ((is_memory n ≡ true)
        × (ps : List RawProp) × (rest : List RawProp) × (props valid_utf8
              (strings_block_address mem fdt) fuel fuel mem n.props_ptr
            ≡ ok ps)
        × AreMemoryProps ns rest
        × (qs ≡ ps ++ rest))
      ⊎ ((is_memory n ≡ false) × AreMemoryProps ns qs)

  abbrev first_reg : List RawProp → Option RawProp
  first_reg qs = first_where (has_name (bytes "reg")) qs

-- The regions in the first property of the name `reg`, or none.
abbrev pub DecodesTo : ℕ → ℕ → List RawProp → List (ℕ × ℕ) → Type 0
DecodesTo size_1 size_2 qs regions =
    ((first_where (has_name (bytes "reg")) qs ≡ none) × (regions ≡ []))
    ⊎ ((name : Bytes) × (AllFit size_1 size_2 regions)
        × (first_where (has_name (bytes "reg")) qs
            ≡ some (record { name = name; value = encode size_1 size_2 regions })))
