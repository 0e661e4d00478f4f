-- ===== src/Kernel/Fdt/Block.antt =====
-- src/kernel/devicetree/fdt/fdt_structure_block.rs, the iterators of raw_node.rs and raw_prop.rs: the walk
-- over the structure block. Each read of memory that ends at a mark has fuel for the steps to it.
pub mod Pieces
pub mod Names
pub mod Tokens
pub mod Entries
pub mod Walk
pub mod Forest
pub mod Family
pub mod Props
pub mod NodeProps
mod Tests
use kruspix.Base.{
  ℕ, zero, suc, ◌+◌, ◌-◌, ◌*◌, ◌%◌, ◌≡◌, Bool, true, false, not, ◌&&◌, ◌||◌, Option, none, some,
  List, [], ◌∷◌, if◌then◌else◌, ltb, leb, ◌==◌,
}
use kruspix.Base.Outcome.{Outcome, ok, panic, out_of_fuel, ◌>>=◌, ◌>>◌, assert}
use kruspix.Base.Text.{Bytes}
use kruspix.Kernel.Fdt.Memory.{Memory, be32, le32, cstr, align4}
use kruspix.Kernel.Fdt.RawProp.{RawProp}

abbrev pub fdt_begin_node : ℕ
fdt_begin_node = 1

abbrev pub fdt_end_node : ℕ
fdt_end_node = 2

abbrev pub fdt_prop : ℕ
fdt_prop = 3

abbrev pub fdt_nop : ℕ
fdt_nop = 4

abbrev pub fdt_end : ℕ
fdt_end = 9

pub record RawNode : Type 0 where
  pub name : Bytes
  pub props_ptr : ℕ
  pub children_ptr : ℕ

pub data Entry : Type 0 where
  begin_node : RawNode → Entry
  end_node : Entry
  prop_entry : RawProp → Entry

-- What `next` returns: nothing, an error, or an entry.
pub data Item : Type 0 where
  nothing error : Item
  entry : Entry → Item

pub record BlockIter : Type 0 where
  pub strings_block_addr : ℕ
  pub token_be_ptr : ℕ
  pub prev_token : ℕ
  pub skip_props : Bool

-- the token, and the pointer to it
unfoldable pub next_non_nop_token : ℕ → Memory → ℕ → Outcome (ℕ × ℕ)
next_non_nop_token zero mem p = out_of_fuel
next_non_nop_token (suc fuel) mem p =
    let rest = next_non_nop_token fuel mem (p + 4) in
    if be32 mem p == fdt_nop then rest else ok (be32 mem p, p)

-- the pointer behind the property whose token is at `p`
abbrev pub behind_prop : Memory → ℕ → ℕ
behind_prop mem p = p + 4 + 8 + align4 (be32 mem (p + 4))

abbrev pub skip_prop : (ℕ → Outcome (ℕ × ℕ)) → Memory → ℕ × ℕ → Outcome (ℕ × ℕ)
skip_prop rest mem (token, p) =
    let more = assert (behind_prop mem p % 4 == 0) >> rest (behind_prop mem p) in
    if not (token == fdt_prop) then ok (token, p) else more

unfoldable pub next_non_nop_token_without_props : ℕ → Memory → ℕ → Outcome (ℕ × ℕ)
next_non_nop_token_without_props zero mem p = out_of_fuel
next_non_nop_token_without_props (suc fuel) mem p =
    next_non_nop_token (suc fuel) mem p
    >>= skip_prop (next_non_nop_token_without_props fuel mem) mem

-- The loop over the words of a node's name: how many there are. `rounds` counts down from 13; after 13
-- words without the end of the name the source gives up.
unfoldable pub name_parts : ℕ → ℕ → Memory → ℕ → Option ℕ
name_parts zero count mem p = none
name_parts (suc rounds) count mem p =
    let rest = name_parts rounds (count + 1) mem p in
    if leb (le32 mem (p + 4 * count)) 16777215 then some count else rest

-- `slice::from_raw_parts`
unfoldable pub slice : Memory → ℕ → ℕ → Bytes
slice mem a zero = []
slice mem a (suc len) = mem a ∷ slice mem (a + 1) len

-- What `to_str` accepts is a parameter.
module _ (valid_utf8 : Bytes → Bool) where
  unfoldable pub after_name : ℕ → Memory → BlockIter → Bytes → ℕ → Outcome (Item × BlockIter)
  after_name fuel mem it name count = do
    (token, p) ← next_non_nop_token fuel mem (it.token_be_ptr + 4 * (1 + count))
    (next_without_props, ptr) ← next_non_nop_token_without_props fuel mem p
    ok (
      entry (
          begin_node (record {
            name = name;
            props_ptr = if token == fdt_prop then p else 0;
            children_ptr = if next_without_props == fdt_begin_node then ptr else 0;
          })),
      record it { token_be_ptr = p; prev_token = fdt_begin_node },
    )

  unfoldable pub counted : ℕ → Memory → BlockIter → Bytes → Option ℕ → Outcome (Item × BlockIter)
  counted fuel mem it name none =
      ok (error, record it { token_be_ptr = 0; prev_token = fdt_begin_node })
  counted fuel mem it name (some count) = after_name fuel mem it name count

  unfoldable pub at_begin_node : ℕ → Memory → BlockIter → Outcome (Item × BlockIter)
  at_begin_node fuel mem it = cstr fuel mem (it.token_be_ptr + 4) >>= λ name.
      if valid_utf8 name
      then counted fuel mem it name (name_parts 13 1 mem it.token_be_ptr)
      else ok (nothing, it)

  unfoldable pub at_prop : ℕ → Memory → BlockIter → Outcome (Item × BlockIter)
  at_prop fuel mem it =
      if it.prev_token == fdt_end_node
      then ok (error, record it { token_be_ptr = 0; prev_token = fdt_prop })
      else (let p = it.token_be_ptr in
          assert (behind_prop mem p % 4 == 0)
          >> (cstr fuel mem (it.strings_block_addr + be32 mem (p + 8)) >>= λ name.
              assert (valid_utf8 name)
              >> ok (
                entry (
                    prop_entry
                      (record { name = name; value = slice mem (p + 12) (be32 mem (p + 4)) })),
                record it { token_be_ptr = behind_prop mem p; prev_token = fdt_prop },
              )))

  unfoldable pub at_end : BlockIter → Item × BlockIter
  at_end it =
      let it' = record it { token_be_ptr = 0; prev_token = fdt_end } in
      if (it.prev_token == fdt_begin_node) || (it.prev_token == fdt_prop)
      then (error, it')
      else (nothing, it')

  unfoldable pub match_token : ℕ → Memory → BlockIter → ℕ × ℕ → Outcome (Item × BlockIter)
  match_token fuel mem it (token, p) =
      let it' = record it { token_be_ptr = p } in
      if token == fdt_begin_node
      then at_begin_node fuel mem it'
      else if token == fdt_end_node
      then ok (entry end_node, record it' { token_be_ptr = p + 4; prev_token = fdt_end_node })
      else if token == fdt_prop
      then at_prop fuel mem it'
      else if token == fdt_end
      then ok (at_end it')
      else ok (error, record it' { token_be_ptr = 0; prev_token = token })

  -- `StructureBlockIter::next`
  unfoldable pub next : ℕ → Memory → BlockIter → Outcome (Item × BlockIter)
  next fuel mem it =
      if (it.prev_token == fdt_end) || (it.token_be_ptr == 0)
      then ok (nothing, it)
      else ((if it.skip_props
            then next_non_nop_token_without_props fuel mem it.token_be_ptr
            else next_non_nop_token fuel mem it.token_be_ptr)
          >>= match_token fuel mem it)

-- `current_depth` is one more than in the source, where it ends at −1.
pub record NodeIter : Type 0 where
  pub structure_block_iter : BlockIter
  pub current_depth : ℕ
  pub max_depth : ℕ

abbrev pub new_node_iter : ℕ → ℕ → ℕ → NodeIter
new_node_iter token_be_ptr strings_block_address max_depth = record {
  structure_block_iter = record {
    strings_block_addr = strings_block_address;
    token_be_ptr = token_be_ptr;
    prev_token = 0;
    skip_props = true;
  };
  current_depth = 1;
  max_depth = max_depth;
}

-- One round of the loop of `NodeIter::next`: it goes on, finds a node, or ends.
pub data Round : Type 0 where
  goes_on : NodeIter → Round
  found : RawNode → NodeIter → Round
  ends : Round

unfoldable pub match_item : NodeIter → Item × BlockIter → Outcome Round
match_item it (nothing, block) = ok ends
match_item it (error, block) = ok ends
match_item it (entry (begin_node node), block) =
    let it' = record it { structure_block_iter = block; current_depth = it.current_depth + 1 } in
    ok (if ltb (it.max_depth + 1) it'.current_depth then goes_on it' else found node it')
match_item it (entry end_node, block) =
    ok (goes_on (record it { structure_block_iter = block; current_depth = it.current_depth - 1 }))
match_item it (entry (prop_entry prop), block) = panic

unfoldable pub continue : (NodeIter → Outcome (List RawNode)) → Round → Outcome (List RawNode)
continue rest (goes_on it) = rest it
continue rest (found node it) = rest it >>= λ ns. ok (node ∷ ns)
continue rest ends = ok []

module _ (valid_utf8 : Bytes → Bool) where
  unfoldable pub round : ℕ → Memory → NodeIter → Outcome Round
  round fuel mem it =
      if it.current_depth == 0
      then ok ends
      else next valid_utf8 fuel mem it.structure_block_iter >>= match_item it

  -- The nodes that the iterator gives, one call of `next` after the other: the rounds of all calls.
  unfoldable pub nodes : ℕ → ℕ → Memory → NodeIter → Outcome (List RawNode)
  nodes zero fuel mem it = out_of_fuel
  nodes (suc rounds) fuel mem it = round fuel mem it >>= continue (nodes rounds fuel mem)

-- `PropIter`: `next_prop_token`, with fuel for the tokens
unfoldable pub next_prop_token : ℕ → Memory → ℕ → Outcome ℕ
next_prop_token zero mem p = out_of_fuel
next_prop_token (suc fuel) mem p =
    let rest = next_prop_token fuel mem (p + 4) in
    if be32 mem p == fdt_prop then ok p else if be32 mem p == fdt_nop then rest else ok 0

-- `for prop in fdt.prop_iter(node)`, with fuel for the rounds
unfoldable pub more_props :
    (ℕ → Outcome (List RawProp)) → Option (RawProp × ℕ) → Outcome (List RawProp)
more_props rest none = ok []
more_props rest (some (prop, p)) = rest p >>= λ ps. ok (prop ∷ ps)

module _ (valid_utf8 : Bytes → Bool) (strings_block_addr : ℕ) where
  unfoldable pub read_prop : ℕ → Memory → ℕ → Outcome (Option (RawProp × ℕ))
  read_prop fuel mem p =
      if p == 0
      then ok none
      else (assert (behind_prop mem p % 4 == 0)
          >> (cstr fuel mem (strings_block_addr + be32 mem (p + 8)) >>= λ name.
              assert (valid_utf8 name)
              >> ok (
                  some (
                    record { name = name; value = slice mem (p + 12) (be32 mem (p + 4)) },
                    behind_prop mem p,
                  ))))

  -- `PropIter::next`
  unfoldable pub next_prop : ℕ → Memory → ℕ → Outcome (Option (RawProp × ℕ))
  next_prop fuel mem p = next_prop_token fuel mem p >>= read_prop fuel mem

  unfoldable pub props : ℕ → ℕ → Memory → ℕ → Outcome (List RawProp)
  props zero fuel mem p = out_of_fuel
  props (suc rounds) fuel mem p = next_prop fuel mem p >>= more_props (props rounds fuel mem)
