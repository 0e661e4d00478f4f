-- ===== src/Kernel/Fdt/Nodes/Find.antt =====
-- A later among the nodes or the properties, and the first match in all of them.
use kruspix.Base.{
  ℕ, zero, suc, ◌≡◌, ◌≢◌, ◌⊎◌, ◌<◌, ◌^◌, length, ap, sym, ◌∙◌, refl, Bool, inl, inr, Bool-cases,
  Option, none, some, List, [], ◌∷◌, if◌then◌else◌, subst,
}
use kruspix.Base.Outcome.{Outcome, ok, panic, ◌>>=◌, >>=-eq-ok, ok-injective}
use kruspix.Base.Text.{Bytes, bytes}
use kruspix.Kernel.Fdt.Memory.{Memory, word}
use kruspix.Kernel.Fdt.RawProp.{RawProp}
use kruspix.Kernel.Fdt.Block.{
  RawNode, NodeIter, Round, goes_on, found, ends, round, continue, nodes, next_prop, more_props,
  props,
}
use kruspix.Kernel.Fdt.Nodes.{
  address_cells, size_cells, is_standard, stop_at_node, find_node, stop_at_prop, find_prop,
  parse_standard_prop, parse_address_and_size_cells, strings_block_address, cell_or,
}
use kruspix.Kernel.Fdt.Nodes.Named.{
  has_name, is_address_cells, is_size_cells, value_as_u32-word, value_as_u32-none,
}

-- The first of a list that passes the test.
unfoldable pub first_where {ℓ} : {A : Type ℓ} → (A → Bool) → List A → Option A
first_where test [] = none
first_where test (x ∷ xs) = let rest = first_where test xs in if test x then some x else rest

-- What a cell count is, by the first property of its name.
abbrev pub Cell : Bytes → ℕ → List RawProp → Outcome ℕ → Type 0
Cell name default ps count =
    ((first_where (has_name name) ps ≡ none) × (count ≡ ok default))
    ⊎ ((p : RawProp) × (first_where (has_name name) ps ≡ some p)
        × (((n : ℕ) × (n < 2 ^ 32) × (p.value ≡ word n) × (count ≡ ok n))
            ⊎ ((length p.value ≢ 4) × (count ≡ panic))))

abbrev unwrapped : Option ℕ → Outcome ℕ
unwrapped count = elim count [ none ↦ panic | some n ↦ ok n ]

cell_or-Cell :
    (name : Bytes) (default : ℕ) (ps : List RawProp) (count : Outcome ℕ)
    → Cell name default ps count
    → cell_or default (first_where (has_name name) ps) ≡ count
unfolding cell_or
cell_or-Cell name default ps count (inl (e, c)) = rw (e, c) refl
cell_or-Cell name default ps count (inr (p, e, inl (n, lt, v, c))) =
    ap (cell_or default) e ∙ ap unwrapped (value_as_u32-word p n lt v) ∙ sym c
cell_or-Cell name default ps count (inr (p, e, inr (ne, c))) =
    ap (cell_or default) e ∙ ap unwrapped (value_as_u32-none p ne) ∙ sym c

-- One step of a later, before the rest.
first_or_rest {ℓ} :
    {A : Type ℓ} (test : A → Bool) (x : A) (xs : List A) (more : Outcome (Option A))
    → more ≡ ok (first_where test xs)
    → (if test x then ok (some x) else more) ≡ ok (first_where test (x ∷ xs))
unfolding first_where
first_or_rest test x xs more h = elim (Bool-cases (test x)) [ inl b ↦ rw b refl | inr b ↦ rw b h ]

module _ (valid_utf8 : Bytes → Bool) where
  step_node :
      (test : RawNode → Bool) (r : Round) (ns : List RawNode)
      (all : NodeIter → Outcome (List RawNode)) (later : NodeIter → Outcome (Option RawNode))
      → ((it : NodeIter) (ms : List RawNode) → all it ≡ ok ms → later it ≡ ok (first_where test ms))
      → continue all r ≡ ok ns
      → stop_at_node test later r ≡ ok (first_where test ns)
  unfolding continue stop_at_node
  step_node test (goes_on it) ns all later ih h = ih it ns h
  step_node test (found n it) ns all later ih h =
      let (ms, e, h') = >>=-eq-ok (all it) (λ ks. ok (n ∷ ks)) h in
      subst (λ ks. (if test n then ok (some n) else later it) ≡ ok (first_where test ks))
        (ok-injective h') (first_or_rest test n ms (later it) (ih it ms e))
  step_node test ends ns all later ih h =
      subst (λ ks. ok none ≡ ok (first_where test ks)) (ok-injective h) (unfold first_where in refl)

  pub find_node-nodes :
      (test : RawNode → Bool) (rounds fuel : ℕ) (mem : Memory) (it : NodeIter) (ns : List RawNode)
      → nodes valid_utf8 rounds fuel mem it ≡ ok ns
      → find_node valid_utf8 test rounds fuel mem it ≡ ok (first_where test ns)
  unfolding nodes find_node
  find_node-nodes test zero fuel mem it ns h = cc
  find_node-nodes test (suc rounds) fuel mem it ns h =
      let (r, e, h') =
        >>=-eq-ok (round valid_utf8 fuel mem it) (continue (nodes valid_utf8 rounds fuel mem)) h in
      rw e (
        step_node test r ns (nodes valid_utf8 rounds fuel mem)
          (find_node valid_utf8 test rounds fuel mem)
          (λ it' ms. find_node-nodes test rounds fuel mem it' ms) h')

  step_prop :
      (test : RawProp → Bool) (r : Option (RawProp × ℕ)) (ps : List RawProp)
      (all : ℕ → Outcome (List RawProp)) (later : ℕ → Outcome (Option RawProp))
      → ((p : ℕ) (qs : List RawProp) → all p ≡ ok qs → later p ≡ ok (first_where test qs))
      → more_props all r ≡ ok ps
      → stop_at_prop test later r ≡ ok (first_where test ps)
  unfolding more_props stop_at_prop
  step_prop test (some (x, p)) ps all later ih h =
      let (qs, e, h') = >>=-eq-ok (all p) (λ ks. ok (x ∷ ks)) h in
      subst (λ ks. (if test x then ok (some x) else later p) ≡ ok (first_where test ks))
        (ok-injective h') (first_or_rest test x qs (later p) (ih p qs e))
  step_prop test none ps all later ih h =
      subst (λ ks. ok none ≡ ok (first_where test ks)) (ok-injective h) (unfold first_where in refl)

  pub find_prop-props :
      (test : RawProp → Bool) (rounds strings fuel : ℕ) (mem : Memory) (p : ℕ) (ps : List RawProp)
      → props valid_utf8 strings rounds fuel mem p ≡ ok ps
      → find_prop valid_utf8 test rounds strings fuel mem p ≡ ok (first_where test ps)
  unfolding props find_prop
  find_prop-props test zero strings fuel mem p ps h = cc
  find_prop-props test (suc rounds) strings fuel mem p ps h =
      let (r, e, h') =
        >>=-eq-ok (next_prop valid_utf8 strings fuel mem p)
          (more_props (props valid_utf8 strings rounds fuel mem)) h in
      rw e (
        step_prop test r ps (props valid_utf8 strings rounds fuel mem)
          (find_prop valid_utf8 test rounds strings fuel mem)
          (λ q qs. find_prop-props test rounds strings fuel mem q qs) h')

  first_where-same :
      (test test' : RawProp → Bool) (ps : List RawProp)
      → ((p : RawProp) → test p ≡ test' p)
      → first_where test ps ≡ first_where test' ps
  unfolding first_where
  first_where-same test test' [] h = refl
  first_where-same test test' (p ∷ ps) h = rw (h p, first_where-same test test' ps h) refl

  -- the first property of a name, in the words of the code
  pub find_prop-named :
      (test : RawProp → Bool) (name : Bytes) (rounds strings fuel : ℕ) (mem : Memory) (p : ℕ)
      (ps : List RawProp)
      → ((q : RawProp) → test q ≡ has_name name q)
      → props valid_utf8 strings rounds fuel mem p ≡ ok ps
      → find_prop valid_utf8 test rounds strings fuel mem p ≡ ok (first_where (has_name name) ps)
  find_prop-named test name rounds strings fuel mem p ps same h =
      find_prop-props test rounds strings fuel mem p ps h
      ∙ ap ok (first_where-same test (has_name name) ps same)

  -- Where the iterator gives the properties `ps` of a node: of the names #address-cells and #size-cells, the first
  -- property in `ps` gives the number of 32 bits that its value encodes, big end first, a value of another
  -- length than 4 is a panic, and where there is none of the name the number is 2 and 1; parse_address_and_size_cells
  -- returns the two numbers, or panics with the first that does.
  pub parse_address_and_size_cells-props :
      (fuel : ℕ) (mem : Memory) (fdt : ℕ) (node : RawNode) (ps : List RawProp)
      (address size : Outcome ℕ)
      → props valid_utf8 (strings_block_address mem fdt) fuel fuel mem node.props_ptr ≡ ok ps
      → Cell (bytes "#address-cells") 2 ps address
      → Cell (bytes "#size-cells") 1 ps size
      → parse_address_and_size_cells valid_utf8 fuel mem fdt node
        ≡ (address >>= λ a. size >>= λ s. ok (a, s))
  unfolding parse_address_and_size_cells parse_standard_prop
  parse_address_and_size_cells-props fuel mem fdt node ps address size h ca cs =
      let strings = strings_block_address mem fdt in
      rw
        (
          find_prop-named (is_standard address_cells) (bytes "#address-cells") fuel strings fuel mem
              node.props_ptr ps is_address_cells h,
          find_prop-named (is_standard size_cells) (bytes "#size-cells") fuel strings fuel mem
              node.props_ptr ps is_size_cells h,
          cell_or-Cell (bytes "#address-cells") 2 ps address ca,
          cell_or-Cell (bytes "#size-cells") 1 ps size cs,
        )
        refl
