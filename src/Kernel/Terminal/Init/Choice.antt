-- ===== src/Kernel/Terminal/Init/Choice.antt =====
-- The output of the system terminal is one of the registered devices.
use kruspix.Base.{
  ℕ, true, false, not, ◌≡◌, refl, sym, ap, ◌∙◌, Option, none, some, List, [], ◌∷◌, ◌==◌, inl, inr,
  Bool-cases, arith, ==→eq,
}
use mathlib.Core.List.{Mem, mem-cons_self, mem-cons_of_mem}
use mathlib.Core.Option.{some-injective}
use kruspix.Kernel.Terminal.{Device}
use kruspix.Kernel.Terminal.Init.{
  find_by_id, find_for_path, has_id, find_dedicated, first, or, matching, is_some, system_input,
  system_output, new_terminal, ok, make_terminal, init,
}

-- If there is a device, it is one of the list.
abbrev Within : List Device → Option Device → Type 0
Within devs none = Unit {0}
Within devs (some dev) = Mem dev devs

-- There is a device, and it is one of the list.
abbrev Chosen : List Device → Option Device → Type 0
Chosen devs choice = (dev : Device) × (choice ≡ some dev) × Mem dev devs

or-Chosen :
    (devs : List Device) (a b : Option Device)
    → Within devs a
    → Chosen devs b
    → Chosen devs (or a b)
or-Chosen devs none b w c = c
or-Chosen devs (some dev) b w c = (dev, refl, w)

Within-cons :
    (devs : List Device) (d : Device) (a : Option Device) → Within devs a → Within (d ∷ devs) a
Within-cons devs d none w = tt
Within-cons devs d (some dev) w = mem-cons_of_mem d w

find_by_id-Within : (devs : List Device) (id : ℕ) → Within devs (find_by_id devs id)
unfolding find_by_id
find_by_id-Within [] id = tt
find_by_id-Within (dev ∷ devs) id = elim (Bool-cases (dev.id == id)) [
  | inl e ↦ rw e mem-cons_self
  | inr e ↦ rw e (Within-cons devs dev (find_by_id devs id) (find_by_id-Within devs id))
]

find_for_path-Within :
    (devs : List Device) (node : Option ℕ) → Within devs (find_for_path devs node)
unfolding find_for_path
find_for_path-Within devs none = tt
find_for_path-Within devs (some id) = find_by_id-Within devs id

find_dedicated-Within : (devs others : List Device) → Within devs (find_dedicated devs others)
unfolding find_dedicated
find_dedicated-Within [] others = tt
find_dedicated-Within (dev ∷ devs) others = elim (Bool-cases (not (has_id dev.id others))) [
  | inl e ↦ rw e mem-cons_self
  | inr e ↦
      rw e (Within-cons devs dev (find_dedicated devs others) (find_dedicated-Within devs others))
]

matching-Within : (devs : List Device) (a : Option Device) → Within devs (matching devs a)
matching-Within devs none = tt
matching-Within devs (some dev) = find_by_id-Within devs dev.id

-- There is an output device whenever one is registered.
system_output-Chosen :
    (o : Device) (outputs inputs : List Device) (stdout_node stdin_node : Option ℕ)
    → Chosen (o ∷ outputs) (system_output (o ∷ outputs) inputs stdout_node stdin_node)
unfolding system_output
system_output-Chosen o outputs inputs stdout_node stdin_node =
    let devs = o ∷ outputs in
    let input = system_input devs inputs stdout_node stdin_node in
    let of_input = matching devs input in
    let out = find_for_path-Within devs stdout_node in
    let in_out = find_for_path-Within devs stdin_node in
    let alone = find_dedicated-Within devs inputs in
    let of = matching-Within devs input in
    let head : Chosen devs (first devs) = (o, refl, mem-cons_self) in
    elim (Bool-cases (is_some of_input)) [
      | inl e ↦ rw e (
          or-Chosen devs _ _ out
            (or-Chosen devs _ _ of (or-Chosen devs _ _ in_out (or-Chosen devs _ _ alone head))))
      | inr e ↦ rw e (
          or-Chosen devs _ _ alone
            (or-Chosen devs _ _ out (or-Chosen devs _ _ in_out (or-Chosen devs _ _ of head))))
    ]

find_by_id-has_id :
    (devs : List Device) (id : ℕ)
    → has_id id devs ≡ true
    → (dev : Device) × (find_by_id devs id ≡ some dev) × (dev.id ≡ id)
unfolding find_by_id has_id
find_by_id-has_id [] id h = absurd (cc h)
find_by_id-has_id (dev ∷ devs) id h = elim (Bool-cases (dev.id == id)) [
  | inl e ↦ (dev, rw e refl, ==→eq dev.id id e)
  | inr e ↦
      let (found, eq, same) = find_by_id-has_id devs id (ground arith) in (found, rw e eq, same)
]

-- With no device that is only an output, the device of the chosen standard output is taken.
system_output-stdout :
    (outputs inputs : List Device) (n : ℕ) (stdin_node : Option ℕ)
    → find_dedicated outputs inputs ≡ none
    → has_id n outputs ≡ true
    → (dev : Device) × (system_output outputs inputs (some n) stdin_node ≡ some dev) × (dev.id ≡ n)
unfolding system_output find_for_path
system_output-stdout outputs inputs n stdin_node alone h =
    let (dev, found, same) = find_by_id-has_id outputs n h in
    elim (Bool-cases
      (is_some (matching outputs (system_input outputs inputs (some n) stdin_node)))) [
        | inl e ↦ (dev, rw (e, found) refl, same)
        | inr e ↦ (dev, rw (e, alone, found) refl, same)
      ]

-- Where at least one output and one input device are registered and the terminal is not set, `init` makes it,
-- with one of the registered output devices; if none of these is an output only, and the node of the chosen
-- standard output is one of them, it is that one.
pub init-output :
    (o i : Device) (outputs inputs : List Device) (stdout_node stdin_node : Option ℕ)
    → (dev : Device) × (init (o ∷ outputs) (i ∷ inputs) stdout_node stdin_node false
        ≡ ok (new_terminal (o ∷ outputs) dev))
      × Mem dev (o ∷ outputs)
      × ((n : ℕ)
          → stdout_node ≡ some n
          → find_dedicated (o ∷ outputs) (i ∷ inputs) ≡ none
          → has_id n (o ∷ outputs) ≡ true
          → dev.id ≡ n)
unfolding init make_terminal
init-output o i outputs inputs stdout_node stdin_node =
    let (dev, chosen, member) =
      system_output-Chosen o outputs (i ∷ inputs) stdout_node stdin_node in
    (
      dev,
      rw chosen refl,
      member,
      λ n e alone h.
          let (dev', chosen', same) =
            system_output-stdout (o ∷ outputs) (i ∷ inputs) n stdin_node alone h in
          let eq : dev ≡ dev' = some-injective _ _ (
            sym chosen
            ∙ ap (λ s. system_output (o ∷ outputs) (i ∷ inputs) s stdin_node) e
            ∙ chosen') in
          ap (λ (d : Device). d.id) eq ∙ same,
    )
