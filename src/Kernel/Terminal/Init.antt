-- ===== src/Kernel/Terminal/Init.antt =====
-- `init` of src/kernel/terminal.rs: which of the registered devices the system terminal gets.
pub mod Choice
use kruspix.Base.{
  ℕ, Bool, true, false, not, ◌&&◌, ◌||◌, ◌≡◌, Option, none, some, List, [], ◌∷◌, ◌++◌,
  if◌then◌else◌, ◌==◌,
}
use kruspix.Kernel.Terminal.{TerminalError, Device, Terminal}

-- `find_input_by_id` and `find_output_by_id`
unfoldable pub find_by_id : List Device → ℕ → Option Device
find_by_id [] id = none
find_by_id (dev ∷ devs) id =
    let rest = find_by_id devs id in if dev.id == id then some dev else rest

-- `find_input_for_path` and `find_output_for_path`, after a path of the chosen node: the device tree gives
-- the id of its node, if there is a path and a node.
unfoldable pub find_for_path : List Device → Option ℕ → Option Device
find_for_path devs none = none
find_for_path devs (some node_id) = find_by_id devs node_id

unfoldable pub has_id : ℕ → List Device → Bool
has_id id [] = false
has_id id (dev ∷ devs) = (dev.id == id) || has_id id devs

-- `find_dedicated_input` and `find_dedicated_output`: the first device that none of `others` is.
unfoldable pub find_dedicated : List Device → List Device → Option Device
find_dedicated [] others = none
find_dedicated (dev ∷ devs) others =
    let rest = find_dedicated devs others in if not (has_id dev.id others) then some dev else rest

abbrev pub first : List Device → Option Device
first [] = none
first (dev ∷ devs) = some dev

-- `Option::or`
abbrev pub or : Option Device → Option Device → Option Device
or none b = b
or (some a) b = some a

-- `system_input.as_ref().and_then(|input_dev| find_output_by_id(input_dev.id()))`
abbrev pub matching : List Device → Option Device → Option Device
matching outputs none = none
matching outputs (some dev) = find_by_id outputs dev.id

abbrev pub is_some : Option Device → Bool
is_some none = false
is_some (some dev) = true

unfoldable pub system_input : List Device → List Device → Option ℕ → Option ℕ → Option Device
system_input outputs inputs stdout_node stdin_node =
    or (find_for_path inputs stdin_node)
      (or (find_dedicated inputs outputs) (or (find_for_path inputs stdout_node) (first inputs)))

unfoldable pub system_output : List Device → List Device → Option ℕ → Option ℕ → Option Device
system_output outputs inputs stdout_node stdin_node =
    let stdout_output = find_for_path outputs stdout_node in
    let stdin_output = find_for_path outputs stdin_node in
    let dedicated_output = find_dedicated outputs inputs in
    let of_input = matching outputs (system_input outputs inputs stdout_node stdin_node) in
    if is_some of_input
    then or stdout_output (or of_input (or stdin_output (or dedicated_output (first outputs))))
    else or dedicated_output (or stdout_output (or stdin_output (or of_input (first outputs))))

pub data InitResult : Type 0 where
  ok : Terminal → InitResult
  err : TerminalError → InitResult
  -- `system_output.unwrap()` of nothing
  panic : InitResult

abbrev pub new_terminal : List Device → Device → Terminal
new_terminal outputs output = record {
  output = output;
  line_buffer = [];
  echo = true;
  listeners = [];
  output_devices = outputs;
  written = [];
}

unfoldable pub make_terminal : List Device → Bool → Option Device → InitResult
make_terminal outputs already none = panic
make_terminal outputs already (some output) =
    if already then err TerminalError.already_initialized else ok (new_terminal outputs output)

-- `already`: the system terminal is set.
unfoldable pub init : List Device → List Device → Option ℕ → Option ℕ → Bool → InitResult
init [] inputs stdout_node stdin_node already = err TerminalError.no_output_device
init (o ∷ outputs) [] stdout_node stdin_node already = err TerminalError.no_input_device
init (o ∷ outputs) (i ∷ inputs) stdout_node stdin_node already =
    make_terminal (o ∷ outputs) already
      (system_output (o ∷ outputs) (i ∷ inputs) stdout_node stdin_node)
