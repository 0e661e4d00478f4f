-- ===== src/Kernel/Terminal.antt =====
-- src/kernel/terminal.rs: the line discipline of the system terminal, its listeners, and the choice of its
-- devices. A device has the number that stands for its `id` and one that tells it from the others; what is
-- written to it goes into a log, latest last.
pub mod Echo
pub mod Lines
pub mod Init
mod Tests
use kruspix.Base.{
  ℕ, Bool, true, false, not, ◌&&◌, ◌||◌, ◌≡◌, Option, none, some, List, [], ◌∷◌, ◌++◌,
  if◌then◌else◌, ltb, leb, ◌==◌,
}
use kruspix.Base.Text.{Bytes, bytes}

pub data TerminalError : Type 0 where
  no_input_device no_output_device already_initialized : TerminalError

pub record Device : Type 0 where
  pub id : ℕ
  pub handle : ℕ

-- `SystemTerminal` with its `TerminalState`, the registered output devices, and what was written.
pub record Terminal : Type 0 where
  pub output : Device
  pub line_buffer : Bytes
  pub echo : Bool
  pub listeners : List ℕ
  pub output_devices : List Device
  pub written : List (ℕ × Bytes)

abbrev pub device_write : Device → Bytes → List (ℕ × Bytes) → List (ℕ × Bytes)
device_write dev bs log = log ++ (dev.handle, bs) ∷ []

unfoldable pub write_to_secondary_outputs :
    ℕ → Bytes → List Device → List (ℕ × Bytes) → List (ℕ × Bytes)
write_to_secondary_outputs primary_id bs [] log = log
write_to_secondary_outputs primary_id bs (dev ∷ devs) log =
    write_to_secondary_outputs primary_id bs devs
      (if not (dev.id == primary_id) then device_write dev bs log else log)

-- `SystemTerminal::write`, and the two writes of the line discipline
unfoldable pub write : Bytes → Terminal → Terminal
write bs t = record t {
  written =
      write_to_secondary_outputs t.output.id bs t.output_devices
        (device_write t.output bs t.written);
}

-- `register_input` and `register_output`, each on its list
abbrev pub register_device : Device → List Device → List Device
register_device dev devs = devs ++ dev ∷ []

abbrev pub add_listener : ℕ → Terminal → Terminal
add_listener listener t = record t { listeners = t.listeners ++ listener ∷ [] }

abbrev pub is_newline : ℕ → Bool
is_newline byte = (byte == b'\n') || (byte == b'\r')

abbrev pub is_delete : ℕ → Bool
is_delete byte = (byte == 8) || (byte == 127)

-- `0x20..0x7f`
abbrev pub is_printable : ℕ → Bool
is_printable byte = leb 32 byte && ltb byte 127

abbrev pub crlf : Bytes
crlf = 13 ∷ 10 ∷ []

-- `b"\x08 \x08"`
abbrev pub rub_out : Bytes
rub_out = 8 ∷ 32 ∷ 8 ∷ []

-- `Vec::pop`
unfoldable pub pop : Bytes → Bytes
pop [] = []
pop (b ∷ []) = []
pop (b ∷ c ∷ bs) = b ∷ pop (c ∷ bs)

abbrev pub echo_write : Bytes → Terminal → Terminal
echo_write bs t = if t.echo then write bs t else t

unfoldable pub rubbed_out : Bytes → Terminal → Terminal
rubbed_out [] t = t
rubbed_out (b ∷ bs) t = echo_write rub_out (record t { line_buffer = pop (b ∷ bs) })

unfoldable pub line_discipline : ℕ → Terminal → Option Bytes × Terminal
line_discipline byte t =
    if is_newline byte
    then (some t.line_buffer, record (echo_write crlf t) { line_buffer = [] })
    else if is_delete byte
    then (none, rubbed_out t.line_buffer t)
    else if is_printable byte
    then (none, echo_write (byte ∷ []) (record t { line_buffer = t.line_buffer ++ byte ∷ [] }))
    else (none, t)

-- What a listener does with a line is a parameter.
module _ (on_line : ℕ → Bytes → Terminal → Terminal) where
  unfoldable pub deliver : List ℕ → Bytes → Terminal → Terminal
  deliver [] line t = t
  deliver (listener ∷ listeners) line t = deliver listeners line (on_line listener line t)

  unfoldable pub deliver_line : Option Bytes → Terminal → Terminal
  deliver_line none t = t
  deliver_line (some line) t = deliver t.listeners line t

  -- The bytes that one input device gave.
  unfoldable pub feed : Bytes → Terminal → Terminal
  feed [] t = t
  feed (byte ∷ raw_bytes) t =
      let (line, t') = line_discipline byte t in feed raw_bytes (deliver_line line t')

  -- `raw_bytes` is what the input devices give, one after the other.
  unfoldable pub poll : List Bytes → Terminal → Terminal
  poll [] t = t
  poll (raw_bytes ∷ inputs) t = poll inputs (feed raw_bytes t)
