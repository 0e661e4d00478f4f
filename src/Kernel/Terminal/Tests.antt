-- ===== src/Kernel/Terminal/Tests.antt =====
-- A serial line that is both input and output, and a screen that is an output.
use kruspix.Base.{ℕ, true, false, ◌≡◌, refl, none, some, [], ◌∷◌, if◌then◌else◌}
use mathlib.Core.List.{Mem}
use kruspix.Base.Text.{bytes}
use kruspix.Kernel.Terminal.{Device, Terminal, is_newline, line_discipline, write, pop, rubbed_out}
use kruspix.Kernel.Terminal.Echo.{
  Row, Shows, screen, display_all, one_primary, is_blank, tail, line_discipline-Shows,
}
use kruspix.Kernel.Terminal.Init.{init, ok, new_terminal, find_dedicated, has_id}
use kruspix.Kernel.Terminal.Init.Choice.{init-output}

abbrev serial : Device
serial = record { id = 1; handle = 10 }

abbrev screen_device : Device
screen_device = record { id = 2; handle = 20 }

abbrev terminal : Terminal
terminal = record {
  output = serial;
  line_buffer = bytes "hel";
  echo = true;
  listeners = [];
  output_devices = serial ∷ screen_device ∷ [];
  written = (10, bytes "> hel") ∷ (20, bytes "> hel") ∷ [];
}

abbrev empty : Row
empty = record { left = []; right = [] }

terminal-Shows : Shows (bytes "> ") empty terminal
unfolding screen display_all one_primary is_blank tail
terminal-Shows = record { echoes = refl; primary = refl; shown = refl; blank = refl }

line_discipline-Shows_example :
    Shows (if is_newline 127 then [] else bytes "> ") empty (line_discipline 127 terminal).1
line_discipline-Shows_example = line_discipline-Shows 127 (bytes "> ") empty terminal terminal-Shows

erased : (line_discipline 127 terminal).1.line_buffer ≡ bytes "he"
unfolding line_discipline rubbed_out pop write
erased = refl

init-output_example :
    (dev : Device) × (init (serial ∷ screen_device ∷ []) (serial ∷ []) (some 1) none false
      ≡ ok (new_terminal (serial ∷ screen_device ∷ []) dev))
    × Mem dev (serial ∷ screen_device ∷ [])
    × ((n : ℕ)
        → some 1 ≡ some n
        → find_dedicated (serial ∷ screen_device ∷ []) (serial ∷ []) ≡ none
        → has_id n (serial ∷ screen_device ∷ []) ≡ true
        → dev.id ≡ n)
init-output_example = init-output serial serial (screen_device ∷ []) [] (some 1) none
