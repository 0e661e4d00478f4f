-- ===== src/Kernel/Shell/Tests.antt =====
-- `echo hi  you`, where `xy` is typed by mistake and taken back.
use kruspix.Base.{ℕ, true, ◌≡◌, refl, List, [], ◌∷◌, ◌++◌}
use kruspix.Base.Text.{Bytes, bytes}
use kruspix.Kernel.Terminal.{Terminal, write, write_to_secondary_outputs}
use kruspix.Kernel.Terminal.Lines.{Key, right, mistake}
use kruspix.Kernel.Shell.Runs.{Runs}
use kruspix.Kernel.Shell.{
  ShellCommand, driver_command, exec_words, run_found, run_command, find_command, echo_args,
}
use kruspix.Kernel.Shell.Words.{Spaced, words}

abbrev rights : Bytes → List Key
rights [] = []
rights (b ∷ bs) = right b ∷ rights bs

abbrev keys : List Key
keys = rights (bytes "echo h") ++ mistake (bytes "xy") ∷ rights (bytes "i  you")

abbrev inputs : List Bytes
inputs = (bytes "echo hxy" ++ 127 ∷ []) ∷ (127 ∷ bytes "i  you") ∷ [] ∷ (13 ∷ []) ∷ []

abbrev items : List Spaced
items =
    (record { first = b'e'; word = bytes "cho"; space = 32; gap = [] })
    ∷ (record { first = b'h'; word = bytes "i"; space = 32; gap = bytes " " })
    ∷ []

abbrev terminal : Terminal
terminal = record {
  output = record { id = 1; handle = 10 };
  line_buffer = [];
  echo = true;
  listeners = 0 ∷ [];
  output_devices = (record { id = 1; handle = 10 }) ∷ [];
  written = [];
}

no_driver : ℕ → List Bytes → Terminal → Terminal
no_driver n args t = t

nothing : Terminal → Terminal
nothing t = t

abbrev registry : List ShellCommand
registry =
    (record { name = bytes "gpio"; description = bytes "pins"; handler = driver_command 3 }) ∷ []

echoes :
    (exec_words [] no_driver nothing nothing (words items (bytes "you")) terminal).written
    ≡ (10, bytes "hi") ∷ (10, bytes " ") ∷ (10, bytes "you") ∷ (10, bytes "\n") ∷ []
unfolding exec_words run_found run_command find_command echo_args words write
    write_to_secondary_outputs
echoes = refl
