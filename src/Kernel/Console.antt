-- ===== src/Kernel/Console.antt =====
-- src/kernel/console.rs: the early and the system consoles, and the buffer for what is printed before
-- there is one. A console is a number; what is written to it goes into a log, latest last.
pub mod Boot
mod Tests
use kruspix.Base.{
  ℕ, Bool, true, false, ◌≡◌, Option, none, some, List, [], ◌∷◌, ◌++◌, if◌then◌else◌, ltb,
}
use kruspix.Base.Text.{Bytes, bytes}
use kruspix.Common.RingArray.{RingArray, new, push, clear, iter, collect, len}

abbrev pub boot_console_size : ℕ
boot_console_size = 4096

pub record Consoles : Type 0 where
  pub boot_console : RingArray ℕ
  pub early_console : Option ℕ
  pub system_consoles : List ℕ
  pub written : List (ℕ × Bytes)

-- the statics at the start
unfoldable pub initial : Consoles
initial = record {
  boot_console = new boot_console_size 0;
  early_console = none;
  system_consoles = [];
  written = [];
}

-- `console.write_str(s)`
abbrev pub write_to : ℕ → Bytes → Consoles → Consoles
write_to console s c = record c { written = c.written ++ (console, s) ∷ [] }

-- `for console in consoles.iter() { console.write_str(s) }`
unfoldable pub write_to_each : List ℕ → Bytes → Consoles → Consoles
write_to_each [] s c = c
write_to_each (console ∷ consoles) s c = write_to_each consoles s (write_to console s c)

-- `for byte in s.bytes() { buf.push(byte) }`
unfoldable pub push_bytes : Bytes → RingArray ℕ → RingArray ℕ
push_bytes [] buf = buf
push_bytes (byte ∷ s) buf = push_bytes s (push boot_console_size buf byte)

unfoldable pub console_write_early : Option ℕ → Bytes → Consoles → Consoles
console_write_early (some console) s c = write_to console s c
console_write_early none s c = record c { boot_console = push_bytes s c.boot_console }

unfoldable pub console_write : List ℕ → Bytes → Consoles → Consoles
console_write [] s c = console_write_early c.early_console s c
console_write (console ∷ consoles) s c = write_to_each (console ∷ consoles) s c

unfoldable pub console_write_str : Bytes → Consoles → Consoles
console_write_str s c = console_write c.system_consoles s c

-- `from_utf8` of one byte succeeds for ASCII only.
unfoldable pub flush : ℕ → Bytes → Consoles → Consoles
flush console [] c = c
flush console (byte ∷ buf) c =
    flush console buf (if ltb byte 128 then write_to console (byte ∷ []) c else c)

unfoldable pub register_early : Option ℕ → ℕ → Consoles → Consoles
register_early (some old) console c = record c { early_console = some console }
register_early none console c =
    let buf = collect boot_console_size boot_console_size (iter boot_console_size c.boot_console) in
    let flushed = flush console buf c in
    record flushed {
      boot_console = clear boot_console_size flushed.boot_console;
      early_console = some console;
    }

unfoldable pub register_early_console : ℕ → Consoles → Consoles
register_early_console console c = register_early c.early_console console c

-- `kprintln!` of a text without arguments is one write.
abbrev pub kprintln : Bytes → Consoles → Consoles
kprintln message = console_write_str (bytes "[kruspix] " ++ (message ++ bytes "\n"))

unfoldable pub replace_early : Option ℕ → Consoles → Consoles
replace_early none c = c
replace_early (some early) c = kprintln (bytes "[INFO] Early console replaced by system console") (
    write_to early (bytes "[kruspix] [INFO] Replacing early console with system console\n")
      (record c { early_console = none }))

unfoldable pub register_console : ℕ → Consoles → Consoles
register_console console c =
    let c' = kprintln (bytes "[INFO] Registering a new system console") c in
    replace_early c'.early_console
      (record c' { system_consoles = c'.system_consoles ++ console ∷ [] })
