-- ===== src/Kernel/Console/Tests.antt =====
-- Three texts, one of them with a byte that is not ASCII, before there is a console.
use kruspix.Base.{◌≡◌, refl, some, List, [], ◌∷◌}
use kruspix.Base.Text.{Bytes, bytes}
use kruspix.Common.RingArray.Contents.{contents, last}
use kruspix.Kernel.Console.{
  boot_console_size, initial, register_early_console, console_write_str, console_write,
  console_write_early, register_console, replace_early, write_to_each,
}
use kruspix.Kernel.Console.Boot.{print_all, concat, single_bytes, register_early_console-print_all}

abbrev texts : List Bytes
texts = bytes "Hi" ∷ (200 ∷ []) ∷ bytes "!" ∷ []

what_is_written :
    single_bytes 7 (last boot_console_size (concat texts))
    ≡ (7, 72 ∷ []) ∷ (7, 105 ∷ []) ∷ (7, 33 ∷ []) ∷ []
unfolding single_bytes concat
what_is_written = refl

register_early_console-print_all_example :
    let c = register_early_console 7 (print_all texts initial) in
    (c.written ≡ single_bytes 7 (last boot_console_size (concat texts)))
    × (contents c.boot_console ≡ [])
    × (c.early_console ≡ some 7)
register_early_console-print_all_example = register_early_console-print_all texts 7

system_console :
    (register_console 9 (record initial { early_console = some 7 })).system_consoles ≡ 9 ∷ []
unfolding register_console replace_early console_write_str console_write console_write_early
    write_to_each initial
system_console = refl
