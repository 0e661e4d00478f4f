-- ===== src/Kernel/Shell.antt =====
-- src/kernel/shell.rs: the commands of the kernel shell, which listens to the lines of the system terminal,
-- where there is one.
pub mod Runs
pub mod Words
mod Tests
use kruspix.Base.{
  ℕ, zero, suc, ◌-◌, Bool, true, false, not, ◌&&◌, ◌||◌, ◌≡◌, Option, none, some, List, [], ◌∷◌,
  ◌++◌, if◌then◌else◌, ltb, leb, ◌==◌, length,
}
use kruspix.Base.Text.{Bytes, bytes, eq_bytes}
use kruspix.Kernel.Terminal.{Terminal, write, add_listener}

-- The handler of a command: a method of the shell, or one of a driver's, known by a number.
pub data CommandHandler : Type 0 where
  cmd_help cmd_echo cmd_reboot cmd_poweroff cmd_clear : CommandHandler
  driver_command : ℕ → CommandHandler

pub record ShellCommand : Type 0 where
  pub name : Bytes
  pub description : Bytes
  pub handler : CommandHandler

abbrev pub command_registry : List ShellCommand
command_registry =
    (record {
      name = bytes "help";
      description = bytes "Display this help message";
      handler = cmd_help;
    })
    ∷ (record {
      name = bytes "echo";
      description = bytes "Echo the input arguments";
      handler = cmd_echo;
    })
    ∷ (record {
      name = bytes "reboot";
      description = bytes "Reboot the system";
      handler = cmd_reboot;
    })
    ∷ (record {
      name = bytes "poweroff";
      description = bytes "Power off the system";
      handler = cmd_poweroff;
    })
    ∷ (record {
      name = bytes "clear";
      description = bytes "Clear the terminal screen";
      handler = cmd_clear;
    })
    ∷ []

-- on the dynamic registry
abbrev pub register_command : ShellCommand → List ShellCommand → List ShellCommand
register_command cmd registry = registry ++ cmd ∷ []

-- The white space that an ASCII text can hold.
abbrev pub is_whitespace : ℕ → Bool
is_whitespace b = (b == 32) || (leb 9 b && leb b 13)

-- `push` a word that is not empty
abbrev pub end_word : Bytes → List Bytes → List Bytes
end_word [] words = words
end_word (b ∷ word) words = (b ∷ word) ∷ words

-- `split_whitespace`, where `word` is what stands of the word so far.
unfoldable pub split_from : Bytes → Bytes → List Bytes
split_from word [] = end_word word []
split_from word (b ∷ line) =
    let after = split_from [] line in
    let inside = split_from (word ++ b ∷ []) line in
    if is_whitespace b then end_word word after else inside

abbrev pub split_whitespace : Bytes → List Bytes
split_whitespace line = split_from [] line

-- `iter().find(|c| c.name == command)`
unfoldable pub find_command : Bytes → List ShellCommand → Option ShellCommand
find_command command [] = none
find_command command (c ∷ cs) =
    let rest = find_command command cs in if eq_bytes c.name command then some c else rest

unfoldable pub print_prompt : Terminal → Terminal
print_prompt = write (bytes "\nkruspix> ")

unfoldable pub print_welcome_message : Terminal → Terminal
print_welcome_message t =
    write (bytes "Type 'help' for a list of commands.\n")
      (write (bytes "\n\nWelcome to the kruspix kernel shell!\n") t)

-- `listener` is the shell's place among the listeners.
unfoldable pub start : ℕ → Terminal → Terminal
start listener t = add_listener listener (print_prompt (print_welcome_message t))

-- `for (i, arg) in args.iter().enumerate()`
unfoldable pub echo_args : List Bytes → Terminal → Terminal
echo_args [] t = t
echo_args (arg ∷ []) t = write arg t
echo_args (arg ∷ next ∷ args) t = echo_args (next ∷ args) (write (bytes " ") (write arg t))

unfoldable pub write_spaces : ℕ → Terminal → Terminal
write_spaces zero t = t
write_spaces (suc padding) t = write_spaces padding (write (bytes " ") t)

unfoldable pub help_lines : List ShellCommand → Terminal → Terminal
help_lines [] t = t
help_lines (cmd ∷ cmds) t =
    let named = write cmd.name (write (bytes "  ") t) in
    let padded = write_spaces (10 - length cmd.name) named in
    help_lines cmds (write (bytes "\n") (write cmd.description (write (bytes " - ") padded)))

unfoldable pub contains_arg : Bytes → List Bytes → Bool
contains_arg wanted [] = false
contains_arg wanted (arg ∷ args) = eq_bytes arg wanted || contains_arg wanted args

unfoldable pub help : List ShellCommand → List Bytes → Terminal → Terminal
help dynamic_registry args t =
    let show_all = contains_arg (bytes "-a") args in
    let rule = bytes "------------------------------\n" in
    let header = write rule (write (bytes "Kruspix kernel shell commands:\n") t) in
    let static_part = help_lines command_registry header in
    let both = if show_all then help_lines dynamic_registry static_part else static_part in
    let closed = write rule both in
    if show_all then closed else write (bytes "\nType 'help -a' to see all commands.\n") closed

-- The dynamic registry, what a driver's command does, and what the power functions do.
module _ (dynamic_registry : List ShellCommand) (driver : ℕ → List Bytes → Terminal → Terminal)
    (system_restart system_power_off : Terminal → Terminal) where
  unfoldable pub run_command : CommandHandler → List Bytes → Terminal → Terminal
  run_command cmd_help args t = help dynamic_registry args t
  run_command cmd_echo args t = write (bytes "\n") (echo_args args t)
  run_command cmd_reboot args t = system_restart t
  run_command cmd_poweroff args t = system_power_off t
  run_command cmd_clear args t = write (27 ∷ bytes "[2J" ++ 27 ∷ bytes "[H") t
  run_command (driver_command n) args t = driver n args t

  unfoldable pub run_found :
      Option ShellCommand → Option ShellCommand → Bytes → List Bytes → Terminal → Terminal
  run_found (some cmd) dynamic command args t = run_command cmd.handler args t
  run_found none (some cmd) command args t = run_command cmd.handler args t
  run_found none none command args t =
      write (bytes "\nType 'help -a' for a full list.\n")
        (write command (write (bytes "Unknown command: ") t))

  unfoldable pub exec_words : List Bytes → Terminal → Terminal
  exec_words [] t = t
  exec_words (command ∷ args) t =
      run_found (find_command command command_registry) (find_command command dynamic_registry)
        command args t

  unfoldable pub exec : Bytes → Terminal → Terminal
  exec line t = exec_words (split_whitespace line) t

  -- `LineListener::on_line`; `valid_utf8` is what `from_utf8` says of the line.
  unfoldable pub on_line : (valid_utf8 : Bytes → Bool) → Bytes → Terminal → Terminal
  on_line valid_utf8 line t =
      print_prompt
        (if valid_utf8 line then exec line t else write (bytes "Error: Invalid UTF-8 input") t)
