-- ===== src/Kernel/Shell/Runs.antt =====
-- What each command of the shell is to do, by its name, and that `exec` does it.
use kruspix.Base.{
  ℕ, true, ◌≡◌, ◌≢◌, refl, sym, subst, Bool-cases, Option, none, some, inl, inr, List, [], ◌∷◌,
  ◌++◌,
}
use kruspix.Base.EqBytes.{eq_bytes-eq, eq_bytes-ne}
use kruspix.Base.Text.{Bytes, bytes, eq_bytes}
use kruspix.Kernel.Terminal.{Terminal, write}
use kruspix.Kernel.Shell.{
  driver_command, ShellCommand, find_command, echo_args, help, run_command, run_found, exec_words,
}

unfoldable pub write_all : List Bytes → Terminal → Terminal
write_all [] t = t
write_all (text ∷ texts) t = write_all texts (write text t)

-- a space before each argument, and a new line at the end
unfoldable pub spaced_out : List Bytes → List Bytes
spaced_out [] = bytes "\n" ∷ []
spaced_out (arg ∷ args) = bytes " " ∷ arg ∷ spaced_out args

unfoldable pub echoed : List Bytes → List Bytes
echoed [] = bytes "\n" ∷ []
echoed (arg ∷ args) = arg ∷ spaced_out args

-- No command has the name.
unfoldable pub IsAbsent : Bytes → List ShellCommand → Type 0
IsAbsent name [] = Unit {0}
IsAbsent name (cmd ∷ cmds) = (cmd.name ≢ name) × IsAbsent name cmds

abbrev pub IsNoBuiltin : Bytes → Type 0
IsNoBuiltin name =
    (name ≢ bytes "help")
    × (name ≢ bytes "echo")
    × (name ≢ bytes "reboot")
    × (name ≢ bytes "poweroff")
    × (name ≢ bytes "clear")

-- All commands are a driver's.
unfoldable pub AreDrivers : List ShellCommand → Type 0
AreDrivers [] = Unit {0}
AreDrivers (cmd ∷ cmds) = ((n : ℕ) × (cmd.handler ≡ driver_command n)) × AreDrivers cmds

module _ (dynamic_registry : List ShellCommand) (driver : ℕ → List Bytes → Terminal → Terminal)
    (system_restart system_power_off : Terminal → Terminal) where
  -- The words run from one terminal to another: the built-in commands by their names, then the first command
  -- of a driver with the name.
  pub data Runs : List Bytes → Terminal → Terminal → Type 0 where
    no_words : (t : Terminal) → Runs [] t t
    helps :
        (args : List Bytes) (t : Terminal)
        → Runs (bytes "help" ∷ args) t (help dynamic_registry args t)
    echoes :
        (args : List Bytes) (t : Terminal)
        → Runs (bytes "echo" ∷ args) t (write_all (echoed args) t)
    restarts :
        (args : List Bytes) (t : Terminal) → Runs (bytes "reboot" ∷ args) t (system_restart t)
    powers_off :
        (args : List Bytes) (t : Terminal) → Runs (bytes "poweroff" ∷ args) t (system_power_off t)
    clears :
        (args : List Bytes) (t : Terminal)
        → Runs (bytes "clear" ∷ args) t (write (27 ∷ bytes "[2J" ++ 27 ∷ bytes "[H") t)
    drives :
        (before after : List ShellCommand) (cmd : ShellCommand) (n : ℕ) (args : List Bytes)
        (t : Terminal)
        → dynamic_registry ≡ before ++ cmd ∷ after
        → IsAbsent cmd.name before
        → cmd.handler ≡ driver_command n
        → IsNoBuiltin cmd.name
        → Runs (cmd.name ∷ args) t (driver n args t)
    unknown :
        (name : Bytes) (args : List Bytes) (t : Terminal)
        → IsNoBuiltin name
        → IsAbsent name dynamic_registry
        → Runs (name ∷ args) t (
            write_all
              (bytes "Unknown command: " ∷ name ∷ bytes "\nType 'help -a' for a full list.\n" ∷ [])
              t)

-- what the search in a registry of drivers comes to
data Search (name : Bytes) : List ShellCommand → Option ShellCommand → Type 0 where
  missing : (cmds : List ShellCommand) → IsAbsent name cmds → Search name cmds none
  hit :
      (before after : List ShellCommand) (cmd : ShellCommand) (n : ℕ)
      → IsAbsent name before
      → cmd.name ≡ name
      → cmd.handler ≡ driver_command n
      → Search name (before ++ cmd ∷ after) (some cmd)

behind :
    (name : Bytes) (c : ShellCommand) (cmds : List ShellCommand) (found : Option ShellCommand)
    → c.name ≢ name
    → Search name cmds found
    → Search name (c ∷ cmds) found
unfolding IsAbsent
behind name c cmds found ne (missing _ h) = missing (c ∷ cmds) (ne, h)
behind name c _ _ ne (hit before after cmd n h e k) = hit (c ∷ before) after cmd n (ne, h) e k

find_command-Search :
    (name : Bytes) (cmds : List ShellCommand)
    → AreDrivers cmds
    → Search name cmds (find_command name cmds)
unfolding find_command AreDrivers IsAbsent
find_command-Search name [] h = missing [] tt
find_command-Search name (c ∷ cmds) ((n, k), hs) = elim (Bool-cases (eq_bytes c.name name)) [
  | inl b ↦ rw b (hit [] cmds c n tt (eq_bytes-eq c.name name b) k)
  | inr b ↦ rw b (
      behind name c cmds (find_command name cmds) (eq_bytes-ne c.name name b)
        (find_command-Search name cmds hs))
]

echo_args-spaced_out :
    (arg : Bytes) (args : List Bytes) (t : Terminal)
    → write (bytes "\n") (echo_args (arg ∷ args) t) ≡ write_all (spaced_out args) (write arg t)
unfolding echo_args write_all spaced_out
echo_args-spaced_out arg [] t = refl
echo_args-spaced_out arg (next ∷ args) t =
    echo_args-spaced_out next args (write (bytes " ") (write arg t))

echo_args-echoed :
    (args : List Bytes) (t : Terminal)
    → write (bytes "\n") (echo_args args t) ≡ write_all (echoed args) t
unfolding echo_args write_all echoed
echo_args-echoed [] t = refl
echo_args-echoed (arg ∷ args) t = echo_args-spaced_out arg args t

module _ (dynamic_registry : List ShellCommand) (driver : ℕ → List Bytes → Terminal → Terminal)
    (system_restart system_power_off : Terminal → Terminal) where
  abbrev RunsTo : List Bytes → Terminal → Terminal → Type 0
  RunsTo = Runs dynamic_registry driver system_restart system_power_off

  dynamic-Runs :
      (registry : List ShellCommand) (name : Bytes) (args : List Bytes) (t : Terminal)
      (found : Option ShellCommand)
      → IsNoBuiltin name
      → dynamic_registry ≡ registry
      → Search name registry found
      → RunsTo
          (name ∷ args)
          t
          (run_found dynamic_registry driver system_restart system_power_off none found name args t)
  unfolding run_found run_command write_all
  dynamic-Runs _ name args t _ free e (missing cmds h) =
      unknown name args t free (subst (IsAbsent name) (sym e) h)
  dynamic-Runs _ name args t _ free e (hit before after cmd n h same k) =
      subst
        (λ c.
          RunsTo (c ∷ args) t (
            run_command dynamic_registry driver system_restart system_power_off cmd.handler args t))
        same
        (rw k (
          drives before after cmd n args t e (subst (λ c. IsAbsent c before) (sym same) h) k
            (subst IsNoBuiltin (sym same) free)))

  named_run :
      (word name : Bytes) (args : List Bytes) (t t' : Terminal)
      → eq_bytes word name ≡ true
      → RunsTo (word ∷ args) t t'
      → RunsTo (name ∷ args) t t'
  named_run word name args t t' b = subst (λ c. RunsTo (c ∷ args) t t') (eq_bytes-eq word name b)

  pub exec_words-Runs :
      (words : List Bytes) (t : Terminal)
      → AreDrivers dynamic_registry
      → RunsTo words t (exec_words dynamic_registry driver system_restart system_power_off words t)
  unfolding exec_words run_found run_command find_command
  exec_words-Runs [] t drivers = no_words t
  exec_words-Runs (name ∷ args) t drivers = elim (Bool-cases (eq_bytes (bytes "help") name)) [
    | inl b ↦ rw b (named_run (bytes "help") name args t _ b (helps args t))
    | inr h ↦ elim (Bool-cases (eq_bytes (bytes "echo") name)) [
      | inl b ↦
          rw (h, b, echo_args-echoed args t)
            (named_run (bytes "echo") name args t _ b (echoes args t))
      | inr e ↦ elim (Bool-cases (eq_bytes (bytes "reboot") name)) [
        | inl b ↦ rw (h, e, b) (named_run (bytes "reboot") name args t _ b (restarts args t))
        | inr r ↦ elim (Bool-cases (eq_bytes (bytes "poweroff") name)) [
          | inl b ↦
              rw (h, e, r, b) (named_run (bytes "poweroff") name args t _ b (powers_off args t))
          | inr p ↦ elim (Bool-cases (eq_bytes (bytes "clear") name)) [
            | inl b ↦ rw (h, e, r, p, b) (named_run (bytes "clear") name args t _ b (clears args t))
            | inr c ↦
                rw (h, e, r, p, c)
                  (dynamic-Runs dynamic_registry name args t (find_command name dynamic_registry)
                    (
                      λ q. eq_bytes-ne (bytes "help") name h (sym q),
                      λ q. eq_bytes-ne (bytes "echo") name e (sym q),
                      λ q. eq_bytes-ne (bytes "reboot") name r (sym q),
                      λ q. eq_bytes-ne (bytes "poweroff") name p (sym q),
                      λ q. eq_bytes-ne (bytes "clear") name c (sym q),
                    )
                    refl (find_command-Search name dynamic_registry drivers))
          ]
        ]
      ]
    ]
  ]
