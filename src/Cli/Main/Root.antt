-- ===== src/Cli/Main/Root.antt =====
-- cli/main.c: what a user who is not root can do.
use clr_boot_manager.Prelude.{
  All, ◌≡◌, ◌⊎◌, inl, inr, refl, ◌==◌, Bool, true, false, Option, none, some, List, [], ◌∷◌, Bytes,
  Bool-cases, streq,
}
use clr_boot_manager.Platform.{Platform}
use clr_boot_manager.Cli.{Process}
use clr_boot_manager.Cli.Main.{
  SubCommand, find_command, root_commands, commands, print_usage, print_version, run_command, main,
  command_name, is_explicit_help,
}

module _ {S : Type 0} where
  -- The command leaves the state alone, and prints nothing.
  abbrev IsQuiet : SubCommand S → Type 0
  IsQuiet c =
      (argv : List Bytes) (s : S) → ((c.callback argv s).1 ≡ s) × ((c.callback argv s).0.out ≡ [])

  abbrev IsGuarded : SubCommand S → Type 0
  IsGuarded c = (c.requires_root ≡ true) ⊎ IsQuiet c

  abbrev FoundGuarded : Option (SubCommand S) → Type 0
  FoundGuarded none = Unit
  FoundGuarded (some c) = IsGuarded c

  find_command-FoundGuarded :
      (name : Bytes) (cs : List (SubCommand S))
      → All IsGuarded cs
      → FoundGuarded (find_command name cs)
  unfolding find_command
  find_command-FoundGuarded name [] h = tt
  find_command-FoundGuarded name (c ∷ cs) (h, hs) = elim (Bool-cases (streq c.name name)) [
    | inl same ↦ rw same h
    | inr other ↦ rw other (find_command-FoundGuarded name cs hs)
  ]

module _ (P : Platform) (process : Process P.host.State) where
  print_usage-IsQuiet :
      (explicit : Bool) (argv : List Bytes) (s : P.host.State)
      → ((print_usage P process explicit argv s).1 ≡ s)
        × ((print_usage P process explicit argv s).0.out ≡ [])
  unfolding print_usage
  print_usage-IsQuiet explicit [] s = (refl, refl)
  print_usage-IsQuiet explicit (topic ∷ _) s = (refl, refl)

  commands-IsGuarded : (explicit : Bool) → All IsGuarded (commands P process explicit)
  unfolding commands root_commands print_version
  commands-IsGuarded explicit = (
    inr (λ argv s. (refl, refl)),
    (
      inr (print_usage-IsQuiet explicit),
      (
        inl refl,
        (
          inl refl,
          (
            inl refl,
            (inl refl, (inl refl, (inl refl, (inl refl, (inl refl, (inl refl, (inl refl, tt))))))),
          ),
        ),
      ),
    ),
  )

  run_command-unprivileged :
      (c : Option (SubCommand P.host.State)) (argv : List Bytes) (s : P.host.State)
      → FoundGuarded c
      → (process.geteuid s == 0) ≡ false
      → ((run_command P process c argv s).1 ≡ s) × ((run_command P process c argv s).0.1 ≡ [])
  unfolding run_command
  run_command-unprivileged none argv s h user = (refl, refl)
  run_command-unprivileged (some c) argv s (inl root) user = (rw (root, user), rw (root, user))
  run_command-unprivileged (some c) argv s (inr quiet) user = elim (Bool-cases c.requires_root) [
    | inl root ↦ (rw (root, user), rw (root, user))
    | inr free ↦ (rw free (quiet argv s).0, rw free (quiet argv s).1)
  ]

  -- Without the rights of root no call of the program changes the state of the host, whatever its
  -- arguments, and no kernel, timeout or mode is printed.
  pub main-unprivileged :
      (argv : List Bytes) (s : P.host.State)
      → (process.geteuid s == 0) ≡ false
      → ((main P process argv s).1 ≡ s) × ((main P process argv s).0.1 ≡ [])
  unfolding main
  main-unprivileged [] s user = (refl, refl)
  main-unprivileged (arg ∷ argv) s user =
      run_command-unprivileged
        (find_command (command_name arg) (commands P process (is_explicit_help arg))) argv s
        (find_command-FoundGuarded (command_name arg) (commands P process (is_explicit_help arg))
          (commands-IsGuarded (is_explicit_help arg)))
        user
