-- ===== src/Command/Table.antt =====
-- The table of commands of plugins/command/command.c: what a registration does to the lookups, and a
-- query with the read of its result.
use lw_nbd.Prelude.{
  ℕ, ℤ, pos, minus_one, suc, ◌≤◌, ◌≡◌, refl, inl, inr, true, false, Option, none, some, List, [],
  ◌∷◌, ◌++◌, take, drop, take-append, length, length-append, length-take, replicate, leb, ◌==◌,
  done, Returns, Bool-cases, if◌then◌else◌, arith,
}
use lw_nbd.Plugin.{Query, Fields}
use lw_nbd.Text.{same_text}
use lw_nbd.Command.{
  Command, Commands, method_get, texts, argc_of, cmd_driver_max, cmd_buffer_sz, find_command,
  command_add_command, command_ctor, command_query, command_query_get, command_pread,
  command_get_size,
}

module _ {D : Type 0} where
  -- The first of two lookups that finds something.
  abbrev pub or_else : Option (Command D) → Option (Command D) → Option (Command D)
  or_else none c = c
  or_else (some b) c = some b

  find_command-append :
      (key : List ℕ) (cs ds : List (Command D))
      → find_command key (cs ++ ds) ≡ or_else (find_command key cs) (find_command key ds)
  unfolding find_command
  find_command-append key [] ds = refl
  find_command-append key (c ∷ cs) ds = elim (Bool-cases (same_text key c.name)) [
    | inl own ↦ rw own refl
    | inr other ↦ rw other (find_command-append key cs ds)
  ]

  -- What a registration comes to: a full table refuses it; else each key finds what it found
  -- before, and the new command if it is the command's name and found nothing.
  pub record Registered (c : Command D) (s : Commands D) (out : ℤ × Commands D) : Type 0 where
    pub bounded : length out.1.commands ≤ cmd_driver_max
    pub result : out.0 ≡ (if length s.commands == cmd_driver_max then minus_one else pos 0)
    pub lookup :
        (key : List ℕ)
        → find_command key out.1.commands
          ≡ or_else (find_command key s.commands) (
              if length s.commands == cmd_driver_max
              then none
              else if same_text key c.name
              then some c
              else none)

  or_else-none : (c : Option (Command D)) → c ≡ or_else c none
  or_else-none none = refl
  or_else-none (some c) = refl

  -- A registration keeps the table within its 100 entries; a full table refuses it with -1 and
  -- finds what it found; else each key finds what it found before, or the new command if it found
  -- nothing and the key is its name.
  pub command_ctor-Registered :
      (c : Command D) (fields : Fields) (s : Commands D)
      → length s.commands ≤ cmd_driver_max
      → Registered c s ((command_ctor c fields s).0, (command_ctor c fields s).2)
  unfolding command_ctor command_add_command find_command
  command_ctor-Registered c fields s le = elim (Bool-cases (length s.commands == cmd_driver_max)) [
    | inl full ↦ rw full (record {
      bounded = le;
      result = rw full refl;
      lookup = λ key. rw full (or_else-none (find_command key s.commands));
    })
    | inr room ↦ rw room (record {
      bounded = ground (arith, room, le, length-append s.commands (c ∷ []));
      result = rw room refl;
      lookup = λ key. rw room (find_command-append key s.commands (c ∷ []));
    })
  ]

  -- A query of the key of a GET command runs it on a cleared buffer with the size 1, and a read
  -- then gives the front of what the command has left there; the size of the export is the one the
  -- command has set. The command returns, and the read is no longer than the buffer.
  pub command_query-command_pread :
      (handle : ℕ) (q : Query) (params : List Query) (n : ℕ) (c : Command D) (s : Commands D)
      (buf : List ℕ) (count offset flags : ℕ) (r : ℤ) (result : List ℕ) (size : ℤ) (d : D)
      → find_command q.key s.commands ≡ some c
      → c.type ≡ method_get
      → c.cmd (texts s) (argc_of q.val) (q ∷ params) (replicate cmd_buffer_sz 0) (pos 1) s.dev
        ≡ done (r, result, size, d)
      → count ≤ cmd_buffer_sz
      → count ≤ length result
      → Returns (command_query handle (q ∷ params) (suc n) s) (λ out.
        (out.0 ≡ r)
        × (command_get_size handle out.1 ≡ size)
        × Returns
            (command_pread handle buf count offset flags out.1)
            (λ rd. (rd.0 ≡ pos 0) × (take count rd.1 ≡ take count result) × (rd.2 ≡ out.1)))
  unfolding command_query command_query_get command_pread command_get_size
  command_query-command_pread handle q params n c s buf count offset flags r result size d found get
        ran fits there =
      rw (some_params, found, get) (rw (ran, fits_in) (refl, refl, (refl, front, refl)))
    where
      some_params : (suc n == 0) ≡ false
      some_params = ground arith

      fits_in : leb count cmd_buffer_sz ≡ true
      fits_in = ground (arith, fits)

      front : take count (take count result ++ drop count buf) ≡ take count result
      front =
          take-append count (take count result) (drop count buf)
            (omega (arith, length-take count result, there))
