-- ===== src/Command.antt =====
-- plugins/command/command.c: commands that clients run by a query and whose result they read, and
-- the command `lc` of plugins/command/builtin.c. `D` is what lies outside the plugin.
pub mod Table
pub mod Listing
use lw_nbd.Prelude.{
  ℕ, ℤ, pos, minus_one, zero, suc, ◌+◌, ◌*◌, ◌^◌, Option, none, some, List, [], ◌∷◌, ◌++◌, map,
  take, drop, length, replicate, Run, done, fault, ◌>>=◌, deref, leb, ◌==◌, if◌then◌else◌,
}
use lw_nbd.Plugin.{Query, Fields}
use lw_nbd.Text.{codes, same_text, pad_right}

abbrev pub cmd_driver_max : ℕ
cmd_driver_max = 100

abbrev pub cmd_buffer_sz : ℕ
cmd_buffer_sz = 4096

-- `method_type`
pub data Method : Type 0 where
  method_get method_post : Method

-- The names and descriptions of the commands: what the function of a command sees of this plugin.
abbrev pub Texts : Type 0
Texts = List (List ℕ × List ℕ)

-- The function of a command: argc, argv (the key and the value of the first parameter, and so on),
-- the buffer and the number at `size`; what it returns, the buffer and the number after it.
abbrev pub Cmd : Type 0 → Type 0
Cmd D = Texts → ℕ → List Query → List ℕ → ℤ → D → Run (ℤ × List ℕ × ℤ × D)

-- `struct lwnbd_command`
pub record Command (D : Type 0) : Type 0 where
  pub name : List ℕ
  pub desc : List ℕ
  pub type : Method
  pub cmd : Cmd D

-- `struct post_h`
pub record Post (D : Type 0) : Type 0 where
  pub pvhandle : Command D
  pub params : List Query
  pub nb_params : ℕ

-- The static variables; `commands` has the entries in use.
pub record Commands (D : Type 0) : Type 0 where
  pub commands : List (Command D)
  pub result : List ℕ
  pub exportsize : ℤ
  pub pp : Option (Post D)
  pub dev : D

abbrev pub argc_of : Option (List ℕ) → ℕ
argc_of none = 1
argc_of (some val) = 2

abbrev pub first_param : List Query → Run Query
first_param [] = fault
first_param (q ∷ params) = done q

module _ {D : Type 0} where
  abbrev pub texts : Commands D → Texts
  texts s = map (λ (c : Command D). (c.name, c.desc)) s.commands

  -- `memcpy` out of the array of the result
  unfoldable pub command_pread : ℕ → List ℕ → ℕ → ℕ → ℕ → Commands D → Run (ℤ × List ℕ × Commands D)
  command_pread handle buf count offset flags s =
      if leb count cmd_buffer_sz
      then done (pos 0, take count s.result ++ drop count buf, s)
      else fault

  -- The command finds eight bytes at the address of the `uint32_t` count: `behind` is what the four
  -- behind it hold. The parameters of the query were a local variable of `lwnbd_get_context`, and
  -- `params` is what their place holds by now.
  unfoldable pub command_pwrite :
      ℕ → List Query → ℕ → List ℕ → ℕ → ℕ → ℕ → Commands D → Run (ℤ × Commands D)
  command_pwrite behind params handle buf count offset flags s = do
    p ← deref s.pp
    out ←
        p.pvhandle.cmd (texts s) (p.nb_params + 1) params buf (pos (count + behind * 2 ^ 32)) s.dev
    done (out.0, record s { dev = out.3 })

  unfoldable pub command_query_get : Command D → List Query → ℕ → Commands D → Run (ℤ × Commands D)
  command_query_get pvhandle params nb_params s =
      pvhandle.cmd (texts s) nb_params params (replicate cmd_buffer_sz 0) (pos 1) s.dev >>= λ out.
      done (out.0, record s { result = out.1; exportsize = out.2; dev = out.3 })

  unfoldable pub command_query_post : Command D → List Query → ℕ → Commands D → Run (ℤ × Commands D)
  command_query_post pvhandle params nb_params s = done (
    pos 0,
    record s {
      exportsize = pos cmd_buffer_sz;
      pp = some (record { pvhandle = pvhandle; params = params; nb_params = nb_params });
    },
  )

  -- The loop of `command_query`: the first command with the key.
  unfoldable pub find_command : List ℕ → List (Command D) → Option (Command D)
  find_command key [] = none
  find_command key (c ∷ cs) = if same_text key c.name then some c else find_command key cs

  abbrev pub run_method : Method → Command D → List Query → ℕ → Commands D → Run (ℤ × Commands D)
  run_method method_get pvhandle params nb_params s = command_query_get pvhandle params nb_params s
  run_method method_post pvhandle params nb_params s =
      command_query_post pvhandle params nb_params s

  abbrev pub run_found : Option (Command D) → Query → List Query → Commands D → Run (ℤ × Commands D)
  run_found none first params s = done (minus_one, s)
  run_found (some c) first params s = run_method c.type c params (argc_of first.val) s

  unfoldable pub command_query : ℕ → List Query → ℕ → Commands D → Run (ℤ × Commands D)
  command_query handle params nb_params s =
      if nb_params == 0
      then done (minus_one, s)
      else (first_param params >>= λ q. run_found (find_command q.key s.commands) q params s)

  unfoldable pub command_get_size : ℕ → Commands D → ℤ
  command_get_size handle s = s.exportsize

  unfoldable pub command_add_command : Command D → Commands D → ℤ × Commands D
  command_add_command h s =
      if length s.commands == cmd_driver_max
      then (minus_one, s)
      else (pos 0, record s { commands = s.commands ++ (h ∷ []) })

  unfoldable pub command_ctor : Command D → Fields → Commands D → ℤ × Fields × Commands D
  command_ctor pconfig c s = let (r, s') = command_add_command pconfig s in (r, c, s')

  -- The built-in commands one after another; a table that is full is not noticed.
  unfoldable pub command_load : List (Command D) → Commands D → Commands D
  command_load [] s = s
  command_load (c ∷ cs) s = command_load cs (command_add_command c s).1

abbrev pub command_block_size : ℕ × ℕ × ℕ
command_block_size = (1, 1, 1)

-- `"%-32s: %s\n"`
abbrev pub command_line : List ℕ × List ℕ → List ℕ
command_line text = pad_right 32 text.0 ++ (codes ": " ++ (text.1 ++ (10 ∷ [])))

-- The loop of `list_command`; `sprintf` writes the line and the end mark behind what there is.
unfoldable pub list_lines : Texts → List ℕ → ℕ → Run (List ℕ × ℕ)
list_lines [] result size = done (result, size)
list_lines (text ∷ rest) result size =
    let line = command_line text in
    let result' = take size result ++ (line ++ (0 ∷ drop (size + length line + 1) result)) in
    let go = list_lines rest result' (size + length line) in
    if leb (size + length line + 1) cmd_buffer_sz then go else fault

unfoldable pub list_command : {D : Type 0} → Cmd D
list_command texts argc argv result size d =
    list_lines texts result 0 >>= λ rs. done (pos 0, rs.0, pos rs.1, d)
