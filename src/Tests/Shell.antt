-- ===== src/Tests/Shell.antt =====
-- A table with the command `lc`.
use lw_nbd.Prelude.{pos, ◌≡◌, refl, none, [], ◌∷◌, done, take, replicate, Returns, arith}
use lw_nbd.Plugin.{Query}
use lw_nbd.Text.{codes}
use lw_nbd.Command.{
  Command, Commands, Texts, method_get, cmd_buffer_sz, command_ctor, command_query, command_pread,
  command_get_size, find_command, list_command,
}
use lw_nbd.Command.Table.{Registered, command_ctor-Registered, command_query-command_pread}
use lw_nbd.Command.Listing.{IsListing, all_lines, list_command-IsListing}
use lw_nbd.Tests.{Medium, numbered, ram_fields}

abbrev lc : Command Medium
lc = record {
  name = codes "lc";
  desc = codes "List shell commands.";
  type = method_get;
  cmd = list_command;
}

abbrev hello : Command Medium
hello = record {
  name = codes "hello";
  desc = [];
  type = method_get;
  cmd = λ texts argc argv buffer size m. done (pos 0, codes "hi", pos 2, m);
}

abbrev lc_only : Commands Medium
lc_only = record {
  commands = lc ∷ [];
  result = replicate cmd_buffer_sz 0;
  exportsize = pos 0;
  pp = none;
  dev = numbered;
}

abbrev with_hello : Commands Medium
with_hello = record lc_only { commands = lc ∷ hello ∷ [] }

abbrev ask_hello : Query
ask_hello = record { key = codes "hello"; val = none }

abbrev lc_texts : Texts
lc_texts = (codes "lc", codes "List shell commands.") ∷ []

command_ctor-Registered_example :
    Registered hello lc_only
      ((command_ctor hello ram_fields lc_only).0, (command_ctor hello ram_fields lc_only).2)
command_ctor-Registered_example = command_ctor-Registered hello ram_fields lc_only (omega arith)

command_query-command_pread_example :
    Returns (command_query 0 (ask_hello ∷ []) 1 with_hello) (λ out.
      (out.0 ≡ pos 0)
      × (command_get_size 0 out.1 ≡ pos 2)
      × Returns
          (command_pread 0 [] 2 0 0 out.1)
          (λ rd. (rd.0 ≡ pos 0) × (take 2 rd.1 ≡ codes "hi") × (rd.2 ≡ out.1)))
unfolding find_command
command_query-command_pread_example =
    command_query-command_pread 0 ask_hello [] 0 hello with_hello [] 2 0 0 (pos 0) (codes "hi")
      (pos 2) numbered refl refl refl (omega arith) (omega arith)

list_command-IsListing_example :
    Returns (list_command lc_texts 1 [] [] (pos 1) numbered) (IsListing lc_texts numbered)
unfolding all_lines
list_command-IsListing_example =
    list_command-IsListing lc_texts 1 [] [] (pos 1) numbered (omega arith)
