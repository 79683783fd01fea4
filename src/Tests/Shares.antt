-- ===== src/Tests/Shares.antt =====
-- Memory under the server.
use lw_nbd.Prelude.{refl, some, [], Returns, arith}
use lw_nbd.Plugin.{Plugin}
use lw_nbd.Nbd.Context.{NbdContext}
use lw_nbd.Nbd.Transmission.{transmission_phase}
use lw_nbd.Memory.Session.{Received, memory_callback, memory_session-Received}
use lw_nbd.Tests.{Medium, numbered, ram_plugin, ram_fields, ram_export, ram_config, conn_of}
use lw_nbd.Tests.Session.{read_six, goodbye, session, read_six-IsWellSized, goodbye-IsWellSized}
use lw_nbd.Tests.Memories.{four_bytes, configured}

abbrev memory_plugin : Plugin Medium
memory_plugin = record ram_plugin { pread = some (memory_callback configured) }

abbrev memory_export : NbdContext Medium
memory_export = record (ram_export memory_plugin) {
  base = record { fields = record ram_fields { handle = 1 }; p = some memory_plugin };
  minimum_block_size = 1;
}

memory_session-Received_example :
    Returns
      (transmission_phase ram_config (some memory_export) [] [] (conn_of session) numbered)
      (Received four_bytes read_six (conn_of session) numbered [])
memory_session-Received_example =
    memory_session-Received configured four_bytes ram_config memory_export memory_plugin read_six
      goodbye [] (conn_of session) [] [] numbered refl refl refl refl
      (record { sized = read_six-IsWellSized; magic = refl; kind = refl })
      (record { sized = goodbye-IsWellSized; magic = refl; kind = refl }) refl refl
      (record {
        count_width = omega arith;
        offset_width = omega arith;
        positive = omega arith;
        fits = omega arith;
        small = omega arith;
        no_wrap = omega arith;
        within = refl;
      })
