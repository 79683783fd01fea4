-- ===== src/Tests/Memories.antt =====
-- An export of four bytes of memory from address 100 on.
use lw_nbd.Prelude.{[], ◌∷◌, replicate}
use lw_nbd.Memory.{MemoryConfig, MemoryState, handle_free, handle_created}
use lw_nbd.Text.{codes}
use lw_nbd.Tests.{numbered}

abbrev pub four_bytes : MemoryConfig
four_bytes = record { base = 100; size = 4; name = codes "four"; desc = codes "four bytes" }

abbrev unused : MemoryConfig
unused = record { base = 0; size = 0; name = []; desc = [] }

abbrev fresh : MemoryState
fresh = record {
  handles = replicate 10 unused;
  handle_in_use = replicate 10 handle_free;
  memory = numbered;
}

abbrev pub configured : MemoryState
configured = record {
  handles = four_bytes ∷ replicate 9 unused;
  handle_in_use = handle_created ∷ replicate 9 handle_free;
  memory = numbered;
}
