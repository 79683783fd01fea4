-- ===== src/Tests/Haggling.antt =====
-- The haggling: LIST, ABORT, an option that is not supported, and data that are too long.
use lw_nbd.Prelude.{
  ℕ, ◌≡◌, ◌<◌, ◌^◌, minus_one, zero, suc, refl, none, some, List, [], ◌∷◌, ◌++◌, Returns, take,
  replicate, arith,
}
use lw_nbd.Conn.{Recv}
use lw_nbd.Contexts.{lwnbd_contexts_count}
use lw_nbd.Nbd.Context.{State}
use lw_nbd.Nbd.Medium.{payload}
use lw_nbd.Nbd.Handshake.{Haggle, option_reply, option_round}
use lw_nbd.Nbd.Handshake.Listing.{entries, AreNamed}
use lw_nbd.Nbd.Handshake.Replies.{BringsOption, option_recv, option_round-list}
use lw_nbd.Nbd.Transmission.{continue}
use lw_nbd.Nbd.Wire.{rep_ack}
use lw_nbd.Uri.{Yuarel}
use lw_nbd.Tests.{Medium, ram_plugin, ram_config, ram_export, conn_of}
use lw_nbd.Tests.Exports.{one_used, one_used-IsPool, fresh_context, system_of}

-- A parser that takes the text as a path without query.
abbrev pub plain : Yuarel
plain = record {
  parse = λ uri. some (record { path = uri; query = none });
  parse_query = λ q amp n. (minus_one, []);
}

abbrev haggling : List Recv → Haggle Medium
haggling inbox = record {
  ctx = record (ram_export ram_plugin) { state = State.handshake };
  client_ctx = none;
  sys = system_of one_used;
  new_opt = [];
  nbd_buffer = [];
  conn = conn_of inbox;
}

abbrev asking : ℕ → ℕ → List Recv → Haggle Medium
asking option optlen rest = haggling (option_recv option optlen ∷ rest)

asking-BringsOption :
    (option optlen : ℕ) (rest : List Recv)
    → option < 2 ^ 32
    → optlen < 2 ^ 32
    → BringsOption (asking option optlen rest) option optlen rest
asking-BringsOption option optlen rest h k = record { next = refl; widths = (h, k) }

fresh-AreNamed : (n : ℕ) → AreNamed (replicate n fresh_context)
fresh-AreNamed zero = tt
fresh-AreNamed (suc n) = ((omega arith, omega arith), fresh-AreNamed n)

option_round-list_example : Returns (option_round ram_config plain 3 (asking 3 0 [])) (λ ns.
    (ns.0 ≡ continue)
    × (payload ns.1.conn.outbox
        ≡ payload []
          ++ (entries 3 (take (lwnbd_contexts_count one_used) one_used.contexts)
              ++ option_reply 3 rep_ack 0))
    × (ns.1.conn.inbox ≡ [])
    × (ns.1.sys ≡ system_of one_used))
option_round-list_example =
    option_round-list ram_config plain 3 (asking 3 0 []) []
      (asking-BringsOption 3 0 [] (omega arith) (omega arith)) refl one_used-IsPool
      ((omega arith, omega arith), fresh-AreNamed 49)
