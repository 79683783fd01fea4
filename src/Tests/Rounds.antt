-- ===== src/Tests/Rounds.antt =====
-- One round, for a request of each other kind.
use lw_nbd.Prelude.{Returns, ℕ, ◌≡◌, ◌<◌, ◌^◌, refl, [], ◌∷◌, arith}
use lw_nbd.Nbd.Phase.{Phase}
use lw_nbd.Nbd.Transmission.{continue, request_round}
use lw_nbd.Nbd.Transmission.Dispatch.{Brings, request_recv, request_round-unsupported}
use lw_nbd.Nbd.Wire.{simple_reply, Request}
use lw_nbd.Tests.{
  numbered, handle_a, ram_export, Medium, ram_plugin, ram_config, request_of, phase_of,
}

abbrev bringing : ℕ → Phase Medium
bringing type = phase_of ram_plugin (request_recv (request_of type 0 0) ∷ [])

abbrev sent : ℕ → Request
sent type = request_of type 0 0

bringing-Brings : (type : ℕ) → type < 2 ^ 16 → Brings (bringing type) (sent type) []
bringing-Brings type h = record {
  next = refl;
  sized = record {
    magic = omega arith;
    flags = omega arith;
    type = h;
    handle = refl;
    offset = omega arith;
    count = omega arith;
  };
  magic = refl;
}

request_round-unsupported_example : Returns (request_round ram_config 2 (bringing 4)) (λ ns.
    (ns.0 ≡ continue)
    × (ns.1.conn.outbox ≡ record { bytes = simple_reply 22 handle_a; flags = 0 } ∷ [])
    × (ns.1.conn.inbox ≡ [])
    × (ns.1.dev ≡ numbered)
    × (ns.1.ctx ≡ ram_export ram_plugin))
request_round-unsupported_example =
    request_round-unsupported ram_config 2 (bringing 4) (sent 4) []
      (bringing-Brings 4 (omega arith)) (omega arith) (omega arith)
