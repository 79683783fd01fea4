-- ===== src/Tests/Negotiating.antt =====
-- A handshake that ends in the transmission phase, and scripts that break off.
use lw_nbd.Prelude.{
  ℕ, ℤ, ◌≡◌, pos, minus_one, refl, none, some, List, [], ◌∷◌, ◌++◌, Returns, Ends, done, replicate,
  arith,
}
use lw_nbd.Conn.{Recv}
use lw_nbd.Contexts.{
  Contexts, free, created, first_free, lwnbd_contexts_count, lwnbd_get_context_string,
  lwnbd_get_context_i, find_context,
}
use lw_nbd.Device.{lwnbd_update_size}
use lw_nbd.Plugin.{Plugin}
use lw_nbd.Uri.{lwnbd_get_context, open_context}
use lw_nbd.Nbd.Client.{client_loop}
use lw_nbd.Nbd.Client.Rounds.{Negotiations, client_loop-handshake, client_loop-greets_again}
use lw_nbd.Nbd.Context.{State}
use lw_nbd.Nbd.Ends.Handshake.{protocol_handshake-Ends}
use lw_nbd.Nbd.Ends.Transmission.{IsResult, transmission_phase-Ends}
use lw_nbd.Nbd.Medium.{payload}
use lw_nbd.Nbd.Phase.{Config}
use lw_nbd.Nbd.Handshake.{Haggle, new_handshake, protocol_handshake}
use lw_nbd.Nbd.Handshake.Exporting.{finish_bytes}
use lw_nbd.Nbd.Handshake.Negotiation.{asks_for, protocol_handshake-Exported}
use lw_nbd.Nbd.Transmission.{transmission_phase}
use lw_nbd.Nbd.Transmission.Dispatch.{request_recv}
use lw_nbd.Tests.{
  Medium, numbered, ram_plugin, ram_config, ram_export, ram_fields, conn_of, request_of,
}
use lw_nbd.Tests.Exports.{fresh_context, system_of}
use lw_nbd.Tests.Haggling.{plain}

abbrev sized_plugin : Plugin Medium
sized_plugin = record ram_plugin { get_size = some (λ handle m. (pos 64, m)) }

-- the pool with an export of the given size
abbrev sized : ℤ → Contexts Medium
sized size = record {
  contexts =
      record { fields = record ram_fields { exportsize = size }; p = some sized_plugin }
      ∷ replicate 49 fresh_context;
  contexts_status = created ∷ replicate 49 free;
}

abbrev roomy : Config
roomy = record ram_config { nbd_buffer_len = 16 }

abbrev ram0 : List ℕ
ram0 = b'r' ∷ b'a' ∷ b'm' ∷ b'0' ∷ []

abbrev greeting : List Recv → Haggle Medium
greeting inbox = record {
  ctx = record (ram_export sized_plugin) { gflags = 3; state = State.handshake };
  client_ctx = none;
  sys = system_of (sized (pos 0));
  new_opt = [];
  nbd_buffer = [];
  conn = conn_of inbox;
}

ram0_found :
    lwnbd_get_context plain ram0 (system_of (sized (pos 0)))
    ≡ done (some 0, system_of (sized (pos 64)))
unfolding lwnbd_get_context open_context lwnbd_get_context_string lwnbd_contexts_count find_context
    first_free lwnbd_get_context_i lwnbd_update_size
ram0_found = refl

protocol_handshake-Exported_example :
    Returns (protocol_handshake roomy plain [] (greeting (asks_for 3 ram0 []))) (λ out.
      (out.0 ≡ pos 0)
      × (payload out.1.conn.outbox
          ≡ payload [] ++ (new_handshake 3 ++ finish_bytes 3 (greeting (asks_for 3 ram0 [])).ctx))
      × (out.1.conn.inbox ≡ [])
      × (out.1.ctx ≡ record ((greeting (asks_for 3 ram0 [])).ctx) { state = State.transmission })
      × (out.1.client_ctx ≡ some 0)
      × (out.1.sys ≡ system_of (sized (pos 64))))
protocol_handshake-Exported_example =
    protocol_handshake-Exported roomy plain [] 0 ram0 [] (greeting (asks_for 3 ram0 []))
      (system_of (sized (pos 64))) refl (omega arith)
      (omega arith, (omega arith, (omega arith, (omega arith, tt)))) (omega arith) (omega arith)
      (omega arith) ram0_found refl

-- a receive that fails
abbrev broken_off : List Recv
broken_off = record { result = minus_one; stored = [] } ∷ []

protocol_handshake-Ends_example :
    Ends (protocol_handshake roomy plain [] (greeting broken_off)) (λ out. IsResult out.0)
protocol_handshake-Ends_example = protocol_handshake-Ends roomy plain [] (greeting broken_off)

transmission_phase-Ends_example :
    Ends
      (transmission_phase ram_config
        (some (ram_export ram_plugin))
        []
        []
        (conn_of (request_recv (request_of 1 0 4) ∷ broken_off))
        numbered)
      (λ out. IsResult out.0)
transmission_phase-Ends_example =
    transmission_phase-Ends ram_config (ram_export ram_plugin) [] []
      (conn_of (request_recv (request_of 1 0 4) ∷ broken_off)) numbered (omega arith)

client_loop-handshake_example :
    Ends
      (client_loop 2 roomy plain State.handshake [] (greeting broken_off))
      (λ rs. (rs.0 ≡ minus_one) × Negotiations roomy plain [] (greeting broken_off) rs.1)
client_loop-handshake_example =
    client_loop-handshake roomy plain [] 2 (greeting broken_off) (omega arith)

client_loop-greets_again_example :
    Returns (client_loop 4 roomy plain State.handshake [] (greeting (asks_for 3 ram0 []))) (λ rs.
      (rs.0 ≡ minus_one)
      × (payload rs.1.conn.outbox
          ≡ payload []
            ++ (new_handshake 3
                ++ (finish_bytes 3 (greeting (asks_for 3 ram0 [])).ctx ++ new_handshake 3))))
client_loop-greets_again_example =
    client_loop-greets_again roomy plain [] 2 0 ram0 (greeting (asks_for 3 ram0 []))
      (system_of (sized (pos 64))) refl (omega arith)
      (omega arith, (omega arith, (omega arith, (omega arith, tt)))) (omega arith) (omega arith)
      (omega arith) ram0_found refl
