-- ===== src/Nbd/Client.antt =====
-- The loop of `nbd_synchronous_client_thread_cb` (servers/nbd/nbd.c) over the states of a client. What
-- comes before it uses a variable that is declared nowhere.
pub mod Rounds
use lw_nbd.Prelude.{
  ℕ, ℤ, minus_one, zero, suc, ◌+◌, ◌≡◌, ◌⊎◌, inl, inr, refl, ◌∙◌, sym, ap, ◌<◌, true, false, Option,
  none, some, List, [], ◌∷◌, ◌++◌, length, Run, done, fault, out_of_fuel, ◌>>=◌, Ends, Ends-weaken,
  Ends->>=, Bool-cases, is_zero, if◌then◌else◌, arith,
}
use lw_nbd.Uri.{Yuarel}
use lw_nbd.Nbd.Context.{NbdContext, State, handshake, transmission, abort}
use lw_nbd.Nbd.Ends.Handshake.{IsOver, protocol_handshake-IsOver}
use lw_nbd.Nbd.Handshake.{Haggle, protocol_handshake}
use lw_nbd.Nbd.Phase.{Config}
use lw_nbd.Nbd.Transmission.{transmission_phase}

module _ {D : Type 0} where
  -- `transmission_phase(ctx, c)`; `request` is what its uninitialised local holds.
  unfoldable pub transmit : Config → List ℕ → Haggle D → Run (ℤ × Haggle D)
  transmit cfg request s = do
    (r, ctx, conn, dev) ← transmission_phase cfg (some s.ctx) request s.nbd_buffer s.conn s.sys.dev
    c ← elim ctx [ none ↦ fault | some c ↦ done c ]
    done (r, record s { ctx = c; conn = conn; sys = record (s.sys) { dev = dev } })

  -- Another round while the last one gave 0. `state` is `c->state`, which the phases do not change;
  -- `locals` is what the uninitialised `cflags` and `request` hold.
  unfoldable pub client_loop : ℕ → Config → Yuarel → State → List ℕ → Haggle D → Run (ℤ × Haggle D)
  client_loop zero cfg y state locals s = out_of_fuel
  client_loop (suc fuel) cfg y handshake locals s = protocol_handshake cfg y locals s >>= λ rs.
      elim (is_zero rs.0) [ true ↦ client_loop fuel cfg y handshake locals rs.1 | false ↦ done rs ]
  client_loop (suc fuel) cfg y transmission locals s = transmit cfg locals s >>= λ rs.
      elim (is_zero rs.0) [
        | true ↦ client_loop fuel cfg y transmission locals rs.1
        | false ↦ done rs
      ]
  client_loop (suc fuel) cfg y abort locals s = done (minus_one, s)
