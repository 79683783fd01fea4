-- ===== src/Nbd/Handshake/Negotiation.antt =====
-- A whole handshake that ends in the transmission phase.
use lw_nbd.Prelude.{
  ℕ, pos, zero, suc, ◌+◌, ◌^◌, ◌≤◌, ◌<◌, ◌≡◌, refl, ap, ◌∙◌, true, some, List, [], ◌∷◌, ◌++◌,
  append_assoc, done, Returns, Returns-weaken, Returns->>=, length, take, drop, ◌==◌, arith,
}
use lw_nbd.Conn.{Conn, Recv, recv, send-inbox, acks-send}
use lw_nbd.System.{System}
use lw_nbd.Uri.{Yuarel, lwnbd_get_context}
use lw_nbd.Nbd.Context.{State}
use lw_nbd.Nbd.Medium.{payload}
use lw_nbd.Nbd.Phase.{Config}
use lw_nbd.Nbd.Transmission.{Next, continue, return}
use lw_nbd.Nbd.Handshake.{Haggle, new_handshake, option_round, option_loop, protocol_handshake}
use lw_nbd.Nbd.Handshake.Exporting.{
  IsText, name_recv, finish_bytes, Exported, option_round-export_name,
}
use lw_nbd.Nbd.Handshake.Listing.{sent, send_whole-all, payload-sent}
use lw_nbd.Nbd.Handshake.Replies.{option_recv}
use lw_nbd.Nbd.Wire.{be, of_be}
use lw_nbd.Nbd.Wire.Codec.{of_be-be4}

-- What a client sends in a handshake that asks for an export: its flags, the option and the name.
abbrev pub flags_recv : ℕ → Recv
flags_recv cflags = record { result = pos 4; stored = be 4 cflags }

abbrev pub asks_for : ℕ → List ℕ → List Recv → List Recv
asks_for cflags name rest = flags_recv cflags ∷ option_recv 1 (length name) ∷ name_recv name ∷ rest

recv-flags :
    (cflags : ℕ) (buf : List ℕ) (c : Conn) (more : List Recv)
    → c.inbox ≡ flags_recv cflags ∷ more
    → recv c buf 4 ≡ (pos 4, be 4 cflags ++ drop 4 buf, record c { inbox = more })
unfolding recv be
recv-flags cflags buf c more e = rw e refl

flags_read :
    (cflags : ℕ) (buf : List ℕ)
    → cflags < 2 ^ 32
    → of_be (take 4 (be 4 cflags ++ drop 4 buf)) ≡ cflags
unfolding be
flags_read cflags buf h = of_be-be4 cflags h

greeting_fits : (gflags : ℕ) → length (new_handshake gflags) < 2 ^ 32
unfolding be
greeting_fits gflags = omega arith

module _ {D : Type 0} where
  -- A round that returns is the last.
  option_loop-last :
      (fuel : ℕ) (cfg : Config) (y : Yuarel) (cflags c : ℕ) (s : Haggle D) (sys : System D)
      (rest : List Recv)
      → 0 < fuel
      → Returns
          (option_round cfg y cflags s)
          (λ ns. (ns.0 ≡ return (pos 0)) × Exported cflags c sys rest s ns.1)
      → Returns
          (option_loop fuel cfg y cflags s)
          (λ rs. (rs.0 ≡ pos 0) × Exported cflags c sys rest s rs.1)
  unfolding option_loop
  option_loop-last zero cfg y cflags c s sys rest h round = absurd (omega arith)
  option_loop-last (suc fuel) cfg y cflags c s sys rest h round =
      Returns->>= (option_round cfg y cflags s) _
        (λ ns. (ns.0 ≡ return (pos 0)) × Exported cflags c sys rest s ns.1)
        (λ rs. (rs.0 ≡ pos 0) × Exported cflags c sys rest s rs.1) round λ ns q. by_next ns q
    where
      by_next :
          (ns : Next × Haggle D)
          → (ns.0 ≡ return (pos 0)) × Exported cflags c sys rest s ns.1
          → Returns
              (elim ns.0 [
                | continue ↦ option_loop fuel cfg y cflags ns.1
                | return r ↦ done (r, ns.1)
              ])
              (λ rs. (rs.0 ≡ pos 0) × Exported cflags c sys rest s rs.1)
      by_next (continue, s') q = absurd (cc)
      by_next (return r, s') q = (cc, q.1)

  -- A client that returns the server's own flags and asks for an export by a name that the parser
  -- and the plugin accept is sent exactly the greeting and then the size and the flags of the
  -- server's own context, not those of the export that it has asked for, and 124 zeroes unless the
  -- flags say that it can do without; the handshake returns 0 with the context's state at
  -- TRANSMISSION and the client's context set to the export, and leaves what follows unread. The
  -- flags are below 2^32, the name is not empty, has no zero byte and is shorter than the buffer,
  -- the buffer is no longer than 2^32, and no send falls short.
  pub protocol_handshake-Exported :
      (cfg : Config) (y : Yuarel) (flags_buffer : List ℕ) (c : ℕ) (name : List ℕ) (rest : List Recv)
      (s : Haggle D) (sys : System D)
      → s.conn.inbox ≡ asks_for s.ctx.gflags name rest
      → s.ctx.gflags < 2 ^ 32
      → IsText name
      → 0 < length name
      → length name < cfg.nbd_buffer_len
      → cfg.nbd_buffer_len ≤ 2 ^ 32
      → lwnbd_get_context y name s.sys ≡ done (some c, sys)
      → s.conn.acks ≡ []
      → Returns (protocol_handshake cfg y flags_buffer s) (λ out.
        (out.0 ≡ pos 0)
        × (payload out.1.conn.outbox
            ≡ payload s.conn.outbox
              ++ (new_handshake s.ctx.gflags ++ finish_bytes s.ctx.gflags s.ctx))
        × (out.1.conn.inbox ≡ rest)
        × (out.1.ctx ≡ record (s.ctx) { state = State.transmission })
        × (out.1.client_ctx ≡ some c)
        × (out.1.sys ≡ sys))
  unfolding protocol_handshake
  protocol_handshake-Exported cfg y flags_buffer c name rest s sys e width text some_ fits buffer
        known acked =
      rw (send_whole-all (new_handshake g) 0 s acked (greeting_fits g)) (
        rw (recv-flags g flags_buffer greeted.conn more (send-inbox s.conn (new_handshake g) 0 ∙ e))
          (rw (flags_read g flags_buffer width) (
            let same : (g == g) ≡ true = ground arith in
            rw same (
              Returns-weaken (option_loop (length more + 1) cfg y g met)
                (λ rs q. (
                  q.0,
                  q.1.bytes
                      ∙ ap (λ p. p ++ finish_bytes g s.ctx) (payload-sent (new_handshake g) 0 s)
                      ∙ append_assoc (payload s.conn.outbox) (new_handshake g)
                          (finish_bytes g s.ctx),
                  q.1.left,
                  q.1.ctx,
                  q.1.found.0,
                  q.1.found.1,
                ))
                (option_loop-last (length more + 1) cfg y g c met sys rest (omega arith) (
                  option_round-export_name cfg y g c name rest met sys
                    (record { next = refl; widths = (omega arith, omega arith) }) text some_ fits
                    known (acks-send s.conn (new_handshake g) 0 acked)))))))
    where
      g : ℕ
      g = s.ctx.gflags

      more : List Recv
      more = option_recv 1 (length name) ∷ name_recv name ∷ rest

      greeted : Haggle D
      greeted = sent (new_handshake g) 0 s

      met : Haggle D
      met = record greeted { conn = record (greeted.conn) { inbox = more } }
