-- ===== src/Nbd/Ends/Transmission.antt =====
-- `transmission_phase` (servers/nbd/protocol.c) comes to an end: each round of its `while (1)` takes
-- a receive.
use lw_nbd.Prelude.{
  ℕ, ℤ, pos, minus_one, zero, suc, ◌+◌, ◌≤◌, ◌<◌, ◌≡◌, ◌⊎◌, inl, inr, refl, ap, some, List, length,
  Ends, Ends-weaken, Ends->>=, Ends-deref_then, get_elem?, ltb, ◌==◌, Bool-cases, done,
  if◌then◌else◌, is_zero, as_size, arith,
}
use lw_nbd.Conn.{Conn, recv, recv-shrinks, recv-takes, send-inbox}
use lw_nbd.Device.{lwnbd_flush, lwnbd_flush-Ends}
use lw_nbd.Nbd.Ends.Pace.{IsPaced, IsDrained}
use lw_nbd.Nbd.Ends.Reading.{read_request-Ended}
use lw_nbd.Nbd.Ends.Writing.{write_request-Ended}
use lw_nbd.Nbd.Errno
use lw_nbd.Nbd.Context.{NbdContext}
use lw_nbd.Nbd.Phase.{Config, Phase}
use lw_nbd.Nbd.Read.{ReadEnd, finished, broken, exhausted, read_request}
use lw_nbd.Nbd.Write.{write_request}
use lw_nbd.Nbd.Transmission.{
  Next, continue, return, Command, read, write, disc, flush, unsupported, command, after_read,
  flush_request, invalid_request, handle_command, request_round, request_loop, start,
  transmission_phase, nbd_commands, nbd_commands_to_string, request_size,
}
use lw_nbd.Nbd.Wire.{Request, request_magic, decode_request, host_order, simple_reply}

-- The two values that the haggling and the transmission phase return.
abbrev pub IsResult : ℤ → Type 0
IsResult r = (r ≡ pos 0) ⊎ (r ≡ minus_one)

abbrev pub IsNext : Next → Type 0
IsNext continue = Unit
IsNext (return r) = IsResult r

after_read-IsNext : (end : ReadEnd) → IsNext (after_read end)
after_read-IsNext finished = tt
after_read-IsNext broken = tt
after_read-IsNext exhausted = inr refl

module _ {D : Type 0} (cfg : Config) (bs : ℕ) (fits : bs ≤ cfg.nbd_buffer_len) where
  -- What the handling of a request leaves.
  record Handled (s : Phase D) (ns : Next × Phase D) : Type 0 where
    paced : IsPaced ns.1
    drained : IsDrained s ns.1
    next : IsNext ns.0

  flush_request-Handled :
      (req : Request) (s : Phase D)
      → IsPaced s
      → Ends (flush_request cfg bs req s) (λ s'. Handled s (continue, s'))
  unfolding flush_request
  flush_request-Handled req s p =
      Ends->>= (lwnbd_flush s.ctx.base 0 s.dev) _ (λ _. Unit) (λ s'. Handled s (continue, s'))
        (lwnbd_flush-Ends s.ctx.base 0 s.dev)
        λ got _. record {
          paced = p;
          drained = omega (
            arith,
            ap length (
                send-inbox s.conn
                  (simple_reply (if is_zero got.0 then Errno.success else Errno.io) req.handle) 0),
          );
          next = tt;
        }

  handle_command-Handled :
      (c : Command) (req : Request) (s : Phase D)
      → IsPaced s
      → Ends (handle_command cfg bs c req s) (Handled s)
  unfolding handle_command invalid_request
  handle_command-Handled read req s p =
      Ends->>= (read_request cfg bs req s) _ _ (Handled s) (read_request-Ended cfg bs req s fits p)
        λ es e. record {
          paced = e.0;
          drained = omega (arith, ap length e.1);
          next = after_read-IsNext es.0;
        }
  handle_command-Handled write req s p =
      Ends->>= (write_request cfg bs req s) _ _ (Handled s)
        (write_request-Ended cfg bs req s fits p)
        λ s' e. record { paced = e.0; drained = e.1; next = tt }
  handle_command-Handled disc req s p = record { paced = p; drained = omega arith; next = inl refl }
  handle_command-Handled flush req s p =
      Ends->>= (flush_request cfg bs req s) _ (λ s'. Handled s (continue, s')) (Handled s)
        (flush_request-Handled req s p) λ s' h. h
  handle_command-Handled unsupported req s p = record {
    paced = p;
    drained = omega (arith, ap length (send-inbox s.conn (simple_reply Errno.inval req.handle) 0));
    next = tt;
  }

  -- A round that leads on to another has taken a receive.
  record Rounded (s : Phase D) (ns : Next × Phase D) : Type 0 where
    handled : Handled s ns
    taken : ns.0 ≡ continue → length ns.1.conn.inbox < length s.conn.inbox

  request_round-Rounded : (s : Phase D) → IsPaced s → Ends (request_round cfg bs s) (Rounded s)
  unfolding request_round nbd_commands_to_string
  request_round-Rounded s p = elim (Bool-cases (ltb (as_size got.0) request_size)) [
    | inl short ↦ rw short stopped
    | inr whole ↦ rw whole (elim (Bool-cases (req.magic == request_magic)) [
      | inr other ↦ rw other stopped
      | inl same ↦ rw same (
          Ends-deref_then (get_elem? nbd_commands req.type) _ (Rounded s) λ name.
            Ends-weaken (handle_command cfg bs (command req.type) req s')
              (λ ns h. record {
                handled = record {
                  paced = h.paced;
                  drained = omega (arith, h.drained, shrinks);
                  next = h.next;
                };
                taken = λ _. omega (arith, h.drained, recv-takes s.conn s.request 28 27 whole);
              })
              (handle_command-Handled (command req.type) req s' p))
    ])
  ]
    where
      got : ℤ × List ℕ × Conn
      got = recv s.conn s.request request_size

      req : Request
      req = decode_request got.1

      s' : Phase D
      s' = record s { request = host_order got.1; conn = got.2 }

      shrinks : length got.2.inbox ≤ length s.conn.inbox
      shrinks = recv-shrinks s.conn s.request request_size

      stopped : Rounded s (return minus_one, s')
      stopped = record {
        handled = record { paced = p; drained = shrinks; next = inr refl };
        taken = λ e. cc;
      }

  next_round :
      (fuel : ℕ) (s : Phase D) (ns : Next × Phase D)
      → Rounded s ns
      → (ns.0 ≡ continue
          → Ends (request_loop cfg bs fuel ns.1) (λ rs. IsResult rs.0 × IsDrained ns.1 rs.1))
      → Ends
          (elim ns.0 [ continue ↦ request_loop cfg bs fuel ns.1 | return r ↦ done (r, ns.1) ])
          (λ rs. IsResult rs.0 × IsDrained s rs.1)
  next_round fuel s (continue, s') r later =
      Ends-weaken (request_loop cfg bs fuel s')
        (λ rs e. (e.0, omega (arith, e.1, r.handled.drained))) (later refl)
  next_round fuel s (return v, s') r later = (r.handled.next, r.handled.drained)

  request_loop-Ends :
      (fuel : ℕ) (s : Phase D)
      → IsPaced s
      → length s.conn.inbox < fuel
      → Ends (request_loop cfg bs fuel s) (λ rs. IsResult rs.0 × IsDrained s rs.1)
  unfolding request_loop
  request_loop-Ends zero s p enough = absurd (omega arith)
  request_loop-Ends (suc fuel) s p enough =
      Ends->>= (request_round cfg bs s) _ (Rounded s) (λ rs. IsResult rs.0 × IsDrained s rs.1)
        (request_round-Rounded s p)
        λ ns r.
          next_round fuel s ns r
            λ e. request_loop-Ends fuel ns.1 r.handled.paced (omega (arith, r.taken e))

-- Whatever the client sends, whatever its receives and the sends return and whatever the plugin
-- answers, the transmission phase comes to an end: it runs into a fault, or it returns 0 or -1.
-- The block size is no larger than the server's buffer.
pub transmission_phase-Ends :
    {D : Type 0} (cfg : Config) (ctx : NbdContext D) (request nbd_buffer : List ℕ) (conn : Conn)
    (dev : D)
    → ctx.minimum_block_size ≤ cfg.nbd_buffer_len
    → Ends (transmission_phase cfg (some ctx) request nbd_buffer conn dev) (λ out. IsResult out.0)
unfolding transmission_phase
transmission_phase-Ends {D} cfg ctx request nbd_buffer conn dev fits =
    Ends->>= (request_loop cfg ctx.minimum_block_size (length conn.inbox + 1) s₀) _
      (λ rs. IsResult rs.0 × IsDrained s₀ rs.1) (λ out. IsResult out.0)
      (request_loop-Ends cfg ctx.minimum_block_size fits (length conn.inbox + 1) s₀ (λ _. refl)
        (omega arith))
      λ rs r. r.0
  where
    s₀ : Phase D
    s₀ = start cfg ctx request nbd_buffer conn dev
