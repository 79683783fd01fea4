-- ===== src/Nbd/Read/Refuse.antt =====
-- NBD_CMD_READ when it is refused, when the plugin keeps failing, and where the code goes wrong.
use lw_nbd.Prelude.{
  ℕ, ℤ, ◌*◌, ◌≡◌, refl, ap, ◌∙◌, inr, true, List, ◌++◌, append_assoc, some, done, Returns,
  Returns-weaken, arith,
}
use native.Mathlib.Nat.{le_refl}
use lw_nbd.Plugin.{Plugin}
use lw_nbd.Conn.{send}
use lw_nbd.Nbd.Errno
use lw_nbd.Nbd.Phase.{Config, Phase, past_end}
use lw_nbd.Nbd.Phase.Chunk.{IsReady}
use lw_nbd.Nbd.Read.{ReadEnd, finished, read_loop, read_request, read_fuel}
use lw_nbd.Nbd.Medium.{span, payload, payload-send, ReadsFrom}
use lw_nbd.Nbd.Read.Serve.{read_loop-ReadSpec}
use lw_nbd.Nbd.Read.Loop.{read_loop-idle}
use lw_nbd.Nbd.Wire.{Request, simple_reply}

module _ {D : Type 0} (cfg : Config) (bs : ℕ) (req : Request) (s : Phase D) where
  -- The state in which a refused request comes to the loop.
  abbrev pub refused : Phase D
  refused = record s {
    error = Errno.io;
    conn = (send s.conn (simple_reply Errno.io req.handle) s.sendflag).1;
  }

  refused-loop :
      past_end s.ctx req ≡ true
      → read_request cfg bs req s ≡ read_loop cfg bs (read_fuel cfg bs refused) refused
  unfolding read_request
  refused-loop h = rw (h, read_request) refl

  -- With no transfer flag left over, a READ past the end of the export sends one reply, with EIO,
  -- and no data; the plugin is not called.
  pub read_request-past_end :
      past_end s.ctx req ≡ true
      → s.sendflag ≡ 0
      → read_request cfg bs req s ≡ done (finished, refused)
  read_request-past_end h off =
      refused-loop h ∙ read_loop-idle cfg bs (read_fuel cfg bs refused) refused (omega arith) off

-- What goes out after a refused READ whose request finds the transfer flag set: the reply, then `k`
-- blocks of the transfer before it.
abbrev pub Leftover :
    {D : Type 0} → (D → ℕ → ℕ) → ℕ → Request → Phase D → ReadEnd × Phase D → Type 0
Leftover view bs req s (end, s') =
    (k : ℕ) × (payload s'.conn.outbox
      ≡ payload s.conn.outbox
        ++ (simple_reply Errno.io req.handle ++ span (view s.dev) (s.offset * bs) (k * bs)))
    × (end ≡ finished → k ≡ s.blkremains)

module _ {D : Type 0} (view : D → ℕ → ℕ) (cfg : Config) (bs : ℕ) (p : Plugin D)
    (f : ℕ → List ℕ → ℕ → ℕ → ℕ → D → ℤ × List ℕ × D) (has : p.pread ≡ some f) where
  -- The flag is not reset between requests. A READ past the end that finds it set, with the loop's
  -- variables as a cut short READ leaves them, answers EIO and then sends blocks of the earlier
  -- READ: all that had remained of it, if the loop finishes.
  pub read_request-stale_flag :
      (req : Request) (s : Phase D)
      → s.ctx.p ≡ some p
      → ReadsFrom view bs s.ctx.handle f
      → IsReady bs s
      → past_end s.ctx req ≡ true
      → Returns (read_request cfg bs req s) (Leftover view bs req s)
  unfolding send
  read_request-stale_flag req s connected disk v h = rw (refused-loop cfg bs req s h) (
      Returns-weaken (read_loop cfg bs (read_fuel cfg bs start) start)
        (λ es sp. (
          sp.0,
          sp.1.bytes
              ∙ ap (λ r. r ++ span (view s.dev) (s.offset * bs) (sp.0 * bs))
                  (payload-send s.conn.outbox _)
              ∙ append_assoc (payload s.conn.outbox) (simple_reply Errno.io req.handle) _,
          λ fin. (sp.2 fin).0,
        ))
        (read_loop-ReadSpec view cfg bs p f has _ start connected disk ready (inr (le_refl _))))
    where
      start : Phase D
      start = refused cfg bs req s

      ready : IsReady bs start
      ready = record {
        rem_small = v.rem_small;
        fits = v.fits;
        exact = v.exact;
        progress = v.progress;
        ended = v.ended;
        in_range = v.in_range;
      }
