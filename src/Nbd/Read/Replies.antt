-- ===== src/Nbd/Read/Replies.antt =====
-- A whole NBD_CMD_READ: the reply, then the blocks of the medium.
use lw_nbd.Prelude.{
  mul_le, ℕ, ℤ, ◌*◌, ◌/◌, ◌%◌, ◌≤◌, ◌≡◌, ◌≢◌, refl, ap, subst, ◌∙◌, inl, inr, List, [], ◌++◌,
  append_assoc, some, Returns, Returns-weaken, arith,
}
use native.Mathlib.Nat.{le_refl}
use lw_nbd.Plugin.{Plugin}
use lw_nbd.Conn.{send, send-inbox, acks-send}
use lw_nbd.Nbd.Phase.{Config, Phase}
use lw_nbd.Nbd.Phase.Accept.{IsServable, accepted, accept-done, accept-bounds}
use lw_nbd.Nbd.Read.{ReadEnd, finished, broken, exhausted, read_loop, read_request, read_fuel}
use lw_nbd.Nbd.Medium.{span, payload, payload-send, ReadsFrom, AlwaysReads}
use lw_nbd.Nbd.Phase.Chunk.{IsReady}
use lw_nbd.Nbd.Read.Serve.{read_loop-ReadSpec}
use lw_nbd.Nbd.Wire.{Request, simple_reply}

module _ {D : Type 0} (cfg : Config) (bs : ℕ) (req : Request) (s : Phase D) where
  -- The state in which an accepted request enters the loop: the reply has gone out.
  abbrev replied : Phase D
  replied =
      let c = accepted cfg bs req s in
      record c { conn = (send s.conn (simple_reply 0 req.handle) 0x8000).1 }

  pub read_request-accepted :
      IsServable cfg bs req s
      → read_request cfg bs req s ≡ read_loop cfg bs (read_fuel cfg bs replied) replied
  unfolding read_request
  read_request-accepted v =
      rw (v.within, read_request) (rw (accept-done cfg bs req s v.positive) refl)

  replied-IsReady : IsServable cfg bs req s → IsReady bs replied
  replied-IsReady v =
      let b =
        accept-bounds cfg.nbd_buffer_len bs req.count req.offset v.positive v.fits v.small
          v.count_width v.no_wrap in
      record {
        rem_small = b.3;
        fits = b.1;
        exact = b.0;
        progress = inl b.2;
        ended = λ e. absurd (omega arith);
        in_range = b.4;
      }

  replied-payload : payload replied.conn.outbox ≡ payload s.conn.outbox ++ simple_reply 0 req.handle
  unfolding send
  replied-payload = payload-send s.conn.outbox _

-- What READ has sent when it ends: the reply, then `k` bytes of the medium from `from` on, all
-- `total` of them if the loop finished.
abbrev pub Served :
    {D : Type 0} → (D → ℕ → ℕ) → Request → ℕ → ℕ → Phase D → ReadEnd × Phase D → Type 0
Served view req from total s (end, s') =
    (k : ℕ) × (k ≤ total)
    × (payload s'.conn.outbox
        ≡ payload s.conn.outbox ++ (simple_reply 0 req.handle ++ span (view s.dev) from k))
    × (end ≡ finished → (k ≡ total) × (s'.sendflag ≡ 0))

only_finished : (e : ReadEnd) → e ≢ broken → e ≢ exhausted → e ≡ finished
only_finished finished b x = refl
only_finished broken b x = absurd (b refl)
only_finished exhausted b x = absurd (x refl)

-- The loop has finished, and has kept the context and what is still to be received.
abbrev pub Finishes : {D : Type 0} → Phase D → ReadEnd × Phase D → Type 0
Finishes s (end, s') =
    (end ≡ finished) × (s'.ctx ≡ s.ctx) × (s'.conn.inbox ≡ s.conn.inbox) × (s'.conn.acks ≡ [])

module _ {D : Type 0} (view : D → ℕ → ℕ) (cfg : Config) (bs : ℕ) (req : Request) (s : Phase D)
    (p : Plugin D) (f : ℕ → List ℕ → ℕ → ℕ → ℕ → D → ℤ × List ℕ × D) (v : IsServable cfg bs req s)
    (connected : s.ctx.p ≡ some p) (has : p.pread ≡ some f)
    (disk : ReadsFrom view bs s.ctx.handle f) where
  -- A READ within the export always ends, and has handed to the sends the reply with error 0 and
  -- the request's handle, and then bytes of the medium in order, from the offset rounded down to a
  -- block; all of the count rounded down to blocks if the loop finished. No plugin failure, retry
  -- or short send puts other bytes between them. The range is within the export and its end below
  -- 2^64, the block size is not 0 and fits the buffer, which is shorter than 2^31, and the fields
  -- have their widths. The plugin reads as documented: when it reports success it has filled the
  -- buffer, and a read does not change the medium.
  pub read_request-Served :
      Returns
        (read_request cfg bs req s)
        (Served view req (req.offset / bs * bs) (req.count / bs * bs) s)
  read_request-Served = rw (read_request-accepted cfg bs req s v) (
      Returns-weaken (read_loop cfg bs (read_fuel cfg bs start) start)
        (λ es sp. (
          sp.0 * bs,
          mul_le sp.0 (req.count / bs) bs sp.1.within,
          sp.1.bytes
              ∙ ap (λ r. r ++ span (view s.dev) (req.offset / bs * bs) (sp.0 * bs))
                  (replied-payload cfg bs req s)
              ∙ append_assoc (payload s.conn.outbox) (simple_reply 0 req.handle) _,
          λ fin. (ap (λ n. n * bs) (sp.2 fin).0, (sp.2 fin).1),
        ))
        (read_loop-ReadSpec view cfg bs p f has _ start connected disk
          (replied-IsReady cfg bs req s v) (inr (le_refl _))))
    where
      start : Phase D
      start = replied cfg bs req s

  -- If the plugin reads as documented and fails no call, and every send takes all it is given, a
  -- READ within the export finishes its loop, keeps the context and takes nothing from the
  -- connection. The range is within the export and its end below 2^64, the block size is not 0 and
  -- fits the buffer, which is shorter than 2^31, and the fields have their widths.
  pub read_request-Finishes :
      AlwaysReads s.ctx.handle f
      → s.conn.acks ≡ []
      → Returns (read_request cfg bs req s) (Finishes s)
  read_request-Finishes always none = rw (read_request-accepted cfg bs req s v) (
      Returns-weaken (read_loop cfg bs (read_fuel cfg bs start) start)
        (λ es sp. (
          only_finished es.0 (λ e. sp.3 e acked) (λ e. sp.4 e always),
          sp.1.same_ctx,
          sp.1.same_inbox ∙ send-inbox s.conn _ _,
          sp.1.acked acked,
        ))
        (read_loop-ReadSpec view cfg bs p f has _ start connected disk
          (replied-IsReady cfg bs req s v) (inr (le_refl _))))
    where
      start : Phase D
      start = replied cfg bs req s

      acked : start.conn.acks ≡ []
      acked = acks-send s.conn _ _ none

  -- When the offset and the count of an accepted READ are multiples of the block size, the bytes
  -- sent after the reply are the medium's from the offset on, in order, at most the count, and
  -- exactly the count if the loop finished.
  pub read_request-aligned :
      req.offset % bs ≡ 0
      → req.count % bs ≡ 0
      → Returns (read_request cfg bs req s) (Served view req req.offset req.count s)
  read_request-aligned ho hc =
      subst (λ o. Returns (read_request cfg bs req s) (Served view req o req.count s))
        (whole req.offset ho)
        (subst
          (λ c. Returns (read_request cfg bs req s) (Served view req (req.offset / bs * bs) c s))
          (whole req.count hc) read_request-Served)
    where
      whole : (a : ℕ) → a % bs ≡ 0 → a / bs * bs ≡ a
      whole a h = grind arith
