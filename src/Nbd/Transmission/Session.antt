-- ===== src/Nbd/Transmission/Session.antt =====
-- Whole sessions of `transmission_phase`.
use lw_nbd.Prelude.{
  ℕ, ℤ, pos, suc, ◌+◌, ◌%◌, ◌≡◌, refl, sym, ap, subst, ◌∙◌, some, Option, List, [], ◌∷◌, ◌++◌,
  length, done, Returns, Returns->>=, Returns-both, arith,
}
use lw_nbd.Plugin.{Plugin}
use lw_nbd.Conn.{Conn, Recv}
use lw_nbd.Nbd.Context.{NbdContext, State}
use lw_nbd.Nbd.Phase.{Config, Phase}
use lw_nbd.Nbd.Phase.Accept.{IsServable}
use lw_nbd.Nbd.Read.{ReadEnd, read_request}
use lw_nbd.Nbd.Read.Replies.{Served, Finishes, read_request-aligned, read_request-Finishes}
use lw_nbd.Nbd.Medium.{span, payload, Pread, ReadsFrom, AlwaysReads}
use lw_nbd.Nbd.Transmission.{
  Next, continue, return, after_read, request_round, request_loop, start, transmission_phase,
}
use lw_nbd.Nbd.Transmission.Dispatch.{
  Brings, request_recv, after_recv, request_round-read, request_round-disc,
}
use lw_nbd.Nbd.Wire.{Request, request_magic, simple_reply}
use lw_nbd.Nbd.Wire.Codec.{IsWellSized}

-- A request that a client may write.
pub record IsSent (req : Request) (type : ℕ) : Type 0 where
  pub sized : IsWellSized req
  pub magic : req.magic ≡ request_magic
  pub kind : req.type ≡ type

module _ {D : Type 0} (view : D → ℕ → ℕ) (cfg : Config) (ctx : NbdContext D) (p : Plugin D)
    (f : Pread D) (connected : ctx.p ≡ some p) (has : p.pread ≡ some f)
    (disk : ReadsFrom view ctx.minimum_block_size ctx.handle f)
    (always : AlwaysReads ctx.handle f) where
  -- The state after a READ that the client has sent.
  record AfterRead (req : Request) (s s' : Phase D) (rest : List Recv) : Type 0 where
    same_ctx : s'.ctx ≡ s.ctx
    inbox : s'.conn.inbox ≡ rest
    acks : s'.conn.acks ≡ []
    bytes :
        payload s'.conn.outbox
        ≡ payload s.conn.outbox
          ++ (simple_reply 0 req.handle ++ span (view s.dev) req.offset req.count)

  read_round :
      (s : Phase D) (req : Request) (rest : List Recv)
      → s.ctx ≡ ctx
      → Brings s req rest
      → req.type ≡ 0
      → s.conn.acks ≡ []
      → IsServable cfg ctx.minimum_block_size req s
      → req.offset % ctx.minimum_block_size ≡ 0
      → req.count % ctx.minimum_block_size ≡ 0
      → Returns
          (request_round cfg ctx.minimum_block_size s)
          (λ ns. (ns.0 ≡ continue) × AfterRead req s ns.1 rest)
  read_round s req rest ec b t none v ho hc =
      rw (request_round-read cfg ctx.minimum_block_size s req rest b t) (
        Returns->>= (read_request cfg ctx.minimum_block_size req s') _
          (λ es. Served view req req.offset req.count s' es × Finishes s' es)
          (λ ns. (ns.0 ≡ continue) × AfterRead req s ns.1 rest)
          (Returns-both (read_request cfg ctx.minimum_block_size req s')
            (Served view req req.offset req.count s') (Finishes s')
            (read_request-aligned view cfg ctx.minimum_block_size req s' p f v' connected' has disk'
              ho hc)
            (read_request-Finishes view cfg ctx.minimum_block_size req s' p f v' connected' has
              disk' always' none))
          λ es both. (ap after_read both.1.0, after es.0 es.1 both))
    where
      s' : Phase D
      s' = after_recv cfg ctx.minimum_block_size s req rest

      v' : IsServable cfg ctx.minimum_block_size req s'
      v' = record {
        count_width = v.count_width;
        offset_width = v.offset_width;
        positive = v.positive;
        fits = v.fits;
        small = v.small;
        no_wrap = v.no_wrap;
        within = v.within;
      }

      connected' : s'.ctx.p ≡ some p
      connected' = ap (λ (x : NbdContext D). x.p) ec ∙ connected

      disk' : ReadsFrom view ctx.minimum_block_size s'.ctx.handle f
      disk' =
          subst (λ (x : NbdContext D). ReadsFrom view ctx.minimum_block_size x.handle f) (sym ec)
            disk

      always' : AlwaysReads s'.ctx.handle f
      always' = subst (λ (x : NbdContext D). AlwaysReads x.handle f) (sym ec) always

      after :
          (end : ReadEnd) (s'' : Phase D)
          → Served view req req.offset req.count s' (end, s'') × Finishes s' (end, s'')
          → AfterRead req s s'' rest
      after end s'' both = record {
        same_ctx = both.1.1;
        inbox = both.1.2;
        acks = both.1.3;
        bytes =
            subst
              (λ k.
                payload s''.conn.outbox
                ≡ payload s.conn.outbox
                  ++ (simple_reply 0 req.handle ++ span (view s.dev) req.offset k))
              (both.0.3 both.1.0).0 both.0.2;
      }

  -- What a session leaves that reads once and disconnects.
  pub record SessionSpec (read : Request) (conn : Conn) (dev : D) (rest : List Recv)
      (result : ℤ × Option (NbdContext D) × Conn × D) : Type 0 where
    pub returned : result.0 ≡ pos 0
    pub state : result.1 ≡ some (record ctx { state = State.abort })
    pub left : result.2.inbox ≡ rest
    pub bytes :
        payload result.2.outbox
        ≡ payload conn.outbox
          ++ (simple_reply 0 read.handle ++ span (view dev) read.offset read.count)

  -- The round of the DISC, which is the last.
  disc_round :
      (read disc : Request) (rest : List Recv) (s s' : Phase D) (fuel : ℕ) (next : Next)
      → s.ctx ≡ ctx
      → IsSent disc 2
      → next ≡ continue
      → AfterRead read s s' (request_recv disc ∷ rest)
      → Returns
          (elim next [
            | continue ↦ request_loop cfg ctx.minimum_block_size (suc fuel) s'
            | return r ↦ done (r, s')
          ])
          (λ rs. SessionSpec read s.conn s.dev rest (rs.0, some rs.1.ctx, rs.1.conn, rs.1.dev))
  unfolding request_loop
  disc_round read disc rest s s' fuel (return r) ec sd e a = absurd (cc)
  disc_round read disc rest s s' fuel continue ec sd e a =
      rw (request_round-disc cfg ctx.minimum_block_size s' disc rest b sd.kind) (record {
        returned = refl;
        state =
            ap (λ (x : NbdContext D). some (record x { state = State.abort })) (a.same_ctx ∙ ec);
        left = refl;
        bytes = a.bytes;
      })
    where
      b : Brings s' disc rest
      b = record { next = a.inbox; sized = sd.sized; magic = sd.magic }

  -- The two rounds of a READ and a DISC, whatever the state they begin in.
  pub read_disc_rounds :
      (read disc : Request) (rest : List Recv) (fuel : ℕ) (s : Phase D)
      → s.ctx ≡ ctx
      → IsSent read 0
      → IsSent disc 2
      → s.conn.inbox ≡ request_recv read ∷ request_recv disc ∷ rest
      → s.conn.acks ≡ []
      → IsServable cfg ctx.minimum_block_size read s
      → read.offset % ctx.minimum_block_size ≡ 0
      → read.count % ctx.minimum_block_size ≡ 0
      → Returns
          (request_loop cfg ctx.minimum_block_size (suc (suc fuel)) s)
          (λ rs. SessionSpec read s.conn s.dev rest (rs.0, some rs.1.ctx, rs.1.conn, rs.1.dev))
  unfolding request_loop
  read_disc_rounds read disc rest fuel s ec sr sd e none v ho hc =
      Returns->>= (request_round cfg ctx.minimum_block_size s) _
        (λ ns. (ns.0 ≡ continue) × AfterRead read s ns.1 (request_recv disc ∷ rest))
        (λ rs. SessionSpec read s.conn s.dev rest (rs.0, some rs.1.ctx, rs.1.conn, rs.1.dev))
        (read_round s read (request_recv disc ∷ rest) ec first sr.kind none v ho hc)
        λ ns q. disc_round read disc rest s ns.1 fuel ns.0 ec sd q.0 q.1
    where
      first : Brings s read (request_recv disc ∷ rest)
      first = record { next = e; sized = sr.sized; magic = sr.magic }

  -- A client that sends a READ within the export, aligned to blocks, and then a DISC is sent
  -- exactly the reply with error 0 and the request's handle, then the `count` bytes of the medium
  -- from `offset` on; the phase returns 0 with the context's state at ABORT and leaves what
  -- follows unread. The block size is not 0 and fits the buffer, which is shorter than 2^31, the
  -- fields have their widths, and the end of the range is below 2^64; the plugin reads as
  -- documented and fails no call, and no send falls short.
  pub transmission_phase-read_disc :
      (read disc : Request) (rest : List Recv) (conn : Conn) (request nbd_buffer : List ℕ) (dev : D)
      → IsSent read 0
      → IsSent disc 2
      → conn.inbox ≡ request_recv read ∷ request_recv disc ∷ rest
      → conn.acks ≡ []
      → IsServable cfg ctx.minimum_block_size read (start cfg ctx request nbd_buffer conn dev)
      → read.offset % ctx.minimum_block_size ≡ 0
      → read.count % ctx.minimum_block_size ≡ 0
      → Returns
          (transmission_phase cfg (some ctx) request nbd_buffer conn dev)
          (SessionSpec read conn dev rest)
  unfolding transmission_phase
  transmission_phase-read_disc read disc rest conn request nbd_buffer dev sr sd e none v ho hc =
      Returns->>= (request_loop cfg ctx.minimum_block_size (length conn.inbox + 1) s₀) _
        (λ rs. SessionSpec read conn dev rest (rs.0, some rs.1.ctx, rs.1.conn, rs.1.dev))
        (SessionSpec read conn dev rest)
        (subst
          (λ n.
            Returns (request_loop cfg ctx.minimum_block_size n s₀)
              (λ rs. SessionSpec read conn dev rest (rs.0, some rs.1.ctx, rs.1.conn, rs.1.dev)))
          (sym fuel)
          (read_disc_rounds read disc rest (length rest + 1) s₀ refl sr sd e none v ho hc))
        λ rs spec. spec
    where
      s₀ : Phase D
      s₀ = start cfg ctx request nbd_buffer conn dev

      fuel : length conn.inbox + 1 ≡ suc (suc (length rest + 1))
      fuel = omega (arith, ap length e)
