-- ===== src/Nbd/Transmission/WriteSession.antt =====
-- A session of `transmission_phase` that writes, reads the same bytes back and disconnects.
use lw_nbd.Prelude.{
  ℕ, ℤ, pos, suc, ◌+◌, ◌-◌, ◌*◌, ◌≤◌, ◌/◌, ◌%◌, ◌^◌, ltb, as_size, ◌<◌, ◌≡◌, refl, sym, ap, subst,
  ◌∙◌, some, false, Option, List, [], ◌∷◌, ◌++◌, append_assoc, length, done, Returns,
  Returns-weaken, Returns->>=, arith,
}
use lw_nbd.Plugin.{Plugin}
use lw_nbd.Conn.{Conn, Recv}
use lw_nbd.Nbd.Context.{NbdContext, State}
use lw_nbd.Nbd.Phase.{Config, Phase, past_end}
use lw_nbd.Nbd.Phase.Accept.{IsServable}
use lw_nbd.Nbd.Medium.{
  span, patch, patch-span, payload, payload-send, Pread, ReadsFrom, WritesTo, AlwaysReads,
}
use lw_nbd.Nbd.Transmission.{
  Next, continue, return, request_round, request_loop, start, transmission_phase,
}
use lw_nbd.Nbd.Transmission.Dispatch.{Brings, request_recv, after_recv, request_round-write}
use lw_nbd.Nbd.Transmission.Session.{IsSent, read_disc_rounds}
use lw_nbd.Nbd.Write.{write_request}
use lw_nbd.Nbd.Write.Replies.{reply_packet}
use lw_nbd.Nbd.Write.Delivery.{IsDelivered, write_request-IsDelivered, length-joined}
use lw_nbd.Nbd.Write.Pieces.{AlwaysWrites, ArePieces, joined, delivered}
use lw_nbd.Nbd.Wire.{Request, simple_reply, has_flag, flag_read_only}

-- What the client sends: the WRITE with its payload, a READ, a DISC.
abbrev pub conversation : Request → List (List ℕ) → Request → Request → List Recv → List Recv
conversation write ds read disc rest =
    request_recv write ∷ delivered ds (request_recv read ∷ request_recv disc ∷ rest)

-- What the client has when it has written, read and disconnected: two replies that carry no error,
-- and the bytes that it has written.
pub record ReadBack {D : Type 0} (ctx : NbdContext D) (write read : Request) (bytes : List ℕ)
    (conn : Conn) (rest : List Recv) (out : ℤ × Option (NbdContext D) × Conn × D) : Type 0 where
  pub returned : out.0 ≡ pos 0
  pub state : out.1 ≡ some (record ctx { state = State.abort })
  pub left : out.2.inbox ≡ rest
  pub answers :
      payload out.2.outbox
      ≡ payload conn.outbox
        ++ (simple_reply 0 write.handle ++ (simple_reply 0 read.handle ++ bytes))

length-delivered :
    (ds : List (List ℕ)) (rest : List Recv) → length rest ≤ length (delivered ds rest)
length-delivered [] rest = omega arith
length-delivered (d ∷ ds) rest = omega (arith, length-delivered ds rest)

module _ {D : Type 0} (view : D → ℕ → ℕ) (cfg : Config) (ctx : NbdContext D) (p : Plugin D)
    (f : Pread D) (g : ℕ → List ℕ → ℕ → ℕ → ℕ → D → ℤ × D) (connected : ctx.p ≡ some p)
    (reads : p.pread ≡ some f) (writes : p.pwrite ≡ some g)
    (readable : ReadsFrom view ctx.minimum_block_size ctx.handle f)
    (writable : WritesTo view ctx.minimum_block_size ctx.handle g)
    (always_reads : AlwaysReads ctx.handle f) (always_writes : AlwaysWrites ctx.handle g)
    (open_ : has_flag flag_read_only ctx.eflags ≡ false) where
  module _ (write read disc : Request) (ds : List (List ℕ)) (rest : List Recv) (sw : IsSent write 1)
      (sr : IsSent read 0) (sd : IsSent disc 2) (same_offset : read.offset ≡ write.offset)
      (same_count : read.count ≡ write.count)
      (offset_aligned : write.offset % ctx.minimum_block_size ≡ 0)
      (count_aligned : write.count % ctx.minimum_block_size ≡ 0) (some_bytes : 0 < write.count)
      (pieces : ArePieces ctx.minimum_block_size
        (cfg.nbd_buffer_len / ctx.minimum_block_size)
        (write.count / ctx.minimum_block_size)
        ds) where
    abbrev more : List Recv
    more = request_recv read ∷ request_recv disc ∷ rest

    first_round :
        (s : Phase D)
        → s.ctx ≡ ctx
        → s.conn.inbox ≡ conversation write ds read disc rest
        → s.conn.acks ≡ []
        → IsServable cfg ctx.minimum_block_size write s
        → Returns
            (request_round cfg ctx.minimum_block_size s)
            (λ ns. (ns.0 ≡ continue) × IsDelivered view write (joined ds) more s ns.1)
    first_round s ec e acked v =
        rw (request_round-write cfg bs s write (delivered ds more) b sw.kind) (
          Returns->>= (write_request cfg bs write s') _ (IsDelivered view write (joined ds) more s')
            (λ ns. (ns.0 ≡ continue) × IsDelivered view write (joined ds) more s ns.1)
            (write_request-IsDelivered view cfg bs write s' p g v'
              (ap (λ (x : NbdContext D). has_flag flag_read_only x.eflags) ec ∙ open_)
              (ap (λ (x : NbdContext D). x.p) ec ∙ connected) writes
              (subst (λ (x : NbdContext D). WritesTo view bs x.handle g) (sym ec) writable)
              (subst (λ (x : NbdContext D). AlwaysWrites x.handle g) (sym ec) always_writes)
              offset_aligned count_aligned some_bytes ds more pieces refl acked)
            λ s'' d. (
              refl,
              record {
                ctx = d.ctx;
                replied = d.replied;
                left = d.left;
                acks = d.acks;
                stored = d.stored;
              },
            ))
      where
        bs : ℕ
        bs = ctx.minimum_block_size

        b : Brings s write (delivered ds more)
        b = record { next = e; sized = sw.sized; magic = sw.magic }

        s' : Phase D
        s' = after_recv cfg bs s write (delivered ds more)

        v' : IsServable cfg bs write s'
        v' = record {
          count_width = v.count_width;
          offset_width = v.offset_width;
          positive = v.positive;
          fits = v.fits;
          small = v.small;
          no_wrap = v.no_wrap;
          within = v.within;
        }

    -- The READ asks for what the WRITE has stored.
    read-IsServable :
        (s s' : Phase D)
        → s'.ctx ≡ s.ctx
        → IsServable cfg ctx.minimum_block_size write s
        → IsServable cfg ctx.minimum_block_size read s'
    read-IsServable s s' ec v = record {
      count_width = omega (arith, v.count_width, same_count);
      offset_width = omega (arith, v.offset_width, same_offset);
      positive = v.positive;
      fits = v.fits;
      small = v.small;
      no_wrap = omega (arith, v.no_wrap, same_count, same_offset);
      within =
          ap (λ (x : NbdContext D). past_end x read) ec
          ∙ ap (λ k. ltb (as_size s.ctx.exportsize) (k % 2 ^ 64)) {x = read.offset + read.count}
              (omega (arith, same_count, same_offset))
          ∙ v.within;
    }

    read_back :
        (s s' : Phase D)
        → view s'.dev ≡ patch (view s.dev) write.offset (joined ds)
        → 0 < ctx.minimum_block_size
        → span (view s'.dev) read.offset read.count ≡ joined ds
    read_back s s' stored positive =
        ap (λ m. span m read.offset read.count) stored
        ∙ ap (λ a. span (patch (view s.dev) write.offset (joined ds)) a read.count) same_offset
        ∙ ap (λ n. span (patch (view s.dev) write.offset (joined ds)) write.offset n) amount
        ∙ patch-span (view s.dev) write.offset (joined ds)
      where
        whole : (n b : ℕ) → n % b ≡ 0 → n / b * b ≡ n
        whole n b h = grind arith

        amount : read.count ≡ length (joined ds)
        amount =
            same_count
            ∙ sym (whole write.count ctx.minimum_block_size count_aligned)
            ∙ sym (length-joined ctx.minimum_block_size _ _ ds pieces)

    answers :
        (s s' : Phase D)
        → IsDelivered view write (joined ds) more s s'
        → 0 < ctx.minimum_block_size
        → payload s'.conn.outbox
            ++ (simple_reply 0 read.handle ++ span (view s'.dev) read.offset read.count)
          ≡ payload s.conn.outbox
            ++ (simple_reply 0 write.handle ++ (simple_reply 0 read.handle ++ joined ds))
    answers s s' d positive =
        ap
          (λ o.
            payload o ++ (simple_reply 0 read.handle ++ span (view s'.dev) read.offset read.count))
          d.replied
        ∙ ap (λ l. l ++ (simple_reply 0 read.handle ++ span (view s'.dev) read.offset read.count))
            (payload-send s.conn.outbox (reply_packet 0 write))
        ∙ append_assoc (payload s.conn.outbox) (simple_reply 0 write.handle) _
        ∙ ap
            (λ b.
              payload s.conn.outbox
              ++ (simple_reply 0 write.handle ++ (simple_reply 0 read.handle ++ b)))
            (read_back s s' d.stored positive)

    rest_of_session :
        (fuel : ℕ) (s : Phase D) (ns : Next × Phase D)
        → s.ctx ≡ ctx
        → IsServable cfg ctx.minimum_block_size write s
        → (ns.0 ≡ continue) × IsDelivered view write (joined ds) more s ns.1
        → Returns
            (elim ns.0 [
              | continue ↦ request_loop cfg ctx.minimum_block_size (suc (suc fuel)) ns.1
              | return r ↦ done (r, ns.1)
            ])
            (λ rs.
              ReadBack ctx write read
                (joined ds)
                s.conn
                rest
                (rs.0, some rs.1.ctx, rs.1.conn, rs.1.dev))
    rest_of_session fuel s (return r, s') ec v q = absurd (cc)
    rest_of_session fuel s (continue, s') ec v (_, d) =
        Returns-weaken (request_loop cfg ctx.minimum_block_size (suc (suc fuel)) s')
          (λ rs spec. record {
            returned = spec.returned;
            state = spec.state;
            left = spec.left;
            answers = spec.bytes ∙ answers s s' d v.positive;
          })
          (read_disc_rounds view cfg ctx p f connected reads readable always_reads read disc rest
            fuel s' (d.ctx ∙ ec) sr sd d.left d.acks (read-IsServable s s' d.ctx v)
            (ap (λ k. k % ctx.minimum_block_size) same_offset ∙ offset_aligned)
            (ap (λ k. k % ctx.minimum_block_size) same_count ∙ count_aligned))

    -- A client that sends a WRITE, the payload in the pieces that the server asks for, a READ of
    -- the same range and a DISC is sent exactly the two replies, each with error 0 and its
    -- request's handle, and then the bytes that it has written; the phase returns 0 with the
    -- context's state at ABORT and leaves what follows unread. The range is within the export, not
    -- empty and aligned to blocks, the block size is not 0 and fits the buffer, which is shorter
    -- than 2^31, the fields have their widths, the export is not read-only, the plugin reads and
    -- writes as documented and fails no call, and no send falls short.
    pub transmission_phase-ReadBack :
        (conn : Conn) (request nbd_buffer : List ℕ) (dev : D)
        → conn.inbox ≡ conversation write ds read disc rest
        → conn.acks ≡ []
        → IsServable cfg ctx.minimum_block_size write (start cfg ctx request nbd_buffer conn dev)
        → Returns
            (transmission_phase cfg (some ctx) request nbd_buffer conn dev)
            (ReadBack ctx write read (joined ds) conn rest)
    unfolding transmission_phase request_loop
    transmission_phase-ReadBack conn request nbd_buffer dev e acked v =
        Returns->>= (request_loop cfg bs (length conn.inbox + 1) s₀) _ Q
          (ReadBack ctx write read (joined ds) conn rest)
          (subst (λ n. Returns (request_loop cfg bs n s₀) Q) (sym enough)
            (Returns->>= (request_round cfg bs s₀) _
              (λ ns. (ns.0 ≡ continue) × IsDelivered view write (joined ds) more s₀ ns.1) Q
              (first_round s₀ refl e acked v)
              λ ns q. rest_of_session (length conn.inbox - 2) s₀ ns refl v q))
          λ rs q. q
      where
        bs : ℕ
        bs = ctx.minimum_block_size

        s₀ : Phase D
        s₀ = start cfg ctx request nbd_buffer conn dev

        Q : ℤ × Phase D → Type 0
        Q rs =
            ReadBack ctx write read (joined ds) conn rest (rs.0, some rs.1.ctx, rs.1.conn, rs.1.dev)

        enough : length conn.inbox + 1 ≡ suc (suc (suc (length conn.inbox - 2)))
        enough = omega (arith, ap length e, length-delivered ds more)
