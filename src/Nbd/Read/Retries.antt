-- ===== src/Nbd/Read/Retries.antt =====
-- NBD_CMD_READ over a plugin that fails every time, and over a block size larger than the buffer.
use lw_nbd.Prelude.{
  ℕ, ℤ, zero, suc, ◌^◌, ◌<◌, ◌≡◌, ◌≢◌, refl, sym, ap, subst, ◌∙◌, true, false, List, [], some, done,
  out_of_fuel, Returns, Returns-weaken, ◌==◌, ==_iff, as_u32, take, arith,
}
use lw_nbd.Plugin.{Plugin}
use lw_nbd.Conn.{send, acks-send}
use lw_nbd.Device.{lwnbd_pread-done}
use lw_nbd.Nbd.Context.{NbdContext}
use lw_nbd.Nbd.Phase.{Config, Phase, clip, last_chunk, advance}
use lw_nbd.Nbd.Medium.{Pread, AlwaysReads, NeverReads}
use lw_nbd.Nbd.Read.{again, gave_up, exhausted, read_loop, read_round, retry_chunk, send_chunk}
use lw_nbd.Nbd.Read.Loop.{read_loop-on}

head_same :
    {D : Type 0} (bs : ℕ) (s : Phase D)
    → let c = last_chunk (clip bs s) in (c.ctx ≡ s.ctx) × (c.retry ≡ s.retry) × (c.conn ≡ s.conn)
unfolding last_chunk clip
head_same bs s = (ground arith, ground arith, ground arith)

off : {n : ℕ} → n ≢ 0 → (n == 0) ≡ false
off h = ground arith

module _ {D : Type 0} (cfg : Config) (bs : ℕ) (t : Phase D) where
  retry_chunk-zero : t.retry ≡ 0 → retry_chunk cfg bs t ≡ (gave_up, t)
  unfolding retry_chunk
  retry_chunk-zero e = rw ((==_iff t.retry 0).1 e) refl

  retry_chunk-suc :
      (n : ℕ)
      → t.retry ≡ suc n
      → retry_chunk cfg bs t ≡ (again, record t { retry = n; sendflag = 1 })
  unfolding retry_chunk
  retry_chunk-suc n e = ground arith

  no_rounds : read_loop cfg bs 0 t ≡ out_of_fuel
  unfolding read_loop
  no_rounds = refl

  send_chunk-empty :
      t.byteread ≡ 0
      → t.conn.acks ≡ []
      → send_chunk cfg bs t ≡ (
        again,
        advance cfg (record t { conn = (send t.conn (take t.byteread t.nbd_buffer) t.sendflag).1 }),
      )
  unfolding send_chunk send
  send_chunk-empty e a =
      let same : (as_u32 (send t.conn (take t.byteread t.nbd_buffer) t.sendflag).0 == t.byteread)
          ≡ true =
        rw a (rw e refl) in
      rw same refl

  -- With no room in the buffer and blocks left, the head of the loop changes nothing.
  head_stuck : t.bufblksz ≡ 0 → 0 < t.blkremains → last_chunk (clip bs t) ≡ t
  unfolding last_chunk clip
  head_stuck e h = ground arith

module _ {D : Type 0} (cfg : Config) (bs : ℕ) (p : Plugin D) (f : Pread D)
    (has : p.pread ≡ some f) where
  -- the state that a failed call leaves, before the retries are looked at
  abbrev failed : Phase D → Phase D
  failed s =
      let c = last_chunk (clip bs s) in
      let (r, buf, dev) = f c.ctx.handle c.nbd_buffer c.bufblksz c.offset 0 c.dev in
      record c { nbd_buffer = buf; dev = dev }

  read_round-NeverReads :
      (s : Phase D)
      → s.ctx.p ≡ some p
      → NeverReads s.ctx.handle f
      → read_round cfg bs s ≡ done (retry_chunk cfg bs (failed s))
  unfolding read_round
  read_round-NeverReads s connected never =
      rw (lwnbd_pread-done c.ctx.base c.nbd_buffer c.bufblksz c.offset 0 c.dev connected' has)
        (rw (never' c.nbd_buffer c.bufblksz c.offset c.dev) refl)
    where
      c : Phase D
      c = last_chunk (clip bs s)

      connected' : c.ctx.p ≡ some p
      connected' = ap (λ (x : NbdContext D). x.p) (head_same bs s).0 ∙ connected

      never' : NeverReads c.ctx.handle f
      never' = subst (λ (x : NbdContext D). NeverReads x.handle f) (sym (head_same bs s).0) never

  -- When the plugin fails every call, the loop makes one call more than the retries left, sends
  -- nothing, and gives up: with that many rounds it has, with fewer it is still at it.
  pub read_loop-NeverReads :
      (retry : ℕ) (s : Phase D)
      → s.retry ≡ retry
      → s.sendflag ≢ 0
      → s.ctx.p ≡ some p
      → NeverReads s.ctx.handle f
      → Returns (read_loop cfg bs (suc retry) s) (λ es. (es.0 ≡ exhausted) × (es.1.conn ≡ s.conn))
        × (read_loop cfg bs retry s ≡ out_of_fuel)
  read_loop-NeverReads zero s none flag connected never = (
    rw (read_loop-on cfg bs 0 s (off flag)) (
        rw (read_round-NeverReads s connected never) (
          rw (retry_chunk-zero cfg bs (failed s) ((head_same bs s).1 ∙ none))
            (refl, (head_same bs s).2))),
    no_rounds cfg bs s,
  )
  read_loop-NeverReads (suc n) s left flag connected never =
      let later : Returns (read_loop cfg bs (suc n) s')
            (λ es. (es.0 ≡ exhausted) × (es.1.conn ≡ s'.conn))
          × (read_loop cfg bs n s' ≡ out_of_fuel) =
        read_loop-NeverReads n s' refl (λ e. omega arith)
          (ap (λ (x : NbdContext D). x.p) same_ctx ∙ connected)
          (subst (λ (x : NbdContext D). NeverReads x.handle f) (sym same_ctx) never) in
      (
        rw (read_loop-on cfg bs (suc n) s (off flag)) (
            rw (read_round-NeverReads s connected never) (
              rw (retry_chunk-suc cfg bs (failed s) n ((head_same bs s).1 ∙ left)) (
                Returns-weaken (read_loop cfg bs (suc n) s')
                  (λ es q. (q.0, q.1 ∙ (head_same bs s).2)) later.0))),
        rw (read_loop-on cfg bs n s (off flag)) (
            rw (read_round-NeverReads s connected never)
              (rw (retry_chunk-suc cfg bs (failed s) n ((head_same bs s).1 ∙ left)) later.1)),
      )
    where
      s' : Phase D
      s' = record (failed s) { retry = n; sendflag = 1 }

      same_ctx : s'.ctx ≡ s.ctx
      same_ctx = (head_same bs s).0

  -- A state in which the loop has blocks to send and room for none in its buffer.
  pub record IsStuck (s : Phase D) : Type 0 where
    pub flag : s.sendflag ≢ 0
    pub no_room : (s.bufblksz ≡ 0) × (s.byteread ≡ 0)
    pub left : 0 < s.blkremains
    pub widths : (s.blkremains < 2 ^ 32) × (s.offset < 2 ^ 64)
    pub sends : s.conn.acks ≡ []
    pub connected : s.ctx.p ≡ some p
    pub reads : AlwaysReads s.ctx.handle f

  -- The state after a round of such a loop: a packet of no bytes has gone out.
  abbrev stuck_next : Phase D → Phase D
  stuck_next s =
      let (r, buf, dev) = f s.ctx.handle s.nbd_buffer s.bufblksz s.offset 0 s.dev in
      advance cfg (record s {
        nbd_buffer = buf;
        dev = dev;
        conn = (send s.conn (take s.byteread buf) s.sendflag).1;
      })

  read_round-IsStuck : (s : Phase D) → IsStuck s → read_round cfg bs s ≡ done (again, stuck_next s)
  unfolding read_round
  read_round-IsStuck s st = rw (head_stuck cfg bs s st.no_room.0 st.left) (
      rw (lwnbd_pread-done s.ctx.base s.nbd_buffer s.bufblksz s.offset 0 s.dev st.connected has) (
        rw (st.reads s.nbd_buffer s.bufblksz s.offset s.dev) (
          ap done (
            send_chunk-empty cfg bs (record s { nbd_buffer = got.1; dev = got.2 }) st.no_room.1
              st.sends))))
    where
      got : ℤ × List ℕ × D
      got = f s.ctx.handle s.nbd_buffer s.bufblksz s.offset 0 s.dev

  stuck_next-IsStuck : (s : Phase D) → IsStuck s → IsStuck (stuck_next s)
  unfolding advance
  stuck_next-IsStuck s st = record {
    flag = st.flag;
    no_room = st.no_room;
    left = ground arith;
    widths = ground arith;
    sends = acks-send s.conn _ s.sendflag st.sends;
    connected = st.connected;
    reads = st.reads;
  }

  -- From such a state the loop never ends: no number of rounds is enough, although the plugin
  -- succeeds every time and every send takes all it is given.
  pub read_loop-IsStuck :
      (fuel : ℕ) (s : Phase D) → IsStuck s → read_loop cfg bs fuel s ≡ out_of_fuel
  read_loop-IsStuck zero s st = no_rounds cfg bs s
  read_loop-IsStuck (suc fuel) s st = rw (read_loop-on cfg bs fuel s (off st.flag)) (
      rw (read_round-IsStuck s st)
        (read_loop-IsStuck fuel (stuck_next s) (stuck_next-IsStuck s st)))
