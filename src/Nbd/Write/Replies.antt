-- ===== src/Nbd/Write/Replies.antt =====
-- A whole NBD_CMD_WRITE: the checks, the blocks, one reply.
use lw_nbd.Prelude.{
  ℕ, ℤ, ◌+◌, ◌*◌, ◌/◌, ◌%◌, ◌<◌, ◌≡◌, refl, ap, ◌∙◌, ◌⊎◌, inl, inr, true, false, List, [], ◌∷◌,
  ◌++◌, some, length, done, Returns, Returns->>=, if◌then◌else◌, not_both, ==_iff, Bool-cases, zero,
  suc, arith,
}
use native.Mathlib.Nat.{le_refl}
use lw_nbd.Plugin.{Plugin}
use lw_nbd.Conn.{Recv, Packet, send}
use lw_nbd.Nbd.Errno
use lw_nbd.Nbd.Phase.{Config, Phase, past_end}
use lw_nbd.Nbd.Phase.Accept.{IsServable, accepted, accept-done, accept-bounds}
use lw_nbd.Nbd.Phase.Chunk.{IsReady}
use lw_nbd.Nbd.Write.{admit_write, write_loop, write_request, write_fuel}
use lw_nbd.Nbd.Medium.{patch, stored, WritesTo}
use lw_nbd.Nbd.Write.Chunk.{AllHonest}
use lw_nbd.Nbd.Write.Store.{WriteSpec, write_loop-WriteSpec}
use lw_nbd.Nbd.Wire.{Request, simple_reply, has_flag, flag_read_only}

abbrev pub reply_packet : ℕ → Request → Packet
reply_packet error req = record { bytes = simple_reply error req.handle; flags = 0 }

-- What WRITE has done when it returns: one reply; and if that carries no error, `total` bytes have
-- come in and are on the medium from `from` on.
pub record IsWritten {D : Type 0} (view : D → ℕ → ℕ) (req : Request) (from total : ℕ)
    (s s' : Phase D) : Type 0 where
  pub replied : s'.conn.outbox ≡ s.conn.outbox ++ (reply_packet s'.error req ∷ [])
  pub all :
      s'.error ≡ 0
      → (rs : List Recv) × (s.conn.inbox ≡ rs ++ s'.conn.inbox)
        × (length (stored rs) ≡ total)
        × (view s'.dev ≡ patch (view s.dev) from (stored rs))

module _ {D : Type 0} (cfg : Config) (bs : ℕ) (req : Request) (s : Phase D) where
  pub admit_write-accepted :
      IsServable cfg bs req s
      → has_flag flag_read_only s.ctx.eflags ≡ false
      → admit_write cfg bs req s ≡ done (accepted cfg bs req s)
  unfolding admit_write
  admit_write-accepted v w = rw w (rw v.within (accept-done cfg bs req s v.positive))

  pub accepted-IsReady : IsServable cfg bs req s → IsReady bs (accepted cfg bs req s)
  accepted-IsReady v =
      let b =
        accept-bounds cfg.nbd_buffer_len bs req.count req.offset v.positive v.fits v.small
          v.count_width v.no_wrap in
      record {
        rem_small = b.3;
        fits = b.1;
        exact = b.0;
        progress = inl b.2;
        ended = λ e. absurd (omega arith);
        in_range = b.4;
      }

module _ {D : Type 0} (view : D → ℕ → ℕ) (cfg : Config) (bs : ℕ) (req : Request) (s : Phase D)
    (p : Plugin D) (f : ℕ → List ℕ → ℕ → ℕ → ℕ → D → ℤ × D) (v : IsServable cfg bs req s)
    (writable : has_flag flag_read_only s.ctx.eflags ≡ false) (connected : s.ctx.p ≡ some p)
    (has : p.pwrite ≡ some f) (disk : WritesTo view bs s.ctx.handle f)
    (honest : AllHonest s.conn.inbox) (offset_aligned : req.offset % bs ≡ 0)
    (count_aligned : req.count % bs ≡ 0) where
  start : Phase D
  start = accepted cfg bs req s

  WriteSpec-IsWritten :
      (s' : Phase D)
      → WriteSpec view bs start s'
      → Returns
          (let (r, conn) = send s'.conn (simple_reply s'.error req.handle) 0 in
            done (record s' { conn = conn }))
          (IsWritten view req req.offset req.count s)
  unfolding start send
  WriteSpec-IsWritten s' spec = record {
    replied = ap (λ o. o ++ (reply_packet s'.error req ∷ [])) spec.keeps.outbox;
    all = λ e.
        let (rs, st) = spec.all e in
        (
          rs,
          st.received,
          st.amount ∙ whole req.count count_aligned,
          st.bytes ∙ ap (λ a. patch (view s.dev) a (stored rs)) (whole req.offset offset_aligned),
        );
  }
    where
      whole : (a : ℕ) → a % bs ≡ 0 → a / bs * bs ≡ a
      whole a h = grind arith

  -- A WRITE that passes the checks, to an export that is not read-only, with offset and count
  -- multiples of the block size, always ends and hands exactly one reply to the sends; if the
  -- reply reports success, exactly `count` bytes have been taken from the connection and the
  -- medium is what it was with those bytes stored at the offset. The range is within the export
  -- and its end below 2^64, the block size is not 0 and fits the buffer, which is shorter than
  -- 2^31, and the fields have their widths. The plugin has stored what it reports as stored, and
  -- each receive stores as many bytes as it reports.
  pub write_request-IsWritten :
      Returns (write_request cfg bs req s) (IsWritten view req req.offset req.count s)
  unfolding write_request start
  write_request-IsWritten = rw (admit_write-accepted cfg bs req s v writable) (
      Returns->>= (write_loop cfg bs (write_fuel start) start) _ (WriteSpec view bs start)
        (IsWritten view req req.offset req.count s)
        (write_loop-WriteSpec view cfg bs p f has (write_fuel start) start connected disk
          (accepted-IsReady cfg bs req s v) honest (inr (le_refl _)))
        WriteSpec-IsWritten)

-- What a WRITE answers when it is refused: EPERM on a read-only export, ENOSPC past the end.
abbrev pub refusal : {D : Type 0} → Request → Phase D → ℕ
refusal req s = if has_flag flag_read_only s.ctx.eflags then Errno.perm else Errno.nospc

admit_write-refused :
    {D : Type 0} (cfg : Config) (bs : ℕ) (req : Request) (s : Phase D)
    → (has_flag flag_read_only s.ctx.eflags ≡ true) ⊎ (past_end s.ctx req ≡ true)
    → admit_write cfg bs req s ≡ done (record s { error = refusal req s })
unfolding admit_write
admit_write-refused cfg bs req s why = elim (Bool-cases (has_flag flag_read_only s.ctx.eflags)) [
  | inl ro ↦ rw ro refl
  | inr rw_ ↦ rw rw_ (elim why [ inl ro ↦ absurd (not_both ro rw_) | inr past ↦ rw past refl ])
]

write_loop-idle :
    {D : Type 0} (cfg : Config) (bs fuel : ℕ) (s : Phase D)
    → 0 < fuel
    → s.sendflag ≡ 0
    → write_loop cfg bs fuel s ≡ done s
unfolding write_loop
write_loop-idle cfg bs zero s h off = absurd (omega arith)
write_loop-idle cfg bs (suc fuel) s h off = rw ((==_iff s.sendflag 0).1 off, write_loop) refl

-- With no transfer flag left over, a WRITE to a read-only export or past the end sends one reply
-- with EPERM or ENOSPC and does nothing else: no byte reaches the plugin, and no byte of the
-- payload is taken from the connection.
pub write_request-refused :
    {D : Type 0} (cfg : Config) (bs : ℕ) (req : Request) (s : Phase D)
    → s.sendflag ≡ 0
    → (has_flag flag_read_only s.ctx.eflags ≡ true) ⊎ (past_end s.ctx req ≡ true)
    → write_request cfg bs req s
      ≡ done (record s {
        error = refusal req s;
        conn = (send s.conn (simple_reply (refusal req s) req.handle) 0).1;
      })
unfolding write_request
write_request-refused cfg bs req s off why = rw (admit_write-refused cfg bs req s why) (
    rw
      (write_loop-idle cfg bs (s.blkremains + 2) (record s { error = refusal req s }) (omega arith)
        off)
      refl)
