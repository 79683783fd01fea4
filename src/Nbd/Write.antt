-- ===== src/Nbd/Write.antt =====
-- NBD_CMD_WRITE of servers/nbd/protocol.c.
pub mod Loop
pub mod Chunk
pub mod Store
pub mod Replies
pub mod Pieces
pub mod Delivery
use lw_nbd.Prelude.{
  ℕ, zero, suc, ◌+◌, true, false, Run, done, out_of_fuel, ◌>>=◌, take, ◌==◌, if◌then◌else◌, is_zero,
  as_u32,
}
use lw_nbd.Conn.{recv, send}
use lw_nbd.Device.{lwnbd_pwrite}
use lw_nbd.Nbd.Errno
use lw_nbd.Nbd.Phase.{Config, Phase, past_end, accept, clip, last_chunk, advance}
use lw_nbd.Nbd.Wire.{Request, simple_reply, has_flag, flag_read_only}

-- A chunk that does not fail lessens the blocks that remain.
abbrev pub write_fuel : {D : Type 0} → Phase D → ℕ
write_fuel s = s.blkremains + 2

module _ {D : Type 0} (cfg : Config) (blocksize : ℕ) where
  -- `r == byteread`: the chunk goes to the plugin
  unfoldable pub store_chunk : Phase D → Run (Phase D)
  store_chunk s = do
    (r, dev) ← lwnbd_pwrite s.ctx.base (take s.byteread s.nbd_buffer) s.bufblksz s.offset 0 s.dev
    let s₁ = record s { dev = dev }
    let s₂ = if is_zero r then s₁ else record s₁ { error = Errno.io; sendflag = 0 }
    done (advance cfg s₂)

  -- one round of `while (sendflag)`, once its test has passed
  unfoldable pub write_round : Phase D → Run (Phase D)
  write_round s =
      let s₁ = last_chunk (clip blocksize s) in
      let (r, buf, conn) = recv s₁.conn s₁.nbd_buffer s₁.byteread in
      let s₂ = record s₁ { nbd_buffer = buf; conn = conn } in
      if as_u32 r == s₂.byteread
      then store_chunk s₂
      else done (record s₂ { error = Errno.overflow; sendflag = 0 })

  unfoldable pub write_loop : ℕ → Phase D → Run (Phase D)
  write_loop zero s = out_of_fuel
  write_loop (suc fuel) s = elim (s.sendflag == 0) [
    | true ↦ done s
    | false ↦ write_round s >>= λ s'. write_loop fuel s'
  ]

  -- The checks that choose the error, in the source's order.
  unfoldable pub admit_write : Request → Phase D → Run (Phase D)
  admit_write req s =
      if has_flag flag_read_only s.ctx.eflags
      then done (record s { error = Errno.perm })
      else if past_end s.ctx req
      then done (record s { error = Errno.nospc })
      else accept cfg blocksize req s

  -- The whole case; the result of the reply's send is not looked at.
  unfoldable pub write_request : Request → Phase D → Run (Phase D)
  write_request req s = do
    s₁ ← admit_write req s
    s₂ ← write_loop (write_fuel s₁) s₁
    let (r, conn) = send s₂.conn (simple_reply s₂.error req.handle) 0
    done (record s₂ { conn = conn })
