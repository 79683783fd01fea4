-- ===== src/Nbd/Read.antt =====
-- NBD_CMD_READ of servers/nbd/protocol.c.
pub mod Loop
pub mod Chunk
pub mod Serve
pub mod Replies
pub mod Refuse
pub mod Retries
use lw_nbd.Prelude.{
  ℕ, zero, suc, ◌+◌, ◌-◌, ◌*◌, true, false, not, Run, done, out_of_fuel, ◌>>=◌, take, ◌==◌,
  if◌then◌else◌, is_zero, as_u32,
}
use lw_nbd.Conn.{send}
use lw_nbd.Device.{lwnbd_pread}
use lw_nbd.Nbd.Errno
use lw_nbd.Nbd.Phase.{Config, Phase, past_end, accept, clip, last_chunk, advance}
use lw_nbd.Nbd.Wire.{Request, simple_reply}

-- How a round of the loop ends, and how the loop does: its test fails, a send takes too little
-- (`break`), or the retries are used up (`return -1`).
pub data Round : Type 0 where
  again send_failed gave_up : Round

pub data ReadEnd : Type 0 where
  finished broken exhausted : ReadEnd

module _ {D : Type 0} (cfg : Config) (blocksize : ℕ) where
  -- `r == 0`: the chunk goes out
  unfoldable pub send_chunk : Phase D → Round × Phase D
  send_chunk s =
      let (r, conn) = send s.conn (take s.byteread s.nbd_buffer) s.sendflag in
      let s' = record s { conn = conn } in
      if as_u32 r == s.byteread then (again, advance cfg s') else (send_failed, s')

  -- otherwise
  unfoldable pub retry_chunk : Phase D → Round × Phase D
  retry_chunk s =
      if not (s.retry == 0)
      then (again, record s { retry = s.retry - 1; sendflag = 1 })
      else (gave_up, s)

  -- one round of `while (sendflag)`, once its test has passed
  unfoldable pub read_round : Phase D → Run (Round × Phase D)
  read_round s = do
    let s₁ = last_chunk (clip blocksize s)
    (r, buf, dev) ← lwnbd_pread s₁.ctx.base s₁.nbd_buffer s₁.bufblksz s₁.offset 0 s₁.dev
    let s₂ = record s₁ { nbd_buffer = buf; dev = dev }
    done (if is_zero r then send_chunk s₂ else retry_chunk s₂)

  unfoldable pub read_loop : ℕ → Phase D → Run (ReadEnd × Phase D)
  read_loop zero s = out_of_fuel
  read_loop (suc fuel) s = elim (s.sendflag == 0) [
    | true ↦ done (finished, s)
    | false ↦ read_round s >>= λ rs. elim rs.0 [
      | again ↦ read_loop fuel rs.1
      | send_failed ↦ done (broken, rs.1)
      | gave_up ↦ done (exhausted, rs.1)
    ]
  ]

  -- Enough rounds for any request with a block size that fits the buffer.
  abbrev pub read_fuel : Phase D → ℕ
  read_fuel s = s.blkremains * (cfg.max_retries + 1) + s.retry + 2

  -- The whole case: the range check, the reply (whose failure is only logged), the loop.
  unfoldable pub read_request : Request → Phase D → Run (ReadEnd × Phase D)
  read_request req s = do
    s₁ ←
        (if past_end s.ctx req
          then done (record s { error = Errno.io })
          else accept cfg blocksize req s)
    let (r, conn) = send s₁.conn (simple_reply s₁.error req.handle) s₁.sendflag
    let s₂ = record s₁ { conn = conn }
    read_loop (read_fuel s₂) s₂
