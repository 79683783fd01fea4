-- ===== src/Nbd/Phase.antt =====
-- The local variables of `transmission_phase` (servers/nbd/protocol.c) and what they are computed
-- from. They live across the rounds of its `while (1)`, so a request starts with what the last one
-- left. `conn` and `dev` are the world: the connection and the plugins' state.
pub mod Accept
pub mod Chunk
use lw_nbd.Prelude.{
  ℕ, ◌+◌, ◌*◌, ◌/◌, ◌%◌, ◌^◌, ◌-◌, Bool, List, Run, done, fault, ◌>>=◌, ltb, leb, ◌==◌,
  if◌then◌else◌, as_size,
}
use lw_nbd.Conn.{Conn}
use lw_nbd.Nbd.Context.{NbdContext}
use lw_nbd.Nbd.Wire.{Request}

-- CONFIG_MAX_RETRIES and CONFIG_NBD_BUFFER_LEN, set when the program is built
pub record Config : Type 0 where
  pub max_retries : ℕ
  pub nbd_buffer_len : ℕ

-- `MSG_MORE`, as include/lwnbd/piconbd.h gives it
abbrev pub msg_more : ℕ
msg_more = 0x8000

abbrev pub u32 : ℕ → ℕ
u32 n = n % 2 ^ 32

abbrev pub u64 : ℕ → ℕ
u64 n = n % 2 ^ 64

pub record Phase (D : Type 0) : Type 0 where
  pub ctx : NbdContext D
  pub error : ℕ
  pub retry : ℕ
  pub sendflag : ℕ
  pub blkremains : ℕ  -- uint32_t
  pub byteread : ℕ  -- uint32_t
  pub bufblksz : ℕ  -- uint32_t
  pub offset : ℕ  -- uint64_t
  pub nbd_buffer : List ℕ
  pub request : List ℕ
  pub conn : Conn
  pub dev : D

-- An unsigned division faults at 0.
abbrev pub div_u : ℕ → ℕ → Run ℕ
div_u a b = if b == 0 then fault else done (a / b)

module _ {D : Type 0} where
  -- `request.offset + request.count > ctx->exportsize`, in `uint64_t`
  abbrev pub past_end : NbdContext D → Request → Bool
  past_end ctx req = ltb (as_size ctx.exportsize) (u64 (req.offset + req.count))

  -- The assignments of the accepting branch, the same in READ and in WRITE.
  unfoldable pub accept : Config → ℕ → Request → Phase D → Run (Phase D)
  accept cfg blocksize req s = do
    bufblksz ← div_u cfg.nbd_buffer_len blocksize
    blkremains ← div_u req.count blocksize
    offset ← div_u req.offset blocksize
    done (record s {
      error = 0;
      sendflag = msg_more;
      bufblksz = bufblksz;
      blkremains = blkremains;
      offset = offset;
      byteread = u32 (bufblksz * blocksize);
    })

  -- The two tests at the head of both transfer loops.
  unfoldable pub clip : ℕ → Phase D → Phase D
  clip blocksize s =
      if ltb s.blkremains s.bufblksz
      then record s { bufblksz = s.blkremains; byteread = u32 (s.blkremains * blocksize) }
      else s

  unfoldable pub last_chunk : Phase D → Phase D
  last_chunk s = if leb s.blkremains s.bufblksz then record s { sendflag = 0 } else s

  -- What follows a chunk that went through.
  unfoldable pub advance : Config → Phase D → Phase D
  advance cfg s = record s {
    offset = u64 (s.offset + s.bufblksz);
    blkremains = u32 (s.blkremains + 2 ^ 32 - s.bufblksz);
    retry = cfg.max_retries;
  }
