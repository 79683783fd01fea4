-- ===== src/Nbd/Phase/Accept.antt =====
-- What the accepting branch of READ and WRITE sets up.
use lw_nbd.Prelude.{ℕ, ◌+◌, ◌*◌, ◌/◌, ◌%◌, ◌^◌, ◌≤◌, ◌<◌, ◌≡◌, false, done, arith}
use lw_nbd.Nbd.Phase.{Config, Phase, accept, past_end}
use lw_nbd.Nbd.Wire.{Request}

-- A request within the export, its fields of their widths, and a block size that is not 0 and fits
-- the buffer.
pub record IsServable {D : Type 0} (cfg : Config) (bs : ℕ) (req : Request) (s : Phase D)
    : Type 0 where
  pub count_width : req.count < 2 ^ 32
  pub offset_width : req.offset < 2 ^ 64
  pub positive : 0 < bs
  pub fits : bs ≤ cfg.nbd_buffer_len
  pub small : cfg.nbd_buffer_len < 2 ^ 31
  pub no_wrap : req.offset + req.count < 2 ^ 64
  pub within : past_end s.ctx req ≡ false

module _ {D : Type 0} (cfg : Config) (bs : ℕ) (req : Request) (s : Phase D) where
  -- The loop's variables as the accepting branch sets them.
  abbrev pub accepted : Phase D
  accepted = record s {
    error = 0;
    sendflag = 0x8000;
    bufblksz = cfg.nbd_buffer_len / bs;
    blkremains = req.count / bs;
    offset = req.offset / bs;
    byteread = (cfg.nbd_buffer_len / bs * bs) % 2 ^ 32;
  }

  pub accept-done : 0 < bs → accept cfg bs req s ≡ done accepted
  unfolding accept
  accept-done h = ground arith

div_bounds : (a b : ℕ) → 0 < b → (a / b * b ≤ a) × (a / b ≤ a)
div_bounds a b h = (grind arith, grind arith)

div_pos : (a b : ℕ) → 0 < b → b ≤ a → 0 < a / b
div_pos a b h k = grind arith

-- The loop variables fit their widths, and a round has a block to move.
pub accept-bounds :
    (len bs count offset : ℕ)
    → 0 < bs
    → bs ≤ len
    → len < 2 ^ 31
    → count < 2 ^ 32
    → offset + count < 2 ^ 64
    → ((len / bs * bs) % 2 ^ 32 ≡ len / bs * bs)
      × (len / bs * bs < 2 ^ 31)
      × (0 < len / bs)
      × (count / bs < 2 ^ 32)
      × (offset / bs + count / bs < 2 ^ 64)
accept-bounds len bs count offset h fits small cw ow =
    ground (arith, div_bounds len bs, div_bounds count bs, div_bounds offset bs, div_pos len bs)
