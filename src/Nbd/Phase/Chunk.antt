-- ===== src/Nbd/Phase/Chunk.antt =====
-- The loop variables between the rounds of a transfer, and the chunk that a round chooses.
use lw_nbd.Prelude.{ℕ, ◌+◌, ◌*◌, ◌^◌, ◌≤◌, ◌<◌, ◌≡◌, ◌≢◌, ◌⊎◌, arith}
use lw_nbd.Nbd.Phase.{Config, Phase, clip, last_chunk, advance}

-- What a transfer loop relies on between its rounds.
pub record IsReady {D : Type 0} (blocksize : ℕ) (s : Phase D) : Type 0 where
  pub rem_small : s.blkremains < 2 ^ 32
  pub fits : s.bufblksz * blocksize < 2 ^ 31
  pub exact : s.byteread ≡ s.bufblksz * blocksize
  pub progress : (0 < s.bufblksz) ⊎ (s.blkremains ≡ 0)
  pub ended : s.sendflag ≡ 0 → s.blkremains ≡ 0
  pub in_range : s.offset + s.blkremains < 2 ^ 64

-- The chunk that the head of the loop has chosen.
pub record IsChunk {D : Type 0} (blocksize : ℕ) (s c : Phase D) : Type 0 where
  pub within : c.bufblksz ≤ s.blkremains
  pub fits : c.bufblksz * blocksize < 2 ^ 31
  pub exact : c.byteread ≡ c.bufblksz * blocksize
  pub progress : (0 < c.bufblksz) ⊎ (s.blkremains ≡ 0)
  pub last : c.sendflag ≡ 0 → c.bufblksz ≡ s.blkremains
  pub flagged : c.bufblksz ≡ s.blkremains → c.sendflag ≡ 0
  pub same : (c.blkremains ≡ s.blkremains) × (c.offset ≡ s.offset) × (c.retry ≡ s.retry)
  pub same_error : c.error ≡ s.error
  pub same_world : (c.ctx ≡ s.ctx) × (c.conn ≡ s.conn) × (c.dev ≡ s.dev)

pub mul_mono : (a b c : ℕ) → a ≤ b → a * c ≤ b * c
mul_mono a b c h = grind arith

module _ {D : Type 0} where
  pub chunk_lem :
      (blocksize : ℕ) (s : Phase D)
      → s.sendflag ≢ 0
      → IsReady blocksize s
      → IsChunk blocksize s (last_chunk (clip blocksize s))
  unfolding last_chunk clip
  chunk_lem blocksize s h v = ground (arith, mul_mono s.blkremains s.bufblksz blocksize)

-- `s'` is `s` with its first `k` remaining blocks done.
pub record IsAdvanced {D : Type 0} (blocksize k : ℕ) (s s' : Phase D) : Type 0 where
  pub ready : IsReady blocksize s'
  pub moved : (s'.offset ≡ s.offset + k) × (s'.blkremains + k ≡ s.blkremains)

-- After a chunk that went through the loop is ready again.
pub advance-IsAdvanced :
    {D : Type 0} (cfg : Config) (bs : ℕ) (s c s' : Phase D)
    → IsReady bs s
    → IsChunk bs s c
    → s'.bufblksz ≡ c.bufblksz
    → s'.byteread ≡ c.byteread
    → s'.blkremains ≡ c.blkremains
    → s'.offset ≡ c.offset
    → s'.sendflag ≡ c.sendflag
    → IsAdvanced bs c.bufblksz s (advance cfg s')
unfolding advance
advance-IsAdvanced cfg bs s c s' v ch eb ey er eo ef = record {
  ready = ground arith;
  moved = ground arith;
}
