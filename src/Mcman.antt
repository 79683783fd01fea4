-- ===== src/Mcman.antt =====
-- plugins/mcman/mcman_d.c: exports of memory cards, which are written block by block. The console's
-- memory card library is the parameter Library; it is given a page as the 32 bits of an `int`. A
-- product or a sum of `int`s that overflows is a fault. The plugin's one slot is 0, which the calls
-- pass on.
pub mod Pages
pub mod Patches
pub mod Blocks
pub mod Loop
pub mod Mask
pub mod Writing
pub mod Reading
use Prim.Native.Nat.{bit_and}
use lw_nbd.Prelude.{
  ℕ, ℤ, pos, zero, suc, ◌+◌, ◌-◌, ◌*◌, ◌/◌, ◌^◌, ◌%◌, Bool, true, false, not, ◌||◌, ◌&&◌, List, [],
  ◌∷◌, ◌++◌, take, drop, set, replicate, get_elem?, length, Run, done, fault, ◌>>=◌, deref, is_zero,
  leb, ltb, ◌==◌, if◌then◌else◌,
}
use lw_nbd.Nbd.Medium.{span, patch}
use lw_nbd.Plugin.{Fields}
use lw_nbd.Text.{codes}

-- The calls of mcman: the port is the first argument. `read_page` gives the bytes it has stored,
-- `data_checksum` the three bytes of a part of 128, `card_spec` the page length, the pages of a
-- block and the pages of the card; `allocates` says whether memory of a size is to be had, and
-- `fresh` what such memory holds.
pub record Library (D : Type 0) : Type 0 where
  pub read_page : ℕ → ℕ → D → ℤ × List ℕ × D
  pub write_page : ℕ → ℕ → List ℕ → List ℕ → D → ℤ × D
  pub erase_block : ℕ → ℕ → D → ℤ × D
  pub data_checksum : List ℕ → List ℕ
  pub allocates : ℕ → Bool
  pub fresh : ℕ → ℕ
  pub card_spec : ℕ → D → ℤ × (ℕ × ℕ × ℕ) × D

-- `struct handle`
pub record CardHandle : Type 0 where
  pub device : ℕ
  pub size : ℕ
  pub blocksize : ℕ

-- The static variables: a pointer to `handles[i]` is `i + 1`, and `bbuffer` is the block buffer with
-- the size it was allocated with, 0 for NULL.
pub record Cards (D : Type 0) : Type 0 where
  pub handles : List CardHandle
  pub bbuffer : ℕ → ℕ
  pub bbuffer_size : ℕ
  pub pages_per_block : ℕ
  pub dev : D

module _ {D : Type 0} where
  abbrev pub card_at : ℕ → Cards D → Run CardHandle
  card_at zero s = fault
  card_at (suc i) s = deref (get_elem? s.handles i)

  abbrev pub put_dev : D → Cards D → Cards D
  put_dev d s = record s { dev = d }

  -- Whether the `int`s of a round of `mcman_pwrite` are as they should be: the pages of the block,
  -- its size, the pages that remain and the place in the buffer. A block number that is too large
  -- overflows in `block * ppb + j` or in `i++`; a negative number of pages is copied as a huge size.
  -- Such a round is a fault from its start, though a library that refuses to read or to erase the
  -- block may end the source's before.
  unfoldable pub in_ints : ℕ → CardHandle → ℕ → ℕ → Cards D → Bool
  in_ints i h remaining written s =
      ltb (i + 1) (2 ^ 31)
      && leb ((i + 1) * s.pages_per_block) (2 ^ 31)
      && (leb (s.pages_per_block * h.blocksize) (2 ^ 31)
          && (ltb remaining (2 ^ 31) && ltb (written * h.blocksize) (2 ^ 31)))

module _ {D : Type 0} (lib : Library D) where
  -- The checksums of a page's four parts.
  abbrev pub page_ecc : (ℕ → ℕ) → ℕ → List ℕ
  page_ecc buffer at =
      lib.data_checksum (span buffer at 128)
      ++ (lib.data_checksum (span buffer (at + 128) 128)
          ++ (lib.data_checksum (span buffer (at + 256) 128)
              ++ (lib.data_checksum (span buffer (at + 384) 128) ++ replicate 4 0)))

  -- The loop of `writeBlock` over the `n` pages from page `j` of the block on.
  unfoldable pub write_pages : ℕ → ℕ → ℕ → (ℕ → ℕ) → ℕ → ℕ → D → ℤ × D
  write_pages zero j port buffer page_size first d = (pos 0, d)
  write_pages (suc n) j port buffer page_size first d =
      let (result, d') =
        lib.write_page port (first + j) (span buffer (j * page_size) page_size)
          (page_ecc buffer (j * page_size)) d in
      elim (is_zero result) [
        | true ↦ write_pages n (j + 1) port buffer page_size first d'
        | false ↦ (result, d')
      ]

  -- Whether the loop of `writeBlock` comes to a page whose checksums, which are taken of 512 bytes,
  -- reach behind a buffer of `limit` bytes.
  unfoldable pub write_overruns : ℕ → ℕ → ℕ → ℕ → (ℕ → ℕ) → ℕ → ℕ → D → Bool
  write_overruns limit zero j port buffer page_size first d = false
  write_overruns limit (suc n) j port buffer page_size first d =
      let (result, d') =
        lib.write_page port (first + j) (span buffer (j * page_size) page_size)
          (page_ecc buffer (j * page_size)) d in
      let rest = write_overruns limit n (j + 1) port buffer page_size first d' in
      ltb limit (j * page_size + 512) || (is_zero result && rest)

  unfoldable pub write_block : ℕ → ℕ → (ℕ → ℕ) → ℕ → ℕ → D → ℤ × D
  write_block port block buffer page_size ppb d =
      let (result, d') = lib.erase_block port block d in
      if is_zero result
      then write_pages ppb 0 port buffer page_size (block * ppb) d'
      else (result, d')

  -- The loop of `readBlock`, which fills the buffer page by page.
  unfoldable pub read_pages : ℕ → ℕ → ℕ → (ℕ → ℕ) → ℕ → ℕ → D → ℤ × (ℕ → ℕ) × D
  read_pages zero j port buffer page_size first d = (pos 0, buffer, d)
  read_pages (suc n) j port buffer page_size first d =
      let (result, bytes, d') = lib.read_page port (first + j) d in
      let buffer' = patch buffer (j * page_size) bytes in
      elim (is_zero result) [
        | true ↦ read_pages n (j + 1) port buffer' page_size first d'
        | false ↦ (result, buffer', d')
      ]

  -- Of a block without pages the result would be what an uninitialised variable holds; its callers
  -- have divided by their number before.
  unfoldable pub read_block : ℕ → ℕ → (ℕ → ℕ) → ℕ → ℕ → D → ℤ × (ℕ → ℕ) × D
  read_block port block buffer page_size ppb d =
      read_pages ppb 0 port buffer page_size (block * ppb) d

  -- The block is read first if it is not to be written whole.
  abbrev pub fill_buffer : Bool → ℕ → ℕ → ℕ → Cards D → ℤ × Cards D
  fill_buffer false port block page_size s = (pos 0, s)
  fill_buffer true port block page_size s =
      let (result, buffer, d) = read_block port block s.bbuffer page_size s.pages_per_block s.dev in
      (result, record s { bbuffer = buffer; dev = d })

  -- `memcpy` into the block buffer, and the block is written.
  unfoldable pub inject_rest : ℕ → ℕ → ℕ → ℕ → List ℕ → Cards D → Run (ℤ × Cards D)
  inject_rest port block page_size offset pages s =
      if leb (offset * page_size + length pages) s.bbuffer_size
      then (let buffer = patch s.bbuffer (offset * page_size) pages in
          let (erased, e) = lib.erase_block port block s.dev in
          let (result, d) = write_block port block buffer page_size s.pages_per_block s.dev in
          if is_zero erased
            && write_overruns s.bbuffer_size s.pages_per_block 0 port buffer page_size
                (block * s.pages_per_block) e
          then fault
          else done (result, record s { bbuffer = buffer; dev = d }))
      else fault

  unfoldable pub inject_pages : ℕ → ℕ → ℕ → ℕ → ℕ → List ℕ → Cards D → Run (ℤ × Cards D)
  inject_pages port block page_size offset n_pages pages s =
      let (result, s') =
        fill_buffer (not (offset == 0) || not (n_pages == s.pages_per_block)) port block page_size
          s in
      if is_zero result then inject_rest port block page_size offset pages s' else done (result, s')

  -- The loop of `mcman_pread` over the `n` pages from page `i` on. The page is cut to an `int`; the
  -- counter is an `int`, and so is the place in the buffer.
  unfoldable pub read_loop : ℕ → ℕ → CardHandle → ℕ → List ℕ → D → Run (ℤ × List ℕ × D)
  read_loop zero i h offset buf d = done (pos 0, buf, d)
  read_loop (suc n) i h offset buf d =
      let at = i * h.blocksize in
      let (result, bytes, d') = lib.read_page h.device ((offset + i) % 2 ^ 32) d in
      let buf' = take at buf ++ (bytes ++ drop (at + length bytes) buf) in
      elim (ltb (i + 1) (2 ^ 31) && ltb at (2 ^ 31)) [
        | false ↦ fault
        | true ↦ elim (is_zero result) [
          | true ↦ read_loop n (i + 1) h offset buf' d'
          | false ↦ done (result, buf', d')
        ]
      ]

  unfoldable pub mcman_pread : ℕ → List ℕ → ℕ → ℕ → ℕ → Cards D → Run (ℤ × List ℕ × Cards D)
  mcman_pread handle buf count offset flags s = do
    h ← card_at handle s
    (result, buf', d) ← read_loop count 0 h offset buf s.dev
    done (result, buf', put_dev d s)

  -- The loop of `mcman_pwrite` over the `n` blocks from block `i` on.
  unfoldable pub block_loop : ℕ → ℕ → CardHandle → ℕ → ℕ → ℕ → List ℕ → Cards D → Run (ℤ × Cards D)
  block_loop zero i h block_offset remaining written buf s = done (pos 0, s)
  block_loop (suc n) i h block_offset remaining written buf s =
      let room = s.pages_per_block - block_offset in
      let n_pages = if leb room remaining then room else remaining in
      let pages = take (n_pages * h.blocksize) (drop (written * h.blocksize) buf) in
      elim (in_ints i h remaining written s) [
        | false ↦ fault
        | true ↦ inject_pages h.device i h.blocksize block_offset n_pages pages s >>= λ rs.
            elim (is_zero rs.0) [
              | true ↦ block_loop n (i + 1) h 0 (remaining - n_pages) (written + n_pages) buf rs.1
              | false ↦ done rs
            ]
      ]

  -- `offset + count - 1` is a `uint64_t`, so for no pages at offset 0 the last block is the greatest
  -- `uint32_t`; with that one the loop's test never fails, and the loop goes on until an `int`
  -- overflows, if nothing fails before.
  unfoldable pub mcman_pwrite : ℕ → List ℕ → ℕ → ℕ → ℕ → Cards D → Run (ℤ × Cards D)
  mcman_pwrite handle buf count offset flags s = do
    h ← card_at handle s
    (if s.pages_per_block == 0
        then fault
        else (let start_block = (offset / s.pages_per_block) % 2 ^ 32 in
            let end_block =
              (((offset + count + 2 ^ 64 - 1) % 2 ^ 64) / s.pages_per_block) % 2 ^ 32 in
            block_loop (end_block + 1 - start_block) start_block h
              (bit_and offset (s.pages_per_block - 1)) count 0 buf s))

  -- `sprintf(c->name, "mc%d", device)`, for a device of one digit
  abbrev pub card_name : ℕ → List ℕ
  card_name device = codes "mc" ++ ((b'0' + device) ∷ [])

  -- The device is a `uint8_t` that is not checked against the number of handles.
  unfoldable pub mcman_ctor : ℕ → Fields → Cards D → Run (ℤ × Fields × Cards D)
  mcman_ctor device c s =
      let (result, spec, d) = lib.card_spec device s.dev in
      let (page_len, pages_per_block, card_size) = spec in
      let s' = record s { pages_per_block = pages_per_block; dev = d } in
      if is_zero result
      then (if leb (length s.handles) device
          then fault
          else done (
            pos 0,
            record c { handle = suc device; name = card_name device },
            record s' {
              handles =
                  set s.handles device
                    (record { device = device; size = card_size * page_len; blocksize = page_len });
              bbuffer = lib.fresh;
              bbuffer_size =
                  if lib.allocates (page_len * pages_per_block)
                  then page_len * pages_per_block
                  else 0;
            },
          ))
      else done (pos 1, c, s')

  unfoldable pub mcman_get_size : ℕ → Cards D → Run ℕ
  mcman_get_size handle s = card_at handle s >>= λ h. done h.size

abbrev pub mcman_flush : ℕ → ℕ → ℤ
mcman_flush handle flags = pos 0

abbrev pub mcman_block_size : ℕ × ℕ × ℕ
mcman_block_size = (512, 512, 512)
