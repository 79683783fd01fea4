-- ===== src/Atad/Sectors.antt =====
-- Reads and writes of a hard disk by plugins/atad/atad_d.c.
use lw_nbd.Prelude.{
  ℕ, ℤ, zero, suc, ◌<◌, ◌*◌, ◌%◌, ◌^◌, ◌≡◌, refl, sym, ap, ◌∙◌, true, List, take, take-append,
  take-all, length, is_zero, done, ◌>>=◌, Returns, Returns->>=,
}
use native.Mathlib.Nat.{mod-eq_of_lt}
use lw_nbd.Nbd.Medium.{span, length-span, patch}
use lw_nbd.Atad.{Ata, DiskHandle, Disks, disk_at, put_drive, atad_pread, atad_pwrite}

-- `view d` are the bytes of the disk when the driver's state is `d`.
pub record IsDrive {D : Type 0} (ata : Ata D) (view : D → ℕ → ℕ) (device : ℕ) : Type 0 where
  pub reads :
      (lba count : ℕ) (d : D)
      → is_zero (ata.read device lba count d).0 ≡ true
      → (ata.read device lba count d).1 ≡ span (view d) (lba * 512) (count * 512)
  pub keeps : (lba count : ℕ) (d : D) → view (ata.read device lba count d).2 ≡ view d
  pub writes :
      (buf : List ℕ) (lba count : ℕ) (d : D)
      → is_zero (ata.write device buf lba count d).0 ≡ true
      → view (ata.write device buf lba count d).1
        ≡ patch (view d) (lba * 512) (take (count * 512) buf)

module _ {D : Type 0} (ata : Ata D) (view : D → ℕ → ℕ) where
  -- A read, by what it gives after a success.
  pub record ReadSectors (count offset : ℕ) (s : Disks D) (out : ℤ × List ℕ × Disks D)
      : Type 0 where
    pub front :
        is_zero out.0 ≡ true
        → take (count * 512) out.1 ≡ span (view s.dev) (offset % 2 ^ 32 * 512) (count * 512)
    pub kept : view out.2.dev ≡ view s.dev

  pub atad_pread-ReadSectors :
      (handle : ℕ) (buf : List ℕ) (count offset flags : ℕ) (h : DiskHandle) (s : Disks D)
      → disk_at handle s ≡ done h
      → IsDrive ata view h.device
      → Returns (atad_pread ata handle buf count offset flags s) (ReadSectors count offset s)
  unfolding atad_pread
  atad_pread-ReadSectors handle buf count offset flags h s there drive = rw there (record {
    front = λ ok.
        let e = drive.reads (offset % 2 ^ 32) count s.dev ok in
        take-append (count * 512) _ _
          (sym (ap length e ∙ length-span (view s.dev) (offset % 2 ^ 32 * 512) (count * 512)))
        ∙ e;
    kept = drive.keeps (offset % 2 ^ 32) count s.dev;
  })

  disk_at-put_drive :
      (handle : ℕ) (d : D) (s : Disks D) → disk_at handle (put_drive d s) ≡ disk_at handle s
  disk_at-put_drive zero d s = refl
  disk_at-put_drive (suc i) d s = refl

  -- After a write of whole sectors to a hard disk that reports success, a read of any sectors
  -- returns, and gives, if it reports success too, the bytes that the disk then has from the first
  -- sector read on: those it had before, with the bytes written stored from the first sector
  -- written on. Both begin below sector 2^32, the handle is in use, and the driver reads and
  -- writes as documented.
  pub atad_pwrite-atad_pread :
      (handle : ℕ) (buf buf' : List ℕ) (count offset count' offset' flags : ℕ) (h : DiskHandle)
      (s : Disks D)
      → disk_at handle s ≡ done h
      → IsDrive ata view h.device
      → length buf ≡ count * 512
      → offset < 2 ^ 32
      → offset' < 2 ^ 32
      → Returns {A = ℤ × ℤ × List ℕ}
          (atad_pwrite ata handle buf count offset flags s >>= λ wr.
            atad_pread ata handle buf' count' offset' flags wr.1 >>= λ rd. done (wr.0, rd.0, rd.1))
          (λ out.
            is_zero out.0 ≡ true
            → is_zero out.1 ≡ true
            → take (count' * 512) out.2
              ≡ span (patch (view s.dev) (offset * 512) buf) (offset' * 512) (count' * 512))
  unfolding atad_pwrite
  atad_pwrite-atad_pread handle buf buf' count offset count' offset' flags h s there drive len
        narrow narrow' =
      rw there (
        Returns->>= (atad_pread ata handle buf' count' offset' flags written) _
          (ReadSectors count' offset' written) _
          (atad_pread-ReadSectors handle buf' count' offset' flags h written
            (disk_at-put_drive handle put.1 s ∙ there) drive)
          λ rd r w_ok r_ok.
            r.front r_ok
            ∙ ap (λ (k : ℕ). span (view put.1) (k * 512) (count' * 512)) (mod-eq_of_lt narrow')
            ∙ ap (λ (m : ℕ → ℕ). span m (offset' * 512) (count' * 512))
                (drive.writes buf (offset % 2 ^ 32) count s.dev w_ok
                  ∙ ap (λ k. patch (view s.dev) (k * 512) (take (count * 512) buf))
                      (mod-eq_of_lt narrow)
                  ∙ ap (patch (view s.dev) (offset * 512)) (take-all (count * 512) buf (sym len))))
    where
      put : ℤ × D
      put = ata.write h.device buf (offset % 2 ^ 32) count s.dev

      written : Disks D
      written = put_drive put.1 s
