-- ===== src/Atad.antt =====
-- plugins/atad/atad_d.c: exports of hard disks. The calls of the console's driver are the parameter
-- Ata.
pub mod Sectors
use lw_nbd.Prelude.{
  ℕ, ℤ, pos, zero, suc, ◌+◌, ◌*◌, ◌%◌, ◌^◌, Bool, true, false, Option, none, some, List, [], ◌∷◌,
  ◌++◌, drop, length, set, get_elem?, Run, done, fault, ◌>>=◌, deref, leb, if◌then◌else◌,
}
use lw_nbd.Plugin.{Fields}
use lw_nbd.Text.{codes}

-- The driver, by device: `read` and `write` are `ata_device_sector_io` in its two directions, from
-- a sector on; `devinfo` says whether the device exists and how many sectors it has.
pub record Ata (D : Type 0) : Type 0 where
  pub read : ℕ → ℕ → ℕ → D → ℤ × List ℕ × D
  pub write : ℕ → List ℕ → ℕ → ℕ → D → ℤ × D
  pub flush_cache : ℕ → D → ℤ × D
  pub devinfo : ℕ → D → Option (Bool × ℕ)

-- `struct handle`
pub record DiskHandle : Type 0 where
  pub device : ℕ
  pub size : ℕ

-- The static variables: a pointer to `handles[i]` is `i + 1`.
pub record Disks (D : Type 0) : Type 0 where
  pub handles : List DiskHandle
  pub dev : D

module _ {D : Type 0} where
  abbrev pub disk_at : ℕ → Disks D → Run DiskHandle
  disk_at zero s = fault
  disk_at (suc i) s = deref (get_elem? s.handles i)

  abbrev pub put_drive : D → Disks D → Disks D
  put_drive d s = record s { dev = d }

module _ {D : Type 0} (ata : Ata D) where
  -- The offset is cut to 32 bits.
  unfoldable pub atad_pread : ℕ → List ℕ → ℕ → ℕ → ℕ → Disks D → Run (ℤ × List ℕ × Disks D)
  atad_pread handle buf count offset flags s = do
    h ← disk_at handle s
    let (r, bytes, d) = ata.read h.device (offset % 2 ^ 32) count s.dev
    done (r, bytes ++ drop (length bytes) buf, put_drive d s)

  unfoldable pub atad_pwrite : ℕ → List ℕ → ℕ → ℕ → ℕ → Disks D → Run (ℤ × Disks D)
  atad_pwrite handle buf count offset flags s = do
    h ← disk_at handle s
    let (r, d) = ata.write h.device buf (offset % 2 ^ 32) count s.dev
    done (r, put_drive d s)

  unfoldable pub atad_flush : ℕ → ℕ → Disks D → Run (ℤ × Disks D)
  atad_flush handle flags s = do
    h ← disk_at handle s
    let (r, d) = ata.flush_cache h.device s.dev
    done (r, put_drive d s)

  -- `sprintf(c->name, "hdd%d", device)`, for a device of one digit
  abbrev pub disk_name : ℕ → List ℕ
  disk_name device = codes "hdd" ++ ((b'0' + device) ∷ [])

  -- A disk that exists; the device is not compared with the number of handles.
  abbrev pub atad_made : ℕ → ℕ → Fields → Disks D → Run (ℤ × Fields × Disks D)
  atad_made device sectors c s =
      if leb (length s.handles) device
      then fault
      else done (
        pos 0,
        record c { handle = suc device; name = disk_name device },
        record s {
          handles = set s.handles device (record { device = device; size = sectors * 512 });
        },
      )

  abbrev pub atad_found : Option (Bool × ℕ) → ℕ → Fields → Disks D → Run (ℤ × Fields × Disks D)
  atad_found none device c s = done (pos 1, c, s)
  atad_found (some (false, sectors)) device c s = done (pos 1, c, s)
  atad_found (some (true, sectors)) device c s = atad_made device sectors c s

  unfoldable pub atad_ctor : ℕ → Fields → Disks D → Run (ℤ × Fields × Disks D)
  atad_ctor device c s = atad_found (ata.devinfo device s.dev) device c s

  unfoldable pub atad_get_size : ℕ → Disks D → Run ℕ
  atad_get_size handle s = disk_at handle s >>= λ h. done h.size

abbrev pub atad_block_size : ℕ × ℕ × ℕ
atad_block_size = (512, 4096, 4096)
