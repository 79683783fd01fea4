-- ===== src/Tests/Cards.antt =====
-- A memory card with blocks of two pages of 512 bytes, in port 0, and a hard disk.
use lw_nbd.Prelude.{
  ℕ, ℤ, List, none, done, ◌>>=◌, is_zero, ◌≡◌, pos, ◌*◌, refl, true, [], ◌∷◌, ◌++◌, take, replicate,
  Returns, arith,
}
use lw_nbd.Nbd.Medium.{span, patch, patch_before, patch_after}
use lw_nbd.Mcman.{Library, Cards, CardHandle, mcman_pread, mcman_pwrite}
use lw_nbd.Atad.{Ata, Disks, atad_pread, atad_pwrite}
use lw_nbd.Atad.Sectors.{IsDrive, atad_pwrite-atad_pread}
use lw_nbd.Mcman.Pages.{IsCard}
use lw_nbd.Mcman.Blocks.{Stored}
use lw_nbd.Mcman.Reading.{ReadPages, mcman_pread-ReadPages}
use lw_nbd.Mcman.Writing.{mcman_pwrite-Stored}
use lw_nbd.Tests.{Medium, numbered, view}

abbrev pub card_library : Library Medium
card_library = record {
  read_page = λ port page m. (pos 0, span m (page * 512) 512, m);
  write_page = λ port page bytes ecc m. (pos 0, patch m (page * 512) bytes);
  erase_block = λ port block m. (pos 0, patch m (block * 2 * 512) (replicate 1024 255));
  data_checksum = λ bytes. replicate 3 0;
  allocates = λ size. true;
  fresh = λ x. 0;
  card_spec = λ port m. (pos 0, (512, 2, 8), m);
}

pub card_library-IsCard : IsCard card_library view 0 512 2
card_library-IsCard = record {
  reads = λ page m ok. refl;
  keeps = λ page m. refl;
  writes = λ page bytes ecc m len ok. refl;
  erases_before = λ block m x lt. patch_before m (block * 2 * 512) (replicate 1024 255) x lt;
  erases_after = λ block m x far. patch_after m (block * 2 * 512) (replicate 1024 255) x far;
}

abbrev pub first_card : CardHandle
first_card = record { device = 0; size = 4096; blocksize = 512 }

abbrev pub one_card : Cards Medium
one_card = record {
  handles = first_card ∷ [];
  bbuffer = numbered;
  bbuffer_size = 1024;
  pages_per_block = 2;
  dev = numbered;
}

-- Two pages, which end in different blocks
abbrev two_pages : List ℕ
two_pages = replicate 512 7 ++ replicate 512 8

mcman_pwrite-Stored_example :
    Returns
      (mcman_pwrite card_library 1 two_pages 2 1 0 one_card)
      (Stored view (1 * 512) (take (2 * 512) two_pages) one_card)
mcman_pwrite-Stored_example =
    mcman_pwrite-Stored card_library view 1 two_pages 2 1 0 1 first_card one_card refl
      card_library-IsCard refl refl (omega arith) (omega arith) (omega arith) (omega arith)
      (omega arith) (omega arith)

mcman_pread-ReadPages_example :
    Returns
      (mcman_pread card_library 1 (replicate 1024 0) 2 1 0 one_card)
      (ReadPages card_library view first_card 2 1 one_card)
mcman_pread-ReadPages_example =
    mcman_pread-ReadPages card_library view 1 (replicate 1024 0) 2 1 0 first_card one_card refl
      card_library-IsCard (omega arith) (omega arith)

abbrev whole_disk : Ata Medium
whole_disk = record {
  read = λ device lba count m. (pos 0, span m (lba * 512) (count * 512), m);
  write = λ device buf lba count m. (pos 0, patch m (lba * 512) (take (count * 512) buf));
  flush_cache = λ device m. (pos 0, m);
  devinfo = λ device m. none;
}

whole_disk-IsDrive : IsDrive whole_disk view 0
whole_disk-IsDrive = record {
  reads = λ lba count m ok. refl;
  keeps = λ lba count m. refl;
  writes = λ buf lba count m ok. refl;
}

abbrev one_disk : Disks Medium
one_disk = record { handles = record { device = 0; size = 1024 } ∷ []; dev = numbered }

-- Sector 1 is written, and sectors 0 to 2 are read.
atad_pwrite-atad_pread_example :
    Returns {A = ℤ × ℤ × List ℕ}
      (atad_pwrite whole_disk 1 (replicate 512 7) 1 1 0 one_disk >>= λ wr.
        atad_pread whole_disk 1 [] 3 0 0 wr.1 >>= λ rd. done (wr.0, rd.0, rd.1))
      (λ out.
        is_zero out.0 ≡ true
        → is_zero out.1 ≡ true
        → take (3 * 512) out.2
          ≡ span (patch numbered (1 * 512) (replicate 512 7)) (0 * 512) (3 * 512))
atad_pwrite-atad_pread_example =
    atad_pwrite-atad_pread whole_disk view 1 (replicate 512 7) [] 1 1 3 0 0
      (record { device = 0; size = 1024 }) one_disk refl whole_disk-IsDrive refl (omega arith)
      (omega arith)
