-- ===== src/Tests/Disk.antt =====
-- A disk whose every read and write moves one byte, and one that takes no byte.
use lw_nbd.Prelude.{
  ℕ, pos, zero, suc, ◌≡◌, ◌+◌, ◌<◌, ◌≤◌, refl, inr, [], ◌∷◌, out_of_fuel, take, length, Returns,
  arith,
}
use lw_nbd.Nbd.Medium.{span, patch}
use lw_nbd.File.{Os, FileHandle, Files, handle_created, file_pread, file_pwrite}
use lw_nbd.File.Reads.{ReadsFile, HasRead, file_pread-HasRead}
use lw_nbd.File.Writes.{WritesFile, Written, file_pwrite-Written, file_pwrite-endless}
use lw_nbd.Tests.{Medium, numbered, view}

abbrev at_most_one : ℕ → ℕ
at_most_one zero = 0
at_most_one (suc n) = 1

at_most_one_le : (n : ℕ) → at_most_one n ≤ n
at_most_one_le zero = omega arith
at_most_one_le (suc n) = omega arith

at_most_one_pos : (n : ℕ) → 0 < n → 0 < at_most_one n
at_most_one_pos zero h = absurd (omega arith)
at_most_one_pos (suc n) h = omega arith

abbrev slow_os : Os Medium
slow_os = record {
  read = λ fd count offset m. (pos (at_most_one count), span m offset (at_most_one count), m);
  write = λ fd bytes offset m.
      (pos (at_most_one (length bytes)), patch m offset (take (at_most_one (length bytes)) bytes));
  sync = λ fd m. (pos 0, m);
  open_file = λ name flags m. (pos 3, m);
  close_file = λ fd m. (pos 0, m);
  stat = λ fd m. (pos 0, pos 100, m);
  basename = λ name. name;
  o_rdonly = 0;
  o_rdwr = 2;
  o_cloexec = 0;
}

abbrev full_os : Os Medium
full_os = record slow_os { write = λ fd bytes offset m. (pos 0, m) }

abbrev open_handle : FileHandle
open_handle = record { fd = pos 3; flags = 2; filename = [] }

abbrev one_open : Files Medium
one_open = record {
  handles = open_handle ∷ [];
  handle_in_use = handle_created ∷ [];
  dev = numbered;
}

slow_os-ReadsFile : ReadsFile slow_os view open_handle
slow_os-ReadsFile = record {
  reads = λ count offset m. inr (record {
    n = at_most_one count;
    result = refl;
    at_most = at_most_one_le count;
    bytes = refl;
  });
  keeps = λ count offset m. refl;
}

slow_os-WritesFile : WritesFile slow_os view open_handle
slow_os-WritesFile = record {
  writes = λ bytes offset m more. inr (record {
    n = at_most_one (length bytes);
    result = refl;
    some_bytes = at_most_one_pos (length bytes) more;
    at_most = at_most_one_le (length bytes);
    stored = refl;
  });
}

file_pread-HasRead_example :
    Returns (file_pread slow_os 1 [] 3 5 0 one_open) (HasRead slow_os view open_handle 3 5 one_open)
file_pread-HasRead_example =
    file_pread-HasRead slow_os view open_handle slow_os-ReadsFile 1 [] 3 5 0 one_open refl
      (omega arith)

file_pwrite-Written_example :
    Returns
      (file_pwrite slow_os (2 + 1) 1 (7 ∷ 8 ∷ []) 2 5 0 one_open)
      (λ out. Written slow_os view open_handle (7 ∷ 8 ∷ []) 2 5 one_open.dev out.0 out.1.dev)
file_pwrite-Written_example =
    file_pwrite-Written slow_os view open_handle slow_os-WritesFile 1 (7 ∷ 8 ∷ []) 2 5 0 one_open
      refl (omega arith) (omega arith)

file_pwrite-endless_example : file_pwrite full_os 1000 1 (7 ∷ []) 1 5 0 one_open ≡ out_of_fuel
file_pwrite-endless_example =
    file_pwrite-endless full_os open_handle (λ bytes offset m. refl) 1000 1 (7 ∷ []) 1 5 0 one_open
      refl (omega arith)
