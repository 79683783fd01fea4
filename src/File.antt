-- ===== src/File.antt =====
-- plugins/file/file.c: exports of files. The calls of the operating system are the parameter Os.
pub mod Reads
pub mod Writes
use Prim.Native.Nat.{bit_or}
use lw_nbd.Prelude.{
  ℕ, ℤ, pos, negsuc, minus_one, is_minus_one, zero, suc, ◌+◌, ◌-◌, ◌%◌, ◌^◌, Bool, true, false,
  List, [], ◌∷◌, ◌++◌, take, drop, length, set, get_elem?, Run, done, fault, out_of_fuel, ◌>>=◌,
  deref, leb, ltb, ◌==◌, if◌then◌else◌,
}
use lw_nbd.Plugin.{Fields}
use lw_nbd.System.{strcpy}

-- The calls, by descriptor: `read` gives what `pread` returns and the bytes it has stored, `write`
-- what `pwrite` returns, `stat` what `fstat` returns and the size.
pub record Os (D : Type 0) : Type 0 where
  pub read : ℤ → ℕ → ℕ → D → ℤ × List ℕ × D
  pub write : ℤ → List ℕ → ℕ → D → ℤ × D
  pub sync : ℤ → D → ℤ × D
  pub open_file : List ℕ → ℕ → D → ℤ × D
  pub close_file : ℤ → D → ℤ × D
  pub stat : ℤ → D → ℤ × ℤ × D
  pub basename : List ℕ → List ℕ
  pub o_rdonly : ℕ
  pub o_rdwr : ℕ
  pub o_cloexec : ℕ

-- `handle_state_t`
pub data HandleState : Type 0 where
  handle_free handle_created : HandleState

-- `struct handle`
pub record FileHandle : Type 0 where
  pub fd : ℤ
  pub flags : ℕ
  pub filename : List ℕ

-- The static variables: a pointer to `handles[i]` is `i + 1`.
pub record Files (D : Type 0) : Type 0 where
  pub handles : List FileHandle
  pub handle_in_use : List HandleState
  pub dev : D

unfoldable pub first_free : List HandleState → ℕ
first_free [] = 0
first_free (handle_free ∷ rest) = 0
first_free (handle_created ∷ rest) = suc (first_free rest)

module _ {D : Type 0} where
  abbrev pub file_at : ℕ → Files D → Run FileHandle
  file_at zero s = fault
  file_at (suc i) s = deref (get_elem? s.handles i)

  abbrev pub put_file : ℕ → FileHandle → Files D → Files D
  put_file zero h s = s
  put_file (suc i) h s = record s { handles = set s.handles i h }

  abbrev pub put_disk : D → Files D → Files D
  put_disk d s = record s { dev = d }

  -- What `pread` returns: -1 and 0 end the call, and `again` goes on behind the bytes read. Less
  -- than -1, or more than was asked for, would move the pointer out of the buffer.
  abbrev pub after_read : ℤ → ℕ → List ℕ → D → (ℕ → Run (ℤ × List ℕ × D)) → Run (ℤ × List ℕ × D)
  after_read (negsuc zero) count buf d again = done (minus_one, buf, d)
  after_read (negsuc (suc n)) count buf d again = fault
  after_read (pos zero) count buf d again = done (minus_one, buf, d)
  after_read (pos (suc n)) count buf d again = if ltb count (suc n) then fault else again (suc n)

  -- What `pwrite` returns: 0 does not end the call.
  abbrev pub after_write : ℤ → ℕ → D → (ℕ → Run (ℤ × D)) → Run (ℤ × D)
  after_write (negsuc zero) count d again = done (minus_one, d)
  after_write (negsuc (suc n)) count d again = fault
  after_write (pos n) count d again = if ltb count n then fault else again n

module _ {D : Type 0} (os : Os D) where
  -- The loop of `file_pread`: `total` bytes of the buffer are filled.
  unfoldable pub reads_from : ℕ → FileHandle → ℕ → List ℕ → ℕ → ℕ → D → Run (ℤ × List ℕ × D)
  reads_from zero h total buf count offset d = out_of_fuel
  reads_from (suc fuel) h total buf zero offset d = done (pos 0, buf, d)
  reads_from (suc fuel) h total buf (suc c) offset d =
      let (r, bytes, d') = os.read h.fd (suc c) offset d in
      let buf' = take total buf ++ (bytes ++ drop (total + length bytes) buf) in
      after_read r (suc c) buf' d'
        (λ n. reads_from fuel h (total + n) buf' (suc c - n) ((offset + n) % 2 ^ 64) d')

  -- Each call that goes on has read a byte.
  unfoldable pub file_pread : ℕ → List ℕ → ℕ → ℕ → ℕ → Files D → Run (ℤ × List ℕ × Files D)
  file_pread handle buf count offset flags s = do
    h ← file_at handle s
    rbd ← reads_from (count + 1) h 0 buf count offset s.dev
    done (rbd.0, rbd.1, put_disk rbd.2 s)

  -- The loop of `file_pwrite` over the bytes left.
  unfoldable pub writes_from : ℕ → FileHandle → List ℕ → ℕ → ℕ → D → Run (ℤ × D)
  writes_from zero h buf count offset d = out_of_fuel
  writes_from (suc fuel) h buf zero offset d = done (pos 0, d)
  writes_from (suc fuel) h buf (suc c) offset d =
      let (r, d') = os.write h.fd (take (suc c) buf) offset d in
      after_write r (suc c) d'
        (λ n. writes_from fuel h (drop n buf) (suc c - n) ((offset + n) % 2 ^ 64) d')

  -- The loop has no bound, so its fuel is an argument.
  unfoldable pub file_pwrite : ℕ → ℕ → List ℕ → ℕ → ℕ → ℕ → Files D → Run (ℤ × Files D)
  file_pwrite fuel handle buf count offset flags s = do
    h ← file_at handle s
    rd ← writes_from fuel h buf count offset s.dev
    done (rd.0, put_disk rd.1 s)

  unfoldable pub file_flush : ℕ → ℕ → Files D → Run (ℤ × Files D)
  file_flush handle flags s = do
    h ← file_at handle s
    let (r, d) = os.sync h.fd s.dev
    done (if is_minus_one r then minus_one else pos 0, put_disk d s)

  -- The result of `open` is kept, an error too.
  unfoldable pub file_open : ℕ → Bool → Files D → Run (Files D)
  file_open handle readonly s = do
    h ← file_at handle s
    let flags = bit_or (if readonly then os.o_rdonly else os.o_rdwr) os.o_cloexec
    let (fd, d) = os.open_file h.filename flags s.dev
    done (put_disk d (put_file handle (record h { fd = fd; flags = flags }) s))

  -- With no free handle the loop leaves `i` at the array's size, and `handles[i]` lies behind it.
  unfoldable pub file_ctor : List ℕ → Fields → Files D → Run (ℤ × Fields × Files D)
  file_ctor filename c s =
      let i = first_free s.handle_in_use in
      deref (get_elem? s.handles i) >>= λ h. strcpy 32 (os.basename filename) >>= λ name. done (
        pos 0,
        record c { handle = suc i; name = name },
        record s {
          handles = set s.handles i (record h { filename = os.basename filename });
          handle_in_use = set s.handle_in_use i handle_created;
        },
      )

  unfoldable pub file_close : ℕ → Files D → Run (Files D)
  file_close handle s = do
    h ← file_at handle s
    let (r, d) = os.close_file h.fd s.dev
    done (put_disk d s)

  unfoldable pub file_get_size : ℕ → Files D → Run (ℤ × Files D)
  file_get_size handle s = do
    s₁ ← file_open handle false s
    h ← file_at handle s₁
    let (r, size, d) = os.stat h.fd s₁.dev
    done (if is_minus_one r then minus_one else size, put_disk d s₁)

abbrev pub file_block_size : ℕ × ℕ × ℕ
file_block_size = (1, 1, 1)
