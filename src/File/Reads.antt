-- ===== src/File/Reads.antt =====
-- `file_pread` of plugins/file/file.c: what is read of a file.
use lw_nbd.Prelude.{
  ℕ, ℤ, pos, minus_one, zero, suc, ◌+◌, ◌-◌, ◌%◌, ◌^◌, ◌≤◌, ◌<◌, ◌≡◌, refl, sym, ap, ◌∙◌, ◌⊎◌, inl,
  inr, true, false, List, ◌++◌, take, drop, take-append, length, length-append, length-take,
  append_assoc, append-nil, ltb, is_zero, done, Returns, Returns-weaken, Returns->>=, arith,
}
use mathlib.Core.Path.{ap₂}
use native.Mathlib.Nat.{mod-eq_of_lt, add-zero}
use lw_nbd.Nbd.Medium.{span, span-add, length-span}
use lw_nbd.File.{Os, FileHandle, Files, file_at, after_read, reads_from, file_pread}

module _ {D : Type 0} (os : Os D) (view : D → ℕ → ℕ) (h : FileHandle) where
  -- A read that goes through: at most the bytes asked for, and they are the file's.
  pub record ReadsSome (count offset : ℕ) (d : D) (out : ℤ × List ℕ × D) : Type 0 where
    pub n : ℕ
    pub result : out.0 ≡ pos n
    pub at_most : n ≤ count
    pub bytes : out.1 ≡ span (view d) offset n

  -- What `pread` promises: -1, or a read that goes through; the file stays as it is.
  pub record ReadsFile : Type 0 where
    pub reads :
        (count offset : ℕ) (d : D)
        → ((os.read h.fd count offset d).0 ≡ minus_one)
          ⊎ ReadsSome count offset d (os.read h.fd count offset d)
    pub keeps : (count offset : ℕ) (d : D) → view (os.read h.fd count offset d).2 ≡ view d

  -- The bytes in front are kept, and after a success the file's are behind them.
  record Filled (total : ℕ) (buf : List ℕ) (count offset : ℕ) (d : D) (out : ℤ × List ℕ × D)
      : Type 0 where
    bytes :
        is_zero out.0 ≡ true
        → take (total + count) out.1 ≡ take total buf ++ span (view d) offset count
    kept : view out.2 ≡ view d

  -- The buffer after a read behind `total` bytes.
  abbrev filled : ℕ → List ℕ → List ℕ → List ℕ
  filled total buf bytes = take total buf ++ (bytes ++ drop (total + length bytes) buf)

  take-filled :
      (total n : ℕ) (buf bytes : List ℕ)
      → total ≤ length buf
      → length bytes ≡ n
      → take (total + n) (filled total buf bytes) ≡ take total buf ++ bytes
  take-filled total n buf bytes room len =
      ap (take (total + n))
        (sym (append_assoc (take total buf) bytes (drop (total + length bytes) buf)))
      ∙ take-append (total + n) (take total buf ++ bytes) (drop (total + length bytes) buf)
          (omega (arith, length-append (take total buf) bytes, length-take total buf, room, len))

  filled_room :
      (total n : ℕ) (buf bytes : List ℕ)
      → total ≤ length buf
      → length bytes ≡ n
      → total + n ≤ length (filled total buf bytes)
  filled_room total n buf bytes room len = omega (
    arith,
    room,
    len,
    length-take total buf,
    length-append (take total buf) (bytes ++ drop (total + length bytes) buf),
    length-append bytes (drop (total + length bytes) buf),
  )

  -- A read that is followed by the rest is a longer read.
  Filled-on :
      (total c n offset : ℕ) (buf bytes : List ℕ) (d d' : D) (out : ℤ × List ℕ × D)
      → total ≤ length buf
      → n ≤ c
      → bytes ≡ span (view d) offset n
      → view d' ≡ view d
      → Filled (total + n) (filled total buf bytes) (c - n) (offset + n) d' out
      → Filled total buf c offset d out
  Filled-on total c n offset buf bytes d d' out room le e same rest = record {
    bytes = λ ok.
        ap (λ t. take t out.1) {y = total + n + (c - n)} (omega (arith, le))
        ∙ rest.bytes ok
        ∙ ap₂ (λ l m. l ++ span m (offset + n) (c - n))
            (take-filled total n buf bytes room (ap length e ∙ length-span (view d) offset n)) same
        ∙ append_assoc (take total buf) bytes (span (view d) (offset + n) (c - n))
        ∙ ap (λ l. take total buf ++ l)
            (ap (λ l. l ++ span (view d) (offset + n) (c - n)) e
              ∙ sym (span-add (view d) offset n (c - n))
              ∙ ap (span (view d) offset) (omega (arith, le)));
    kept = rest.kept ∙ same;
  }

  Filled-failed :
      (total count offset : ℕ) (buf buf' : List ℕ) (d d' : D)
      → view d' ≡ view d
      → Filled total buf count offset d (minus_one, buf', d')
  Filled-failed total count offset buf buf' d d' same = record {
    bytes = λ ok. absurd (cc);
    kept = same;
  }

  reads_from-Filled :
      ReadsFile
      → (fuel total : ℕ) (buf : List ℕ) (count offset : ℕ) (d : D) → count < fuel
      → offset + count < 2 ^ 64
      → total ≤ length buf
      → Returns (reads_from os fuel h total buf count offset d) (Filled total buf count offset d)
  unfolding reads_from span
  reads_from-Filled law zero total buf count offset d enough small room = absurd (omega arith)
  reads_from-Filled law (suc fuel) total buf zero offset d enough small room = record {
    bytes = λ ok. ap (λ t. take t buf) (add-zero total) ∙ sym (append-nil (take total buf));
    kept = refl;
  }
  reads_from-Filled law (suc fuel) total buf (suc c) offset d enough small room =
      (elim (law.reads (suc c) offset d) [
        | inl failed ↦
            rw failed
              (Filled-failed total (suc c) offset buf _ d got.2 (law.keeps (suc c) offset d))
        | inr some_ ↦ go_on some_.n some_.result some_.at_most some_.bytes λ n pos_n le e.
            rw (mod-eq_of_lt (some_small n le)) (
              Returns-weaken
                (reads_from os fuel h (total + n) (filled total buf got.1) (suc c - n) (offset + n)
                  got.2)
                (λ out.
                  Filled-on total (suc c) n offset buf got.1 d got.2 out room le e
                    (law.keeps (suc c) offset d))
                (reads_from-Filled law fuel (total + n) (filled total buf got.1) (suc c - n)
                  (offset + n) got.2 (omega (arith, enough, pos_n)) (omega (arith, small, le))
                  (filled_room total n buf got.1 room
                    (ap length e ∙ length-span (view d) offset n))))
      ])
    where
      got : ℤ × List ℕ × D
      got = os.read h.fd (suc c) offset d

      some_small : (n : ℕ) → n ≤ suc c → offset + n < 2 ^ 64
      some_small n le = omega (arith, small, le)

      go_on :
          (n : ℕ)
          → got.0 ≡ pos n
          → n ≤ suc c
          → got.1 ≡ span (view d) offset n
          → ((n : ℕ)
              → 0 < n
              → n ≤ suc c
              → got.1 ≡ span (view d) offset n
              → Returns
                  (reads_from os fuel h
                    (total + n)
                    (filled total buf got.1)
                    (suc c - n)
                    ((offset + n) % 2 ^ 64)
                    got.2)
                  (Filled total buf (suc c) offset d))
          → Returns
              (after_read got.0 (suc c) (filled total buf got.1) got.2 (λ n.
                reads_from os fuel h
                  (total + n)
                  (filled total buf got.1)
                  (suc c - n)
                  ((offset + n) % 2 ^ 64)
                  got.2))
              (Filled total buf (suc c) offset d)
      go_on zero e le bytes rest =
          rw e (Filled-failed total (suc c) offset buf _ d got.2 (law.keeps (suc c) offset d))
      go_on (suc n) e le bytes rest = rw (e, in_range n le) (rest (suc n) (omega arith) le bytes)
        where
          in_range : (n : ℕ) → suc n ≤ suc c → ltb (suc c) (suc n) ≡ false
          in_range n le = ground (arith, le)

  -- The call of a file: it returns, the file stays, and after a success the buffer is the file's.
  pub record HasRead (count offset : ℕ) (s : Files D) (out : ℤ × List ℕ × Files D) : Type 0 where
    pub front : is_zero out.0 ≡ true → take count out.1 ≡ span (view s.dev) offset count
    pub kept : view out.2.dev ≡ view s.dev

  -- A read of a file, by a handle in use, always returns, however short the single calls of
  -- `pread` fall, and leaves the file as it was; after a success the front of the buffer is the
  -- file's bytes from the offset on. A `pread` fails or gives bytes of the file; the end of the
  -- range stays below 2^64.
  pub file_pread-HasRead :
      ReadsFile
      → (handle : ℕ) (buf : List ℕ) (count offset flags : ℕ) (s : Files D)
      → file_at handle s ≡ done h
      → offset + count < 2 ^ 64
      → Returns (file_pread os handle buf count offset flags s) (HasRead count offset s)
  unfolding file_pread
  file_pread-HasRead law handle buf count offset flags s there small = rw there (
      Returns->>= (reads_from os (count + 1) h 0 buf count offset s.dev) _
        (Filled 0 buf count offset s.dev) (HasRead count offset s)
        (reads_from-Filled law (count + 1) 0 buf count offset s.dev (omega arith) small
          (omega arith))
        λ out f. record {
          front = λ ok. ap (λ t. take t out.1) {y = 0 + count} (omega arith) ∙ f.bytes ok;
          kept = f.kept;
        })
