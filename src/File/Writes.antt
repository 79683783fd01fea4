-- ===== src/File/Writes.antt =====
-- `file_pwrite` of plugins/file/file.c: what is written to a file, and a write that never ends.
use lw_nbd.Prelude.{
  ℕ, ℤ, pos, minus_one, zero, suc, ◌+◌, ◌-◌, ◌%◌, ◌^◌, ◌≤◌, ◌<◌, ◌≡◌, refl, sym, ap, ◌∙◌, ◌⊎◌, inl,
  inr, true, false, List, take, drop, take_more, take-take, length, length-take, length-drop, ltb,
  is_zero, done, out_of_fuel, Returns, Returns-weaken, Returns->>=, arith,
}
use native.Mathlib.Nat.{mod-eq_of_lt}
use lw_nbd.Nbd.Medium.{patch, patch-nil, patch-append}
use lw_nbd.File.{Os, FileHandle, Files, file_at, after_write, writes_from, file_pwrite}

module _ {D : Type 0} (os : Os D) (view : D → ℕ → ℕ) (h : FileHandle) where
  -- A write that goes through stores one or more of the bytes.
  pub record WritesSome (bytes : List ℕ) (offset : ℕ) (d : D) (out : ℤ × D) : Type 0 where
    pub n : ℕ
    pub result : out.0 ≡ pos n
    pub some_bytes : 0 < n
    pub at_most : n ≤ length bytes
    pub stored : view out.1 ≡ patch (view d) offset (take n bytes)

  -- What `pwrite` promises of a file: -1 and nothing is stored, or a write that goes through.
  pub record WritesFile : Type 0 where
    pub writes :
        (bytes : List ℕ) (offset : ℕ) (d : D)
        → 0 < length bytes
        → (((os.write h.fd bytes offset d).0 ≡ minus_one)
            × (view (os.write h.fd bytes offset d).1 ≡ view d))
          ⊎ WritesSome bytes offset d (os.write h.fd bytes offset d)

  -- The first `n` bytes are stored, and all of them after a success.
  pub record Written (buf : List ℕ) (count offset : ℕ) (d : D) (r : ℤ) (d' : D) : Type 0 where
    pub n : ℕ
    pub at_most : n ≤ count
    pub stored : view d' ≡ patch (view d) offset (take n buf)
    pub all : is_zero r ≡ true → n ≡ count

  Written-none :
      (buf : List ℕ) (count offset : ℕ) (d : D) (r : ℤ) (d' : D)
      → view d' ≡ view d
      → (is_zero r ≡ true → 0 ≡ count)
      → Written buf count offset d r d'
  Written-none buf count offset d r d' same all = record {
    n = 0;
    at_most = omega arith;
    stored = same ∙ sym (patch-nil (view d) offset);
    all = all;
  }

  Written-on :
      (buf : List ℕ) (c n offset : ℕ) (d d' : D) (r : ℤ) (d'' : D)
      → n ≤ c
      → c ≤ length buf
      → view d' ≡ patch (view d) offset (take n buf)
      → Written (drop n buf) (c - n) (offset + n) d' r d''
      → Written buf c offset d r d''
  Written-on buf c n offset d d' r d'' le room first rest = record {
    n = n + rest.n;
    at_most = omega (arith, rest.at_most, le);
    stored =
        rest.stored
        ∙ ap (λ (m : ℕ → ℕ). patch m (offset + n) (take rest.n (drop n buf))) first
        ∙ ap
            (λ k.
              patch (patch (view d) offset (take n buf)) (offset + k) (take rest.n (drop n buf)))
            {y = length (take n buf)} (omega (arith, length-take n buf, le, room))
        ∙ sym (patch-append (view d) offset (take n buf) (take rest.n (drop n buf)))
        ∙ ap (patch (view d) offset) (sym (take_more n rest.n buf));
    all = λ ok. omega (arith, rest.all ok, le);
  }

  writes_from-Written :
      WritesFile
      → (fuel : ℕ) (buf : List ℕ) (count offset : ℕ) (d : D) → count < fuel
      → offset + count < 2 ^ 64
      → count ≤ length buf
      → Returns
          (writes_from os fuel h buf count offset d)
          (λ out. Written buf count offset d out.0 out.1)
  unfolding writes_from
  writes_from-Written law zero buf count offset d enough small room = absurd (omega arith)
  writes_from-Written law (suc fuel) buf zero offset d enough small room =
      Written-none buf 0 offset d (pos 0) d refl (λ ok. refl)
  writes_from-Written law (suc fuel) buf (suc c) offset d enough small room =
      elim (law.writes (take (suc c) buf) offset d (omega (arith, len))) [
        | inl failed ↦
            rw (failed.0)
              (Written-none buf (suc c) offset d minus_one put.1 failed.1 (λ ok. absurd (cc)))
        | inr some_ ↦
            go_on some_.n some_.result some_.some_bytes (omega (arith, some_.at_most, len))
              (some_.stored
                ∙ ap (patch (view d) offset)
                    (take-take (suc c) some_.n buf (omega (arith, some_.at_most, len))))
              λ n pos_n le stored. rw (mod-eq_of_lt (some_small n le)) (
                Returns-weaken (writes_from os fuel h (drop n buf) (suc c - n) (offset + n) put.1)
                  (λ out. Written-on buf (suc c) n offset d put.1 out.0 out.1 le room stored)
                  (writes_from-Written law fuel (drop n buf) (suc c - n) (offset + n) put.1
                    (omega (arith, enough, pos_n)) (omega (arith, small, le))
                    (omega (arith, length-drop n buf, room))))
      ]
    where
      put : ℤ × D
      put = os.write h.fd (take (suc c) buf) offset d

      len : length (take (suc c) buf) ≡ suc c
      len = omega (arith, length-take (suc c) buf, room)

      some_small : (n : ℕ) → n ≤ suc c → offset + n < 2 ^ 64
      some_small n le = omega (arith, small, le)

      go_on :
          (n : ℕ)
          → put.0 ≡ pos n
          → 0 < n
          → n ≤ suc c
          → view put.1 ≡ patch (view d) offset (take n buf)
          → ((n : ℕ)
              → 0 < n
              → n ≤ suc c
              → view put.1 ≡ patch (view d) offset (take n buf)
              → Returns
                  (writes_from os fuel h (drop n buf) (suc c - n) ((offset + n) % 2 ^ 64) put.1)
                  (λ out. Written buf (suc c) offset d out.0 out.1))
          → Returns
              (after_write put.0
                (suc c)
                put.1
                (λ n. writes_from os fuel h (drop n buf) (suc c - n) ((offset + n) % 2 ^ 64) put.1))
              (λ out. Written buf (suc c) offset d out.0 out.1)
      go_on n e pos_n le stored rest = rw (e, in_range n le) (rest n pos_n le stored)
        where
          in_range : (n : ℕ) → n ≤ suc c → ltb (suc c) n ≡ false
          in_range n le = ground (arith, le)

  -- A write to a file, by a handle in use, always returns, in at most one call of `pwrite` for
  -- each byte, and has stored a first part of the bytes at the offset and nothing else; all of
  -- them if it reports success. A `pwrite` fails and stores nothing, or stores one or more of the
  -- bytes it is given; the end of the range stays below 2^64.
  pub file_pwrite-Written :
      WritesFile
      → (handle : ℕ) (buf : List ℕ) (count offset flags : ℕ) (s : Files D)
      → file_at handle s ≡ done h
      → offset + count < 2 ^ 64
      → count ≤ length buf
      → Returns
          (file_pwrite os (count + 1) handle buf count offset flags s)
          (λ out. Written buf count offset s.dev out.0 out.1.dev)
  unfolding file_pwrite
  file_pwrite-Written law handle buf count offset flags s there small room = rw there (
      Returns->>= (writes_from os (count + 1) h buf count offset s.dev) _
        (λ out. Written buf count offset s.dev out.0 out.1)
        (λ out. Written buf count offset s.dev out.0 out.1.dev)
        (writes_from-Written law (count + 1) buf count offset s.dev (omega arith) small room)
        λ out w. w)

-- Where every `pwrite` returns 0, the loop never ends.
module _ {D : Type 0} (os : Os D) (h : FileHandle) where
  writes_from-endless :
      ((bytes : List ℕ) (offset : ℕ) (d : D) → (os.write h.fd bytes offset d).0 ≡ pos 0)
      → (fuel : ℕ) (buf : List ℕ) (count offset : ℕ) (d : D) → 0 < count
      → writes_from os fuel h buf count offset d ≡ out_of_fuel
  unfolding writes_from
  writes_from-endless stuck zero buf count offset d more = refl
  writes_from-endless stuck (suc fuel) buf zero offset d more = absurd (omega arith)
  writes_from-endless stuck (suc fuel) buf (suc c) offset d more =
      rw (stuck (take (suc c) buf) offset d, in_range)
        (writes_from-endless stuck fuel buf (suc c - 0) ((offset + 0) % 2 ^ 64)
          (os.write h.fd (take (suc c) buf) offset d).1 (omega arith))
    where
      in_range : ltb (suc c) 0 ≡ false
      in_range = ground arith

  -- A write of at least one byte, by a handle in use, whose every `pwrite` returns 0 does not end,
  -- whatever number of rounds it is given.
  pub file_pwrite-endless :
      ((bytes : List ℕ) (offset : ℕ) (d : D) → (os.write h.fd bytes offset d).0 ≡ pos 0)
      → (fuel handle : ℕ) (buf : List ℕ) (count offset flags : ℕ) (s : Files D)
      → file_at handle s ≡ done h
      → 0 < count
      → file_pwrite os fuel handle buf count offset flags s ≡ out_of_fuel
  unfolding file_pwrite
  file_pwrite-endless stuck fuel handle buf count offset flags s there more =
      rw there (rw (writes_from-endless stuck fuel buf count offset s.dev more) refl)
