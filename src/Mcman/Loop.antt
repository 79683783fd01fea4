-- ===== src/Mcman/Loop.antt =====
-- The loop of `mcman_pwrite` of plugins/mcman/mcman_d.c over the blocks of a write.
use lw_nbd.Prelude.{
  add_mul, mul_le, next_page, suc_pages, ℕ, ℤ, zero, suc, ◌+◌, ◌-◌, ◌*◌, ◌≤◌, ◌<◌, ◌^◌, ltb, ◌≡◌,
  refl, sym, ap, subst, ◌∙◌, true, false, inl, inr, List, [], ◌++◌, length, take, drop, take_more,
  drop-drop, length-take, length-drop, min, leb, is_zero, Returns, Returns->>=, Returns-weaken, ◌⊎◌,
  done, ◌>>=◌, Bool-cases, not_both, arith, if◌then◌else◌,
}
use native.Mathlib.Nat.{zero-mul}
use lw_nbd.Nbd.Medium.{patch, patch-nil, patch-append}
use lw_nbd.Mcman.{Library, Cards, CardHandle, inject_pages, in_ints, block_loop}
use lw_nbd.Mcman.Pages.{IsCard}
use lw_nbd.Mcman.Blocks.{Stored, inject_pages-Stored}

module _ {D : Type 0} (lib : Library D) (view : D → ℕ → ℕ) where
  -- Two writes on end are one.
  Stored-then :
      (at at' : ℕ) (xs ys : List ℕ) (s : Cards D) (first out : ℤ × Cards D)
      → Stored view at xs s first
      → is_zero first.0 ≡ true
      → Stored view at' ys first.1 out
      → ((m : ℕ → ℕ) → patch m at' ys ≡ patch m (at + length xs) ys)
      → Stored view at (xs ++ ys) s out
  Stored-then at at' xs ys s first out one ok two joins = record {
    stored = λ all_ok.
        two.stored all_ok
        ∙ ap (λ (m : ℕ → ℕ). patch m at' ys) (one.stored ok)
        ∙ joins (patch (view s.dev) at xs)
        ∙ sym (patch-append (view s.dev) at xs ys);
    same_size = two.same_size ∙ one.same_size;
    same_ppb = two.same_ppb ∙ one.same_ppb;
  }

  -- A write that has failed has promised nothing of the bytes.
  Stored-failed :
      (at : ℕ) (xs ys : List ℕ) (s : Cards D) (out : ℤ × Cards D)
      → Stored view at xs s out
      → is_zero out.0 ≡ false
      → Stored view at ys s out
  Stored-failed at xs ys s out one failed = record {
    stored = λ ok. absurd (not_both ok failed);
    same_size = one.same_size;
    same_ppb = one.same_ppb;
  }

  module _ (h : CardHandle) (buf : List ℕ) where
    pub pages_of : ℕ → ℕ → List ℕ
    pages_of n from = take (n * h.blocksize) (drop (from * h.blocksize) buf)

    length-pages_of :
        (n from : ℕ)
        → (from + n) * h.blocksize ≤ length buf
        → length (pages_of n from) ≡ n * h.blocksize
    unfolding pages_of
    length-pages_of n from enough =
        length-take (n * h.blocksize) (drop (from * h.blocksize) buf)
        ∙ ap (min (n * h.blocksize)) (length-drop (from * h.blocksize) buf)
        ∙ ground (arith, enough, add_mul from n h.blocksize)

    pages_of-add : (m n from : ℕ) → pages_of (m + n) from ≡ pages_of m from ++ pages_of n (from + m)
    unfolding pages_of
    pages_of-add m n from =
        rw (add_mul m n h.blocksize, add_mul from m h.blocksize)
          (take_more (m * h.blocksize) (n * h.blocksize) (drop (from * h.blocksize) buf)
            ∙ ap
                (λ l.
                  take (m * h.blocksize) (drop (from * h.blocksize) buf)
                  ++ take (n * h.blocksize) l)
                (drop-drop (from * h.blocksize) (m * h.blocksize) buf))

    pub pages_of-start : (n : ℕ) → pages_of n 0 ≡ take (n * h.blocksize) buf
    unfolding pages_of
    pages_of-start n = ap (λ k. take (n * h.blocksize) (drop k buf)) (zero-mul h.blocksize)

    pages_of-zero : (from : ℕ) → pages_of 0 from ≡ []
    unfolding pages_of
    pages_of-zero from = ap (λ k. take k (drop (from * h.blocksize) buf)) (zero-mul h.blocksize)

    -- The `int`s of a write that goes up to block `last` and page `pages` are in range.
    pub record Narrow (last pages : ℕ) (s : Cards D) : Type 0 where
      pub last_block : last < 2 ^ 31
      pub last_page : last * s.pages_per_block ≤ 2 ^ 31
      pub block_bytes : s.pages_per_block * h.blocksize ≤ 2 ^ 31
      pub page_count : pages < 2 ^ 31
      pub byte_count : pages * h.blocksize < 2 ^ 31

    Narrow-move :
        (last last' pages pages' : ℕ) (s s' : Cards D)
        → last' ≡ last
        → pages' ≡ pages
        → s'.pages_per_block ≡ s.pages_per_block
        → Narrow last pages s
        → Narrow last' pages' s'
    Narrow-move last last' pages pages' s s' e e' ppb w = record {
      last_block = omega (arith, w.last_block, e);
      last_page =
          omega (arith, w.last_page, ap (λ t. t * s'.pages_per_block) e, ap (λ p. last * p) ppb);
      block_bytes = omega (arith, w.block_bytes, ap (λ p. p * h.blocksize) ppb);
      page_count = omega (arith, w.page_count, e');
      byte_count = omega (arith, w.byte_count, ap (λ t. t * h.blocksize) e');
    }

    -- A round within such a write is in range.
    in_ints-Narrow :
        (n i remaining written : ℕ) (s : Cards D)
        → Narrow (i + suc n) (written + remaining) s
        → in_ints i h remaining written s ≡ true
    unfolding in_ints
    in_ints-Narrow n i remaining written s w =
        rw (last_block, last_page, block_bytes, page_count, byte_count) refl
      where
        last_block : ltb (i + 1) (2 ^ 31) ≡ true
        last_block = ground (arith, w.last_block)

        last_page : leb ((i + 1) * s.pages_per_block) (2 ^ 31) ≡ true
        last_page =
            ground (arith, w.last_page, mul_le (i + 1) (i + suc n) s.pages_per_block (omega arith))

        block_bytes : leb (s.pages_per_block * h.blocksize) (2 ^ 31) ≡ true
        block_bytes = ground (arith, w.block_bytes)

        page_count : ltb remaining (2 ^ 31) ≡ true
        page_count = ground (arith, w.page_count)

        byte_count : ltb (written * h.blocksize) (2 ^ 31) ≡ true
        byte_count =
            ground
              (arith, w.byte_count, mul_le written (written + remaining) h.blocksize (omega arith))

    -- `n` blocks from block `i` on take the pages left, which begin in that block.
    abbrev pub LoopStores : ℕ → Type 0
    LoopStores n =
        (i block_offset remaining written : ℕ) (s : Cards D)
        → IsCard lib view h.device h.blocksize s.pages_per_block
        → s.bbuffer_size ≡ s.pages_per_block * h.blocksize
        → block_offset ≤ s.pages_per_block
        → block_offset + remaining ≤ n * s.pages_per_block
        → (written + remaining) * h.blocksize ≤ length buf
        → Narrow (i + n) (written + remaining) s
        → Returns (block_loop lib n i h block_offset remaining written buf s) (
            Stored view ((i * s.pages_per_block + block_offset) * h.blocksize)
              (pages_of remaining written) s)

    none : (n from : ℕ) → n ≡ 0 → pages_of n from ≡ []
    none n from e = ap (λ t. pages_of t from) e ∙ pages_of-zero from

    pages_within :
        (written k remaining : ℕ)
        → k ≤ remaining
        → (written + remaining) * h.blocksize ≤ length buf
        → (written + k) * h.blocksize ≤ length buf
    pages_within written k remaining le enough = omega (
      arith,
      enough,
      add_mul (written + k) (remaining - k) h.blocksize,
      ap (λ t. t * h.blocksize) {x = written + k + (remaining - k)} {y = written + remaining}
          (omega (arith, le)),
    )

    -- After a block the rest goes on where it ends, or there is no rest.
    continue :
        (n i block_offset remaining written k : ℕ) (s : Cards D) (out : ℤ × Cards D)
        → LoopStores n
        → IsCard lib view h.device h.blocksize s.pages_per_block
        → s.bbuffer_size ≡ s.pages_per_block * h.blocksize
        → block_offset + remaining ≤ suc n * s.pages_per_block
        → (written + remaining) * h.blocksize ≤ length buf
        → Narrow (i + suc n) (written + remaining) s
        → k ≤ remaining
        → block_offset + k ≤ s.pages_per_block
        → (block_offset + k ≡ s.pages_per_block) ⊎ (k ≡ remaining)
        → Stored view
            (i * s.pages_per_block * h.blocksize + block_offset * h.blocksize)
            (pages_of k written)
            s
            out
        → is_zero out.0 ≡ true
        → Returns (block_loop lib n (i + 1) h 0 (remaining - k) (written + k) buf out.1) (
            Stored view
              ((i * s.pages_per_block + block_offset) * h.blocksize)
              (pages_of remaining written)
              s)
    continue n i block_offset remaining written k s out loop card size left enough narrow le fits
          ends one ok =
        Returns-weaken (block_loop lib n (i + 1) h 0 (remaining - k) (written + k) buf out.1)
          (λ r two.
            subst (λ l. Stored view ((i * s.pages_per_block + block_offset) * h.blocksize) l s r)
              (sym parts)
              (Stored-then ((i * s.pages_per_block + block_offset) * h.blocksize)
                (((i + 1) * out.1.pages_per_block + 0) * h.blocksize) (pages_of k written)
                (pages_of (remaining - k) (written + k)) s out r
                (subst (λ k'. Stored view k' (pages_of k written) s out)
                  (sym (add_mul (i * s.pages_per_block) block_offset h.blocksize)) one)
                ok two joins))
          (loop (i + 1) 0 (remaining - k) (written + k) out.1
            (subst (IsCard lib view h.device h.blocksize) (sym one.same_ppb) card)
            (one.same_size ∙ size ∙ ap (λ p. p * h.blocksize) (sym one.same_ppb)) (omega arith)
            rest_fits
            (omega (
              arith,
              enough,
              ap (λ t. t * h.blocksize) {x = written + k + (remaining - k)}
                  {y = written + remaining} (omega (arith, le)),
            ))
            (Narrow-move (i + suc n) (i + 1 + n) (written + remaining)
              (written + k + (remaining - k)) s out.1 (omega arith) (omega (arith, le)) one.same_ppb
              narrow))
      where
        rest_fits : 0 + (remaining - k) ≤ n * out.1.pages_per_block
        rest_fits = elim ends [
          | inl full ↦
              omega (arith, full, left, suc_pages n s.pages_per_block, ap (λ p. n * p) one.same_ppb)
          | inr all ↦ omega (arith, all)
        ]

        end_at :
            block_offset + k ≡ s.pages_per_block
            → (i + 1) * out.1.pages_per_block + 0 ≡ i * s.pages_per_block + block_offset + k
        end_at full =
            omega (arith, full, next_page i s.pages_per_block, ap (λ p. (i + 1) * p) one.same_ppb)

        parts :
            pages_of remaining written
            ≡ pages_of k written ++ pages_of (remaining - k) (written + k)
        parts =
            ap (λ t. pages_of t written) {y = k + (remaining - k)} (omega (arith, le))
            ∙ pages_of-add k (remaining - k) written

        len : length (pages_of k written) ≡ k * h.blocksize
        len = length-pages_of k written (pages_within written k remaining le enough)

        none_left : k ≡ remaining → pages_of (remaining - k) (written + k) ≡ []
        none_left all = none (remaining - k) (written + k) (omega (arith, all))

        joins :
            (m : ℕ → ℕ)
            → patch m
                (((i + 1) * out.1.pages_per_block + 0) * h.blocksize)
                (pages_of (remaining - k) (written + k))
              ≡ patch m
                  ((i * s.pages_per_block + block_offset) * h.blocksize
                    + length (pages_of k written))
                  (pages_of (remaining - k) (written + k))
        joins m = elim ends [
          | inl full ↦
              ap (λ a. patch m a (pages_of (remaining - k) (written + k)))
                (ap (λ t. t * h.blocksize) (end_at full)
                  ∙ add_mul (i * s.pages_per_block + block_offset) k h.blocksize
                  ∙ ap (λ t. (i * s.pages_per_block + block_offset) * h.blocksize + t) (sym len))
          | inr all ↦
              ap (patch m (((i + 1) * out.1.pages_per_block + 0) * h.blocksize)) (none_left all)
              ∙ patch-nil m (((i + 1) * out.1.pages_per_block + 0) * h.blocksize)
              ∙ sym (
                  patch-nil m (
                    (i * s.pages_per_block + block_offset) * h.blocksize
                    + length (pages_of k written)))
              ∙ ap
                  (patch m (
                    (i * s.pages_per_block + block_offset) * h.blocksize
                    + length (pages_of k written)))
                  (sym (none_left all))
        ]

    block_step :
        512 ≤ h.blocksize
        → (n i block_offset remaining written k : ℕ) (s : Cards D) → LoopStores n
        → IsCard lib view h.device h.blocksize s.pages_per_block
        → s.bbuffer_size ≡ s.pages_per_block * h.blocksize
        → block_offset + remaining ≤ suc n * s.pages_per_block
        → (written + remaining) * h.blocksize ≤ length buf
        → Narrow (i + suc n) (written + remaining) s
        → k ≤ remaining
        → block_offset + k ≤ s.pages_per_block
        → (block_offset + k ≡ s.pages_per_block) ⊎ (k ≡ remaining)
        → Returns
            (inject_pages lib h.device i h.blocksize block_offset k (pages_of k written) s >>= λ rs.
              elim (is_zero rs.0) [
                | true ↦ block_loop lib n (i + 1) h 0 (remaining - k) (written + k) buf rs.1
                | false ↦ done rs
              ])
            (Stored view
              ((i * s.pages_per_block + block_offset) * h.blocksize)
              (pages_of remaining written)
              s)
    block_step large n i block_offset remaining written k s loop card size left enough narrow le
          fits ends =
        Returns->>= (inject_pages lib h.device i h.blocksize block_offset k (pages_of k written) s)
          _
          (Stored view (i * s.pages_per_block * h.blocksize + block_offset * h.blocksize)
            (pages_of k written) s)
          _
          (inject_pages-Stored lib view h.device h.blocksize large i block_offset k
            (pages_of k written) s card size len
            (omega (arith, len, add_mul block_offset k h.blocksize, room)))
          λ out one. elim (Bool-cases (is_zero out.0)) [
            | inl ok ↦ rw ok (
                continue n i block_offset remaining written k s out loop card size left enough
                  narrow le fits ends one ok)
            | inr failed ↦ rw failed (
                Stored-failed ((i * s.pages_per_block + block_offset) * h.blocksize)
                  (pages_of k written) (pages_of remaining written) s out
                  (subst (λ a. Stored view a (pages_of k written) s out)
                    (sym (add_mul (i * s.pages_per_block) block_offset h.blocksize)) one)
                  failed)
          ]
      where
        len : length (pages_of k written) ≡ k * h.blocksize
        len = length-pages_of k written (pages_within written k remaining le enough)

        room : (block_offset + k) * h.blocksize ≤ s.pages_per_block * h.blocksize
        room = mul_le (block_offset + k) s.pages_per_block h.blocksize fits

    pub block_loop-Stored : 512 ≤ h.blocksize → (n : ℕ) → LoopStores n
    unfolding block_loop pages_of
    block_loop-Stored large zero i block_offset remaining written s card size at left enough
          narrow =
        (record {
          stored = λ ok. sym (
              ap (patch (view s.dev) ((i * s.pages_per_block + block_offset) * h.blocksize))
                (none remaining written (omega (arith, left, zero-mul s.pages_per_block)))
              ∙ patch-nil (view s.dev) ((i * s.pages_per_block + block_offset) * h.blocksize));
          same_size = refl;
          same_ppb = refl;
        })
    block_loop-Stored large (suc n) i block_offset remaining written s card size at left enough
          narrow =
        rw (in_ints-Narrow n i remaining written s narrow, block_loop)
          (block_step large n i block_offset remaining written
            (if leb (s.pages_per_block - block_offset) remaining
              then s.pages_per_block - block_offset
              else remaining)
            s (block_loop-Stored large n) card size left enough narrow (ground arith) (ground arith)
            (elim (Bool-cases (leb (s.pages_per_block - block_offset) remaining)) [
              | inl full ↦ inl (ground (arith, at, full))
              | inr all ↦ inr (ground (arith, all))
            ]))
