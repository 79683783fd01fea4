-- ===== src/Mcman/Reading.antt =====
-- `mcman_pread` of plugins/mcman/mcman_d.c on a card.
use lw_nbd.Prelude.{
  ◌&&◌, Run, mul_le, ◌%◌, ◌^◌, ◌<◌, ltb, drop, pos, false, next_page, suc_pages, ℕ, ℤ, zero, suc,
  ◌+◌, ◌*◌, ◌≤◌, ◌≡◌, refl, sym, ap, ◌∙◌, true, inl, inr, List, ◌++◌, length, take, length-append,
  length-take, append-nil, append_assoc, take-append, is_zero, Returns, done, Bool-cases, not_both,
  arith,
}
use mathlib.Core.Path.{ap₂}
use native.Mathlib.Nat.{zero-mul}
use lw_nbd.Nbd.Medium.{span, span-add, length-span}
use lw_nbd.Mcman.{Library, Cards, CardHandle, card_at, read_loop, mcman_pread}
use lw_nbd.Mcman.Pages.{IsCard}

module _ {D : Type 0} (lib : Library D) (view : D → ℕ → ℕ) where
  module _ (h : CardHandle) (ppb : ℕ) (card : IsCard lib view h.device h.blocksize ppb) where
    -- The loop on pages and bytes that an `int` holds.
    pages_loop : ℕ → ℕ → ℕ → List ℕ → D → ℤ × List ℕ × D
    pages_loop zero i offset buf d = (pos 0, buf, d)
    pages_loop (suc n) i offset buf d =
        let at = i * h.blocksize in
        let (result, bytes, d') = lib.read_page h.device (offset + i) d in
        let buf' = take at buf ++ (bytes ++ drop (at + length bytes) buf) in
        elim (is_zero result) [
          | true ↦ pages_loop n (i + 1) offset buf' d'
          | false ↦ (result, buf', d')
        ]

    read_loop-done :
        (n i offset : ℕ) (buf : List ℕ) (d : D)
        → offset + i + n < 2 ^ 31
        → (i + n) * h.blocksize < 2 ^ 31
        → read_loop lib n i h offset buf d ≡ done (pages_loop n i offset buf d)
    unfolding read_loop pages_loop
    read_loop-done zero i offset buf d pages bytes = refl
    read_loop-done (suc n) i offset buf d pages bytes =
        rw (near, read_loop)
          (ap from_page cut ∙ elim (Bool-cases (is_zero got.0)) [
            | inl ok ↦
                rw (ok, pages_loop)
                  (read_loop-done n (i + 1) offset next got.2 (omega (arith, pages)) (
                    omega (
                      arith,
                      bytes,
                      ap (λ t. t * h.blocksize) {x = i + 1 + n} {y = i + suc n} (omega arith),
                    )))
            | inr failed ↦ rw (failed, pages_loop) refl
          ])
      where
        got : ℤ × List ℕ × D
        got = lib.read_page h.device (offset + i) d

        next : List ℕ
        next = take (i * h.blocksize) buf ++ (got.1 ++ drop (i * h.blocksize + length got.1) buf)

        -- the round with the page that is read
        from_page : ℕ → Run (ℤ × List ℕ × D)
        from_page page =
            let at = i * h.blocksize in
            let (result, bytes, d') = lib.read_page h.device page d in
            let buf' = take at buf ++ (bytes ++ drop (at + length bytes) buf) in
            elim (is_zero result) [
              | true ↦ read_loop lib n (i + 1) h offset buf' d'
              | false ↦ done (result, buf', d')
            ]

        cut : (offset + i) % 2 ^ 32 ≡ offset + i
        cut = omega (arith, pages)

        near : ltb (i + 1) (2 ^ 31) && ltb (i * h.blocksize) (2 ^ 31) ≡ true
        near = ground (arith, pages, bytes, mul_le i (i + suc n) h.blocksize (omega arith))

    pages_loop-keeps :
        (n i offset : ℕ) (buf : List ℕ) (d : D) → view (pages_loop n i offset buf d).2 ≡ view d
    unfolding pages_loop
    pages_loop-keeps zero i offset buf d = refl
    pages_loop-keeps (suc n) i offset buf d = elim (Bool-cases (is_zero got.0)) [
      | inl ok ↦
          rw (ok, pages_loop)
            (pages_loop-keeps n (i + 1) offset _ got.2 ∙ card.keeps (offset + i) d)
      | inr failed ↦ rw (failed, pages_loop) (card.keeps (offset + i) d)
    ]
      where
        got : ℤ × List ℕ × D
        got = lib.read_page h.device (offset + i) d

    -- A page that is put behind the pages read makes a longer front.
    take-page :
        (i : ℕ) (buf bytes : List ℕ)
        → i * h.blocksize ≤ length buf
        → length bytes ≡ h.blocksize
        → take
            ((i + 1) * h.blocksize)
            (take (i * h.blocksize) buf ++ (bytes ++ drop (i * h.blocksize + length bytes) buf))
          ≡ take (i * h.blocksize) buf ++ bytes
    take-page i buf bytes room len =
        ap (take ((i + 1) * h.blocksize)) (
          sym (
            append_assoc (take (i * h.blocksize) buf) bytes
              (drop (i * h.blocksize + length bytes) buf)))
        ∙ take-append ((i + 1) * h.blocksize) (take (i * h.blocksize) buf ++ bytes)
            (drop (i * h.blocksize + length bytes) buf)
            (omega (
              arith,
              length-append (take (i * h.blocksize) buf) bytes,
              length-take (i * h.blocksize) buf,
              room,
              len,
              next_page i h.blocksize,
            ))

    page_room :
        (i : ℕ) (buf bytes : List ℕ)
        → i * h.blocksize ≤ length buf
        → length bytes ≡ h.blocksize
        → (i + 1) * h.blocksize
          ≤ length
              (take (i * h.blocksize) buf ++ (bytes ++ drop (i * h.blocksize + length bytes) buf))
    page_room i buf bytes room len = omega (
      arith,
      room,
      len,
      next_page i h.blocksize,
      length-take (i * h.blocksize) buf,
      length-append (take (i * h.blocksize) buf)
          (bytes ++ drop (i * h.blocksize + length bytes) buf),
      length-append bytes (drop (i * h.blocksize + length bytes) buf),
    )

    pages_loop-front :
        (n i offset : ℕ) (buf : List ℕ) (d : D)
        → i * h.blocksize ≤ length buf
        → is_zero (pages_loop n i offset buf d).0 ≡ true
        → take ((i + n) * h.blocksize) (pages_loop n i offset buf d).1
          ≡ take (i * h.blocksize) buf
            ++ span (view d) ((offset + i) * h.blocksize) (n * h.blocksize)
    unfolding pages_loop span
    pages_loop-front zero i offset buf d room = λ ok.
        ap (λ t. take (t * h.blocksize) buf) {y = i} (omega arith)
        ∙ sym (append-nil (take (i * h.blocksize) buf))
        ∙ ap (λ t. take (i * h.blocksize) buf ++ span (view d) ((offset + i) * h.blocksize) t)
            (sym (zero-mul h.blocksize))
    pages_loop-front (suc n) i offset buf d room = elim (Bool-cases (is_zero got.0)) [
      | inl ok ↦
          rw (ok, pages_loop)
            λ all_ok.
              ap (λ t. take (t * h.blocksize) (pages_loop n (i + 1) offset next got.2).1)
                {y = i + 1 + n} (omega arith)
              ∙ pages_loop-front n (i + 1) offset next got.2 (page_room i buf got.1 room (len ok))
                  all_ok
              ∙ ap₂ ◌++◌ (take-page i buf got.1 room (len ok)) (
                  ap (λ m. span m ((offset + (i + 1)) * h.blocksize) (n * h.blocksize))
                    (card.keeps (offset + i) d))
              ∙ append_assoc (take (i * h.blocksize) buf) got.1
                  (span (view d) ((offset + (i + 1)) * h.blocksize) (n * h.blocksize))
              ∙ ap (λ l. take (i * h.blocksize) buf ++ l) (page-span ok)
      | inr failed ↦ rw (failed, pages_loop) λ ok. absurd (not_both ok failed)
    ]
      where
        got : ℤ × List ℕ × D
        got = lib.read_page h.device (offset + i) d

        next : List ℕ
        next = take (i * h.blocksize) buf ++ (got.1 ++ drop (i * h.blocksize + length got.1) buf)

        bytes :
            is_zero got.0 ≡ true → got.1 ≡ span (view d) ((offset + i) * h.blocksize) h.blocksize
        bytes ok = card.reads (offset + i) d ok

        len : is_zero got.0 ≡ true → length got.1 ≡ h.blocksize
        len ok =
            ap length (bytes ok) ∙ length-span (view d) ((offset + i) * h.blocksize) h.blocksize

        page-span :
            is_zero got.0 ≡ true
            → got.1 ++ span (view d) ((offset + (i + 1)) * h.blocksize) (n * h.blocksize)
              ≡ span (view d) ((offset + i) * h.blocksize) (suc n * h.blocksize)
        page-span ok =
            ap₂ (λ l t. l ++ span (view d) t (n * h.blocksize)) (bytes ok)
              (ap (λ t. t * h.blocksize) {y = offset + i + 1} (omega arith)
                ∙ next_page (offset + i) h.blocksize)
            ∙ sym (span-add (view d) ((offset + i) * h.blocksize) h.blocksize (n * h.blocksize))
            ∙ ap (span (view d) ((offset + i) * h.blocksize)) (sym (suc_pages n h.blocksize))

  -- A read always returns and leaves the card as it was, and one without error has the pages.
  pub record ReadPages (h : CardHandle) (count offset : ℕ) (s : Cards D)
      (out : ℤ × List ℕ × Cards D) : Type 0 where
    pub front :
        is_zero out.0 ≡ true
        → take (count * h.blocksize) out.1
          ≡ span (view s.dev) (offset * h.blocksize) (count * h.blocksize)
    pub keeps : view out.2.dev ≡ view s.dev

  -- A read of pages from a memory card, by a handle in use, always returns and leaves the card as
  -- it was; if it reports success, the front of the buffer is the card's bytes from the page's
  -- address on. The pages end before page 2^31, their bytes are less than 2^31, and the library
  -- reads as documented.
  pub mcman_pread-ReadPages :
      (handle : ℕ) (buf : List ℕ) (count offset flags : ℕ) (h : CardHandle) (s : Cards D)
      → card_at handle s ≡ done h
      → IsCard lib view h.device h.blocksize s.pages_per_block
      → offset + count < 2 ^ 31
      → count * h.blocksize < 2 ^ 31
      → Returns (mcman_pread lib handle buf count offset flags s) (ReadPages h count offset s)
  unfolding mcman_pread
  mcman_pread-ReadPages handle buf count offset flags h s there card pages bytes =
      rw (there, read)
        (record {
          front = λ ok.
              ap
                (λ t.
                  take (t * h.blocksize)
                    (pages_loop h s.pages_per_block card count 0 offset buf s.dev).1)
                {y = 0 + count} (omega arith)
              ∙ pages_loop-front h s.pages_per_block card count 0 offset buf s.dev
                  (omega (arith, zero-mul h.blocksize)) ok
              ∙ ap
                  (λ t.
                    take t buf
                    ++ span (view s.dev) ((offset + 0) * h.blocksize) (count * h.blocksize))
                  (zero-mul h.blocksize)
              ∙ ap (λ t. span (view s.dev) (t * h.blocksize) (count * h.blocksize)) {y = offset}
                  (omega arith);
          keeps = pages_loop-keeps h s.pages_per_block card count 0 offset buf s.dev;
        })
    where
      read :
          read_loop lib count 0 h offset buf s.dev
          ≡ done (pages_loop h s.pages_per_block card count 0 offset buf s.dev)
      read =
          read_loop-done h s.pages_per_block card count 0 offset buf s.dev (omega (arith, pages)) (
            omega
              (arith, bytes, ap (λ t. t * h.blocksize) {x = 0 + count} {y = count} (omega arith)))
