-- ===== src/Mcman/Blocks.antt =====
-- `writeBlock`, `readBlock` and `injectPages` of plugins/mcman/mcman_d.c: what a block holds after them.
use lw_nbd.Prelude.{
  add_mul, suc_pages, ltb, zero, suc, Bool, ◌&&◌, ℕ, ℤ, ◌+◌, ◌*◌, ◌≤◌, ◌<◌, ◌≡◌, refl, sym, ap, ◌∙◌,
  true, false, not, ◌||◌, inl, inr, List, length, get_or, leb, ◌==◌, is_zero, Returns,
  Returns-weaken, Bool-cases, not_both, arith,
}
use native.Mathlib.Nat.{zero-mul}
use lw_nbd.Nbd.Medium.{span, length-span, get_or-span, patch}
use lw_nbd.Mcman.{
  Library, Cards, page_ecc, write_overruns, write_block, read_block, fill_buffer, inject_rest,
  inject_pages,
}
use lw_nbd.Mcman.Pages.{IsCard, read_pages-keeps, read_pages-patch, write_pages-patch}
use lw_nbd.Mcman.Patches.{patch_at, patch-outside, patch_back}

and_false : (b : Bool) → b && false ≡ false
and_false true = refl
and_false false = refl

-- What a write of bytes comes to: without error they are on the card, and the buffer's size and
-- the blocks' are as they were.
pub record Stored {D : Type 0} (view : D → ℕ → ℕ) (at : ℕ) (bytes : List ℕ) (s : Cards D)
    (out : ℤ × Cards D) : Type 0 where
  pub stored : is_zero out.0 ≡ true → view out.1.dev ≡ patch (view s.dev) at bytes
  pub same_size : out.1.bbuffer_size ≡ s.bbuffer_size
  pub same_ppb : out.1.pages_per_block ≡ s.pages_per_block

module _ {D : Type 0} (lib : Library D) (view : D → ℕ → ℕ) (port page_size ppb : ℕ)
    (card : IsCard lib view port page_size ppb) where
  write_block-patch :
      (block : ℕ) (buffer : ℕ → ℕ) (d : D)
      → is_zero (write_block lib port block buffer page_size ppb d).0 ≡ true
      → view (write_block lib port block buffer page_size ppb d).1
        ≡ patch (view d) (block * ppb * page_size) (span buffer 0 (ppb * page_size))
  unfolding write_block
  write_block-patch block buffer d = elim (Bool-cases (is_zero erased.0)) [
    | inl ok ↦ rw ok λ all_ok.
        write_pages-patch lib view port page_size ppb card ppb 0 (block * ppb) buffer erased.1
          all_ok
        ∙ ap
            (λ (k : ℕ).
              patch (view erased.1) (k * page_size) (span buffer (0 * page_size) (ppb * page_size)))
            {y = block * ppb} (omega arith)
        ∙ ap
            (λ (k : ℕ).
              patch (view erased.1) (block * ppb * page_size) (span buffer k (ppb * page_size)))
            {y = 0} (omega arith)
        ∙ patch-outside (view erased.1) (view d) (block * ppb * page_size)
            (span buffer 0 (ppb * page_size)) (λ x lt. card.erases_before block d x lt)
            (λ x far.
              card.erases_after block d x
                (omega (arith, far, length-span buffer 0 (ppb * page_size))))
    | inr failed ↦ rw failed λ ok. absurd (not_both ok failed)
  ]
    where
      erased : ℤ × D
      erased = lib.erase_block port block d

  -- A block that is read is in the buffer.
  read_block-at :
      (block : ℕ) (buffer : ℕ → ℕ) (d : D) (i : ℕ)
      → is_zero (read_block lib port block buffer page_size ppb d).0 ≡ true
      → i < ppb * page_size
      → (read_block lib port block buffer page_size ppb d).1 i
        ≡ view d (block * ppb * page_size + i)
  unfolding read_block
  read_block-at block buffer d i ok lt =
      ap (λ (m : ℕ → ℕ). m i)
        (read_pages-patch lib view port page_size ppb card ppb 0 (block * ppb) buffer d ok)
      ∙ patch_at buffer (0 * page_size) i run (omega (arith, zero-mul page_size))
          (omega (arith, zero-mul page_size, lt, len))
      ∙ ap (λ k. get_or run k 0) {y = i} (omega (arith, zero-mul page_size))
      ∙ get_or-span (view d) ((block * ppb + 0) * page_size) (ppb * page_size) i lt
      ∙ ap (λ k. view d (k * page_size + i)) {y = block * ppb} (omega arith)
    where
      run : List ℕ
      run = span (view d) ((block * ppb + 0) * page_size) (ppb * page_size)

      len : length run ≡ ppb * page_size
      len = length-span (view d) ((block * ppb + 0) * page_size) (ppb * page_size)

  read_block-keeps :
      (block : ℕ) (buffer : ℕ → ℕ) (d : D)
      → view (read_block lib port block buffer page_size ppb d).2 ≡ view d
  unfolding read_block
  read_block-keeps block buffer d =
      read_pages-keeps lib view port page_size ppb card ppb 0 (block * ppb) buffer d

-- No page of 512 bytes or more reaches behind a buffer that holds the block.
write_overruns-never :
    {D : Type 0} (lib : Library D) (limit n j port : ℕ) (buffer : ℕ → ℕ) (page_size first : ℕ)
    (d : D)
    → 512 ≤ page_size
    → (j + n) * page_size ≤ limit
    → write_overruns lib limit n j port buffer page_size first d ≡ false
unfolding write_overruns
write_overruns-never lib limit zero j port buffer page_size first d large holds = refl
write_overruns-never {D = D} lib limit (suc n) j port buffer page_size first d large holds =
    rw
      (
        within,
        write_overruns-never lib limit n (j + 1) port buffer page_size first written.1 large (
            omega (
              arith,
              holds,
              ap (λ t. t * page_size) {x = j + 1 + n} {y = j + suc n} (omega arith),
            )),
      )
      (and_false (is_zero written.0))
  where
    written : ℤ × D
    written =
        lib.write_page port (first + j) (span buffer (j * page_size) page_size)
          (page_ecc lib buffer (j * page_size)) d

    within : ltb limit (j * page_size + 512) ≡ false
    within = ground (arith, large, holds, add_mul j (suc n) page_size, suc_pages n page_size)

module _ {D : Type 0} (lib : Library D) (view : D → ℕ → ℕ) (port page_size : ℕ)
    (large : 512 ≤ page_size) where
  inject_rest-Stored :
      (block offset : ℕ) (pages : List ℕ) (s : Cards D)
      → IsCard lib view port page_size s.pages_per_block
      → s.bbuffer_size ≡ s.pages_per_block * page_size
      → offset * page_size + length pages ≤ s.pages_per_block * page_size
      → ((i : ℕ)
          → i < s.pages_per_block * page_size
          → i < offset * page_size
          → s.bbuffer i ≡ view s.dev (block * s.pages_per_block * page_size + i))
      → ((i : ℕ)
          → i < s.pages_per_block * page_size
          → offset * page_size + length pages ≤ i
          → s.bbuffer i ≡ view s.dev (block * s.pages_per_block * page_size + i))
      → Returns
          (inject_rest lib port block page_size offset pages s)
          (Stored view (block * s.pages_per_block * page_size + offset * page_size) pages s)
  unfolding inject_rest
  inject_rest-Stored block offset pages s card size fits before after =
      rw (room, never, and_false (is_zero erased.0))
        (record {
          stored = λ ok.
              write_block-patch lib view port page_size s.pages_per_block card block
                (patch s.bbuffer (offset * page_size) pages) s.dev ok
              ∙ patch_back (view s.dev) s.bbuffer (block * s.pages_per_block * page_size)
                  (s.pages_per_block * page_size) (offset * page_size) pages fits before after;
          same_size = refl;
          same_ppb = refl;
        })
    where
      room : leb (offset * page_size + length pages) s.bbuffer_size ≡ true
      room = ground (arith, size, fits)

      erased : ℤ × D
      erased = lib.erase_block port block s.dev

      never :
          write_overruns lib s.bbuffer_size s.pages_per_block 0 port
            (patch s.bbuffer (offset * page_size) pages)
            page_size
            (block * s.pages_per_block)
            erased.1
          ≡ false
      never =
          write_overruns-never lib s.bbuffer_size s.pages_per_block 0 port _ page_size
            (block * s.pages_per_block) erased.1 large
            (omega (
              arith,
              size,
              ap (λ t. t * page_size) {x = 0 + s.pages_per_block} {y = s.pages_per_block}
                  (omega arith),
            ))

  -- The block whose bytes have been read is stored with the pages injected.
  inject_read-Stored :
      (block offset : ℕ) (pages : List ℕ) (s : Cards D)
      → IsCard lib view port page_size s.pages_per_block
      → s.bbuffer_size ≡ s.pages_per_block * page_size
      → offset * page_size + length pages ≤ s.pages_per_block * page_size
      → is_zero (fill_buffer lib true port block page_size s).0 ≡ true
      → Returns
          (inject_rest lib port block page_size offset pages
            (fill_buffer lib true port block page_size s).1)
          (Stored view (block * s.pages_per_block * page_size + offset * page_size) pages s)
  inject_read-Stored block offset pages s card size fits ok =
      Returns-weaken (inject_rest lib port block page_size offset pages filled)
        (λ out r. record {
          stored = λ all_ok.
              r.stored all_ok
              ∙ ap
                  (λ (m : ℕ → ℕ).
                    patch m (block * s.pages_per_block * page_size + offset * page_size) pages)
                  keeps;
          same_size = r.same_size;
          same_ppb = r.same_ppb;
        })
        (inject_rest-Stored block offset pages filled card size fits (λ i lt this. holds i lt)
          (λ i lt far. holds i lt))
    where
      filled : Cards D
      filled = (fill_buffer lib true port block page_size s).1

      keeps : view filled.dev ≡ view s.dev
      keeps = read_block-keeps lib view port page_size s.pages_per_block card block s.bbuffer s.dev

      holds :
          (i : ℕ)
          → i < s.pages_per_block * page_size
          → filled.bbuffer i ≡ view filled.dev (block * s.pages_per_block * page_size + i)
      holds i lt =
          read_block-at lib view port page_size s.pages_per_block card block s.bbuffer s.dev i ok lt
          ∙ ap (λ (m : ℕ → ℕ). m (block * s.pages_per_block * page_size + i)) (sym keeps)

  pub inject_pages-Stored :
      (block offset n_pages : ℕ) (pages : List ℕ) (s : Cards D)
      → IsCard lib view port page_size s.pages_per_block
      → s.bbuffer_size ≡ s.pages_per_block * page_size
      → length pages ≡ n_pages * page_size
      → offset * page_size + length pages ≤ s.pages_per_block * page_size
      → Returns
          (inject_pages lib port block page_size offset n_pages pages s)
          (Stored view (block * s.pages_per_block * page_size + offset * page_size) pages s)
  unfolding inject_pages
  inject_pages-Stored block offset n_pages pages s card size len fits =
      elim (Bool-cases (not (offset == 0) || not (n_pages == s.pages_per_block))) [
        | inl partial ↦
            rw partial
              (elim (Bool-cases (is_zero (fill_buffer lib true port block page_size s).0)) [
                | inl ok ↦ rw ok (inject_read-Stored block offset pages s card size fits ok)
                | inr failed ↦ rw failed (record {
                  stored = λ ok. absurd (not_both ok failed);
                  same_size = refl;
                  same_ppb = refl;
                })
              ])
        | inr whole ↦ rw whole (
            inject_rest-Stored block offset pages s card size fits
              (λ i lt this. absurd (omega (arith, this, from_start whole)))
              (λ i lt far.
                absurd (omega (arith, far, lt, len, ap (λ k. k * page_size) (all_pages whole)))))
      ]
    where
      from_start :
          not (offset == 0) || not (n_pages == s.pages_per_block) ≡ false → offset * page_size ≡ 0
      from_start whole =
          ap (λ k. k * page_size) {y = 0} (ground (arith, whole)) ∙ zero-mul page_size

      all_pages :
          not (offset == 0) || not (n_pages == s.pages_per_block) ≡ false
          → n_pages ≡ s.pages_per_block
      all_pages whole = ground (arith, whole)
