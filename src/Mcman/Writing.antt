-- ===== src/Mcman/Writing.antt =====
-- `mcman_pwrite` of plugins/mcman/mcman_d.c on a card.
use Prim.Native.Nat.{bit_and}
use lw_nbd.Prelude.{
  add_mul, mul_le, next_page, ℕ, ℤ, ◌+◌, ◌-◌, ◌*◌, ◌/◌, ◌%◌, ◌^◌, ◌≤◌, ◌<◌, ◌≡◌, sym, ap, subst,
  ◌∙◌, false, inl, inr, List, length, take, ltb, ◌==◌, ltb→lt, Run, Returns, done, Bool-cases,
  arith,
}
use native.Mathlib.Nat.{div-add-mod', mod-lt, mod-eq_of_lt, div-lt_iff_lt-mul}
use lw_nbd.Mcman.{Library, Cards, CardHandle, card_at, block_loop, mcman_pwrite}
use lw_nbd.Mcman.Pages.{IsCard}
use lw_nbd.Mcman.Blocks.{Stored}
use lw_nbd.Mcman.Loop.{pages_of, pages_of-start, block_loop-Stored}
use lw_nbd.Mcman.Mask.{bit_and_mask, pow_pos}

lt-mul : (a b c : ℕ) → a * c < b * c → a < b
lt-mul a b c h = elim (Bool-cases (ltb a b)) [
  | inl lt ↦ ltb→lt a b lt
  | inr ge ↦ absurd (omega (arith, h, mul_le b a c (ground (arith, ge))))
]

-- The first page's block is not behind the last page's.
first_to_last : (p offset count : ℕ) → 0 < p → 0 < count → offset / p < (offset + count - 1) / p + 1
first_to_last p offset count p_pos some_pages =
    lt-mul (offset / p) ((offset + count - 1) / p + 1) p (
      omega (
        arith,
        div-add-mod' offset p,
        div-add-mod' (offset + count - 1) p,
        mod-lt (offset + count - 1) p_pos,
        next_page ((offset + count - 1) / p) p,
        some_pages,
      ))

-- The blocks from the first page's to the last page's have room for all pages.
enough_blocks :
    (p offset count : ℕ)
    → 0 < p
    → 0 < count
    → offset % p + count ≤ ((offset + count - 1) / p + 1 - offset / p) * p
enough_blocks p offset count p_pos some_pages = omega (
  arith,
  first,
  last,
  mod-lt (offset + count - 1) p_pos,
  span_of,
  next_page ((offset + count - 1) / p) p,
)
  where
    first : offset / p * p + offset % p ≡ offset
    first = div-add-mod' offset p

    last : (offset + count - 1) / p * p + (offset + count - 1) % p ≡ offset + count - 1
    last = div-add-mod' (offset + count - 1) p

    span_of :
        ((offset + count - 1) / p + 1 - offset / p) * p + offset / p * p
        ≡ ((offset + count - 1) / p + 1) * p
    span_of =
        sym (add_mul ((offset + count - 1) / p + 1 - offset / p) (offset / p) p)
        ∙ ap (λ t. t * p) {y = (offset + count - 1) / p + 1}
            (omega (arith, first_to_last p offset count p_pos some_pages))

module _ {D : Type 0} (lib : Library D) (view : D → ℕ → ℕ) where
  -- A write of pages to a memory card always returns; if it reports success, the card is what it
  -- was with just those bytes stored at the page's address, whatever blocks the pages begin and
  -- end in. The handle is in use, the buffer holds a block, the pages of a block are a power of
  -- two, and a page has at least 512 bytes; there is at least one page to write; a block's bytes
  -- are at most 2^31, the bytes written less than 2^31, and the pages end at least one block
  -- before page 2^31; the buffer to be written has all its pages, and the library reads, writes
  -- and erases as documented.
  pub mcman_pwrite-Stored :
      (handle : ℕ) (buf : List ℕ) (count offset flags k : ℕ) (h : CardHandle) (s : Cards D)
      → card_at handle s ≡ done h
      → IsCard lib view h.device h.blocksize s.pages_per_block
      → s.bbuffer_size ≡ s.pages_per_block * h.blocksize
      → s.pages_per_block ≡ 2 ^ k
      → 0 < count
      → 512 ≤ h.blocksize
      → s.pages_per_block * h.blocksize ≤ 2 ^ 31
      → offset + count + s.pages_per_block ≤ 2 ^ 31
      → count * h.blocksize < 2 ^ 31
      → count * h.blocksize ≤ length buf
      → Returns
          (mcman_pwrite lib handle buf count offset flags s)
          (Stored view (offset * h.blocksize) (take (count * h.blocksize) buf) s)
  unfolding mcman_pwrite
  mcman_pwrite-Stored handle buf count offset flags k h s there card size power some_pages large
        block_bytes fits bytes enough =
      rw (there, nonzero, before_end, first, last)
        (subst (λ a. Returns loop (Stored view a (take (count * h.blocksize) buf) s))
          (ap (λ t. t * h.blocksize) place)
          (subst
            (λ l. Returns loop (
              Stored view
                ((offset / s.pages_per_block * s.pages_per_block
                    + bit_and offset (s.pages_per_block - 1))
                  * h.blocksize)
                l s))
            all_pages
            (block_loop-Stored lib view h buf large blocks (offset / s.pages_per_block)
              (bit_and offset (s.pages_per_block - 1)) count 0 s card size
              (omega (arith, in_block, mod-lt offset p_pos))
              (omega
                (arith, in_block, enough_blocks s.pages_per_block offset count p_pos some_pages))
              (omega (
                arith,
                enough,
                ap (λ t. t * h.blocksize) {x = 0 + count} {y = count} (omega arith),
              ))
              (record {
                last_block = omega (arith, below, in_order);
                last_page = omega (
                  arith,
                  fits,
                  div-add-mod' (offset + count - 1) s.pages_per_block,
                  next_page ((offset + count - 1) / s.pages_per_block) s.pages_per_block,
                  ap (λ t. t * s.pages_per_block) {x = offset / s.pages_per_block + blocks}
                      {y = (offset + count - 1) / s.pages_per_block + 1} (omega (arith, in_order)),
                );
                block_bytes = block_bytes;
                page_count = omega (arith, fits, p_pos);
                byte_count = omega (
                  arith,
                  bytes,
                  ap (λ t. t * h.blocksize) {x = 0 + count} {y = count} (omega arith),
                );
              }))))
    where
      p_pos : 0 < s.pages_per_block
      p_pos = omega (arith, power, pow_pos k)

      nonzero : (s.pages_per_block == 0) ≡ false
      nonzero = ground (arith, p_pos)

      before_end : (offset + count + 2 ^ 64 - 1) % 2 ^ 64 ≡ offset + count - 1
      before_end = omega (arith, fits, some_pages)

      first : offset / s.pages_per_block % 2 ^ 32 ≡ offset / s.pages_per_block
      first = mod-eq_of_lt ((div-lt_iff_lt-mul p_pos).1 (omega (arith, fits, p_pos)))

      last :
          (offset + count - 1) / s.pages_per_block % 2 ^ 32
          ≡ (offset + count - 1) / s.pages_per_block
      last = mod-eq_of_lt ((div-lt_iff_lt-mul p_pos).1 (omega (arith, fits, p_pos)))

      below : (offset + count - 1) / s.pages_per_block < 2 ^ 31 - 1
      below = (div-lt_iff_lt-mul p_pos).1 (omega (arith, fits, p_pos))

      in_order : offset / s.pages_per_block < (offset + count - 1) / s.pages_per_block + 1
      in_order = first_to_last s.pages_per_block offset count p_pos some_pages

      blocks : ℕ
      blocks = (offset + count - 1) / s.pages_per_block + 1 - offset / s.pages_per_block

      loop : Run (ℤ × Cards D)
      loop =
          block_loop lib blocks (offset / s.pages_per_block) h
            (bit_and offset (s.pages_per_block - 1)) count 0 buf s

      place :
          offset / s.pages_per_block * s.pages_per_block + bit_and offset (s.pages_per_block - 1)
          ≡ offset
      place = ap (λ p. offset / p * p + bit_and offset (p - 1)) power ∙ bit_and_mask k offset

      in_block : bit_and offset (s.pages_per_block - 1) ≡ offset % s.pages_per_block
      in_block = omega (arith, place, div-add-mod' offset s.pages_per_block)

      all_pages : pages_of lib view h buf count 0 ≡ take (count * h.blocksize) buf
      all_pages = pages_of-start lib view h buf count
