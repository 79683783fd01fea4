-- ===== src/Mcman/Pages.antt =====
-- What the memory card library promises, and the loops over the pages of a block in plugins/mcman/mcman_d.c.
use lw_nbd.Prelude.{
  next_page, suc_pages, ℕ, ℤ, zero, suc, ◌+◌, ◌*◌, ◌≤◌, ◌<◌, ◌≡◌, refl, sym, ap, ◌∙◌, true, inl,
  inr, List, length, is_zero, Bool-cases, not_both, arith,
}
use native.Mathlib.Nat.{zero-mul}
use lw_nbd.Nbd.Medium.{span, length-span, span-zero, span-add, patch, patch-nil, patch-append}
use lw_nbd.Mcman.{Library, page_ecc, write_pages, read_pages}

-- `view d` are the bytes of the card in the port when the library's state is `d`, page after page.
-- A page that is read without error is the card's; one that is written replaces the card's, and
-- nothing else changes; erasing a block changes nothing outside it.
pub record IsCard {D : Type 0} (lib : Library D) (view : D → ℕ → ℕ) (port page_size ppb : ℕ)
    : Type 0 where
  pub reads :
      (page : ℕ) (d : D)
      → is_zero (lib.read_page port page d).0 ≡ true
      → (lib.read_page port page d).1 ≡ span (view d) (page * page_size) page_size
  pub keeps : (page : ℕ) (d : D) → view (lib.read_page port page d).2 ≡ view d
  pub writes :
      (page : ℕ) (bytes ecc : List ℕ) (d : D)
      → length bytes ≡ page_size
      → is_zero (lib.write_page port page bytes ecc d).0 ≡ true
      → view (lib.write_page port page bytes ecc d).1 ≡ patch (view d) (page * page_size) bytes
  pub erases_before :
      (block : ℕ) (d : D) (x : ℕ)
      → x < block * ppb * page_size
      → view (lib.erase_block port block d).1 x ≡ view d x
  pub erases_after :
      (block : ℕ) (d : D) (x : ℕ)
      → block * ppb * page_size + ppb * page_size ≤ x
      → view (lib.erase_block port block d).1 x ≡ view d x

-- A page and the pages behind it are a run of pages.
patch_page :
    (m from : ℕ → ℕ) (a b n c : ℕ)
    → patch (patch m (a * c) (span from (b * c) c)) ((a + 1) * c) (span from ((b + 1) * c) (n * c))
      ≡ patch m (a * c) (span from (b * c) (suc n * c))
patch_page m from a b n c =
    rw (next_page a c, next_page b c, suc_pages n c)
      (ap
          (λ k.
            patch (patch m (a * c) (span from (b * c) c)) (a * c + k)
              (span from (b * c + c) (n * c)))
          (sym (length-span from (b * c) c))
        ∙ sym (patch-append m (a * c) (span from (b * c) c) (span from (b * c + c) (n * c)))
        ∙ ap (patch m (a * c)) (sym (span-add from (b * c) c (n * c))))

module _ {D : Type 0} (lib : Library D) (view : D → ℕ → ℕ) (port page_size ppb : ℕ)
    (card : IsCard lib view port page_size ppb) where
  -- Reading leaves the card as it was,
  pub read_pages-keeps :
      (n j first : ℕ) (buffer : ℕ → ℕ) (d : D)
      → view (read_pages lib n j port buffer page_size first d).2 ≡ view d
  unfolding read_pages
  read_pages-keeps zero j first buffer d = refl
  read_pages-keeps (suc n) j first buffer d = elim (Bool-cases (is_zero got.0)) [
    | inl ok ↦
        rw (ok, read_pages)
          (read_pages-keeps n (j + 1) first (patch buffer (j * page_size) got.1) got.2
            ∙ card.keeps (first + j) d)
    | inr failed ↦ rw (failed, read_pages) (card.keeps (first + j) d)
  ]
    where
      got : ℤ × List ℕ × D
      got = lib.read_page port (first + j) d

  -- and without error the pages are in the buffer.
  pub read_pages-patch :
      (n j first : ℕ) (buffer : ℕ → ℕ) (d : D)
      → is_zero (read_pages lib n j port buffer page_size first d).0 ≡ true
      → (read_pages lib n j port buffer page_size first d).1
        ≡ patch buffer (j * page_size) (span (view d) ((first + j) * page_size) (n * page_size))
  unfolding read_pages
  read_pages-patch zero j first buffer d =
      λ ok. sym (rw (zero-mul, span-zero) (patch-nil buffer (j * page_size)))
  read_pages-patch (suc n) j first buffer d = elim (Bool-cases (is_zero got.0)) [
    | inl ok ↦
        rw (ok, read_pages)
          λ all_ok.
            read_pages-patch n (j + 1) first (patch buffer (j * page_size) got.1) got.2 all_ok
            ∙ ap
                (λ (m : ℕ → ℕ).
                  patch (patch buffer (j * page_size) got.1) ((j + 1) * page_size)
                    (span m ((first + (j + 1)) * page_size) (n * page_size)))
                (card.keeps (first + j) d)
            ∙ ap
                (λ (k : ℕ).
                  patch (patch buffer (j * page_size) got.1) ((j + 1) * page_size)
                    (span (view d) (k * page_size) (n * page_size)))
                {y = first + j + 1} (omega arith)
            ∙ ap
                (λ l.
                  patch (patch buffer (j * page_size) l) ((j + 1) * page_size)
                    (span (view d) ((first + j + 1) * page_size) (n * page_size)))
                (card.reads (first + j) d ok)
            ∙ patch_page buffer (view d) j (first + j) n page_size
    | inr failed ↦ rw (failed, read_pages) λ ok. absurd (not_both ok failed)
  ]
    where
      got : ℤ × List ℕ × D
      got = lib.read_page port (first + j) d

  -- Pages that are written without error are on the card.
  pub write_pages-patch :
      (n j first : ℕ) (buffer : ℕ → ℕ) (d : D)
      → is_zero (write_pages lib n j port buffer page_size first d).0 ≡ true
      → view (write_pages lib n j port buffer page_size first d).1
        ≡ patch (view d) ((first + j) * page_size) (span buffer (j * page_size) (n * page_size))
  unfolding write_pages
  write_pages-patch zero j first buffer d =
      λ ok. sym (rw (zero-mul, span-zero) (patch-nil (view d) ((first + j) * page_size)))
  write_pages-patch (suc n) j first buffer d = elim (Bool-cases (is_zero put.0)) [
    | inl ok ↦
        rw (ok, write_pages)
          λ all_ok.
            write_pages-patch n (j + 1) first buffer put.1 all_ok
            ∙ ap
                (λ (k : ℕ).
                  patch (view put.1) (k * page_size)
                    (span buffer ((j + 1) * page_size) (n * page_size)))
                {y = first + j + 1} (omega arith)
            ∙ ap
                (λ (m : ℕ → ℕ).
                  patch m ((first + j + 1) * page_size)
                    (span buffer ((j + 1) * page_size) (n * page_size)))
                (card.writes (first + j) (span buffer (j * page_size) page_size)
                  (page_ecc lib buffer (j * page_size)) d
                  (length-span buffer (j * page_size) page_size) ok)
            ∙ patch_page (view d) buffer (first + j) j n page_size
    | inr failed ↦ rw (failed, write_pages) λ ok. absurd (not_both ok failed)
  ]
    where
      put : ℤ × D
      put =
          lib.write_page port (first + j) (span buffer (j * page_size) page_size)
            (page_ecc lib buffer (j * page_size)) d
