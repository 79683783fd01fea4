-- ===== src/Tty/Ring.antt =====
-- One write into the ring buffer: which places change, and to what.
use lw_nbd.Prelude.{
  ℕ, ◌+◌, ◌-◌, ◌%◌, ◌≤◌, ◌<◌, ◌≡◌, refl, ap, ◌∙◌, true, inl, inr, List, take, drop, length,
  length-take, length-drop, get_or, get_or-take, get_or-drop, leb, ltb, ltb→lt, done, Returns,
  Bool-cases, arith,
}
use lw_nbd.Nbd.Medium.{patch, patch_before, patch_inside, patch_after}
use lw_nbd.Tty.{tty_size, copy_in, ring_write}

-- How far a place of the ring lies behind `at`, going round.
abbrev pub behind : ℕ → ℕ → ℕ
behind at i = (i + tty_size - at) % tty_size

-- The ring after a write of `buf` at a place.
pub record Written (ring : ℕ → ℕ) (at : ℕ) (buf : List ℕ) (ring' : ℕ → ℕ) : Type 0 where
  pub fresh :
      (i : ℕ) → i < tty_size → behind at i < length buf → ring' i ≡ get_or buf (behind at i) 0
  pub old : (i : ℕ) → i < tty_size → length buf ≤ behind at i → ring' i ≡ ring i

copy_in-done :
    (ring : ℕ → ℕ) (at : ℕ) (bytes : List ℕ)
    → at + length bytes ≤ tty_size + 1
    → copy_in ring at bytes ≡ done (patch ring at bytes)
unfolding copy_in
copy_in-done ring at bytes h =
    let fits : leb (at + length bytes) (tty_size + 1) ≡ true = ground arith in rw fits refl

patch-Written :
    (ring : ℕ → ℕ) (at : ℕ) (buf : List ℕ)
    → at < tty_size
    → at + length buf ≤ tty_size
    → Written ring at buf (patch ring at buf)
patch-Written ring at buf lt fits = record {
  fresh = λ i small near.
      ap (patch ring at buf) {y = at + behind at i} (omega arith)
      ∙ patch_inside ring at buf (behind at i) near;
  old = λ i small far. elim (Bool-cases (ltb i at)) [
    | inl before ↦ patch_before ring at buf i (omega (arith, ltb→lt i at before))
    | inr after ↦ patch_after ring at buf i (ground (arith, after, far, small, fits, lt))
  ];
}

module _ (ring : ℕ → ℕ) (at : ℕ) (buf : List ℕ) where
  abbrev front : List ℕ
  front = take (tty_size - at) buf

  abbrev back : List ℕ
  back = drop (tty_size - at) buf

  patch_twice-Written :
      at < tty_size
      → length buf ≤ tty_size
      → tty_size < at + length buf
      → Written ring at buf (patch (patch ring at front) 0 back)
  patch_twice-Written lt fits wraps = record {
    fresh = λ i small near. elim (Bool-cases (ltb (behind at i) (tty_size - at))) [
      | inl first ↦
          patch_after (patch ring at front) 0 back i
            (omega (arith, length_back, ltb→lt (behind at i) (tty_size - at) first))
          ∙ ap (patch ring at front) {y = at + behind at i}
              (omega (arith, ltb→lt (behind at i) (tty_size - at) first))
          ∙ patch_inside ring at front (behind at i)
              (omega (arith, length_front, ltb→lt (behind at i) (tty_size - at) first))
          ∙ get_or-take (tty_size - at) buf (behind at i) 0
              (ltb→lt (behind at i) (tty_size - at) first)
      | inr second ↦
          let far : tty_size - at ≤ behind at i = ground (arith, second) in
          ap (patch (patch ring at front) 0 back) {y = 0 + (behind at i - (tty_size - at))}
            (omega (arith, far))
          ∙ patch_inside (patch ring at front) 0 back (behind at i - (tty_size - at))
              (omega (arith, length_back, far, near))
          ∙ get_or-drop (tty_size - at) buf (behind at i - (tty_size - at)) 0
          ∙ ap (λ k. get_or buf k 0) {y = behind at i} (omega (arith, far))
    ];
    old = λ i small far.
        patch_after (patch ring at front) 0 back i (omega (arith, length_back))
        ∙ patch_before ring at front i (omega arith);
  }
    where
      length_front : length front ≡ tty_size - at
      length_front = omega (arith, length-take (tty_size - at) buf)

      length_back : length back ≡ length buf - (tty_size - at)
      length_back = length-drop (tty_size - at) buf

  pub ring_write-Written :
      at < tty_size → length buf ≤ tty_size → Returns (ring_write ring at buf) (Written ring at buf)
  unfolding ring_write
  ring_write-Written lt fits = elim (Bool-cases (ltb tty_size (at + length buf))) [
    | inl wraps ↦
        let over : tty_size < at + length buf = ltb→lt tty_size (at + length buf) wraps in
        rw wraps (
          rw (copy_in-done ring at front (omega (arith, length-take (tty_size - at) buf))) (
            rw
              (copy_in-done (patch ring at front) 0 back
                (omega (arith, length-drop (tty_size - at) buf)))
              (patch_twice-Written lt fits over)))
    | inr plain ↦
        let under : at + length buf ≤ tty_size = ground (arith, plain) in
        rw plain (
          rw (copy_in-done ring at buf (omega (arith, under))) (patch-Written ring at buf lt under))
  ]
