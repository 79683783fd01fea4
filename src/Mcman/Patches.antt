-- ===== src/Mcman/Patches.antt =====
-- A run of bytes that is stored in a copy of a medium's bytes: what the block buffer of
-- plugins/mcman/mcman_d.c is for.
use lw_nbd.Prelude.{
  ℕ, ◌+◌, ◌-◌, ◌≤◌, ◌<◌, ◌≡◌, sym, ap, ◌∙◌, inl, inr, List, length, get_or, ltb, ltb→lt, Bool-cases,
  arith,
}
use mathlib.Core.Path.{fun_ext}
use native.Mathlib.Nat.{zero-add}
use lw_nbd.Nbd.Medium.{
  span, length-span, get_or-span, span-eq, patch, patch_before, patch_inside, patch_after,
}

pub patch_at :
    (m : ℕ → ℕ) (a x : ℕ) (xs : List ℕ)
    → a ≤ x
    → x < a + length xs
    → patch m a xs x ≡ get_or xs (x - a) 0
patch_at m a x xs lo hi =
    ap (patch m a xs) {y = a + (x - a)} (omega (arith, lo))
    ∙ patch_inside m a xs (x - a) (omega (arith, lo, hi))

-- Two media that agree outside a run agree once it is stored.
pub patch-outside :
    (m m' : ℕ → ℕ) (a : ℕ) (xs : List ℕ)
    → ((x : ℕ) → x < a → m x ≡ m' x)
    → ((x : ℕ) → a + length xs ≤ x → m x ≡ m' x)
    → patch m a xs ≡ patch m' a xs
patch-outside m m' a xs before after = fun_ext λ x. elim (Bool-cases (ltb x a)) [
  | inl lt ↦
      patch_before m a xs x (ltb→lt x a lt)
      ∙ before x (ltb→lt x a lt)
      ∙ sym (patch_before m' a xs x (ltb→lt x a lt))
  | inr ge ↦ elim (Bool-cases (ltb x (a + length xs))) [
    | inl lt ↦
        patch_at m a x xs (ground (arith, ge)) (ltb→lt x (a + length xs) lt)
        ∙ sym (patch_at m' a x xs (ground (arith, ge)) (ltb→lt x (a + length xs) lt))
    | inr far ↦
        patch_after m a xs x (ground (arith, far))
        ∙ after x (ground (arith, far))
        ∙ sym (patch_after m' a xs x (ground (arith, far)))
  ]
]

-- A run stored in a copy is the run stored in the medium, as long as the copy's other bytes are the
-- medium's.
pub patch_shift :
    (m copy : ℕ → ℕ) (base o i : ℕ) (xs : List ℕ)
    → (i < o → copy i ≡ m (base + i))
    → (o + length xs ≤ i → copy i ≡ m (base + i))
    → patch copy o xs i ≡ patch m (base + o) xs (base + i)
patch_shift m copy base o i xs before after = elim (Bool-cases (ltb i o)) [
  | inl lt ↦
      patch_before copy o xs i (ltb→lt i o lt)
      ∙ before (ltb→lt i o lt)
      ∙ sym (patch_before m (base + o) xs (base + i) (omega (arith, ltb→lt i o lt)))
  | inr ge ↦ elim (Bool-cases (ltb i (o + length xs))) [
    | inl lt ↦
        patch_at copy o i xs (ground (arith, ge)) (ltb→lt i (o + length xs) lt)
        ∙ ap (λ k. get_or xs k 0) {y = base + i - (base + o)} (omega arith)
        ∙ sym (
            patch_at m (base + o) (base + i) xs (ground (arith, ge))
              (omega (arith, ltb→lt i (o + length xs) lt)))
    | inr far ↦
        patch_after copy o xs i (ground (arith, far))
        ∙ after (ground (arith, far))
        ∙ sym (patch_after m (base + o) xs (base + i) (ground (arith, far)))
  ]
]

-- Such a copy of `n` bytes from `base` on, stored back, is the run stored.
pub patch_back :
    (m copy : ℕ → ℕ) (base n o : ℕ) (xs : List ℕ)
    → o + length xs ≤ n
    → ((i : ℕ) → i < n → i < o → copy i ≡ m (base + i))
    → ((i : ℕ) → i < n → o + length xs ≤ i → copy i ≡ m (base + i))
    → patch m base (span (patch copy o xs) 0 n) ≡ patch m (base + o) xs
patch_back m copy base n o xs fits before after =
    ap (patch m base) (
      span-eq (patch copy o xs) (patch m (base + o) xs) 0 base n λ i lt.
        ap (patch copy o xs) (zero-add i)
        ∙ patch_shift m copy base o i xs (before i lt) (after i lt))
    ∙ fun_ext same
  where
    len : length (span (patch m (base + o) xs) base n) ≡ n
    len = length-span (patch m (base + o) xs) base n

    same : (x : ℕ) → patch m base (span (patch m (base + o) xs) base n) x ≡ patch m (base + o) xs x
    same x = elim (Bool-cases (ltb x base)) [
      | inl lt ↦
          patch_before m base (span (patch m (base + o) xs) base n) x (ltb→lt x base lt)
          ∙ sym (patch_before m (base + o) xs x (omega (arith, ltb→lt x base lt)))
      | inr ge ↦ elim (Bool-cases (ltb x (base + n))) [
        | inl lt ↦
            patch_at m base x (span (patch m (base + o) xs) base n) (ground (arith, ge))
              (omega (arith, len, ltb→lt x (base + n) lt))
            ∙ get_or-span (patch m (base + o) xs) base n (x - base) (ground (arith, ge, lt))
            ∙ ap (patch m (base + o) xs) {y = x} (ground (arith, ge))
        | inr far ↦
            patch_after m base (span (patch m (base + o) xs) base n) x (ground (arith, far, len))
            ∙ sym (patch_after m (base + o) xs x (ground (arith, far, fits)))
      ]
    ]
