-- ===== src/Mcman/Mask.antt =====
-- `offset & (pagesPerBlock - 1)` of plugins/mcman/mcman_d.c is the page within its block where the
-- pages of a block are a power of two.
use Prim.Native.Nat.{bit_and, bit_and-bitwise, digits}
use lw_nbd.Prelude.{
  ℕ, zero, suc, ◌+◌, ◌-◌, ◌*◌, ◌/◌, ◌%◌, ◌^◌, ◌≤◌, ◌<◌, ◌≡◌, min, refl, sym, ap, ◌∙◌, arith,
}
use native.Mathlib.Nat.{two-pow-succ, add-mul-div_right, div-eq_of_lt}

-- Halved `k` times.
halved : ℕ → ℕ → ℕ
halved zero a = a
halved (suc k) a = halved k (a / 2)

pow_one : (k : ℕ) → 2 ^ suc k ≡ 2 * 2 ^ k
pow_one k = omega (arith, two-pow-succ k)

pub pow_pos : (k : ℕ) → 0 < 2 ^ k
pow_pos zero = omega arith
pow_pos (suc k) = omega (arith, pow_one k, pow_pos k)

halved-zero : (k : ℕ) → halved k 0 ≡ 0
unfolding halved
halved-zero zero = refl
halved-zero (suc k) = halved-zero k

and_digits : ℕ → ℕ → ℕ → ℕ
and_digits n a b = digits (λ b. zero) min n a b

and_digits-zero : (n a : ℕ) → and_digits n a 0 ≡ 0
unfolding and_digits
and_digits-zero zero a = refl
and_digits-zero (suc n) zero = refl
and_digits-zero (suc n) (suc a) = omega (arith, and_digits-zero n (suc a / 2))

nothing_low : (k : ℕ) → (0 + halved k 0 * 2 ^ k ≡ 0) × (0 < 2 ^ k)
nothing_low k = (omega (arith, ap (λ t. t * 2 ^ k) (halved-zero k)), pow_pos k)

low_digits-add :
    (k n a : ℕ)
    → a ≤ n
    → (and_digits n a (2 ^ k - 1) + halved k a * 2 ^ k ≡ a) × (and_digits n a (2 ^ k - 1) < 2 ^ k)
unfolding halved and_digits
low_digits-add k zero zero h = nothing_low k
low_digits-add k zero (suc a) h = absurd (omega arith)
low_digits-add k (suc n) zero h = nothing_low k
low_digits-add zero (suc n) (suc a) h =
    let none = and_digits-zero n (suc a / 2) in (omega (arith, none), omega (arith, none))
low_digits-add (suc k) (suc n) (suc a) h =
    let ih = low_digits-add k n (suc a / 2) (omega arith) in
    let half : (2 ^ suc k - 1) / 2 ≡ 2 ^ k - 1 = omega (arith, pow_one k, pow_pos k) in
    let odd : (2 ^ suc k - 1) % 2 ≡ 1 = omega (arith, pow_one k, pow_pos k) in
    let same = ap (λ t. and_digits n (suc a / 2) t) half in
    let double : halved k (suc a / 2) * 2 ^ suc k ≡ 2 * (halved k (suc a / 2) * 2 ^ k) =
      ap (λ t. halved k (suc a / 2) * t) (pow_one k) ∙ grind arith in
    (omega (arith, ih.0, odd, same, double), omega (arith, ih.1, odd, same, pow_one k))

-- A number is its block and its place in the block.
pub bit_and_mask : (k a : ℕ) → a / 2 ^ k * 2 ^ k + bit_and a (2 ^ k - 1) ≡ a
unfolding and_digits
bit_and_mask k a = omega (arith, low.0, as_digits, ap (λ t. t * 2 ^ k) block)
  where
    low :
        (and_digits a a (2 ^ k - 1) + halved k a * 2 ^ k ≡ a) × (and_digits a a (2 ^ k - 1) < 2 ^ k)
    low = low_digits-add k a a (omega arith)

    as_digits : bit_and a (2 ^ k - 1) ≡ and_digits a a (2 ^ k - 1)
    as_digits = bit_and-bitwise a (2 ^ k - 1)

    block : a / 2 ^ k ≡ halved k a
    block =
        ap (λ t. t / 2 ^ k) (sym low.0)
        ∙ add-mul-div_right (and_digits a a (2 ^ k - 1)) (halved k a) (pow_pos k)
        ∙ omega (arith, div-eq_of_lt low.1)
