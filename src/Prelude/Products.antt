-- ===== src/Prelude/Products.antt =====
-- Products of natural numbers: the addresses of runs of equal pieces.
use Prim.Native.Nat.{ℕ, suc, ◌+◌, ◌-◌, ◌*◌, ◌≤◌}
use mathlib.Core.Path.{◌≡◌, ap}
use native.Mathlib.Omega.{arith}

pub add_mul : (a b c : ℕ) → (a + b) * c ≡ a * c + b * c
add_mul a b c = grind arith

pub mul_le : (a b c : ℕ) → a ≤ b → a * c ≤ b * c
mul_le a b c h =
    omega (arith, add_mul a (b - a) c, ap (λ t. t * c) {x = a + (b - a)} {y = b} (omega (arith, h)))

pub next_page : (j c : ℕ) → (j + 1) * c ≡ j * c + c
next_page j c = grind arith

pub suc_pages : (n c : ℕ) → suc n * c ≡ c + n * c
suc_pages n c = grind arith
