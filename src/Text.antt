-- ===== src/Text.antt =====
-- C strings as lists of bytes without the end mark, and the calls of <string.h> that the library
-- makes on them, by what they are documented to do.
use lw_nbd.Prelude.{
  ℕ, ◌-◌, ◌≡◌, refl, ◌↔◌, Bool, true, false, List, [], ◌∷◌, ◌++◌, take, length, replicate, ◌==◌,
  ◌&&◌, arith,
}
use mathlib.Core.Path.{ap₂}
use Prim.Native.Char.{code}
use Prim.Native.String.{String}

-- the bytes of a literal
abbrev pub codes : String → List ℕ
codes String.[] = []
codes (String.◌∷◌ c s) = code c ∷ codes s

-- `strcmp(a, b) == 0`
abbrev pub same_text : List ℕ → List ℕ → Bool
same_text [] [] = true
same_text [] (y ∷ ys) = false
same_text (x ∷ xs) [] = false
same_text (x ∷ xs) (y ∷ ys) = (x == y) && same_text xs ys

-- `strncmp(a, b, n) == 0`
abbrev pub same_prefix : ℕ → List ℕ → List ℕ → Bool
same_prefix n a b = same_text (take n a) (take n b)

-- the tail of two lists that agree is what they agree on
same_text→eq : (a b : List ℕ) → same_text a b ≡ true → a ≡ b
same_text→eq [] [] h = refl
same_text→eq [] (y ∷ ys) h = cc
same_text→eq (x ∷ xs) [] h = cc
same_text→eq (x ∷ xs) (y ∷ ys) h = ap₂ ◌∷◌ (ground arith) (same_text→eq xs ys (ground arith))

same_text_refl : (a : List ℕ) → same_text a a ≡ true
same_text_refl [] = refl
same_text_refl (x ∷ xs) = ground (arith, same_text_refl xs)

pub same_text_iff : (a b : List ℕ) → (same_text a b ≡ true) ↔ (a ≡ b)
same_text_iff a b = (same_text→eq a b, λ e. rw e (same_text_refl b))

-- `%-32s` and the like: padded on the right to at least `n` characters
abbrev pub pad_right : ℕ → List ℕ → List ℕ
pad_right n s = s ++ replicate (n - length s) b' '
