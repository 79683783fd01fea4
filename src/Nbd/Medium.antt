-- ===== src/Nbd/Medium.antt =====
-- The bytes of an exported medium, as its clients see them: what READ has to send.
use lw_nbd.Prelude.{
  ℕ, ℤ, zero, suc, ◌+◌, ◌*◌, ◌≤◌, ◌<◌, ◌≡◌, refl, sym, ◌∙◌, ap, true, List, [], ◌∷◌, ◌++◌,
  append_assoc, append-nil, take, false, length, get_or, ◌==◌, if◌then◌else◌, is_zero, arith,
}
use native.Mathlib.Nat.{add-zero, zero-add}
use mathlib.Core.Path.{ap₂}
use lw_nbd.Conn.{Recv, Packet}

-- the `n` bytes from address `a` on
unfoldable pub span : (ℕ → ℕ) → ℕ → ℕ → List ℕ
span medium a zero = []
span medium a (suc n) = medium a ∷ span medium (suc a) n

pub span-zero : (medium : ℕ → ℕ) (a : ℕ) → span medium a 0 ≡ []
unfolding span
span-zero medium a = refl

pub length-span : (medium : ℕ → ℕ) (a n : ℕ) → length (span medium a n) ≡ n
unfolding span
length-span medium a zero = refl
length-span medium a (suc n) = ap suc (length-span medium (suc a) n)

-- All that has been handed to the sends, in order: with sends that take all they are given, all
-- that has been sent.
unfoldable pub payload : List Packet → List ℕ
payload [] = []
payload (p ∷ ps) = p.bytes ++ payload ps

pub payload-append : (ps qs : List Packet) → payload (ps ++ qs) ≡ payload ps ++ payload qs
unfolding payload
payload-append [] qs = refl
payload-append (p ∷ ps) qs =
    ap (λ r. p.bytes ++ r) (payload-append ps qs)
    ∙ sym (append_assoc p.bytes (payload ps) (payload qs))

pub payload-send :
    (ps : List Packet) (p : Packet) → payload (ps ++ (p ∷ [])) ≡ payload ps ++ p.bytes
unfolding payload
payload-send ps p = payload-append ps (p ∷ []) ∙ ap (λ r. payload ps ++ r) (append-nil p.bytes)

pub span-add :
    (medium : ℕ → ℕ) (a m n : ℕ) → span medium a (m + n) ≡ span medium a m ++ span medium (a + m) n
unfolding span
span-add medium a zero n = rw (zero-add, add-zero)
span-add medium a (suc m) n =
    ap (λ k. span medium a k) one_more
    ∙ ap (λ r. medium a ∷ r)
        (span-add medium (suc a) m n
          ∙ ap (λ k. span medium (suc a) m ++ span medium k n) (omega arith))
  where
    one_more : suc m + n ≡ suc (m + n)
    one_more = omega arith

-- `view d` is the medium behind the device state `d`. A `pread` that reports success has filled the
-- front of the buffer with the blocks asked for; success or not, it leaves the medium as it was.
pub record ReadsFrom {D : Type 0} (view : D → ℕ → ℕ) (blocksize handle : ℕ)
    (pread : ℕ → List ℕ → ℕ → ℕ → ℕ → D → ℤ × List ℕ × D) : Type 0 where
  pub reads :
      (buf : List ℕ) (count offset : ℕ) (d : D)
      → is_zero (pread handle buf count offset 0 d).0 ≡ true
      → take (count * blocksize) (pread handle buf count offset 0 d).1
        ≡ span (view d) (offset * blocksize) (count * blocksize)
  pub keeps :
      (buf : List ℕ) (count offset : ℕ) (d : D)
      → view (pread handle buf count offset 0 d).2 ≡ view d

-- The medium with a run of bytes stored from address `a` on.
unfoldable pub patch : (ℕ → ℕ) → ℕ → List ℕ → ℕ → ℕ
patch medium a [] = medium
patch medium a (b ∷ bytes) = patch (λ x. if x == a then b else medium x) (suc a) bytes

pub patch-nil : (medium : ℕ → ℕ) (a : ℕ) → patch medium a [] ≡ medium
unfolding patch
patch-nil medium a = refl

pub patch-append :
    (medium : ℕ → ℕ) (a : ℕ) (xs ys : List ℕ)
    → patch medium a (xs ++ ys) ≡ patch (patch medium a xs) (a + length xs) ys
unfolding patch
patch-append medium a [] ys = rw add-zero
patch-append medium a (x ∷ xs) ys =
    patch-append (λ y. if y == a then x else medium y) (suc a) xs ys
    ∙ ap (λ k. patch (patch (λ y. if y == a then x else medium y) (suc a) xs) k ys) (omega arith)

pub get_or-span :
    (medium : ℕ → ℕ) (a n i : ℕ) → i < n → get_or (span medium a n) i 0 ≡ medium (a + i)
unfolding span
get_or-span medium a zero i h = absurd (omega arith)
get_or-span medium a (suc n) zero h = ap medium (omega arith)
get_or-span medium a (suc n) (suc i) h =
    get_or-span medium (suc a) n i (omega arith) ∙ ap medium (omega arith)

-- What lies before the run is as it was.
pub patch_before :
    (medium : ℕ → ℕ) (a : ℕ) (xs : List ℕ) (x : ℕ) → x < a → patch medium a xs x ≡ medium x
unfolding patch
patch_before medium a [] x h = refl
patch_before medium a (b ∷ xs) x h =
    patch_before (λ y. if y == a then b else medium y) (suc a) xs x (omega arith) ∙ other
  where
    other : (if x == a then b else medium x) ≡ medium x
    other = ground arith

pub patch_after :
    (medium : ℕ → ℕ) (a : ℕ) (xs : List ℕ) (x : ℕ)
    → a + length xs ≤ x
    → patch medium a xs x ≡ medium x
unfolding patch
patch_after medium a [] x h = refl
patch_after medium a (b ∷ xs) x h =
    patch_after (λ y. if y == a then b else medium y) (suc a) xs x (omega arith) ∙ other
  where
    other : (if x == a then b else medium x) ≡ medium x
    other = ground arith

pub patch_inside :
    (medium : ℕ → ℕ) (a : ℕ) (xs : List ℕ) (i : ℕ)
    → i < length xs
    → patch medium a xs (a + i) ≡ get_or xs i 0
unfolding patch
patch_inside medium a [] i h = absurd (omega arith)
patch_inside medium a (b ∷ xs) zero h =
    patch_before (λ y. if y == a then b else medium y) (suc a) xs (a + 0) (omega arith) ∙ own
  where
    own : (if (a + 0) == a then b else medium (a + 0)) ≡ b
    own = ground arith
patch_inside medium a (b ∷ xs) (suc i) h =
    ap (λ k. patch (λ y. if y == a then b else medium y) (suc a) xs k) {y = suc a + i} (omega arith)
    ∙ patch_inside (λ y. if y == a then b else medium y) (suc a) xs i (omega arith)

-- Runs of two media agree where their bytes do.
pub span-eq :
    (m m' : ℕ → ℕ) (a b n : ℕ)
    → ((i : ℕ) → i < n → m (a + i) ≡ m' (b + i))
    → span m a n ≡ span m' b n
unfolding span
span-eq m m' a b zero h = refl
span-eq m m' a b (suc n) h =
    ap₂ ◌∷◌ (ap m {y = a + 0} (omega arith) ∙ h 0 (omega arith) ∙ ap m' {x = b + 0} (omega arith)) (
      span-eq m m' (suc a) (suc b) n λ i lt.
        ap m {y = a + suc i} (omega arith)
        ∙ h (suc i) (omega arith)
        ∙ ap m' {x = b + suc i} (omega arith))

-- A stored run is read back.
pub patch-span :
    (medium : ℕ → ℕ) (a : ℕ) (xs : List ℕ) → span (patch medium a xs) a (length xs) ≡ xs
unfolding patch span
patch-span medium a [] = refl
patch-span medium a (x ∷ xs) =
    ap₂ ◌∷◌ (patch_before _ (suc a) xs a (omega arith) ∙ own)
      (patch-span (λ y. if y == a then x else medium y) (suc a) xs)
  where
    own : (if a == a then x else medium a) ≡ x
    own = ground arith

-- All that the given receives have stored.
unfoldable pub stored : List Recv → List ℕ
stored [] = []
stored (r ∷ rs) = r.stored ++ stored rs

-- A `pwrite` that reports success has stored the blocks it was given.
pub record WritesTo {D : Type 0} (view : D → ℕ → ℕ) (blocksize handle : ℕ)
    (pwrite : ℕ → List ℕ → ℕ → ℕ → ℕ → D → ℤ × D) : Type 0 where
  pub writes :
      (buf : List ℕ) (count offset : ℕ) (d : D)
      → length buf ≡ count * blocksize
      → is_zero (pwrite handle buf count offset 0 d).0 ≡ true
      → view (pwrite handle buf count offset 0 d).1 ≡ patch (view d) (offset * blocksize) buf

pub stored-append : (rs qs : List Recv) → stored (rs ++ qs) ≡ stored rs ++ stored qs
unfolding stored
stored-append [] qs = refl
stored-append (r ∷ rs) qs =
    ap (λ b. r.stored ++ b) (stored-append rs qs)
    ∙ sym (append_assoc r.stored (stored rs) (stored qs))

abbrev pub Pread : Type 0 → Type 0
Pread D = ℕ → List ℕ → ℕ → ℕ → ℕ → D → ℤ × List ℕ × D

-- Every call of the context's `pread` reports success, or every one a failure.
abbrev pub AlwaysReads : {D : Type 0} → ℕ → Pread D → Type 0
AlwaysReads {D} handle f =
    (buf : List ℕ) (count offset : ℕ) (d : D) → is_zero (f handle buf count offset 0 d).0 ≡ true

abbrev pub NeverReads : {D : Type 0} → ℕ → Pread D → Type 0
NeverReads {D} handle f =
    (buf : List ℕ) (count offset : ℕ) (d : D) → is_zero (f handle buf count offset 0 d).0 ≡ false
