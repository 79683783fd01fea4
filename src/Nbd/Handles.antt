-- ===== src/Nbd/Handles.antt =====
-- The table of the server's handles (servers/nbd/nbd.c).
use lw_nbd.Prelude.{
  ℕ, ℤ, pos, suc, false, ◌<◌, ◌≡◌, ◌⊎◌, inl, inr, refl, ap, some, List, [], ◌∷◌, set, length,
  get_elem?, ◌==◌, ==_iff, if◌then◌else◌, arith,
}

-- `handle_state_t`
pub data HandleState : Type 0 where
  free created : HandleState

abbrev pub nbd_server_max_devices : ℕ
nbd_server_max_devices = 3

-- The loop that stops at the first free element, or at the end.
unfoldable pub first_free : List HandleState → ℕ
first_free [] = 0
first_free (free ∷ rest) = 0
first_free (created ∷ rest) = suc (first_free rest)

-- The result is the index of the handle, which is not compared with the size of the table.
unfoldable pub nbd_new : List HandleState → ℕ × List HandleState
nbd_new handle_in_use =
    let i = first_free handle_in_use in
    (i, if i == nbd_server_max_devices then handle_in_use else set handle_in_use i created)

abbrev pub nbd_ctor : ℕ → ℕ → ℤ
nbd_ctor handle settings = pos 0

-- A free handle that the search finds, or the end.
record Found (st : List HandleState) : Type 0 where
  within : first_free st < length st
  was_free : get_elem? st (first_free st) ≡ some free

first_free-Found : (st : List HandleState) → Found st ⊎ (first_free st ≡ length st)
unfolding first_free
first_free-Found [] = inr refl
first_free-Found (free ∷ rest) = inl (record { within = omega arith; was_free = refl })
first_free-Found (created ∷ rest) = elim (first_free-Found rest) [
  | inl f ↦ inl (record { within = omega (arith, f.within); was_free = f.was_free })
  | inr e ↦ inr (ap suc e)
]

-- A new server has a handle that was free and is in use from now on; or the table is as it was, and
-- the handle is the one behind its end.
pub nbd_new-Found :
    (st : List HandleState)
    → length st ≡ nbd_server_max_devices
    → ((nbd_new st).0 < nbd_server_max_devices)
        × (get_elem? st (nbd_new st).0 ≡ some free)
        × ((nbd_new st).1 ≡ set st (nbd_new st).0 created)
      ⊎ ((nbd_new st).0 ≡ nbd_server_max_devices) × ((nbd_new st).1 ≡ st)
unfolding nbd_new
nbd_new-Found st size = elim (first_free-Found st) [
  | inl f ↦
      let inside : (first_free st == nbd_server_max_devices) ≡ false = ground (arith, f.within) in
      rw inside (inl (omega (arith, f.within), f.was_free, refl))
  | inr e ↦
      rw ((==_iff (first_free st) nbd_server_max_devices).1 (omega arith)) (inr (omega arith, refl))
]
