-- ===== src/Contexts.antt =====
-- src/contexts.c: the pool of contexts.
pub mod Pool
use lw_nbd.Prelude.{
  ℕ, zero, suc, ◌+◌, Bool, true, false, Option, none, some, List, [], ◌∷◌, ◌++◌, get_elem?, set,
  length, ◌==◌, if◌then◌else◌,
}
use lw_nbd.Plugin.{Context}
use lw_nbd.Text.{codes, same_prefix, pad_right}

pub data Status : Type 0 where
  free created : Status

-- `contexts` and `contexts_status`. The source's arrays have MAX_CONTEXTS elements; a pointer to a
-- context is its index.
pub record Contexts (D : Type 0) : Type 0 where
  pub contexts : List (Context D)
  pub contexts_status : List Status

abbrev pub max_contexts : ℕ
max_contexts = 50

-- The loop that stops at the first free element, or at the end.
unfoldable pub first_free : List Status → ℕ
first_free [] = 0
first_free (free ∷ rest) = 0
first_free (created ∷ rest) = suc (first_free rest)

module _ {D : Type 0} where
  unfoldable pub lwnbd_new_context : Contexts D → Option ℕ × Contexts D
  lwnbd_new_context cs =
      let i = first_free cs.contexts_status in
      if i == max_contexts
      then (none, cs)
      else (some i, record cs { contexts_status = set cs.contexts_status i created })

  unfoldable pub lwnbd_contexts_count : Contexts D → ℕ
  lwnbd_contexts_count cs = first_free cs.contexts_status

  -- `none` is an access outside the array.
  unfoldable pub lwnbd_get_context_i : Contexts D → ℕ → Option (Context D)
  lwnbd_get_context_i cs i = get_elem? cs.contexts i

  -- The loop from index `i` on, over the contexts from there and the number of them to look at. The
  -- index is a `uint8_t`, which the size of the pool keeps from wrapping.
  unfoldable pub find_context : List (Context D) → ℕ → ℕ → List ℕ → Option ℕ
  find_context cs zero i name = none
  find_context [] (suc n) i name = none
  find_context (c ∷ cs) (suc n) i name =
      if same_prefix 32 c.name name then some i else find_context cs n (suc i) name

  unfoldable pub lwnbd_get_context_string : Contexts D → List ℕ → Option ℕ
  unfolding find_context first_free
  lwnbd_get_context_string cs name = find_context cs.contexts (lwnbd_contexts_count cs) 0 name

  -- `sprintf(s, "%-32s: %s\n", name, description)`
  abbrev pub dump_line : Context D → List ℕ
  dump_line c = pad_right 32 c.name ++ (codes ": " ++ (c.description ++ codes "\n"))

  unfoldable pub dump_from : List (Context D) → List Status → List ℕ
  dump_from [] st = []
  dump_from (c ∷ cs) [] = []
  dump_from (c ∷ cs) (free ∷ st) = dump_from cs st
  dump_from (c ∷ cs) (created ∷ st) = dump_line c ++ dump_from cs st

  -- The text written, and the count returned.
  unfoldable pub lwnbd_dump_contexts : Contexts D → List ℕ × ℕ
  unfolding dump_from
  lwnbd_dump_contexts cs =
      let text = dump_from cs.contexts cs.contexts_status in (text, length text + 1)
