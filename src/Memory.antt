-- ===== src/Memory.antt =====
-- plugins/memory/memory.c: exports of ranges of memory.
pub mod Access
pub mod Session
use lw_nbd.Prelude.{
  ℕ, ℤ, pos, zero, suc, ◌+◌, ◌-◌, ◌*◌, ◌≤◌, Option, none, some, List, [], ◌∷◌, ◌++◌, take, drop,
  length, replicate, set, get_elem?, Run, done, fault, ◌>>=◌, deref, leb, ltb, if◌then◌else◌,
}
use lw_nbd.Plugin.{Fields, Query}
use lw_nbd.Nbd.Medium.{span, patch}
use lw_nbd.System.{strcpy}
use lw_nbd.Text.{codes, same_text}

-- `struct memory_config`, with addresses that are not negative
pub record MemoryConfig : Type 0 where
  pub base : ℕ
  pub size : ℕ
  pub name : List ℕ
  pub desc : List ℕ

-- `handle_state_t`
pub data HandleState : Type 0 where
  handle_free handle_created : HandleState

-- The static variables, and the bytes of the whole memory. A pointer to `handles[i]` is `i + 1`.
pub record MemoryState : Type 0 where
  pub handles : List MemoryConfig
  pub handle_in_use : List HandleState
  pub memory : ℕ → ℕ

abbrev pub handle_at : ℕ → MemoryState → Run MemoryConfig
handle_at zero d = fault
handle_at (suc i) d = deref (get_elem? d.handles i)

-- `memcpy` fills the front of the buffer.
unfoldable pub memory_pread : ℕ → List ℕ → ℕ → ℕ → ℕ → MemoryState → Run (ℤ × List ℕ × MemoryState)
memory_pread handle buf count offset flags d = do
  h ← handle_at handle d
  done (pos 0, span d.memory (h.base + offset) count ++ drop count buf, d)

-- The copy goes over the local variable `addr`, of `word` bytes, and not to the address it holds.
unfoldable pub memory_pwrite : ℕ → ℕ → List ℕ → ℕ → ℕ → ℕ → MemoryState → Run (ℤ × MemoryState)
memory_pwrite word handle buf count offset flags d = do
  h ← handle_at handle d
  (if leb count word then done (pos 0, d) else fault)

unfoldable pub first_free : List HandleState → ℕ
first_free [] = 0
first_free (handle_free ∷ rest) = 0
first_free (handle_created ∷ rest) = suc (first_free rest)

-- With no free handle the loop leaves `i` at the array's size, and `handles[i]` lies behind it.
unfoldable pub memory_ctor : MemoryConfig → Fields → MemoryState → Run (ℤ × Fields × MemoryState)
memory_ctor pconfig c d =
    let i = first_free d.handle_in_use in
    if leb (length d.handles) i then fault else do
      name ← strcpy 32 pconfig.name
      description ← strcpy 64 pconfig.desc
      done (
        pos 0,
        record c { handle = suc i; name = name; description = description },
        record d {
          handles = set d.handles i pconfig;
          handle_in_use = set d.handle_in_use i handle_created;
        },
      )

unfoldable pub memory_get_size : ℕ → MemoryState → Run ℕ
memory_get_size handle d = handle_at handle d >>= λ h. done h.size

-- `memset` over the whole range
abbrev pub fill : ℕ → MemoryConfig → (ℕ → ℕ) → ℕ → ℕ
fill b h memory = patch memory h.base (replicate h.size b)

-- the first character of a string, the end mark if it is empty
abbrev pub first_char : List ℕ → ℕ
first_char [] = 0
first_char (b ∷ bs) = b

-- One parameter of a query.
unfoldable pub run_filter : Query → MemoryConfig → (ℕ → ℕ) → ℕ → ℕ
run_filter q h memory =
    if same_text q.key (codes "bzero")
    then fill 0 h memory
    else if same_text q.key (codes "memset")
    then elim q.val [ none ↦ memory | some v ↦ fill (first_char v) h memory ]
    else if same_text q.key (codes "memcpy")
    then elim q.val [ none ↦ memory | some v ↦ patch (fill 0 h memory) h.base v ]
    else memory

-- The loop goes from the last parameter to the first.
unfoldable pub filters : List Query → ℕ → MemoryConfig → (ℕ → ℕ) → Run (ℕ → ℕ)
filters params zero h memory = done memory
filters params (suc n) h memory = do
  q ← deref (get_elem? params n)
  filters params n h (run_filter q h memory)

unfoldable pub memory_query : ℕ → List Query → ℕ → MemoryState → Run (ℤ × MemoryState)
memory_query handle params nb_params d = do
  h ← handle_at handle d
  memory ← filters params nb_params h d.memory
  done (pos 0, record d { memory = memory })
