-- ===== src/Memory/Access.antt =====
-- Reads, writes and filters of an export of memory.
use lw_nbd.Prelude.{
  ℕ, pos, zero, suc, ◌+◌, ◌≡◌, ◌⊎◌, inl, inr, refl, ap, ◌∙◌, sym, none, List, [], ◌∷◌, length, take,
  take-append, replicate, done, fault, Returns, ◌>>=◌, leb, Bool-cases, arith,
}
use lw_nbd.Nbd.Medium.{span, length-span, patch, patch-span}
use lw_nbd.Text.{codes}
use lw_nbd.Memory.{
  MemoryConfig, MemoryState, handle_at, memory_pread, memory_pwrite, memory_query, filters,
  run_filter,
}

-- A write never reaches the exported memory: it returns 0 and changes nothing, or, when it is longer
-- than a pointer, overruns the local variable.
pub memory_pwrite-lost :
    (word handle : ℕ) (buf : List ℕ) (count offset flags : ℕ) (d : MemoryState) (h : MemoryConfig)
    → handle_at handle d ≡ done h
    → (memory_pwrite word handle buf count offset flags d ≡ done (pos 0, d))
      ⊎ (memory_pwrite word handle buf count offset flags d ≡ fault)
unfolding memory_pwrite
memory_pwrite-lost word handle buf count offset flags d h at = elim (Bool-cases (leb count word)) [
  | inl fits ↦ inl (rw at (rw fits refl))
  | inr long ↦ inr (rw at (rw long refl))
]

length-replicate : (n b : ℕ) → length (replicate n b) ≡ n
length-replicate zero b = refl
length-replicate (suc n) b = ap suc (length-replicate n b)

filled_span :
    (memory : ℕ → ℕ) (a n b : ℕ) → span (patch memory a (replicate n b)) (a + 0) n ≡ replicate n b
filled_span memory a n b =
    ap (λ k. span (patch memory a (replicate n b)) k n) {y = a} (omega arith)
    ∙ ap (λ k. span (patch memory a (replicate n b)) a k) (sym (length-replicate n b))
    ∙ patch-span memory a (replicate n b)

-- After a query of the one filter `bzero`, a read of the whole export gives zeros.
pub memory_query-bzero :
    (handle : ℕ) (buf : List ℕ) (d : MemoryState) (h : MemoryConfig)
    → handle_at handle d ≡ done h
    → Returns
        (memory_query handle (record { key = codes "bzero"; val = none } ∷ []) 1 d >>= λ rd.
          memory_pread handle buf h.size 0 0 rd.1)
        (λ r. (r.0 ≡ pos 0) × (take h.size r.1 ≡ replicate h.size 0))
unfolding memory_query memory_pread filters run_filter
memory_query-bzero zero buf d h at = absurd (cc)
memory_query-bzero (suc i) buf d h at = rw at (
    rw at (
      refl,
      take-append h.size _ _ (sym (length-span _ (h.base + 0) h.size))
          ∙ filled_span d.memory h.base h.size 0,
    ))
