-- ===== src/Memory/Session.antt =====
-- An export of memory (plugins/memory/memory.c) under the transmission phase of the NBD server.
use lw_nbd.Prelude.{
  ℕ, ℤ, pos, minus_one, zero, suc, ◌+◌, ◌*◌, ◌%◌, ◌≡◌, refl, sym, ap, subst, ◌∙◌, Option, some,
  List, [], ◌∷◌, ◌++◌, take, drop, take-append, Run, done, fault, out_of_fuel, Returns,
  Returns-weaken, is_zero, arith,
}
use lw_nbd.Plugin.{Plugin}
use lw_nbd.Conn.{Conn, Recv}
use lw_nbd.Nbd.Context.{NbdContext}
use lw_nbd.Nbd.Medium.{span, length-span, span-eq, payload, Pread, ReadsFrom, AlwaysReads}
use lw_nbd.Nbd.Phase.{Config}
use lw_nbd.Nbd.Phase.Accept.{IsServable}
use lw_nbd.Nbd.Transmission.{start, transmission_phase}
use lw_nbd.Nbd.Transmission.Dispatch.{request_recv}
use lw_nbd.Nbd.Transmission.Session.{IsSent, transmission_phase-read_disc}
use lw_nbd.Nbd.Wire.{Request, simple_reply}
use lw_nbd.Memory.{MemoryConfig, MemoryState, handle_at, memory_pread}

-- What the plugin's function leaves of the memory. Where it would fault, it fails; it never does on
-- a handle in use.
abbrev settled : Run (ℤ × List ℕ × MemoryState) → List ℕ → (ℕ → ℕ) → ℤ × List ℕ × (ℕ → ℕ)
settled (done (r, buf', st)) buf memory = (r, buf', st.memory)
settled fault buf memory = (minus_one, buf, memory)
settled out_of_fuel buf memory = (minus_one, buf, memory)

-- `memory_pread` as the callback of the server, over the memory; the table of handles is `st`'s.
abbrev pub memory_callback : MemoryState → Pread (ℕ → ℕ)
memory_callback st handle buf count offset flags memory =
    settled (memory_pread handle buf count offset flags (record st { memory = memory })) buf memory

handle_at-memory :
    (handle : ℕ) (st : MemoryState) (memory : ℕ → ℕ)
    → handle_at handle (record st { memory = memory }) ≡ handle_at handle st
handle_at-memory zero st memory = refl
handle_at-memory (suc i) st memory = refl

module _ (st : MemoryState) (handle : ℕ) (h : MemoryConfig)
    (there : handle_at handle st ≡ done h) where
  -- the exported range, from 0 on
  abbrev exported : (ℕ → ℕ) → ℕ → ℕ
  exported memory x = memory (h.base + x)

  span-exported :
      (memory : ℕ → ℕ) (a n : ℕ) → span (exported memory) a n ≡ span memory (h.base + a) n
  span-exported memory a n =
      span-eq (exported memory) memory a (h.base + a) n λ i lt. ap memory (omega arith)

  memory_callback-done :
      (buf : List ℕ) (count offset flags : ℕ) (memory : ℕ → ℕ)
      → memory_callback st handle buf count offset flags memory
        ≡ (pos 0, span memory (h.base + offset) count ++ drop count buf, memory)
  unfolding memory_pread
  memory_callback-done buf count offset flags memory =
      rw (handle_at-memory handle st memory ∙ there) refl

  memory_callback-ReadsFrom : ReadsFrom exported 1 handle (memory_callback st)
  memory_callback-ReadsFrom = record {
    reads = λ buf count offset memory ok.
        ap (λ r. take (count * 1) r.1) (memory_callback-done buf count offset 0 memory)
        ∙ ap (λ k. take k (span memory (h.base + offset) count ++ drop count buf)) {y = count}
            (omega arith)
        ∙ take-append count (span memory (h.base + offset) count) (drop count buf)
            (sym (length-span memory (h.base + offset) count))
        ∙ sym (span-exported memory offset count)
        ∙ ap (λ k. span (exported memory) k count) {y = offset * 1} (omega arith)
        ∙ ap (span (exported memory) (offset * 1)) {y = count * 1} (omega arith);
    keeps = λ buf count offset memory.
        ap (λ r. exported r.2) (memory_callback-done buf count offset 0 memory);
  }

  memory_callback-AlwaysReads : AlwaysReads handle (memory_callback st)
  memory_callback-AlwaysReads buf count offset memory =
      ap (λ r. is_zero r.0) (memory_callback-done buf count offset 0 memory)

-- What a client of a memory export has when it has read and disconnected.
pub record Received (h : MemoryConfig) (read : Request) (conn : Conn) (memory : ℕ → ℕ)
    (rest : List Recv) (out : ℤ × Option (NbdContext (ℕ → ℕ)) × Conn × (ℕ → ℕ)) : Type 0 where
  pub returned : out.0 ≡ pos 0
  pub left : out.2.inbox ≡ rest
  pub bytes :
      payload out.2.outbox
      ≡ payload conn.outbox
        ++ (simple_reply 0 read.handle ++ span memory (h.base + read.offset) read.count)

module _ (st : MemoryState) (h : MemoryConfig) (cfg : Config) (ctx : NbdContext (ℕ → ℕ))
    (p : Plugin (ℕ → ℕ)) where
  -- Under the server with the memory plugin, a client that sends a READ within the export and then
  -- a DISC is sent the reply with error 0 and then just the bytes of the memory from the base plus
  -- the offset on; the phase returns 0 and leaves what follows unread. The handle is in use, the
  -- block size is 1, and no send falls short.
  pub memory_session-Received :
      (read disc : Request) (rest : List Recv) (conn : Conn) (request nbd_buffer : List ℕ)
      (memory : ℕ → ℕ)
      → handle_at ctx.handle st ≡ done h
      → ctx.p ≡ some p
      → p.pread ≡ some (memory_callback st)
      → ctx.minimum_block_size ≡ 1
      → IsSent read 0
      → IsSent disc 2
      → conn.inbox ≡ request_recv read ∷ request_recv disc ∷ rest
      → conn.acks ≡ []
      → IsServable cfg ctx.minimum_block_size read (start cfg ctx request nbd_buffer conn memory)
      → Returns
          (transmission_phase cfg (some ctx) request nbd_buffer conn memory)
          (Received h read conn memory rest)
  memory_session-Received read disc rest conn request nbd_buffer memory there connected has bytes sr
        sd e none v =
      Returns-weaken (transmission_phase cfg (some ctx) request nbd_buffer conn memory)
        (λ out spec. record {
          returned = spec.returned;
          left = spec.left;
          bytes =
              spec.bytes
              ∙ ap (λ l. payload conn.outbox ++ (simple_reply 0 read.handle ++ l))
                  (span-exported st ctx.handle h there memory read.offset read.count);
        })
        (transmission_phase-read_disc (exported st ctx.handle h there) cfg ctx p
          (memory_callback st) connected has
          (subst (λ k. ReadsFrom (exported st ctx.handle h there) k ctx.handle (memory_callback st))
            (sym bytes) (memory_callback-ReadsFrom st ctx.handle h there))
          (memory_callback-AlwaysReads st ctx.handle h there) read disc rest conn request nbd_buffer
          memory sr sd e none v (aligned read.offset) (aligned read.count))
    where
      aligned : (a : ℕ) → a % ctx.minimum_block_size ≡ 0
      aligned a = ap (λ k. a % k) bytes ∙ omega arith
