-- ===== src/Nbd/Write/Pieces.antt =====
-- A WRITE whose payload comes in the pieces that the server asks for, to a plugin that fails no call.
use lw_nbd.Prelude.{
  ℕ, ℤ, pos, zero, suc, ◌+◌, ◌-◌, ◌*◌, ◌%◌, ◌^◌, ◌<◌, ◌≡◌, ◌≢◌, refl, sym, ap, subst, ◌∙◌, true,
  List, [], ◌∷◌, ◌++◌, some, drop, take-all, take-append, length, Returns, Returns-weaken,
  Returns->>=, ltb, is_zero, ◌==◌, if◌then◌else◌, arith,
}
use lw_nbd.Device.{lwnbd_pwrite-done}
use lw_nbd.Plugin.{Plugin}
use lw_nbd.Conn.{Conn, Recv, recv}
use lw_nbd.Nbd.Context.{NbdContext}
use lw_nbd.Nbd.Phase.{Config, Phase, clip, last_chunk, advance}
use lw_nbd.Nbd.Phase.Chunk.{IsReady, IsChunk, IsAdvanced, chunk_lem, advance-IsAdvanced}
use lw_nbd.Nbd.Write.{store_chunk, write_round, write_loop}
use lw_nbd.Nbd.Write.Loop.{write_loop-off, write_loop-on}
use lw_nbd.Nbd.Medium.{patch, patch-nil, patch-append, WritesTo}

-- Every call of the context's `pwrite` reports success.
abbrev pub AlwaysWrites : {D : Type 0} → ℕ → (ℕ → List ℕ → ℕ → ℕ → ℕ → D → ℤ × D) → Type 0
AlwaysWrites {D} handle f =
    (buf : List ℕ) (count offset : ℕ) (d : D) → is_zero (f handle buf count offset 0 d).0 ≡ true

-- The blocks of the next piece, with room for `k` blocks and `n` to come.
abbrev pub piece : ℕ → ℕ → ℕ
piece k n = if ltb n k then n else k

-- The payload of `n` blocks, cut into the pieces that are asked for.
abbrev pub ArePieces : ℕ → ℕ → ℕ → List (List ℕ) → Type 0
ArePieces bs k n [] = n ≡ 0
ArePieces bs k n (d ∷ ds) =
    (0 < n) × (length d ≡ piece k n * bs) × ArePieces bs (piece k n) (n - piece k n) ds

abbrev pub joined : List (List ℕ) → List ℕ
joined [] = []
joined (d ∷ ds) = d ++ joined ds

-- The script in which the pieces come in, and then the rest.
abbrev pub delivered : List (List ℕ) → List Recv → List Recv
delivered [] rest = rest
delivered (d ∷ ds) rest = record { result = pos (length d); stored = d } ∷ delivered ds rest

recv-piece :
    (c : Conn) (buf d : List ℕ) (n : ℕ) (more : List Recv)
    → c.inbox ≡ record { result = pos (length d); stored = d } ∷ more
    → length d ≡ n
    → recv c buf n ≡ (pos n, d ++ drop n buf, record c { inbox = more })
unfolding recv
recv-piece c buf d n more e size = rw e (rw (take-all n d (sym size)) (rw size refl))

-- What a piece leaves that has come in: it is stored, and the rest of the payload is to come.
record Taken {D : Type 0} (view : D → ℕ → ℕ) (bs : ℕ) (d : List ℕ) (more : List Recv)
    (s s' : Phase D) : Type 0 where
  advanced : IsAdvanced bs (piece s.bufblksz s.blkremains) s s'
  same : (s'.ctx ≡ s.ctx) × (s'.error ≡ s.error) × (s'.conn ≡ record (s.conn) { inbox = more })
  bytes : view s'.dev ≡ patch (view s.dev) (s.offset * bs) d
  size : s'.bufblksz ≡ piece s.bufblksz s.blkremains
  flagged : s'.blkremains ≡ 0 → s'.sendflag ≡ 0

module _ {D : Type 0} (view : D → ℕ → ℕ) (cfg : Config) (bs : ℕ) (p : Plugin D)
    (f : ℕ → List ℕ → ℕ → ℕ → ℕ → D → ℤ × D) (has : p.pwrite ≡ some f) where
  chunk_size : (s : Phase D) → (last_chunk (clip bs s)).bufblksz ≡ piece s.bufblksz s.blkremains
  unfolding last_chunk clip
  chunk_size s = ground arith

  write_round-Taken :
      (s : Phase D) (d : List ℕ) (more : List Recv)
      → s.ctx.p ≡ some p
      → WritesTo view bs s.ctx.handle f
      → AlwaysWrites s.ctx.handle f
      → IsReady bs s
      → s.sendflag ≢ 0
      → s.conn.inbox ≡ record { result = pos (length d); stored = d } ∷ more
      → length d ≡ piece s.bufblksz s.blkremains * bs
      → Returns (write_round cfg bs s) (Taken view bs d more s)
  unfolding write_round store_chunk advance
  write_round-Taken s d more hp disk always v flag e size =
      rw (recv-piece c.conn c.nbd_buffer d c.byteread more e' size') (
        let all : (c.byteread % 2 ^ 32 == c.byteread) ≡ true = ground (arith, ch.fits, ch.exact) in
        rw all (
          rw (take-append c.byteread d (drop c.byteread c.nbd_buffer) (sym size')) (
            rw (lwnbd_pwrite-done c.ctx.base d c.bufblksz c.offset 0 c.dev hp' has) (
              rw (always' d c.bufblksz c.offset c.dev) (record {
                advanced = subst (λ k. IsAdvanced bs k s (advance cfg s')) (chunk_size s) moved;
                same = (
                  ch.same_world.0,
                  ch.same_error,
                  ap (λ (x : Conn). record x { inbox = more }) ch.same_world.1,
                );
                bytes = cc (
                  disk'.writes d c.bufblksz c.offset c.dev (size' ∙ ch.exact)
                      (always' d c.bufblksz c.offset c.dev),
                  ch.same.1,
                  ch.same_world.2,
                );
                size = chunk_size s;
                flagged = λ none. ch.flagged (omega (arith, moved.moved.1, none));
              })))))
    where
      c : Phase D
      c = last_chunk (clip bs s)

      ch : IsChunk bs s c
      ch = chunk_lem bs s flag v

      e' : c.conn.inbox ≡ record { result = pos (length d); stored = d } ∷ more
      e' = ap (λ (x : Conn). x.inbox) ch.same_world.1 ∙ e

      size' : length d ≡ c.byteread
      size' = size ∙ ap (λ k. k * bs) (sym (chunk_size s)) ∙ sym ch.exact

      hp' : c.ctx.p ≡ some p
      hp' = ap (λ (x : NbdContext D). x.p) ch.same_world.0 ∙ hp

      always' : AlwaysWrites c.ctx.handle f
      always' = subst (λ (x : NbdContext D). AlwaysWrites x.handle f) (sym ch.same_world.0) always

      disk' : WritesTo view bs c.ctx.handle f
      disk' = subst (λ (x : NbdContext D). WritesTo view bs x.handle f) (sym ch.same_world.0) disk

      s' : Phase D
      s' = record c {
        nbd_buffer = d ++ drop c.byteread c.nbd_buffer;
        conn = record (c.conn) { inbox = more };
        dev = (f c.ctx.handle d c.bufblksz c.offset 0 c.dev).1;
      }

      moved : IsAdvanced bs c.bufblksz s (advance cfg s')
      moved = advance-IsAdvanced cfg bs s c s' v ch refl refl refl refl refl

  -- What the loop leaves: the whole payload is stored, and no error is reported.
  pub record AllTaken (ds : List (List ℕ)) (rest : List Recv) (s s' : Phase D) : Type 0 where
    pub same :
        (s'.ctx ≡ s.ctx) × (s'.error ≡ s.error) × (s'.conn ≡ record (s.conn) { inbox = rest })
    pub bytes : view s'.dev ≡ patch (view s.dev) (s.offset * bs) (joined ds)
    pub flag : s'.sendflag ≡ 0

  Taken-AllTaken :
      (d : List ℕ) (ds : List (List ℕ)) (rest : List Recv) (s s' s'' : Phase D)
      → length d ≡ piece s.bufblksz s.blkremains * bs
      → Taken view bs d (delivered ds rest) s s'
      → AllTaken ds rest s' s''
      → AllTaken (d ∷ ds) rest s s''
  Taken-AllTaken d ds rest s s' s'' size t a = record {
    same = (
      a.same.0 ∙ t.same.0,
      a.same.1 ∙ t.same.1,
      a.same.2 ∙ ap (λ (x : Conn). record x { inbox = rest }) t.same.2,
    );
    bytes =
        cc
          (a.bytes, t.bytes, next_address, patch-append (view s.dev) (s.offset * bs) d (joined ds));
    flag = a.flag;
  }
    where
      next_address : s'.offset * bs ≡ s.offset * bs + length d
      next_address = omega (arith, ap (λ (t : ℕ). t * bs) t.advanced.moved.0, size)

  next_pieces :
      {d : List ℕ} {more : List Recv} (s s' : Phase D)
      → Taken view bs d more s s'
      → (ds : List (List ℕ))
      → ArePieces bs
          (piece s.bufblksz s.blkremains)
          (s.blkremains - piece s.bufblksz s.blkremains)
          ds
      → ArePieces bs s'.bufblksz s'.blkremains ds
  next_pieces s s' t ds pieces =
      subst (λ k. ArePieces bs k s'.blkremains ds) (sym t.size)
        (subst (λ n. ArePieces bs (piece s.bufblksz s.blkremains) n ds)
          (omega (arith, t.advanced.moved.1)) pieces)

  -- Enough rounds for a piece of each block.
  pub write_loop-AllTaken :
      (fuel : ℕ) (s : Phase D) (ds : List (List ℕ)) (rest : List Recv)
      → s.ctx.p ≡ some p
      → WritesTo view bs s.ctx.handle f
      → AlwaysWrites s.ctx.handle f
      → IsReady bs s
      → (s.blkremains ≡ 0 → s.sendflag ≡ 0)
      → ArePieces bs s.bufblksz s.blkremains ds
      → s.conn.inbox ≡ delivered ds rest
      → s.blkremains < fuel
      → Returns (write_loop cfg bs fuel s) (AllTaken ds rest s)
  write_loop-AllTaken zero s ds rest hp disk always v flagged pieces e enough = absurd (omega arith)
  write_loop-AllTaken (suc fuel) s [] rest hp disk always v flagged none e enough =
      rw (write_loop-off cfg bs fuel s (flagged none)) (record {
        same = (refl, refl, ap (λ l. record (s.conn) { inbox = l }) e);
        bytes = sym (patch-nil (view s.dev) (s.offset * bs));
        flag = flagged none;
      })
  write_loop-AllTaken (suc fuel) s (d ∷ ds) rest hp disk always v flagged (some_, size, pieces) e
        enough =
      rw (write_loop-on cfg bs fuel s (ground (arith, v.ended))) (
        Returns->>= (write_round cfg bs s) _ (Taken view bs d (delivered ds rest) s)
          (AllTaken (d ∷ ds) rest s)
          (write_round-Taken s d (delivered ds rest) hp disk always v (ground (arith, v.ended)) e
            size)
          λ s' t.
            Returns-weaken (write_loop cfg bs fuel s')
              (λ s''. Taken-AllTaken d ds rest s s' s'' size t)
              (write_loop-AllTaken fuel s' ds rest (ap (λ (x : NbdContext D). x.p) t.same.0 ∙ hp)
                (subst (λ (x : NbdContext D). WritesTo view bs x.handle f) (sym t.same.0) disk)
                (subst (λ (x : NbdContext D). AlwaysWrites x.handle f) (sym t.same.0) always)
                t.advanced.ready t.flagged (next_pieces s s' t ds pieces)
                (ap (λ (x : Conn). x.inbox) t.same.2)
                (ground (arith, t.advanced.moved.1, v.progress))))
