-- ===== src/Nbd/Write/Chunk.antt =====
-- One round of the loop of NBD_CMD_WRITE.
use lw_nbd.Prelude.{
  ℕ, ℤ, pos, negsuc, ◌*◌, ◌^◌, ◌≤◌, ◌<◌, ◌≡◌, ◌≢◌, ◌⊎◌, refl, sym, ap, subst, ◌∙◌, inl, inr, true,
  List, [], ◌∷◌, ◌++◌, append-nil, some, take, drop, take-all, take-append, length, done, Returns,
  Bool-cases, is_zero, as_u32, ◌==◌, if◌then◌else◌, arith,
}
use lw_nbd.Device.{lwnbd_pwrite-done}
use lw_nbd.Plugin.{Plugin}
use lw_nbd.Conn.{Conn, Recv, receive, recv, recv-outbox}
use lw_nbd.Nbd.Errno
use lw_nbd.Nbd.Context.{NbdContext}
use lw_nbd.Nbd.Phase.{Config, Phase, clip, last_chunk, advance}
use lw_nbd.Nbd.Phase.Chunk.{IsReady, IsChunk, IsAdvanced, chunk_lem, advance-IsAdvanced}
use lw_nbd.Nbd.Write.{store_chunk, write_round, write_fuel}
use lw_nbd.Nbd.Medium.{patch, stored, WritesTo}

-- A receive reports an `int`, and as many bytes as it has stored.
pub record IsHonest (r : Recv) : Type 0 where
  pub count : (n : ℕ) → r.result ≡ pos n → (length r.stored ≡ n) × (n < 2 ^ 31)
  pub failure : (n : ℕ) → r.result ≡ negsuc n → n < 2 ^ 31

abbrev pub AllHonest : List Recv → Type 0
AllHonest [] = Unit
AllHonest (r ∷ rs) = IsHonest r × AllHonest rs

-- The first `k` remaining blocks have come in and are stored.
pub record Stored {D : Type 0} (view : D → ℕ → ℕ) (bs k : ℕ) (rs : List Recv) (s s' : Phase D)
    : Type 0 where
  pub within : k ≤ s.blkremains
  pub received : s.conn.inbox ≡ rs ++ s'.conn.inbox
  pub amount : length (stored rs) ≡ k * bs
  pub bytes : view s'.dev ≡ patch (view s.dev) (s.offset * bs) (stored rs)

-- What a receive of `n` bytes that reports `n` has done: it has stored `n`, in front of the buffer.
pub record IsFull (l : List Recv) (n : ℕ) (buf : List ℕ) (c : Conn) (rs : List Recv) : Type 0 where
  pub received : l ≡ rs ++ c.inbox
  pub front : take n buf ≡ stored rs
  pub amount : length (stored rs) ≡ n
  pub honest : AllHonest c.inbox

honest_amount :
    (r : Recv) (n : ℕ)
    → IsHonest r
    → n < 2 ^ 31
    → (as_u32 r.result == n) ≡ true
    → length r.stored ≡ n
honest_amount r n h small e = by_sign r.result refl
  where
    by_sign : (z : ℤ) → r.result ≡ z → length r.stored ≡ n
    by_sign (pos m) q =
        let same : (as_u32 (pos m) == n) ≡ true = subst (λ z. (as_u32 z == n) ≡ true) q e in
        ground (arith, h.count m q, same)
    by_sign (negsuc m) q =
        let same : (as_u32 (negsuc m) == n) ≡ true = subst (λ z. (as_u32 z == n) ≡ true) q e in
        absurd (ground (arith, h.failure m q, same))

receive-IsFull :
    (l : List Recv) (c : Conn) (buf : List ℕ) (n : ℕ)
    → c.inbox ≡ l
    → AllHonest l
    → n < 2 ^ 31
    → (as_u32 (receive l c buf n).0 == n) ≡ true
    → (rs : List Recv) × IsFull l n (receive l c buf n).1 (receive l c buf n).2 rs
unfolding stored
receive-IsFull [] c buf n e honest small h =
    let none : n ≡ 0 = ground arith in
    (
      [],
      record {
        received = sym e;
        front = rw none refl;
        amount = sym none;
        honest = subst AllHonest (sym e) tt;
      },
    )
receive-IsFull (r ∷ rs) c buf n e honest small h = (
  r ∷ [],
  record {
    received = refl;
    front =
        ap (λ bytes. take n (bytes ++ drop (length bytes) buf)) (take-all n r.stored (sym amount))
        ∙ take-append n r.stored (drop (length r.stored) buf) (sym amount)
        ∙ sym (append-nil r.stored);
    amount = ap length (append-nil r.stored) ∙ amount;
    honest = honest.1;
  },
)
  where
    amount : length r.stored ≡ n
    amount = honest_amount r n honest.0 small h

recv-IsFull :
    (c : Conn) (buf : List ℕ) (n : ℕ)
    → AllHonest c.inbox
    → n < 2 ^ 31
    → (as_u32 (recv c buf n).0 == n) ≡ true
    → (rs : List Recv) × IsFull c.inbox n (recv c buf n).1 (recv c buf n).2 rs
unfolding recv
recv-IsFull c buf n honest small h = receive-IsFull c.inbox c buf n refl honest small h

-- What a round leaves: the blocks stored, the loop ready again; or a failure, with the loop over.
pub record WriteProgress {D : Type 0} (view : D → ℕ → ℕ) (bs k : ℕ) (rs : List Recv)
    (s s' : Phase D) : Type 0 where
  pub stores : Stored view bs k rs s s'
  pub advanced : IsAdvanced bs k s s'
  pub no_error : s'.error ≡ s.error
  pub falls : (s'.sendflag ≡ 0) ⊎ (write_fuel s' < write_fuel s)

pub record WriteFailed {D : Type 0} (s' : Phase D) : Type 0 where
  pub over : s'.sendflag ≡ 0
  pub reported : s'.error ≢ 0

-- What every round keeps.
pub record WriteKeeps {D : Type 0} (s s' : Phase D) : Type 0 where
  pub ctx : s'.ctx ≡ s.ctx
  pub outbox : s'.conn.outbox ≡ s.conn.outbox

abbrev pub WriteRound : {D : Type 0} → (D → ℕ → ℕ) → ℕ → Phase D → Phase D → Type 0
WriteRound view bs s s' =
    WriteKeeps s s'
    × (((k : ℕ) × (rs : List Recv) × WriteProgress view bs k rs s s' × AllHonest s'.conn.inbox)
        ⊎ WriteFailed s')

module _ {D : Type 0} (view : D → ℕ → ℕ) (cfg : Config) (bs : ℕ) (p : Plugin D)
    (f : ℕ → List ℕ → ℕ → ℕ → ℕ → D → ℤ × D) (has : p.pwrite ≡ some f) (s c : Phase D)
    (connected : c.ctx.p ≡ some p) (disk : WritesTo view bs c.ctx.handle f) (v : IsReady bs s)
    (ch : IsChunk bs s c) where
  -- the state after a receive
  abbrev received : List ℕ → Conn → Phase D
  received buf conn = record c { nbd_buffer = buf; conn = conn }

  store_chunk-WriteRound :
      (rs : List Recv) (buf : List ℕ) (conn : Conn)
      → IsFull s.conn.inbox c.byteread buf conn rs
      → conn.outbox ≡ s.conn.outbox
      → Returns (store_chunk cfg bs (received buf conn)) (WriteRound view bs s)
  unfolding store_chunk advance
  store_chunk-WriteRound rs buf conn full same_out =
      rw
        (lwnbd_pwrite-done c.ctx.base (take c.byteread buf) c.bufblksz c.offset 0 c.dev connected
          has)
        (elim (Bool-cases (is_zero result.0)) [
          | inl ok ↦ rw ok (
            record { ctx = ch.same_world.0; outbox = same_out },
            inl (c.bufblksz, rs, progress ok, full.honest),
          )
          | inr bad ↦ rw bad (
            record { ctx = ch.same_world.0; outbox = same_out },
            inr (record { over = refl; reported = λ e. omega arith }),
          )
        ])
    where
      result : ℤ × D
      result = f c.ctx.handle (take c.byteread buf) c.bufblksz c.offset 0 c.dev

      chunk_length : length (take c.byteread buf) ≡ c.bufblksz * bs
      chunk_length = ap length full.front ∙ full.amount ∙ ch.exact

      s' : Phase D
      s' = record c { nbd_buffer = buf; conn = conn; dev = result.1 }

      progress : is_zero result.0 ≡ true → WriteProgress view bs c.bufblksz rs s (advance cfg s')
      progress ok = record {
        stores = record {
          within = ch.within;
          received = full.received;
          amount = full.amount ∙ ch.exact;
          bytes = cc (
            disk.writes (take c.byteread buf) c.bufblksz c.offset c.dev chunk_length ok,
            full.front,
            ch.same.1,
            ch.same_world.2,
          );
        };
        advanced = advance-IsAdvanced cfg bs s c s' v ch refl refl refl refl refl;
        no_error = ch.same_error;
        falls = ground arith;
      }

  recv-WriteRound :
      AllHonest s.conn.inbox
      → let (r, buf, conn) = recv c.conn c.nbd_buffer c.byteread in
        Returns
          (if as_u32 r == c.byteread
            then store_chunk cfg bs (received buf conn)
            else done (record (received buf conn) { error = Errno.overflow; sendflag = 0 }))
          (WriteRound view bs s)
  recv-WriteRound honest = elim (Bool-cases (as_u32 got.0 == c.byteread)) [
    | inl all ↦ rw all (
        let (rs, full) = recv-IsFull c.conn c.nbd_buffer c.byteread honest' (ground arith) all in
        store_chunk-WriteRound rs got.1 got.2
          (subst (λ (x : Conn). IsFull x.inbox c.byteread got.1 got.2 rs) ch.same_world.1 full) out)
    | inr short ↦ rw short (
      record { ctx = ch.same_world.0; outbox = out },
      inr (record { over = refl; reported = λ e. omega arith }),
    )
  ]
    where
      got : ℤ × List ℕ × Conn
      got = recv c.conn c.nbd_buffer c.byteread

      honest' : AllHonest c.conn.inbox
      honest' = subst (λ (x : Conn). AllHonest x.inbox) (sym ch.same_world.1) honest

      out : got.2.outbox ≡ s.conn.outbox
      out = recv-outbox c.conn c.nbd_buffer c.byteread ∙ ap (λ (x : Conn). x.outbox) ch.same_world.1

module _ {D : Type 0} (view : D → ℕ → ℕ) (cfg : Config) (bs : ℕ) (p : Plugin D)
    (f : ℕ → List ℕ → ℕ → ℕ → ℕ → D → ℤ × D) (has : p.pwrite ≡ some f) where
  pub write_round-WriteRound :
      (s : Phase D)
      → s.ctx.p ≡ some p
      → WritesTo view bs s.ctx.handle f
      → IsReady bs s
      → s.sendflag ≢ 0
      → AllHonest s.conn.inbox
      → Returns (write_round cfg bs s) (WriteRound view bs s)
  unfolding write_round
  write_round-WriteRound s hp disk v flag honest =
      recv-WriteRound view cfg bs p f has s c (ap (λ (x : NbdContext D). x.p) ch.same_world.0 ∙ hp)
        (subst (λ (x : NbdContext D). WritesTo view bs x.handle f) (sym ch.same_world.0) disk) v ch
        honest
    where
      c : Phase D
      c = last_chunk (clip bs s)

      ch : IsChunk bs s c
      ch = chunk_lem bs s flag v
