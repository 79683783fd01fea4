-- ===== src/Nbd/Read/Chunk.antt =====
-- One round of the loop of NBD_CMD_READ.
use mathlib.Core.Logic.{◌⊎◌}
use lw_nbd.Prelude.{
  ℕ, ℤ, ◌+◌, ◌*◌, ◌≤◌, ◌<◌, ◌≡◌, ◌≢◌, refl, inl, inr, false, List, ◌++◌, [], ◌∷◌, sym, ap, subst,
  pos, length, ◌∙◌, append-nil, take, Bool-cases, as_u32, ◌==◌, arith,
}
use native.Mathlib.Nat.{zero-mul}
use lw_nbd.Conn.{Conn, send, acks-send, send-all}
use lw_nbd.Nbd.Phase.Chunk.{IsReady, IsChunk, IsAdvanced, mul_mono, advance-IsAdvanced}
use lw_nbd.Nbd.Phase.{Config, Phase, advance}
use lw_nbd.Nbd.Read.{Round, again, send_failed, gave_up, send_chunk, retry_chunk, read_fuel}
use lw_nbd.Nbd.Medium.{span, payload, payload-send, span-zero, length-span}

-- The bound on the rounds falls with the blocks, whatever the retries are set to.
pub fuel_falls :
    (k b b' m t f : ℕ)
    → b' + k ≡ b
    → (0 < k) ⊎ (b ≡ 0)
    → (k ≡ b → f ≡ 0)
    → (f ≡ 0) ⊎ (b' * (m + 1) + m + 2 < b * (m + 1) + t + 2)
fuel_falls k b b' m t f e p z = ground (arith, mul_mono (b' + 1) b (m + 1))

-- What a round leaves: the loop may go on, or it has stopped. `k` blocks have gone out.
pub record Sent {D : Type 0} (view : D → ℕ → ℕ) (blocksize k : ℕ) (s s' : Phase D) : Type 0 where
  pub within : k ≤ s.blkremains
  pub bytes :
      payload s'.conn.outbox
      ≡ payload s.conn.outbox ++ span (view s.dev) (s.offset * blocksize) (k * blocksize)
  pub same_ctx : s'.ctx ≡ s.ctx
  pub same_inbox : s'.conn.inbox ≡ s.conn.inbox
  pub acked : s.conn.acks ≡ [] → s'.conn.acks ≡ []

pub record Progress {D : Type 0} (view : D → ℕ → ℕ) (cfg : Config) (blocksize k : ℕ)
    (s s' : Phase D) : Type 0 where
  pub sent : Sent view blocksize k s s'
  pub advanced : IsAdvanced blocksize k s s'
  pub same : (s'.ctx ≡ s.ctx) × (view s'.dev ≡ view s.dev)
  pub falls : (s'.sendflag ≡ 0) ⊎ (read_fuel cfg blocksize s' < read_fuel cfg blocksize s)

abbrev pub RoundSpec :
    {D : Type 0} → (D → ℕ → ℕ) → Type 0 → Config → ℕ → Phase D → Round × Phase D → Type 0
RoundSpec view fails cfg bs s (again, s') = (k : ℕ) × Progress view cfg bs k s s'
RoundSpec view fails cfg bs s (send_failed, s') = (k : ℕ) × Sent view bs k s s' × (s.conn.acks ≢ [])
RoundSpec view fails cfg bs s (gave_up, s') = (k : ℕ) × Sent view bs k s s' × fails

module _ {D : Type 0} (view : D → ℕ → ℕ) (bs : ℕ) {s : Phase D} where
  pub Sent-none : (s' : Phase D) → s'.ctx ≡ s.ctx → s'.conn ≡ s.conn → Sent view bs 0 s s'
  Sent-none s' ec e = record {
    within = omega arith;
    bytes = rw (zero-mul, span-zero, append-nil) (ap (λ (c : Conn). payload c.outbox) e);
    same_ctx = ec;
    same_inbox = ap (λ (c : Conn). c.inbox) e;
    acked = λ h. ap (λ (c : Conn). c.acks) e ∙ h;
  }

  -- A packet with the chunk's blocks has gone out.
  pub Sent-chunk :
      (c : Phase D) (buf : List ℕ) (s' : Phase D) (flags : ℕ)
      → IsChunk bs s c
      → take (c.bufblksz * bs) buf ≡ span (view c.dev) (c.offset * bs) (c.bufblksz * bs)
      → s'.conn.outbox
        ≡ c.conn.outbox ++ (record { bytes = take c.byteread buf; flags = flags } ∷ [])
      → s'.ctx ≡ c.ctx
      → s'.conn.inbox ≡ c.conn.inbox
      → (c.conn.acks ≡ [] → s'.conn.acks ≡ [])
      → Sent view bs c.bufblksz s s'
  Sent-chunk c buf s' flags ch h e ec ei ea = record {
    within = ch.within;
    bytes = cc (
      payload-send c.conn.outbox (record { bytes = take c.byteread buf; flags = flags }),
      ch.exact,
      ch.same.1,
      ch.same_world.1,
      ch.same_world.2,
      e,
      h,
    );
    same_ctx = ec ∙ ch.same_world.0;
    same_inbox = ei ∙ ap (λ (x : Conn). x.inbox) ch.same_world.1;
    acked = λ q. ea (ap (λ (x : Conn). x.acks) ch.same_world.1 ∙ q);
  }

module _ {D : Type 0} (view : D → ℕ → ℕ) (fails : Type 0) (cfg : Config) (bs : ℕ) (s c : Phase D)
    (flag : s.sendflag ≢ 0) (v : IsReady bs s) (ch : IsChunk bs s c) (buf : List ℕ) (dev : D)
    (kept : view dev ≡ view c.dev) where
  same_view : view dev ≡ view s.dev
  same_view = kept ∙ ap view ch.same_world.2

  -- After a chunk that went through the loop is ready again, and nearer to its end.
  advance-Progress :
      (s' : Phase D)
      → Sent view bs c.bufblksz s (advance cfg s')
      → s'.bufblksz ≡ c.bufblksz
      → s'.byteread ≡ c.byteread
      → s'.blkremains ≡ c.blkremains
      → s'.offset ≡ c.offset
      → s'.sendflag ≡ c.sendflag
      → s'.ctx ≡ c.ctx
      → s'.dev ≡ dev
      → Progress view cfg bs c.bufblksz s (advance cfg s')
  unfolding advance
  advance-Progress s' sent eb ey er eo ef ec ed = record {
    sent = sent;
    advanced = advance-IsAdvanced cfg bs s c s' v ch eb ey er eo ef;
    same = (ec ∙ ch.same_world.0, ap view ed ∙ same_view);
    falls =
        fuel_falls c.bufblksz s.blkremains (advance cfg s').blkremains cfg.max_retries s.retry
          s'.sendflag (ground arith) ch.progress (λ e. ef ∙ ch.flagged e);
  }

  -- Past the end of the script a send takes all its bytes.
  not-short :
      take (c.bufblksz * bs) buf ≡ span (view c.dev) (c.offset * bs) (c.bufblksz * bs)
      → s.conn.acks ≡ []
      → ¬ ((as_u32 (send c.conn (take c.byteread buf) c.sendflag).0 == c.byteread) ≡ false)
  not-short h none short =
      let got : (send c.conn (take c.byteread buf) c.sendflag).0 ≡ pos c.byteread =
        send-all c.conn (take c.byteread buf) c.sendflag
          (ap (λ (x : Conn). x.acks) ch.same_world.1 ∙ none)
        ∙ ap (λ n. pos n) sent_length in
      let e : (as_u32 (pos c.byteread) == c.byteread) ≡ false =
        subst (λ z. (as_u32 z == c.byteread) ≡ false) got short in
      absurd (ground arith)
    where
      sent_length : length (take c.byteread buf) ≡ c.byteread
      sent_length =
          ap (λ n. length (take n buf)) ch.exact
          ∙ ap length h
          ∙ length-span (view c.dev) (c.offset * bs) (c.bufblksz * bs)
          ∙ sym ch.exact

  pub send_chunk-RoundSpec :
      take (c.bufblksz * bs) buf ≡ span (view c.dev) (c.offset * bs) (c.bufblksz * bs)
      → RoundSpec view fails cfg bs s (send_chunk cfg bs (record c { nbd_buffer = buf; dev = dev }))
  unfolding send_chunk send advance
  send_chunk-RoundSpec h = elim (Bool-cases (as_u32 sent.0 == c.byteread)) [
    | inl went ↦ rw went (
      c.bufblksz,
      advance-Progress (record c { nbd_buffer = buf; dev = dev; conn = sent.1 })
          (Sent-chunk view bs c buf _ c.sendflag ch h refl refl refl
            (acks-send c.conn _ c.sendflag))
          refl refl refl refl refl refl refl,
    )
    | inr short ↦ rw short (
      c.bufblksz,
      Sent-chunk view bs c buf _ c.sendflag ch h refl refl refl (acks-send c.conn _ c.sendflag),
      λ none. not-short h none short,
    )
  ]
    where
      sent : ℤ × Conn
      sent = send c.conn (take c.byteread buf) c.sendflag

  pub retry_chunk-RoundSpec :
      fails
      → RoundSpec view fails cfg bs s
          (retry_chunk cfg bs (record c { nbd_buffer = buf; dev = dev }))
  unfolding retry_chunk
  retry_chunk-RoundSpec why = elim (Bool-cases (c.retry == 0)) [
    | inl out ↦ rw out (0, Sent-none view bs _ ch.same_world.0 ch.same_world.1, why)
    | inr left ↦ rw left (
      0,
      record {
        sent = Sent-none view bs _ ch.same_world.0 ch.same_world.1;
        advanced = record { ready = ground arith; moved = ground arith };
        same = (ch.same_world.0, same_view);
        falls = ground arith;
      },
    )
  ]
