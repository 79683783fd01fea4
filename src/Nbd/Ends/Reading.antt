-- ===== src/Nbd/Ends/Reading.antt =====
-- The loop of NBD_CMD_READ (servers/nbd/protocol.c) ends, whatever flags the requests before it left.
use lw_nbd.Prelude.{
  mul_le, ℕ, zero, suc, ◌+◌, ◌-◌, ◌*◌, ◌^◌, ◌≤◌, ◌<◌, ◌≡◌, ◌⊎◌, inl, inr, refl, ap, ◌∙◌, List, Ends,
  Ends-weaken, Ends->>=, ◌==◌, Bool-cases, done, if◌then◌else◌, is_zero, as_u32, take, arith,
}
use native.Mathlib.Nat.{le_refl}
use lw_nbd.Conn.{Conn, send, send-inbox}
use lw_nbd.Device.{lwnbd_pread-Ends}
use lw_nbd.Nbd.Ends.Pace.{IsPaced, IsCut, chunk-IsCut, accept-IsPaced}
use lw_nbd.Nbd.Errno
use lw_nbd.Nbd.Phase.{Config, Phase, accept, past_end, clip, last_chunk, advance, u32}
use lw_nbd.Nbd.Read.{
  Round, again, send_failed, gave_up, ReadEnd, broken, exhausted, send_chunk, retry_chunk,
  read_round, read_loop, read_fuel, read_request,
}
use lw_nbd.Nbd.Read.Loop.{read_loop-off, read_loop-on}
use lw_nbd.Nbd.Wire.{Request, simple_reply}

-- A chunk of one block or more brings the loop nearer to its end, though the retries start again.
fewer_blocks : (b k m r : ℕ) → 0 < k → k ≤ b → u32 (b + 2 ^ 32 - k) * (m + 1) + m < b * (m + 1) + r
fewer_blocks b k m r some_ le = omega (arith, product)
  where
    product : (u32 (b + 2 ^ 32 - k) + 1) * (m + 1) ≤ b * (m + 1)
    product = mul_le (u32 (b + 2 ^ 32 - k) + 1) b (m + 1) (omega arith)

module _ {D : Type 0} (cfg : Config) (bs : ℕ) where
  -- What a round leaves to be done.
  record Goes (s : Phase D) (rs : Round × Phase D) : Type 0 where
    paced : IsPaced rs.1
    inbox : rs.1.conn.inbox ≡ s.conn.inbox
    nearer : rs.0 ≡ again → (rs.1.sendflag ≡ 0) ⊎ (read_fuel cfg bs rs.1 < read_fuel cfg bs s)

  send_chunk-Goes :
      (s c : Phase D) (buf : List ℕ) (dev : D)
      → IsCut s c
      → Goes s (send_chunk cfg bs (record c { nbd_buffer = buf; dev = dev }))
  unfolding send_chunk advance
  send_chunk-Goes s c buf dev cut =
      elim (Bool-cases (as_u32 (send c.conn (take c.byteread buf) c.sendflag).0 == c.byteread)) [
        | inl all ↦ rw all (record {
          paced = λ e. omega (arith, cut.paced e, e);
          inbox = send-inbox c.conn _ _ ∙ ap (λ (x : Conn). x.inbox) cut.same.2;
          nearer = λ _. elim cut.last [
            | inl off ↦ inl off
            | inr some_ ↦ inr (
                omega (
                  arith,
                  fewer_blocks c.blkremains c.bufblksz cfg.max_retries s.retry some_
                      (omega (arith, cut.within, cut.same.0)),
                  ap (λ k. k * (cfg.max_retries + 1)) cut.same.0,
                ))
          ];
        })
        | inr short ↦ rw short (record {
          paced = cut.paced;
          inbox = send-inbox c.conn _ _ ∙ ap (λ (x : Conn). x.inbox) cut.same.2;
          nearer = λ e. cc;
        })
      ]

  retry_chunk-Goes :
      (s c : Phase D) (buf : List ℕ) (dev : D)
      → IsCut s c
      → Goes s (retry_chunk cfg bs (record c { nbd_buffer = buf; dev = dev }))
  unfolding retry_chunk
  retry_chunk-Goes s c buf dev cut = elim (Bool-cases (c.retry == 0)) [
    | inl out ↦ rw out (record {
      paced = cut.paced;
      inbox = ap (λ (x : Conn). x.inbox) cut.same.2;
      nearer = λ e. cc;
    })
    | inr left ↦ rw left (record {
      paced = cut.paced;
      inbox = ap (λ (x : Conn). x.inbox) cut.same.2;
      nearer =
          λ _. inr (ground (arith, cut.same.1, ap (λ k. k * (cfg.max_retries + 1)) cut.same.0));
    })
  ]

  read_round-Goes : (s : Phase D) → IsPaced s → Ends (read_round cfg bs s) (Goes s)
  unfolding read_round
  read_round-Goes s p =
      Ends->>= _ _ (λ _. Unit) (Goes s)
        (lwnbd_pread-Ends c.ctx.base c.nbd_buffer c.bufblksz c.offset 0 c.dev)
        λ got _. elim (Bool-cases (is_zero got.0)) [
          | inl ok ↦ rw ok (send_chunk-Goes s c got.1 got.2 (chunk-IsCut bs s p))
          | inr bad ↦ rw bad (retry_chunk-Goes s c got.1 got.2 (chunk-IsCut bs s p))
        ]
    where
      c : Phase D
      c = last_chunk (clip bs s)

  -- What the loop leaves: the pace, and every receive for what comes after it.
  abbrev pub Ended : Phase D → ReadEnd × Phase D → Type 0
  Ended s es = IsPaced es.1 × (es.1.conn.inbox ≡ s.conn.inbox)

  next_round :
      (fuel : ℕ) (s : Phase D) (rs : Round × Phase D)
      → Goes s rs
      → (rs.0 ≡ again → Ends (read_loop cfg bs fuel rs.1) (Ended rs.1))
      → Ends
          (elim rs.0 [
            | again ↦ read_loop cfg bs fuel rs.1
            | send_failed ↦ done (broken, rs.1)
            | gave_up ↦ done (exhausted, rs.1)
          ])
          (Ended s)
  next_round fuel s (again, s') g later =
      Ends-weaken (read_loop cfg bs fuel s') (λ es e. (e.0, e.1 ∙ g.inbox)) (later refl)
  next_round fuel s (send_failed, s') g later = (g.paced, g.inbox)
  next_round fuel s (gave_up, s') g later = (g.paced, g.inbox)

  pub read_loop-Ended :
      (fuel : ℕ) (s : Phase D)
      → IsPaced s
      → ((s.sendflag ≡ 0) × (0 < fuel)) ⊎ (read_fuel cfg bs s ≤ fuel)
      → Ends (read_loop cfg bs fuel s) (Ended s)
  read_loop-Ended zero s p enough = absurd (omega arith)
  read_loop-Ended (suc fuel) s p enough = elim (Bool-cases (s.sendflag == 0)) [
    | inl off ↦ rw (read_loop-off cfg bs fuel s off) (p, refl)
    | inr on ↦ rw (read_loop-on cfg bs fuel s on) (
        Ends->>= (read_round cfg bs s) _ (Goes s) (Ended s) (read_round-Goes s p) λ rs g.
          next_round fuel s rs g
            λ e. read_loop-Ended fuel rs.1 g.paced (ground (arith, g.nearer e)))
  ]

  -- A READ, refused or served, keeps the pace and leaves the script as it is.
  pub read_request-Ended :
      (req : Request) (s : Phase D)
      → bs ≤ cfg.nbd_buffer_len
      → IsPaced s
      → Ends (read_request cfg bs req s) (Ended s)
  unfolding read_request
  read_request-Ended req s fits p =
      Ends->>= _ _ (λ s₁. IsPaced s₁ × (s₁.conn ≡ s.conn)) (Ended s) admitted
        λ s₁ q.
          let s₂ = record s₁ {
            conn = (send s₁.conn (simple_reply s₁.error req.handle) s₁.sendflag).1;
          } in
          Ends-weaken (read_loop cfg bs (read_fuel cfg bs s₂) s₂)
            (λ es e. (e.0, e.1 ∙ send-inbox s₁.conn _ s₁.sendflag ∙ ap (λ (x : Conn). x.inbox) q.1))
            (read_loop-Ended (read_fuel cfg bs s₂) s₂ q.0 (inr (le_refl _)))
    where
      admitted :
          Ends
            (if past_end s.ctx req
              then done (record s { error = Errno.io })
              else accept cfg bs req s)
            (λ s₁. IsPaced s₁ × (s₁.conn ≡ s.conn))
      admitted = elim (Bool-cases (past_end s.ctx req)) [
        | inl past ↦ rw past (p, refl)
        | inr within ↦ rw within (
            Ends-weaken (accept cfg bs req s) (λ s₁ q. (q.0, q.1))
              (accept-IsPaced cfg bs req s fits))
      ]
