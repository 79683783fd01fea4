-- ===== src/Nbd/Ends/Writing.antt =====
-- The loop of NBD_CMD_WRITE (servers/nbd/protocol.c) ends, whatever flags the requests before it left.
use native.Mathlib.Nat.{le_refl}
use lw_nbd.Prelude.{
  ℕ, ℤ, zero, suc, ◌≤◌, ◌<◌, ◌≡◌, ◌⊎◌, inl, inr, refl, ap, List, length, Ends, Ends-weaken,
  Ends->>=, ◌==◌, ==_iff, Bool-cases, is_zero, as_u32, take, arith,
}
use lw_nbd.Conn.{Conn, recv, recv-shrinks, send-inbox}
use lw_nbd.Device.{lwnbd_pwrite-Ends}
use lw_nbd.Nbd.Ends.Pace.{IsPaced, IsDrained, IsCut, chunk-IsCut, accept-IsPaced}
use lw_nbd.Nbd.Phase.{Config, Phase, accept, past_end, clip, last_chunk, advance}
use lw_nbd.Nbd.Write.{admit_write, store_chunk, write_round, write_loop, write_fuel, write_request}
use lw_nbd.Nbd.Write.Loop.{write_loop-off, write_loop-on}
use lw_nbd.Nbd.Wire.{Request, simple_reply, has_flag, flag_read_only}

module _ {D : Type 0} (cfg : Config) (bs : ℕ) where
  -- What a round leaves to be done.
  record Goes (s s' : Phase D) : Type 0 where
    paced : IsPaced s'
    drained : IsDrained s s'
    nearer : (s'.sendflag ≡ 0) ⊎ (s'.blkremains < s.blkremains)

  store_chunk-Goes :
      (s c : Phase D) (buf : List ℕ) (conn : Conn)
      → IsCut s c
      → length conn.inbox ≤ length s.conn.inbox
      → Ends (store_chunk cfg bs (record c { nbd_buffer = buf; conn = conn })) (Goes s)
  unfolding store_chunk advance
  store_chunk-Goes s c buf conn cut drained =
      Ends->>= _ _ (λ _. Unit) (Goes s)
        (lwnbd_pwrite-Ends c.ctx.base (take c.byteread buf) c.bufblksz c.offset 0 c.dev)
        λ got _. elim (Bool-cases (is_zero got.0)) [
          | inl ok ↦ rw ok (record {
            paced = λ e. omega (arith, cut.paced e, e);
            drained = drained;
            nearer = elim cut.last [
              | inl off ↦ inl off
              | inr some_ ↦ inr (omega (arith, cut.within, cut.same.0))
            ];
          })
          | inr bad ↦ rw bad (record {
            paced = λ e. omega (arith, cut.paced e, e);
            drained = drained;
            nearer = inl refl;
          })
        ]

  write_round-Goes : (s : Phase D) → IsPaced s → Ends (write_round cfg bs s) (Goes s)
  unfolding write_round
  write_round-Goes s p = elim (Bool-cases (as_u32 got.0 == c.byteread)) [
    | inl all ↦ rw all (store_chunk-Goes s c got.1 got.2 cut shrinks)
    | inr short ↦ rw short (record { paced = cut.paced; drained = shrinks; nearer = inl refl })
  ]
    where
      c : Phase D
      c = last_chunk (clip bs s)

      cut : IsCut s c
      cut = chunk-IsCut bs s p

      got : ℤ × List ℕ × Conn
      got = recv c.conn c.nbd_buffer c.byteread

      shrinks : length got.2.inbox ≤ length s.conn.inbox
      shrinks = omega (
        arith,
        recv-shrinks c.conn c.nbd_buffer c.byteread,
        ap (λ (x : Conn). length x.inbox) cut.same.2,
      )

  abbrev pub Ended : Phase D → Phase D → Type 0
  Ended s s' = IsPaced s' × IsDrained s s'

  write_loop-Ended :
      (fuel : ℕ) (s : Phase D)
      → IsPaced s
      → ((s.sendflag ≡ 0) × (0 < fuel)) ⊎ (write_fuel s ≤ fuel)
      → Ends (write_loop cfg bs fuel s) (Ended s)
  write_loop-Ended zero s p enough = absurd (omega arith)
  write_loop-Ended (suc fuel) s p enough = elim (Bool-cases (s.sendflag == 0)) [
    | inl off ↦ rw (write_loop-off cfg bs fuel s ((==_iff s.sendflag 0).0 off)) (p, omega arith)
    | inr on ↦ rw (write_loop-on cfg bs fuel s on) (
        Ends->>= (write_round cfg bs s) _ (Goes s) (Ended s) (write_round-Goes s p) λ s' g.
          Ends-weaken (write_loop cfg bs fuel s') (λ s'' e. (e.0, omega (arith, e.1, g.drained)))
            (write_loop-Ended fuel s' g.paced (ground (arith, g.nearer))))
  ]

  admit_write-Ended :
      (req : Request) (s : Phase D)
      → bs ≤ cfg.nbd_buffer_len
      → IsPaced s
      → Ends (admit_write cfg bs req s) (λ s₁. IsPaced s₁ × (s₁.conn ≡ s.conn))
  unfolding admit_write
  admit_write-Ended req s fits p = elim (Bool-cases (has_flag flag_read_only s.ctx.eflags)) [
    | inl ro ↦ rw ro (p, refl)
    | inr rw_ ↦ rw rw_ (elim (Bool-cases (past_end s.ctx req)) [
      | inl past ↦ rw past (p, refl)
      | inr within ↦ rw within (
          Ends-weaken (accept cfg bs req s) (λ s₁ q. (q.0, q.1)) (accept-IsPaced cfg bs req s fits))
    ])
  ]

  -- A WRITE, refused or served, keeps the pace and takes from the script only.
  pub write_request-Ended :
      (req : Request) (s : Phase D)
      → bs ≤ cfg.nbd_buffer_len
      → IsPaced s
      → Ends (write_request cfg bs req s) (Ended s)
  unfolding write_request
  write_request-Ended req s fits p =
      Ends->>= (admit_write cfg bs req s) _ (λ s₁. IsPaced s₁ × (s₁.conn ≡ s.conn)) (Ended s)
        (admit_write-Ended req s fits p)
        λ s₁ q.
          Ends->>= (write_loop cfg bs (write_fuel s₁) s₁) _ (Ended s₁) (Ended s)
            (write_loop-Ended (write_fuel s₁) s₁ q.0 (inr (le_refl _)))
            λ s₂ e. (
              e.0,
              omega (
                arith,
                e.1,
                ap length (send-inbox s₂.conn (simple_reply s₂.error req.handle) 0),
                ap (λ (x : Conn). length x.inbox) q.1,
              ),
            )
