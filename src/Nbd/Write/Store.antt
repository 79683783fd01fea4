-- ===== src/Nbd/Write/Store.antt =====
-- What the loop of NBD_CMD_WRITE stores, and that it ends.
use lw_nbd.Prelude.{
  ℕ, ℤ, zero, suc, ◌+◌, ◌*◌, ◌≤◌, ◌<◌, ◌≡◌, ◌⊎◌, refl, sym, ap, subst, ◌∙◌, inl, inr, List, [],
  ◌++◌, append_assoc, some, length, length-append, Returns, Returns-weaken, Returns->>=, Bool-cases,
  ◌==◌, ==_iff, arith,
}
use lw_nbd.Plugin.{Plugin}
use lw_nbd.Conn.{Recv}
use lw_nbd.Nbd.Context.{NbdContext}
use lw_nbd.Nbd.Phase.{Config, Phase}
use lw_nbd.Nbd.Phase.Chunk.{IsReady}
use lw_nbd.Nbd.Write.{write_round, write_loop, write_fuel}
use lw_nbd.Nbd.Medium.{patch-nil, patch-append, stored, stored-append, WritesTo}
use lw_nbd.Nbd.Write.Loop.{write_loop-off, write_loop-on}
use lw_nbd.Nbd.Write.Chunk.{
  AllHonest, Stored, WriteProgress, WriteFailed, WriteKeeps, WriteRound, write_round-WriteRound,
}

-- What the loop leaves: if it reports no error, all that remained has come in and is stored.
pub record WriteSpec {D : Type 0} (view : D → ℕ → ℕ) (bs : ℕ) (s s' : Phase D) : Type 0 where
  pub keeps : WriteKeeps s s'
  pub over : s'.sendflag ≡ 0
  pub all : s'.error ≡ 0 → (rs : List Recv) × Stored view bs s.blkremains rs s s'

module _ {D : Type 0} (view : D → ℕ → ℕ) (cfg : Config) (bs : ℕ) where
  Stored-none : (s : Phase D) → Stored view bs 0 [] s s
  unfolding stored
  Stored-none s = record {
    within = omega arith;
    received = refl;
    amount = omega arith;
    bytes = sym (patch-nil (view s.dev) (s.offset * bs));
  }

  Stored-trans :
      {k n : ℕ} {rs qs : List Recv} {s s' s'' : Phase D}
      → WriteProgress view bs k rs s s'
      → Stored view bs n qs s' s''
      → Stored view bs (k + n) (rs ++ qs) s s''
  Stored-trans {k} {n} {rs} {qs} {s} {s'} {s''} pr st = record {
    within = omega arith;
    received =
        pr.stores.received
        ∙ ap (λ l. rs ++ l) st.received
        ∙ sym (append_assoc rs qs s''.conn.inbox);
    amount = ap length (stored-append rs qs) ∙ length-append (stored rs) (stored qs) ∙ omega arith;
    bytes = cc (
      st.bytes,
      pr.stores.bytes,
      next_address,
      stored-append rs qs,
      patch-append (view s.dev) (s.offset * bs) (stored rs) (stored qs),
    );
  }
    where
      next_address : s'.offset * bs ≡ s.offset * bs + length (stored rs)
      next_address = omega (arith, ap (λ (t : ℕ). t * bs) pr.advanced.moved.0, pr.stores.amount)

  -- A failure ends the loop at the next test.
  WriteFailed-WriteSpec :
      (fuel : ℕ) (s s' : Phase D)
      → WriteKeeps s s'
      → WriteFailed s'
      → 0 < fuel
      → Returns (write_loop cfg bs fuel s') (WriteSpec view bs s)
  WriteFailed-WriteSpec zero s s' keeps failed h = absurd (omega arith)
  WriteFailed-WriteSpec (suc fuel) s s' keeps failed h =
      rw (write_loop-off cfg bs fuel s' failed.over)
        (record { keeps = keeps; over = failed.over; all = λ e. absurd (failed.reported e) })

  -- A round and the rest of the loop.
  WriteSpec-trans :
      (k : ℕ) (rs : List Recv) (s s' s'' : Phase D)
      → WriteKeeps s s'
      → WriteProgress view bs k rs s s'
      → WriteSpec view bs s' s''
      → WriteSpec view bs s s''
  WriteSpec-trans k rs s s' s'' keeps pr spec = record {
    keeps = record { ctx = spec.keeps.ctx ∙ keeps.ctx; outbox = spec.keeps.outbox ∙ keeps.outbox };
    over = spec.over;
    all = λ e.
        let (qs, st) = spec.all e in
        (
          rs ++ qs,
          subst (λ n. Stored view bs n (rs ++ qs) s s'') (omega arith) (Stored-trans pr st),
        );
  }

  module _ (p : Plugin D) (f : ℕ → List ℕ → ℕ → ℕ → ℕ → D → ℤ × D) (has : p.pwrite ≡ some f) where
    pub write_loop-WriteSpec :
        (fuel : ℕ) (s : Phase D)
        → s.ctx.p ≡ some p
        → WritesTo view bs s.ctx.handle f
        → IsReady bs s
        → AllHonest s.conn.inbox
        → ((s.sendflag ≡ 0) × (0 < fuel)) ⊎ (write_fuel s ≤ fuel)
        → Returns (write_loop cfg bs fuel s) (WriteSpec view bs s)
    write_loop-WriteSpec zero s hp disk v honest enough = absurd (omega arith)
    write_loop-WriteSpec (suc fuel) s hp disk v honest enough =
        elim (Bool-cases (s.sendflag == 0)) [
          | inl off ↦
              let z : s.sendflag ≡ 0 = (==_iff s.sendflag 0).0 off in
              rw (write_loop-off cfg bs fuel s z) (record {
                keeps = record { ctx = refl; outbox = refl };
                over = z;
                all = λ _.
                    ([], subst (λ n. Stored view bs n [] s s) (sym (v.ended z)) (Stored-none s));
              })
          | inr on ↦ rw (write_loop-on cfg bs fuel s on) (
              Returns->>= (write_round cfg bs s) _ (WriteRound view bs s) (WriteSpec view bs s)
                (write_round-WriteRound view cfg bs p f has s hp disk v (ground arith) honest)
                λ s' spec. elim spec.1 [
                  | inr failed ↦ WriteFailed-WriteSpec fuel s s' spec.0 failed (ground arith)
                  | inl (k, rs, pr, honest') ↦
                      Returns-weaken (write_loop cfg bs fuel s')
                        (λ s''. WriteSpec-trans k rs s s' s'' spec.0 pr)
                        (write_loop-WriteSpec fuel s'
                          (ap (λ (x : NbdContext D). x.p) spec.0.ctx ∙ hp)
                          (subst (λ (x : NbdContext D). WritesTo view bs x.handle f)
                            (sym spec.0.ctx) disk)
                          pr.advanced.ready honest' (ground arith))
                ])
        ]
