-- ===== src/Nbd/Read/Serve.antt =====
-- What the loop of NBD_CMD_READ sends, and that it ends.
use mathlib.Core.Logic.{◌⊎◌}
use lw_nbd.Prelude.{
  [], not_both, ℕ, ℤ, zero, suc, ◌+◌, ◌*◌, ◌≤◌, ◌<◌, ◌≡◌, ◌≢◌, refl, sym, ap, subst, ◌∙◌, inl, inr,
  List, append_assoc, some, done, Returns, Returns-weaken, Returns->>=, Bool-cases, is_zero, ◌==◌,
  ==_iff, arith,
}
use lw_nbd.Device.{lwnbd_pread-done}
use lw_nbd.Plugin.{Plugin}
use lw_nbd.Nbd.Context.{NbdContext}
use lw_nbd.Nbd.Phase.{Config, Phase, clip, last_chunk}
use lw_nbd.Nbd.Read.{
  Round, again, send_failed, gave_up, ReadEnd, finished, broken, exhausted, read_round, read_loop,
  read_fuel,
}
use lw_nbd.Nbd.Medium.{span, payload, span-add, ReadsFrom, AlwaysReads}
use lw_nbd.Nbd.Read.Loop.{read_loop-off, read_loop-on}
use lw_nbd.Nbd.Phase.Chunk.{IsReady, IsChunk, chunk_lem}
use lw_nbd.Nbd.Read.Chunk.{
  Sent, Sent-none, Progress, RoundSpec, send_chunk-RoundSpec, retry_chunk-RoundSpec,
}

abbrev pub ReadSpec : {D : Type 0} → (D → ℕ → ℕ) → Type 0 → ℕ → Phase D → ReadEnd × Phase D → Type 0
ReadSpec view fails bs s (end, s') =
    (k : ℕ) × Sent view bs k s s'
    × (end ≡ finished → (k ≡ s.blkremains) × (s'.sendflag ≡ 0))
    × (end ≡ broken → s.conn.acks ≢ [])
    × (end ≡ exhausted → fails)

module _ {D : Type 0} (view : D → ℕ → ℕ) (cfg : Config) (bs : ℕ) (p : Plugin D)
    (f : ℕ → List ℕ → ℕ → ℕ → ℕ → D → ℤ × List ℕ × D) (has : p.pread ≡ some f) where
  -- the plugin has failed a call
  abbrev pub Fails : Phase D → Type 0
  Fails s = ¬ AlwaysReads s.ctx.handle f

  read_round-RoundSpec :
      (s : Phase D)
      → s.ctx.p ≡ some p
      → ReadsFrom view bs s.ctx.handle f
      → IsReady bs s
      → s.sendflag ≢ 0
      → Returns (read_round cfg bs s) (RoundSpec view (Fails s) cfg bs s)
  unfolding read_round
  read_round-RoundSpec s hp disk v flag =
      rw (lwnbd_pread-done c.ctx.base c.nbd_buffer c.bufblksz c.offset 0 c.dev hp' has)
        (elim (Bool-cases (is_zero result.0)) [
          | inl ok ↦ rw ok (
              send_chunk-RoundSpec view (Fails s) cfg bs s c flag v ch result.1 result.2
                (disk'.keeps c.nbd_buffer c.bufblksz c.offset c.dev)
                (disk'.reads c.nbd_buffer c.bufblksz c.offset c.dev ok))
          | inr bad ↦ rw bad (
              retry_chunk-RoundSpec view (Fails s) cfg bs s c flag v ch result.1 result.2
                (disk'.keeps c.nbd_buffer c.bufblksz c.offset c.dev)
                (λ all. not_both (all' all c.nbd_buffer c.bufblksz c.offset c.dev) bad))
        ])
    where
      c : Phase D
      c = last_chunk (clip bs s)

      ch : IsChunk bs s c
      ch = chunk_lem bs s flag v

      hp' : c.ctx.p ≡ some p
      hp' = ap (λ (x : NbdContext D). x.p) ch.same_world.0 ∙ hp

      disk' : ReadsFrom view bs c.ctx.handle f
      disk' = subst (λ (x : NbdContext D). ReadsFrom view bs x.handle f) (sym ch.same_world.0) disk

      all' : AlwaysReads s.ctx.handle f → AlwaysReads c.ctx.handle f
      all' all = subst (λ (x : NbdContext D). AlwaysReads x.handle f) (sym ch.same_world.0) all

      result : ℤ × List ℕ × D
      result = f c.ctx.handle c.nbd_buffer c.bufblksz c.offset 0 c.dev

  -- Later blocks follow the earlier ones in what has been sent.
  Sent-trans :
      (k n : ℕ) (s s' s'' : Phase D)
      → Progress view cfg bs k s s'
      → Sent view bs n s' s''
      → Sent view bs (k + n) s s''
  Sent-trans k n s s' s'' pr st = record {
    within = omega arith;
    bytes = cc (
      st.bytes,
      pr.sent.bytes,
      pr.same.1,
      next_address,
      length_sum,
      span-add (view s.dev) (s.offset * bs) (k * bs) (n * bs),
      append_assoc (payload s.conn.outbox) (span (view s.dev) (s.offset * bs) (k * bs))
          (span (view s.dev) (s.offset * bs + k * bs) (n * bs)),
    );
    same_ctx = st.same_ctx ∙ pr.sent.same_ctx;
    same_inbox = st.same_inbox ∙ pr.sent.same_inbox;
    acked = λ e. st.acked (pr.sent.acked e);
  }
    where
      next_address : s'.offset * bs ≡ s.offset * bs + k * bs
      next_address = omega (arith, ap (λ (t : ℕ). t * bs) pr.advanced.moved.0)

      length_sum : (k + n) * bs ≡ k * bs + n * bs
      length_sum = omega arith

  RoundSpec-ReadSpec :
      (fuel : ℕ) (s : Phase D) (rs : Round × Phase D)
      → RoundSpec view (Fails s) cfg bs s rs
      → ((s' : Phase D) (k : ℕ)
          → Progress view cfg bs k s s'
          → Returns (read_loop cfg bs fuel s') (ReadSpec view (Fails s') bs s'))
      → Returns
          (elim rs.0 [
            | again ↦ read_loop cfg bs fuel rs.1
            | send_failed ↦ done (broken, rs.1)
            | gave_up ↦ done (exhausted, rs.1)
          ])
          (ReadSpec view (Fails s) bs s)
  RoundSpec-ReadSpec fuel s (again, s') (k, pr) later =
      Returns-weaken (read_loop cfg bs fuel s')
        (λ es sp. (
          k + sp.0,
          Sent-trans k sp.0 s s' es.1 pr sp.1,
          λ fin. (omega (arith, (sp.2 fin).0), (sp.2 fin).1),
          λ cut none. sp.3 cut (pr.sent.acked none),
          λ out all.
              sp.4 out (subst (λ (x : NbdContext D). AlwaysReads x.handle f) (sym pr.same.0) all),
        ))
        (later s' k pr)
  RoundSpec-ReadSpec fuel s (send_failed, s') (k, st, cut) later =
      (k, st, λ e. cc, λ _. cut, λ e. cc)
  RoundSpec-ReadSpec fuel s (gave_up, s') (k, st, out) later = (k, st, λ e. cc, λ e. cc, λ _. out)

  -- `fuel` counts the rounds that may still be made.
  pub read_loop-ReadSpec :
      (fuel : ℕ) (s : Phase D)
      → s.ctx.p ≡ some p
      → ReadsFrom view bs s.ctx.handle f
      → IsReady bs s
      → ((s.sendflag ≡ 0) × (0 < fuel)) ⊎ (read_fuel cfg bs s ≤ fuel)
      → Returns (read_loop cfg bs fuel s) (ReadSpec view (Fails s) bs s)
  read_loop-ReadSpec zero s hp disk v enough = absurd (omega arith)
  read_loop-ReadSpec (suc fuel) s hp disk v enough = elim (Bool-cases (s.sendflag == 0)) [
    | inl off ↦ rw (read_loop-off cfg bs fuel s off) (
        let z : s.sendflag ≡ 0 = (==_iff s.sendflag 0).0 off in
        (0, Sent-none view bs s refl refl, λ _. (sym (v.ended z), z), λ e. cc, λ e. cc))
    | inr on ↦ rw (read_loop-on cfg bs fuel s on) (
        Returns->>= (read_round cfg bs s) _ (RoundSpec view (Fails s) cfg bs s)
          (ReadSpec view (Fails s) bs s) (read_round-RoundSpec s hp disk v (ground arith))
          λ rs spec. RoundSpec-ReadSpec fuel s rs spec λ s' k pr.
            read_loop-ReadSpec fuel s' (ap (λ (x : NbdContext D). x.p) pr.same.0 ∙ hp)
              (subst (λ (x : NbdContext D). ReadsFrom view bs x.handle f) (sym pr.same.0) disk)
              pr.advanced.ready (ground arith))
  ]
