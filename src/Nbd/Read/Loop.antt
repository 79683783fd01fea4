-- ===== src/Nbd/Read/Loop.antt =====
-- The ways of the test of the loop of NBD_CMD_READ.
use lw_nbd.Prelude.{ℕ, zero, suc, ◌<◌, ◌≡◌, refl, true, false, done, ◌>>=◌, ◌==◌, ==_iff, arith}
use lw_nbd.Nbd.Phase.{Config, Phase}
use lw_nbd.Nbd.Read.{
  again, send_failed, gave_up, finished, broken, exhausted, read_round, read_loop,
}

module _ {D : Type 0} (cfg : Config) (bs : ℕ) where
  -- The two ways of the loop's test.
  pub read_loop-off :
      (fuel : ℕ) (s : Phase D)
      → (s.sendflag == 0) ≡ true
      → read_loop cfg bs (suc fuel) s ≡ done (finished, s)
  unfolding read_loop
  read_loop-off fuel s e = rw (e, read_loop) refl

  pub read_loop-on :
      (fuel : ℕ) (s : Phase D)
      → (s.sendflag == 0) ≡ false
      → read_loop cfg bs (suc fuel) s ≡ (
          read_round cfg bs s >>= λ rs. elim rs.0 [
            | again ↦ read_loop cfg bs fuel rs.1
            | send_failed ↦ done (broken, rs.1)
            | gave_up ↦ done (exhausted, rs.1)
          ])
  unfolding read_loop
  read_loop-on fuel s e = rw (e, read_loop) refl

  pub read_loop-idle :
      (fuel : ℕ) (t : Phase D)
      → 0 < fuel
      → t.sendflag ≡ 0
      → read_loop cfg bs fuel t ≡ done (finished, t)
  unfolding read_loop
  read_loop-idle zero t h off = absurd (omega arith)
  read_loop-idle (suc fuel) t h off = rw ((==_iff t.sendflag 0).1 off, read_loop) refl
