-- ===== src/Nbd/Write/Loop.antt =====
-- The ways of the test of the loop of NBD_CMD_WRITE.
use lw_nbd.Prelude.{ℕ, suc, ◌≡◌, refl, false, done, ◌>>=◌, ◌==◌, ==_iff}
use lw_nbd.Nbd.Phase.{Config, Phase}
use lw_nbd.Nbd.Write.{write_round, write_loop}

module _ {D : Type 0} (cfg : Config) (bs : ℕ) where
  pub write_loop-off :
      (fuel : ℕ) (s : Phase D) → s.sendflag ≡ 0 → write_loop cfg bs (suc fuel) s ≡ done s
  unfolding write_loop
  write_loop-off fuel s e = rw ((==_iff s.sendflag 0).1 e, write_loop) refl

  pub write_loop-on :
      (fuel : ℕ) (s : Phase D)
      → (s.sendflag == 0) ≡ false
      → write_loop cfg bs (suc fuel) s ≡ (write_round cfg bs s >>= λ s'. write_loop cfg bs fuel s')
  unfolding write_loop
  write_loop-on fuel s e = rw (e, write_loop) refl
