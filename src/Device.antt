-- ===== src/Device.antt =====
-- The calls of src/contexts.c through a context to its plugin, and `lwnbd_update_size`.
use lw_nbd.Prelude.{ℕ, ℤ, ◌≡◌, some, List, Run, done, ◌>>=◌, deref, Ends, Ends-deref_then}
use lw_nbd.Plugin.{Plugin, Context}

module _ {D : Type 0} where
  unfoldable pub lwnbd_pread : Context D → List ℕ → ℕ → ℕ → ℕ → D → Run (ℤ × List ℕ × D)
  lwnbd_pread me buf count offset flags d = do
    p ← deref me.p
    f ← deref p.pread
    done (f me.handle buf count offset flags d)

  unfoldable pub lwnbd_pwrite : Context D → List ℕ → ℕ → ℕ → ℕ → D → Run (ℤ × D)
  lwnbd_pwrite me buf count offset flags d = do
    p ← deref me.p
    f ← deref p.pwrite
    done (f me.handle buf count offset flags d)

  unfoldable pub lwnbd_flush : Context D → ℕ → D → Run (ℤ × D)
  lwnbd_flush me flags d = do p ← deref me.p; f ← deref p.flush; done (f me.handle flags d)

  -- The result is the size cut to an `int`; its only caller drops it.
  unfoldable pub lwnbd_update_size : Context D → D → Run (Context D × D)
  lwnbd_update_size me d = do
    p ← deref me.p
    f ← deref p.get_size
    let (size, d') = f me.handle d
    done (record me { fields = record (me.fields) { exportsize = size } }, d')

  -- A plugin that has the function is called with the context's handle.
  pub lwnbd_pread-done :
      (me : Context D) {p : Plugin D} {f : ℕ → List ℕ → ℕ → ℕ → ℕ → D → ℤ × List ℕ × D}
      (buf : List ℕ) (count offset flags : ℕ) (d : D)
      → me.p ≡ some p
      → p.pread ≡ some f
      → lwnbd_pread me buf count offset flags d ≡ done (f me.handle buf count offset flags d)
  unfolding lwnbd_pread
  lwnbd_pread-done me {p} buf count offset flags d hp hf =
      rw (hp, ◌>>=◌, deref) (rw (hf, ◌>>=◌, deref))

  pub lwnbd_pwrite-done :
      (me : Context D) {p : Plugin D} {f : ℕ → List ℕ → ℕ → ℕ → ℕ → D → ℤ × D} (buf : List ℕ)
      (count offset flags : ℕ) (d : D)
      → me.p ≡ some p
      → p.pwrite ≡ some f
      → lwnbd_pwrite me buf count offset flags d ≡ done (f me.handle buf count offset flags d)
  unfolding lwnbd_pwrite
  lwnbd_pwrite-done me {p} buf count offset flags d hp hf =
      rw (hp, ◌>>=◌, deref) (rw (hf, ◌>>=◌, deref))

  -- A call through a null pointer is a fault; any other comes to an end.
  pub lwnbd_pread-Ends :
      (me : Context D) (buf : List ℕ) (count offset flags : ℕ) (d : D)
      → Ends (lwnbd_pread me buf count offset flags d) (λ _. Unit)
  unfolding lwnbd_pread
  lwnbd_pread-Ends me buf count offset flags d =
      Ends-deref_then me.p _ (λ _. Unit) λ p. Ends-deref_then p.pread _ (λ _. Unit) λ f. tt

  pub lwnbd_pwrite-Ends :
      (me : Context D) (buf : List ℕ) (count offset flags : ℕ) (d : D)
      → Ends (lwnbd_pwrite me buf count offset flags d) (λ _. Unit)
  unfolding lwnbd_pwrite
  lwnbd_pwrite-Ends me buf count offset flags d =
      Ends-deref_then me.p _ (λ _. Unit) λ p. Ends-deref_then p.pwrite _ (λ _. Unit) λ f. tt

  pub lwnbd_flush-Ends :
      (me : Context D) (flags : ℕ) (d : D) → Ends (lwnbd_flush me flags d) (λ _. Unit)
  unfolding lwnbd_flush
  lwnbd_flush-Ends me flags d =
      Ends-deref_then me.p _ (λ _. Unit) λ p. Ends-deref_then p.flush _ (λ _. Unit) λ f. tt

  pub lwnbd_update_size-Ends : (me : Context D) (d : D) → Ends (lwnbd_update_size me d) (λ _. Unit)
  unfolding lwnbd_update_size
  lwnbd_update_size-Ends me d =
      Ends-deref_then me.p _ (λ _. Unit) λ p. Ends-deref_then p.get_size _ (λ _. Unit) λ f. tt
