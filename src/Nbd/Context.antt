-- ===== src/Nbd/Context.antt =====
-- The NBD context of include/lwnbd/piconbd.h, and `nbdify_context` of servers/nbd/nbd.c.
-- The structure stands for a `lwnbd_context_t` too: the source reads its plugin, its handle and its
-- size, so the fields of the base class are here.
use lw_nbd.Prelude.{ℕ, Bool, Option, none, some, Run, done, ◌>>=◌, deref}
use lw_nbd.Plugin.{Context}
use lw_nbd.Nbd.Wire.{add_flag, flag_has_flags, flag_read_only, flag_send_flush}

-- `enum client_states`
pub data State : Type 0 where
  handshake transmission abort : State

pub record NbdContext (D : Type 0) : Type 0 where
  pub base : Context D
  pub open base use *
  pub eflags : ℕ
  pub minimum_block_size : ℕ
  pub preferred_block_size : ℕ
  pub maximum_block_size : ℕ
  pub gflags : ℕ
  pub readonly : Bool
  pub state : State

-- `if (!p->f)` and `if (p->f)`
abbrev pub add_if_null {ℓ} : {A : Type ℓ} → Option A → ℕ → ℕ → ℕ
add_if_null none k x = add_flag k x
add_if_null (some f) k x = x

abbrev pub add_if_set {ℓ} : {A : Type ℓ} → Option A → ℕ → ℕ → ℕ
add_if_set none k x = x
add_if_set (some f) k x = add_flag k x

abbrev pub block_sizes : {D : Type 0} → Option (ℕ → D → ℕ × ℕ × ℕ) → ℕ → D → ℕ × ℕ × ℕ
block_sizes none handle d = (512, 512, 512)
block_sizes (some f) handle d = f handle d

module _ {D : Type 0} where
  unfoldable pub nbdify_context : NbdContext D → D → Run (NbdContext D)
  nbdify_context ctx d = do
    p ← deref ctx.p
    let eflags = add_flag flag_has_flags 0
    let eflags' = add_if_null p.pwrite flag_read_only eflags
    let eflags'' = add_if_set p.flush flag_send_flush eflags'
    let (minimum, preferred, maximum) = block_sizes p.block_size ctx.handle d
    done (record ctx {
      eflags = eflags'';
      minimum_block_size = minimum;
      preferred_block_size = preferred;
      maximum_block_size = maximum;
    })
