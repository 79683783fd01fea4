-- ===== src/Plugin.antt =====
-- `struct lwnbd_plugin_t` of include/lwnbd/lwnbd-plugin.h: the interface between contexts and
-- drivers. `D` is the state of all that lies behind the plugins: their static variables, devices,
-- files and memory. A function pointer that may be NULL is an option, a handle is a number with 0
-- for NULL, a string is its bytes without the end mark.
use lw_nbd.Prelude.{ℕ, ℤ, Bool, List, Option}

-- `struct query_t`
pub record Query : Type 0 where
  pub key : List ℕ
  pub val : Option (List ℕ)

-- The fields of `lwnbd_context_t` that a constructor fills in.
pub record Fields : Type 0 where
  pub handle : ℕ
  pub name : List ℕ
  pub description : List ℕ
  pub exportsize : ℤ

pub record Plugin (D : Type 0) : Type 0 where
  pub name : List ℕ
  pub longname : List ℕ
  pub load : Option (D → D)
  pub get_size : Option (ℕ → D → ℤ × D)
  -- handle, buffer before the call, count, offset, flags; the buffer after it is part of the result
  pub pread : Option (ℕ → List ℕ → ℕ → ℕ → ℕ → D → ℤ × List ℕ × D)
  pub pwrite : Option (ℕ → List ℕ → ℕ → ℕ → ℕ → D → ℤ × D)
  pub flush : Option (ℕ → ℕ → D → ℤ × D)
  -- minimum, preferred and maximum
  pub block_size : Option (ℕ → D → ℕ × ℕ × ℕ)
  pub config : Option (List ℕ → List ℕ → D → ℤ × D)
  pub magic_config_key : Option (List ℕ)
  -- `pconfig` is an opaque pointer; the context is NULL for a plugin that exports without handle
  pub ctor : Option (ℕ → Option Fields → D → ℤ × Option Fields × D)
  pub query : Option (ℕ → List Query → ℤ → D → ℤ × D)
  pub export_without_handle : Bool

-- `lwnbd_context_t`
pub record Context (D : Type 0) : Type 0 where
  pub fields : Fields
  pub open fields use *
  pub p : Option (Plugin D)

-- The callbacks that include/lwnbd/lwnbd-plugin.h gives to plugins that have no better.
abbrev pub func_no_error : ℕ → ℕ → ℤ
func_no_error handle flags = ℤ.pos 0

abbrev pub char_block_size : ℕ → ℕ × ℕ × ℕ
char_block_size handle = (1, 1, 1)

abbrev pub stream_get_size : ℕ → ℕ
stream_get_size handle = 0x7fffffffffffe00
