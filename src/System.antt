-- ===== src/System.antt =====
-- What the library keeps in static variables: the pool of contexts, the table of plugins, and
-- behind the plugins their own state.
use lw_nbd.Prelude.{ℕ, List, Option, Run, done, fault, ltb, length, if◌then◌else◌, set}
use lw_nbd.Plugin.{Plugin, Context}
use lw_nbd.Contexts.{Contexts}

-- `plugin_state_t`
pub data PluginStatus : Type 0 where
  free created : PluginStatus

pub record System (D : Type 0) : Type 0 where
  pub pool : Contexts D
  pub plugins : List (Option (Plugin D))
  pub plugins_status : List PluginStatus
  pub dev : D

-- `strcpy` into an array of `n` characters, the end mark included.
unfoldable pub strcpy : ℕ → List ℕ → Run (List ℕ)
strcpy n s = if ltb (length s) n then done s else fault

module _ {D : Type 0} where
  -- writes through a pointer to a context
  abbrev pub write_context : Contexts D → ℕ → Context D → Contexts D
  write_context cs i c = record cs { contexts = set cs.contexts i c }
