-- ===== src/Tests/Exports.antt =====
-- The pool of contexts, empty, with one context, and full, and the plugins that fill it.
use lw_nbd.Prelude.{
  replicate, ℕ, ◌≡◌, ◌+◌, ◌<◌, ◌⊎◌, pos, zero, suc, refl, none, some, [], ◌∷◌, Returns, get_elem?,
  arith,
}
use lw_nbd.Plugin.{Context}
use lw_nbd.Contexts.{
  Contexts, free, created, max_contexts, first_free, lwnbd_new_context, lwnbd_contexts_count,
  lwnbd_get_context_string,
}
use lw_nbd.Contexts.Pool.{
  IsPool, AllFree, NoHoles, FindSpec, lwnbd_new_context-IsPool, lwnbd_get_context_string-FindSpec,
}
use lw_nbd.Plugins.{lwnbd_plugin_new}
use lw_nbd.Plugins.New.{lwnbd_plugin_new-made}
use lw_nbd.System.{System}
use lw_nbd.Text.{codes}
use lw_nbd.Tests.{Medium, numbered, ram_plugin, ram_fields, accepting_ctor}

abbrev ram_context : Context Medium
ram_context = record { fields = ram_fields; p = some ram_plugin }

abbrev pub fresh_context : Context Medium
fresh_context = record {
  fields = record { handle = 0; name = []; description = []; exportsize = pos 0 };
  p = none;
}

-- one context in use
abbrev pub one_used : Contexts Medium
one_used = record {
  contexts = ram_context ∷ replicate 49 fresh_context;
  contexts_status = created ∷ replicate 49 free;
}

abbrev all_used : Contexts Medium
all_used = record { contexts = replicate 50 ram_context; contexts_status = replicate 50 created }

all_free : (n : ℕ) → AllFree (replicate n free)
all_free zero = tt
all_free (suc n) = (refl, all_free n)

no_holes : (n : ℕ) → NoHoles (replicate n created)
no_holes zero = tt
no_holes (suc n) = no_holes n

pub one_used-IsPool : IsPool one_used
one_used-IsPool = record { contexts_size = refl; status_size = refl; no_holes = all_free 48 }

all_used-IsPool : IsPool all_used
all_used-IsPool = record { contexts_size = refl; status_size = refl; no_holes = no_holes 50 }

lwnbd_new_context-IsPool_example :
    let (c, cs') = lwnbd_new_context one_used in
    IsPool cs'
    × (cs'.contexts ≡ one_used.contexts)
    × (((lwnbd_contexts_count one_used < max_contexts)
          × (c ≡ some (lwnbd_contexts_count one_used))
          × (lwnbd_contexts_count cs' ≡ lwnbd_contexts_count one_used + 1))
        ⊎ ((lwnbd_contexts_count one_used ≡ max_contexts) × (c ≡ none) × (cs' ≡ one_used)))
lwnbd_new_context-IsPool_example = lwnbd_new_context-IsPool one_used one_used-IsPool

lwnbd_get_context_string-FindSpec_example :
    FindSpec one_used.contexts
      (lwnbd_contexts_count one_used)
      0
      (codes "ram0")
      (lwnbd_get_context_string one_used (codes "ram0"))
lwnbd_get_context_string-FindSpec_example =
    lwnbd_get_context_string-FindSpec one_used (codes "ram0")

abbrev pub system_of : Contexts Medium → System Medium
system_of pool = record {
  pool = pool;
  plugins = some ram_plugin ∷ replicate 9 none;
  plugins_status = [];
  dev = numbered;
}

lwnbd_plugin_new-made_example : Returns (lwnbd_plugin_new 0 7 (system_of one_used)) (λ rs.
    (rs.0 ≡ pos 0)
    × (lwnbd_contexts_count rs.1.pool ≡ 1 + 1)
    × (get_elem? rs.1.pool.contexts 1
        ≡ some (record {
          fields = record {
            handle = 0;
            name = [];
            description = codes "ram disk";
            exportsize = pos 0;
          };
          p = some ram_plugin;
        })))
unfolding lwnbd_contexts_count first_free
lwnbd_plugin_new-made_example =
    lwnbd_plugin_new-made 0 7 ram_plugin accepting_ctor fresh_context (system_of one_used) refl refl
      refl one_used-IsPool (omega arith) (omega arith) refl refl
