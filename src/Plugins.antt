-- ===== src/Plugins.antt =====
-- src/plugins.c: the table of plugins, and how they put contexts into the pool.
pub mod New
use lw_nbd.Prelude.{
  ℕ, ℤ, pos, minus_one, is_minus_one, zero, suc, ◌+◌, ◌-◌, ◌^◌, true, false, not, Option, none,
  some, List, [], ◌∷◌, set, Run, done, fault, out_of_fuel, ◌>>=◌, deref, get_elem?, is_zero, ◌==◌,
  if◌then◌else◌,
}
use lw_nbd.Contexts.{Contexts, lwnbd_new_context, lwnbd_get_context_i}
use lw_nbd.Plugin.{Fields, Plugin, Context}
use lw_nbd.System.{System, PluginStatus, free, created, strcpy, write_context}
use lw_nbd.Text.{codes}

abbrev pub max_num_plugins : ℕ
max_num_plugins = 10

-- -1 as a `lwnbd_plugin_h`, which is a `uint32_t`
abbrev pub no_plugin : ℕ
no_plugin = 2 ^ 32 - 1

unfoldable pub first_free : List PluginStatus → ℕ
first_free [] = 0
first_free (free ∷ rest) = 0
first_free (created ∷ rest) = suc (first_free rest)

abbrev pub filled : Option Fields → Fields → Fields
filled none old = old
filled (some f) old = f

-- The key that is used: the one given, or the plugin's own.
abbrev pub config_key : Option (List ℕ) → Option (List ℕ) → Option (List ℕ)
config_key (some k) magic = some k
config_key none magic = magic

module _ {D : Type 0} where
  abbrev pub run_load : Option (D → D) → D → D
  run_load none d = d
  run_load (some f) d = f d

  -- The context of a plugin that exports without handle. A full pool gives NULL, which is logged
  -- and then written through.
  unfoldable pub export_api : Plugin D → System D → Run (System D)
  export_api p sys = do
    let (c, pool) = lwnbd_new_context sys.pool
    i ← deref c
    old ← deref (lwnbd_get_context_i pool i)
    description ← strcpy 64 p.longname
    name ← strcpy 32 (codes "api")
    let fields = record (old.fields) { handle = 0; description = description; name = name }
    done (record sys { pool = write_context pool i (record { fields = fields; p = some p }) })

  -- The table's entry, with the `load` hook called first.
  abbrev pub enter : Plugin D → ℕ → System D → System D
  enter p i sys = record sys {
    dev = run_load p.load sys.dev;
    plugins = set sys.plugins i (some p);
    plugins_status = set sys.plugins_status i created;
  }

  -- The rest of `lwnbd_plugin_init`, once `init()` has given a plugin.
  unfoldable pub register : Plugin D → ℕ → System D → Run (ℕ × System D)
  register p i sys = elim p.pread [
    | none ↦ done (no_plugin, sys)
    | some f ↦
        (if p.export_without_handle then export_api p (enter p i sys) else done (enter p i sys))
        >>= λ sys'. done (i, sys')
  ]

  -- `p` is what `init()` returns.
  unfoldable pub lwnbd_plugin_init : Option (Plugin D) → System D → Run (ℕ × System D)
  lwnbd_plugin_init p sys =
      let i = first_free sys.plugins_status in
      if i == max_num_plugins
      then done (no_plugin, sys)
      else elim p [ none ↦ done (no_plugin, sys) | some q ↦ register q i sys ]

  -- `plugins[plugin]`, dereferenced
  abbrev pub plugin_at : System D → ℕ → Run (Plugin D)
  plugin_at sys h = deref (get_elem? sys.plugins h) >>= λ p. deref p

  -- an empty description becomes the plugin's long name
  abbrev pub describe : Plugin D → Fields → Run Fields
  describe p f = elim f.description [
    | [] ↦ strcpy 64 p.longname >>= λ d. done (record f { description = d })
    | x ∷ xs ↦ done f
  ]

  -- The part of `lwnbd_plugin_new` that makes a context. One that the constructor refuses stays in
  -- the pool.
  unfoldable pub new_export :
      Plugin D → (ℕ → Option Fields → D → ℤ × Option Fields × D) → ℕ → System D → Run (ℤ × System D)
  new_export p ctor pconfig sys = do
    let (c, pool) = lwnbd_new_context sys.pool
    i ← deref c
    old ← deref (lwnbd_get_context_i pool i)
    let blank = record (old.fields) { description = [] }
    let (r, fields, dev) = ctor pconfig (some blank) sys.dev
    let given = filled fields blank
    let made = record sys {
      pool = write_context pool i (record { fields = given; p = old.p });
      dev = dev;
    }
    (if is_zero r
        then (describe p given >>= λ f. done (
          pos 0,
          record made { pool = write_context pool i (record { fields = f; p = some p }) },
        ))
        else done (minus_one, made))

  unfoldable pub lwnbd_plugin_new : ℕ → ℕ → System D → Run (ℤ × System D)
  lwnbd_plugin_new plugin pconfig sys = do
    p ← plugin_at sys plugin
    elim p.ctor [
      | none ↦ done (minus_one, sys)
      | some ctor ↦
          (if p.export_without_handle
            then (let (r, c, dev) = ctor pconfig none sys.dev in
                done (if is_zero r then pos 0 else minus_one, record sys { dev = dev }))
            else new_export p ctor pconfig sys)
    ]

  -- `pconfig` is never advanced, so the loop's test never changes; `configs` is the array, and a
  -- read past its end is a fault.
  unfoldable pub news_from : ℕ → ℕ → List ℕ → ℕ → System D → Run (ℤ × System D)
  news_from zero plugin configs i sys = out_of_fuel
  news_from (suc fuel) plugin configs i sys = do
    pconfig ← deref (get_elem? configs i)
    (r, sys') ← lwnbd_plugin_new plugin pconfig sys
    news_from fuel plugin configs (i + 1) sys'

  unfoldable pub lwnbd_plugin_news : ℕ → ℕ → Option (List ℕ) → System D → Run (ℤ × System D)
  lwnbd_plugin_news fuel plugin none sys = done (pos 0, sys)
  lwnbd_plugin_news fuel plugin (some configs) sys = news_from fuel plugin configs 0 sys

  unfoldable pub lwnbd_plugin_config : ℕ → Option (List ℕ) → List ℕ → System D → Run (ℤ × System D)
  lwnbd_plugin_config plugin key value sys = do
    p ← plugin_at sys plugin
    elim p.config [
      | none ↦ done (minus_one, sys)
      | some config ↦ elim (config_key key p.magic_config_key) [
        | none ↦ done (minus_one, sys)
        | some k ↦
            let (r, dev) = config k value sys.dev in
            done (if is_minus_one r then minus_one else pos 0, record sys { dev = dev })
      ]
    ]
