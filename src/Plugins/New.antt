-- ===== src/Plugins/New.antt =====
-- What `lwnbd_plugin_new` does to the pool.
use lw_nbd.Prelude.{
  ℕ, ℤ, pos, minus_one, zero, suc, ◌+◌, ◌<◌, ◌≡◌, ◌≢◌, refl, ◌∙◌, inl, inr, true, false, Option,
  none, some, List, [], ◌∷◌, Run, done, fault, out_of_fuel, Returns, ◌>>=◌, deref, get_elem?,
  get_elem?-set_self, length, is_zero, lt→ltb, arith, if◌then◌else◌, ap,
}
use lw_nbd.Contexts.{
  Contexts, max_contexts, lwnbd_new_context, lwnbd_contexts_count, lwnbd_get_context_i,
}
use lw_nbd.Contexts.Pool.{IsPool, lwnbd_new_context-IsPool, contexts_count_of_status}
use lw_nbd.Plugin.{Fields, Plugin, Context}
use lw_nbd.Plugins.{filled, describe, plugin_at, new_export, lwnbd_plugin_new, news_from}
use lw_nbd.System.{System, strcpy}

abbrev pub Ctor : Type 0 → Type 0
Ctor D = ℕ → Option Fields → D → ℤ × Option Fields × D

module _ {D : Type 0} (p : Plugin D) (ctor : Ctor D) (pconfig : ℕ) (sys : System D) where
  -- With the pool full, `lwnbd_plugin_new` writes through the NULL that `lwnbd_new_context` gave.
  pub new_export-full :
      IsPool sys.pool
      → lwnbd_contexts_count sys.pool ≡ max_contexts
      → new_export p ctor pconfig sys ≡ fault
  unfolding new_export
  new_export-full v full = elim (lwnbd_new_context-IsPool sys.pool v).2 [
    | inl room ↦ absurd (omega (arith, room.0))
    | inr none_left ↦ rw none_left.1 refl
  ]

  -- The context that the constructor is given: the next one of the pool, its description emptied.
  abbrev pub blank : Context D → Fields
  blank old = record (old.fields) { description = [] }

  abbrev pub taken : Contexts D
  taken = (lwnbd_new_context sys.pool).1

  -- A constructor that fails: the result is -1, but the context stays taken, in use by count, with
  -- whatever plugin pointer it had before.
  pub new_export-refused :
      (old : Context D)
      → IsPool sys.pool
      → lwnbd_contexts_count sys.pool < max_contexts
      → get_elem? sys.pool.contexts (lwnbd_contexts_count sys.pool) ≡ some old
      → let (r, fields, dev) = ctor pconfig (some (blank old)) sys.dev in
        is_zero r ≡ false
        → Returns (new_export p ctor pconfig sys) (λ rs.
          (rs.0 ≡ minus_one)
          × (lwnbd_contexts_count rs.1.pool ≡ lwnbd_contexts_count sys.pool + 1)
          × (get_elem? rs.1.pool.contexts (lwnbd_contexts_count sys.pool)
              ≡ some (record { fields = filled fields (blank old); p = old.p })))
  unfolding new_export lwnbd_get_context_i
  new_export-refused old v room at bad = elim (lwnbd_new_context-IsPool sys.pool v).2 [
    | inr none_left ↦ absurd (omega (arith, none_left.0))
    | inl got ↦ rw got.1 (
        rw ((lwnbd_new_context-IsPool sys.pool v).1) (
          rw at (
            rw bad (
              refl,
              contexts_count_of_status _ taken refl ∙ got.2,
              get_elem?-set_self sys.pool.contexts (lwnbd_contexts_count sys.pool) _
                  (omega (arith, v.contexts_size)),
            ))))
  ]

  -- the fields with an empty description replaced
  abbrev pub described : Fields → Fields
  described f = elim f.description [ [] ↦ record f { description = p.longname } | x ∷ xs ↦ f ]

  describe-done : (f : Fields) → length p.longname < 64 → describe p f ≡ done (described f)
  unfolding strcpy
  describe-done f h = by_text f.description
    where
      by_text :
          (d : List ℕ)
          → (let r : Run Fields = elim d [
            | [] ↦ strcpy 64 p.longname >>= λ l. done (record f { description = l })
            | x ∷ xs ↦ done f
          ] in
              r)
            ≡ done (elim d [ [] ↦ record f { description = p.longname } | x ∷ xs ↦ f ])
      by_text [] = rw (lt→ltb (length p.longname) 64 h) refl
      by_text (x ∷ xs) = refl

  -- A constructor that succeeds: the result is 0, and the next context of the pool has what the
  -- constructor filled in, the plugin, and the plugin's long name where the description is empty.
  pub new_export-made :
      (old : Context D)
      → IsPool sys.pool
      → lwnbd_contexts_count sys.pool < max_contexts
      → length p.longname < 64
      → get_elem? sys.pool.contexts (lwnbd_contexts_count sys.pool) ≡ some old
      → let (r, fields, dev) = ctor pconfig (some (blank old)) sys.dev in
        is_zero r ≡ true
        → Returns (new_export p ctor pconfig sys) (λ rs.
          (rs.0 ≡ pos 0)
          × (lwnbd_contexts_count rs.1.pool ≡ lwnbd_contexts_count sys.pool + 1)
          × (get_elem? rs.1.pool.contexts (lwnbd_contexts_count sys.pool)
              ≡ some (record { fields = described (filled fields (blank old)); p = some p })))
  unfolding new_export lwnbd_get_context_i
  new_export-made old v room small at good = elim (lwnbd_new_context-IsPool sys.pool v).2 [
    | inr none_left ↦ absurd (omega (arith, none_left.0))
    | inl got ↦ rw got.1 (
        rw ((lwnbd_new_context-IsPool sys.pool v).1) (
          rw at (
            rw good (
              rw (describe-done _ small) (
                refl,
                contexts_count_of_status _ taken refl ∙ got.2,
                get_elem?-set_self sys.pool.contexts (lwnbd_contexts_count sys.pool) _
                    (omega (arith, v.contexts_size)),
              )))))
  ]

lwnbd_plugin_new-export :
    {D : Type 0} (plugin pconfig : ℕ) (p : Plugin D) (ctor : Ctor D) (sys : System D)
    → plugin_at sys plugin ≡ done p
    → p.ctor ≡ some ctor
    → p.export_without_handle ≡ false
    → lwnbd_plugin_new plugin pconfig sys ≡ new_export p ctor pconfig sys
unfolding lwnbd_plugin_new
lwnbd_plugin_new-export {D = D} plugin pconfig p ctor sys there has with_handle = rw there (
    ap by_ctor has
    ∙ ap
        (λ b.
          if b
          then done ((if is_zero alone.0 then pos 0 else minus_one), record sys { dev = alone.2 })
          else new_export p ctor pconfig sys)
        with_handle)
  where
    alone : ℤ × Option Fields × D
    alone = ctor pconfig none sys.dev

    by_ctor : Option (Ctor D) → Run (ℤ × System D)
    by_ctor none = done (minus_one, sys)
    by_ctor (some c) =
        if p.export_without_handle
        then done (
          (if is_zero (c pconfig none sys.dev).0 then pos 0 else minus_one),
          record sys { dev = (c pconfig none sys.dev).2 },
        )
        else new_export p c pconfig sys

-- For a plugin of the table that has a constructor and exports with a handle, room in the pool, a
-- long name that fits, and a constructor that succeeds, `lwnbd_plugin_new` gives 0; one context
-- more is in use, and it has what the constructor filled in, the plugin, and the plugin's long
-- name where the description is empty.
pub lwnbd_plugin_new-made :
    {D : Type 0} (plugin pconfig : ℕ) (p : Plugin D) (ctor : Ctor D) (old : Context D)
    (sys : System D)
    → plugin_at sys plugin ≡ done p
    → p.ctor ≡ some ctor
    → p.export_without_handle ≡ false
    → IsPool sys.pool
    → lwnbd_contexts_count sys.pool < max_contexts
    → length p.longname < 64
    → get_elem? sys.pool.contexts (lwnbd_contexts_count sys.pool) ≡ some old
    → let (r, fields, dev) = ctor pconfig (some (blank p ctor pconfig sys old)) sys.dev in
      is_zero r ≡ true
      → Returns (lwnbd_plugin_new plugin pconfig sys) (λ rs.
        (rs.0 ≡ pos 0)
        × (lwnbd_contexts_count rs.1.pool ≡ lwnbd_contexts_count sys.pool + 1)
        × (get_elem? rs.1.pool.contexts (lwnbd_contexts_count sys.pool)
            ≡ some (record {
              fields = described p ctor pconfig sys (filled fields (blank p ctor pconfig sys old));
              p = some p;
            })))
lwnbd_plugin_new-made plugin pconfig p ctor old sys there has with_handle v room small at good =
    rw (lwnbd_plugin_new-export plugin pconfig p ctor sys there has with_handle)
      (new_export-made p ctor pconfig sys old v room small at good)

-- `lwnbd_plugin_news` never returns a value: whatever the array, it goes on reading until it has
-- left the array, unless a plugin's call has faulted before.
pub news_from-endless :
    {D : Type 0} (fuel plugin : ℕ) (configs : List ℕ) (i : ℕ) (sys : System D) (r : ℤ × System D)
    → news_from fuel plugin configs i sys ≢ done r
unfolding news_from
news_from-endless {D = D} zero plugin configs i sys r e = cc
news_from-endless {D = D} (suc fuel) plugin configs i sys r e =
    by_config (λ sys'. news_from-endless fuel plugin configs (i + 1) sys' r) (get_elem? configs i) e
  where
    Endless : Type 0
    Endless = (sys' : System D) → news_from fuel plugin configs (i + 1) sys' ≢ done r

    by_result :
        Endless
        → (made : Run (ℤ × System D))
        → (made >>= λ rs. news_from fuel plugin configs (i + 1) rs.1) ≢ done r
    by_result again (done rs) f = again rs.1 f
    by_result again fault f = cc
    by_result again out_of_fuel f = cc

    by_config :
        Endless
        → (c : Option ℕ)
        → (deref c >>= λ pconfig. lwnbd_plugin_new plugin pconfig sys >>= λ rs.
            news_from fuel plugin configs (i + 1) rs.1)
          ≢ done r
    by_config again none f = cc
    by_config again (some pconfig) f = by_result again (lwnbd_plugin_new plugin pconfig sys) f
