-- ===== src/Uri.antt =====
-- src/contexts_uri.c: from a URI to a context. The parser is yuarel, a library of another project;
-- its two functions are parameters.
use lw_nbd.Prelude.{ℕ, ℤ, Option, none, some, List, Run, done, ◌>>=◌, deref, is_zero, if◌then◌else◌}
use lw_nbd.Contexts.{lwnbd_get_context_string, lwnbd_get_context_i}
use lw_nbd.Device.{lwnbd_update_size}
use lw_nbd.Plugin.{Query}
use lw_nbd.System.{System, write_context}

-- `struct yuarel`, the fields that are read
pub record Url : Type 0 where
  pub path : List ℕ
  pub query : Option (List ℕ)

-- `yuarel_parse`, `none` for -1; and `yuarel_parse_query`, with the delimiter and the largest number
-- of parameters: its result and the parameters it has stored.
pub record Yuarel : Type 0 where
  pub parse : List ℕ → Option Url
  pub parse_query : Option (List ℕ) → ℕ → ℕ → ℤ × List Query

abbrev pub max_query : ℕ
max_query = 3

module _ {D : Type 0} where
  -- a query that the plugin does not handle is no failure
  abbrev pub run_query : Option (ℕ → List Query → ℤ → D → ℤ × D) → ℕ → List Query → ℤ → D → ℤ × D
  run_query none handle params n d = (ℤ.pos 0, d)
  run_query (some f) handle params n d = f handle params n d

  -- The rest of `lwnbd_get_context`, once the context has been found.
  unfoldable pub open_context : ℕ → List Query → ℤ → System D → Run (Option ℕ × System D)
  open_context i params n sys = do
    c ← deref (lwnbd_get_context_i sys.pool i)
    p ← deref c.p
    let (ret, dev) = run_query p.query c.handle params n sys.dev
    (if is_zero ret
        then (lwnbd_update_size c dev >>= λ cd.
            done (some i, record sys { pool = write_context sys.pool i cd.0; dev = cd.1 }))
        else done (none, record sys { dev = dev }))

  unfoldable pub lwnbd_get_context : Yuarel → List ℕ → System D → Run (Option ℕ × System D)
  lwnbd_get_context y uri sys = elim (y.parse uri) [
    | none ↦ done (none, sys)
    | some url ↦
        let (n, params) = y.parse_query url.query b'&' max_query in
        elim (lwnbd_get_context_string sys.pool url.path) [
          | none ↦ done (none, sys)
          | some i ↦ open_context i params n sys
        ]
  ]
