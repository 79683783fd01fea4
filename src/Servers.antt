-- ===== src/Servers.antt =====
-- src/servers.c: the table of servers and their states, the list of servers by name, and the table
-- of watched descriptors. `D` is all that the servers' own callbacks keep.
pub mod Table
use lw_nbd.Prelude.{
  ℕ, ℤ, pos, minus_one, zero, suc, ◌+◌, ◌-◌, ◌^◌, true, false, Bool, Option, none, some, List, [],
  ◌∷◌, set, Run, done, fault, ◌>>=◌, deref, get_elem?, leb, ◌==◌, if◌then◌else◌,
}
use lw_nbd.Text.{same_text}

-- `server_state_t`
pub data ServerState : Type 0 where
  free stopped started : ServerState

-- `struct lwnbd_server`; `new` gives a handle, a client is an opaque pointer
pub record Server (D : Type 0) : Type 0 where
  pub name : List ℕ
  pub new : Option (D → ℕ × D)
  pub stop : Option (ℕ → D → D)
  pub config : Option (ℕ → List ℕ → List ℕ → D → ℤ × D)
  pub ctor : Option (ℕ → ℕ → D → ℤ × D)
  pub run : Option (ℕ → ℕ → D → D)

-- `struct server_instance`
pub record Instance (D : Type 0) : Type 0 where
  pub handle : ℕ
  pub s : Option (Server D)

pub record Servers (D : Type 0) : Type 0 where
  pub servers : List (Instance D)
  pub servers_status : List ServerState
  pub servers_bis : List (Option (Server D))
  pub server_count : ℕ
  pub dev : D

abbrev pub max_num_servers : ℕ
max_num_servers = 2

-- -1 as a `lwnbd_server_t`, which is a `uint32_t`
abbrev pub no_server : ℕ
no_server = 2 ^ 32 - 1

unfoldable pub first_free : List ServerState → ℕ
first_free [] = 0
first_free (free ∷ rest) = 0
first_free (stopped ∷ rest) = suc (first_free rest)
first_free (started ∷ rest) = suc (first_free rest)

module _ {D : Type 0} where
  unfoldable pub register_server : Server D → Servers D → ℤ × Servers D
  register_server srv t = if leb max_num_servers t.server_count then (minus_one, t) else (
    pos 0,
    record t {
      servers_bis = set t.servers_bis t.server_count (some srv);
      server_count = t.server_count + 1;
    },
  )

  -- The loop over `n` elements from index `i` on; the result is the index of the server found.
  unfoldable pub find_server : ℕ → ℕ → List ℕ → Servers D → Run (Option ℕ)
  find_server zero i name t = done none
  find_server (suc n) i name t = do
    p ← deref (get_elem? t.servers_bis i)
    srv ← deref p
    let rest = find_server n (i + 1) name t
    (if same_text srv.name name then done (some i) else rest)

  unfoldable pub get_server_by_name : List ℕ → Servers D → Run (Option ℕ)
  get_server_by_name name t = find_server t.server_count 0 name t

  -- `s` is what `init()` returns.
  unfoldable pub lwnbd_server_init : Option (Server D) → Servers D → ℕ × Servers D
  lwnbd_server_init s t =
      let i = first_free t.servers_status in
      if i == max_num_servers then (no_server, t) else elim s [
        | none ↦ (no_server, t)
        | some srv ↦ elim srv.new [
          | none ↦ (no_server, t)
          | some new ↦
              let (handle, dev) = new t.dev in
              (
                i,
                record t {
                  servers = set t.servers i (record { handle = handle; s = some srv });
                  servers_status = set t.servers_status i stopped;
                  dev = dev;
                },
              )
        ]
      ]

  -- `servers[handle]` and the server it points to
  abbrev pub instance_at : ℕ → Servers D → Run (Instance D × Server D)
  instance_at handle t = do si ← deref (get_elem? t.servers handle); s ← deref si.s; done (si, s)

  unfoldable pub lwnbd_server_config : ℕ → List ℕ → List ℕ → Servers D → Run (ℤ × Servers D)
  lwnbd_server_config handle key value t = do
    (si, s) ← instance_at handle t
    elim s.config [
      | none ↦ done (minus_one, t)
      | some config ↦
          let (r, dev) = config si.handle key value t.dev in done (r, record t { dev = dev })
    ]

  unfoldable pub lwnbd_server_new : ℕ → ℕ → Servers D → Run (ℤ × Servers D)
  lwnbd_server_new handle pconfig t = do
    (si, s) ← instance_at handle t
    ctor ← deref s.ctor
    let (r, dev) = ctor si.handle pconfig t.dev
    done (r, record t { dev = dev })

  unfoldable pub lwnbd_server_dump : ℕ → Servers D → Run ℤ
  lwnbd_server_dump handle t = instance_at handle t >>= λ si. done (pos 0)

  -- `st = SRV_STARTED` sets a copy, so the table keeps its state.
  abbrev pub run_stopped : ServerState → ℕ → ℕ → Servers D → Run (Servers D)
  run_stopped free handle client t = done t
  run_stopped started handle client t = done t
  run_stopped stopped handle client t = do
    (si, s) ← instance_at handle t
    run ← deref s.run
    done (record t { dev = run si.handle client t.dev })

  unfoldable pub lwnbd_server_run : ℕ → ℕ → Servers D → Run (Servers D)
  lwnbd_server_run handle client t = do
    st ← deref (get_elem? t.servers_status handle)
    run_stopped st handle client t

  unfoldable pub lwnbd_server_stop : ℕ → Servers D → Run (ℤ × Servers D)
  lwnbd_server_stop handle t = do
    (si, s) ← instance_at handle t
    stop ← deref s.stop
    done (
      pos 0,
      record t { servers_status = set t.servers_status handle free; dev = stop si.handle t.dev },
    )

-- `struct fd_state`; a callback and the user's data are opaque pointers, 0 for NULL
pub record FdState : Type 0 where
  pub want_read : Bool
  pub want_write : Bool
  pub on_read : ℕ
  pub on_write : ℕ
  pub userdata : ℕ
  pub last_activity : ℕ

-- `efds[fd]`, changed; outside the array is a fault
abbrev pub change_fd : (FdState → FdState) → ℕ → List FdState → Run (List FdState)
change_fd f fd efds = deref (get_elem? efds fd) >>= λ e. done (set efds fd (f e))

-- `now` is what `time(NULL)` returns.
unfoldable pub event_watch_readable : ℕ → ℕ → ℕ → ℕ → List FdState → Run (List FdState)
event_watch_readable now fd cb userdata efds =
    change_fd
      (λ e. record e { want_read = true; on_read = cb; userdata = userdata; last_activity = now })
      fd efds

unfoldable pub event_watch_writable : ℕ → ℕ → ℕ → ℕ → List FdState → Run (List FdState)
event_watch_writable now fd cb userdata efds =
    change_fd
      (λ e. record e { want_write = true; on_write = cb; userdata = userdata; last_activity = now })
      fd efds

unfoldable pub event_remove : ℕ → List FdState → Run (List FdState)
event_remove fd efds =
    change_fd
      (λ e. record {
        want_read = false;
        want_write = false;
        on_read = 0;
        on_write = 0;
        userdata = 0;
        last_activity = 0;
      })
      fd efds
