-- ===== src/Servers/Table.antt =====
-- The table of servers: what a registration leaves.
use lw_nbd.Prelude.{
  zero, suc, ℕ, ◌≤◌, ◌<◌, ◌≡◌, ◌≢◌, refl, sym, ap, ◌∙◌, false, some, List, [], ◌∷◌, set, get_elem?,
  get_elem?-set_self, get_elem?-set_ne, length, length-set, ◌==◌, ==_iff, Bool-cases, not_both, ◌⊎◌,
  inl, inr, arith,
}
use lw_nbd.Servers.{
  ServerState, free, stopped, started, Server, Instance, Servers, max_num_servers, no_server,
  first_free, lwnbd_server_init,
}

pub record IsTable {D : Type 0} (t : Servers D) : Type 0 where
  pub servers_size : length t.servers ≡ max_num_servers
  pub status_size : length t.servers_status ≡ max_num_servers
  -- an entry in use has a server, and that has a `new`
  pub in_use :
      (i : ℕ) (st : ServerState)
      → get_elem? t.servers_status i ≡ some st
      → st ≢ free
      → (si : Instance D) × (s : Server D) × (get_elem? t.servers i ≡ some si) × (si.s ≡ some s)

first_free-le : (l : List ServerState) → first_free l ≤ length l
unfolding first_free
first_free-le [] = omega arith
first_free-le (free ∷ l) = omega arith
first_free-le (stopped ∷ l) = omega (arith, first_free-le l)
first_free-le (started ∷ l) = omega (arith, first_free-le l)

first_free-get_elem? :
    (l : List ServerState) → first_free l < length l → get_elem? l (first_free l) ≡ some free
unfolding first_free
first_free-get_elem? [] h = absurd (omega arith)
first_free-get_elem? (free ∷ l) h = refl
first_free-get_elem? (stopped ∷ l) h = first_free-get_elem? l (omega arith)
first_free-get_elem? (started ∷ l) h = first_free-get_elem? l (omega arith)

-- Where the loop of `lwnbd_server_init` comes to the end, no entry is free.
first_free-none :
    (l : List ServerState) (i : ℕ) → first_free l ≡ length l → get_elem? l i ≢ some free
unfolding first_free
first_free-none [] i e = cc
first_free-none (free ∷ l) i e = absurd (omega (arith, e))
first_free-none (stopped ∷ l) zero e = cc
first_free-none (stopped ∷ l) (suc i) e = first_free-none l i (omega (arith, e))
first_free-none (started ∷ l) zero e = cc
first_free-none (started ∷ l) (suc i) e = first_free-none l i (omega (arith, e))

module _ {D : Type 0} where
  -- The table with a server put in at an index.
  abbrev put : ℕ → Instance D → D → Servers D → Servers D
  put i si dev t = record t {
    servers = set t.servers i si;
    servers_status = set t.servers_status i stopped;
    dev = dev;
  }

  put-IsTable :
      (t : Servers D) (i : ℕ) (si : Instance D) (s : Server D) (dev : D)
      → IsTable t
      → i < max_num_servers
      → si.s ≡ some s
      → IsTable (put i si dev t)
  put-IsTable t i si s dev v lt has = record {
    servers_size = length-set t.servers i si ∙ v.servers_size;
    status_size = length-set t.servers_status i stopped ∙ v.status_size;
    in_use = λ j st at used. elim (Bool-cases (i == j)) [
      | inl same ↦
          let e : i ≡ j = (==_iff i j).0 same in
          (
            si,
            s,
            ap (λ k. get_elem? (set t.servers i si) k) (sym e)
                ∙ get_elem?-set_self t.servers i si (omega (arith, v.servers_size)),
            has,
          )
      | inr other ↦
          let ne : i ≢ j = λ e. not_both ((==_iff i j).1 e) other in
          let old = v.in_use j st (sym (get_elem?-set_ne t.servers_status stopped ne) ∙ at) used in
          (old.0, old.1, get_elem?-set_ne t.servers si ne ∙ old.2, old.3)
    ];
  }

  init_room :
      (t : Servers D) (s : Server D) (new : D → ℕ × D)
      → s.new ≡ some new
      → (first_free t.servers_status == max_num_servers) ≡ false
      → lwnbd_server_init (some s) t ≡ (
        first_free t.servers_status,
        put
            (first_free t.servers_status)
            (record { handle = (new t.dev).0; s = some s })
            (new t.dev).1
            t,
      )
  unfolding lwnbd_server_init
  init_room t s new has room = simp (room, has) refl

  -- Either `lwnbd_server_init` puts a server that has a `new` into an entry that was free, with
  -- the handle that `new` gives, and the entry is then stopped and the others are as they were; or
  -- no entry is free, and it gives -1 and leaves the table as it is. A table whose entries in use
  -- all have a server stays one.
  pub lwnbd_server_init-IsTable :
      (t : Servers D) (s : Server D) (new : D → ℕ × D)
      → IsTable t
      → s.new ≡ some new
      → let (i, t') = lwnbd_server_init (some s) t in
        IsTable t'
        × (((get_elem? t.servers_status i ≡ some free)
              × (get_elem? t'.servers_status i ≡ some stopped)
              × (get_elem? t'.servers i ≡ some (record { handle = (new t.dev).0; s = some s }))
              × ((j : ℕ) → i ≢ j → get_elem? t'.servers_status j ≡ get_elem? t.servers_status j)
              × ((j : ℕ) → i ≢ j → get_elem? t'.servers j ≡ get_elem? t.servers j))
            ⊎ (((j : ℕ) → get_elem? t.servers_status j ≢ some free) × (i ≡ no_server) × (t' ≡ t)))
  unfolding lwnbd_server_init
  lwnbd_server_init-IsTable t s new v has =
      elim (Bool-cases (first_free t.servers_status == max_num_servers)) [
        | inl full ↦ rw full (
          v,
          inr (
            λ j.
                first_free-none t.servers_status j (
                  (==_iff (first_free t.servers_status) max_num_servers).0 full
                  ∙ sym v.status_size),
            refl,
            refl,
          ),
        )
        | inr room ↦ rw (init_room t s new has room) (
            let lt : first_free t.servers_status < max_num_servers =
              ground (arith, first_free-le t.servers_status, v.status_size) in
            (
              put-IsTable t (first_free t.servers_status) _ s _ v lt refl,
              inl (
                first_free-get_elem? t.servers_status (omega (arith, v.status_size)),
                get_elem?-set_self t.servers_status _ stopped (omega (arith, v.status_size)),
                get_elem?-set_self t.servers _ _ (omega (arith, v.servers_size)),
                λ j ne. get_elem?-set_ne t.servers_status stopped ne,
                λ j ne. get_elem?-set_ne t.servers _ ne,
              ),
            ))
      ]
