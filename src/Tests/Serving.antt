-- ===== src/Tests/Serving.antt =====
-- The table of servers, empty.
use lw_nbd.Prelude.{ℕ, ◌≡◌, ◌≢◌, ◌⊎◌, suc, zero, refl, none, some, [], ◌∷◌, get_elem?}
use lw_nbd.Servers.{
  Server, Instance, Servers, ServerState, free, stopped, no_server, lwnbd_server_init,
}
use lw_nbd.Servers.Table.{IsTable, lwnbd_server_init-IsTable}
use lw_nbd.Text.{codes}

-- The state counts the clients served.
abbrev counter : Server ℕ
counter = record {
  name = codes "counter";
  new = some (λ d. (7, d));
  stop = none;
  config = none;
  ctor = none;
  run = some (λ handle client d. suc d);
}

abbrev idle_instance : Instance ℕ
idle_instance = record { handle = 0; s = none }

abbrev no_servers : Servers ℕ
no_servers = record {
  servers = idle_instance ∷ idle_instance ∷ [];
  servers_status = free ∷ free ∷ [];
  servers_bis = none ∷ none ∷ [];
  server_count = 0;
  dev = 0;
}

no_servers-IsTable : IsTable no_servers
no_servers-IsTable = record {
  servers_size = refl;
  status_size = refl;
  in_use = λ i st at used. absurd (used (all_free i st at));
}
  where
    all_free :
        (i : ℕ) (st : ServerState)
        → get_elem? (ServerState.free ∷ ServerState.free ∷ []) i ≡ some st
        → st ≡ free
    all_free zero st at = cc
    all_free (suc zero) st at = cc
    all_free (suc (suc i)) st at = cc

lwnbd_server_init-IsTable_example :
    let (i, t') = lwnbd_server_init (some counter) no_servers in
    IsTable t'
    × (((get_elem? no_servers.servers_status i ≡ some free)
          × (get_elem? t'.servers_status i ≡ some stopped)
          × (get_elem? t'.servers i ≡ some (record { handle = 7; s = some counter }))
          × ((j : ℕ)
              → i ≢ j
              → get_elem? t'.servers_status j ≡ get_elem? no_servers.servers_status j)
          × ((j : ℕ) → i ≢ j → get_elem? t'.servers j ≡ get_elem? no_servers.servers j))
        ⊎ (((j : ℕ) → get_elem? no_servers.servers_status j ≢ some free)
            × (i ≡ no_server)
            × (t' ≡ no_servers)))
lwnbd_server_init-IsTable_example =
    lwnbd_server_init-IsTable no_servers counter (λ d. (7, d)) no_servers-IsTable refl
