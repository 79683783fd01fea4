-- ===== src/Tcp.antt =====
-- src/tcp.c: `tcp_recv_block`, which the NBD server has for its receiving callback. The `recv` of the
-- socket library is a script, as the callbacks are: what every call stores and returns.
pub mod Segments
use lw_nbd.Prelude.{
  ℕ, ℤ, pos, negsuc, zero, suc, ◌+◌, ◌-◌, true, false, List, ◌++◌, take, drop, length, ltb, ◌==◌,
  Run, done, fault, out_of_fuel, if◌then◌else◌,
}
use lw_nbd.Conn.{Conn, recv}

-- The rest of a round, once `recv` has returned; `again` goes on with the number of bytes it has
-- read. A `recv` that reports more than it was asked for has written behind `mem`.
abbrev pub after_recv :
    ℤ → ℕ → ℕ → List ℕ → Conn → (ℕ → Run (ℤ × List ℕ × Conn)) → Run (ℤ × List ℕ × Conn)
after_recv (negsuc n) left total mem socket again = done (negsuc n, mem, socket)
after_recv (pos zero) left total mem socket again = done (pos 0, mem, socket)
after_recv (pos (suc n)) left total mem socket again =
    if ltb left (suc n)
    then fault
    else if left == suc n
    then done (pos (total + suc n), mem, socket)
    else again (suc n)

-- The rounds of the `do` loop, over the bytes left and the bytes read.
unfoldable pub recv_rounds : ℕ → ℕ → ℕ → List ℕ → Conn → Run (ℤ × List ℕ × Conn)
recv_rounds zero left total mem socket = out_of_fuel
recv_rounds (suc fuel) left total mem socket =
    let (r, part, socket') = recv socket (drop total mem) left in
    let mem' = take total mem ++ part in
    after_recv r left total mem' socket' (λ n. recv_rounds fuel (left - n) (total + n) mem' socket')

-- Each round takes an entry of the script, and an empty script ends the loop.
unfoldable pub tcp_recv_block : Conn → List ℕ → ℕ → Run (ℤ × List ℕ × Conn)
tcp_recv_block socket mem len = recv_rounds (length socket.inbox + 1) len 0 mem socket
