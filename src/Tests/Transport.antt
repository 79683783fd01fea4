-- ===== src/Tests/Transport.antt =====
-- A message of four bytes that arrives in two segments.
use lw_nbd.Prelude.{◌≡◌, List, ℕ, [], ◌∷◌, ◌++◌, map, refl, done, arith}
use lw_nbd.Conn.{Recv, recv}
use lw_nbd.Tcp.{tcp_recv_block}
use lw_nbd.Tcp.Segments.{segment, joined, tcp_recv_block-segments}
use lw_nbd.Tests.{conn_of}

abbrev two_segments : List (List ℕ)
two_segments = (1 ∷ 2 ∷ []) ∷ (3 ∷ 4 ∷ []) ∷ []

abbrev next_segment : List Recv
next_segment = segment (9 ∷ []) ∷ []

tcp_recv_block-segments_example :
    tcp_recv_block (conn_of (map segment two_segments ++ next_segment)) (0 ∷ 0 ∷ 0 ∷ 0 ∷ 7 ∷ []) 4
    ≡ done
        (recv (conn_of (segment (joined two_segments) ∷ next_segment)) (0 ∷ 0 ∷ 0 ∷ 0 ∷ 7 ∷ []) 4)
tcp_recv_block-segments_example =
    tcp_recv_block-segments next_segment two_segments (0 ∷ 0 ∷ 0 ∷ 0 ∷ 7 ∷ []) 4 (conn_of [])
      (omega arith) refl (omega arith)
