-- ===== src/Tests/Writing.antt =====
-- WRITE: stored, and refused.
use lw_nbd.Prelude.{ℕ, ◌≡◌, pos, refl, inr, List, [], ◌∷◌, done, Returns, arith}
use lw_nbd.Conn.{Recv, send}
use lw_nbd.Nbd.Phase.{Phase}
use lw_nbd.Nbd.Phase.Accept.{IsServable}
use lw_nbd.Nbd.Write.{write_request}
use lw_nbd.Nbd.Write.Chunk.{IsHonest}
use lw_nbd.Nbd.Write.Replies.{IsWritten, refusal, write_request-IsWritten, write_request-refused}
use lw_nbd.Nbd.Wire.{Request, simple_reply}
use lw_nbd.Tests.{
  Medium, view, ram_plugin, ram_pwrite, ram_config, request_of, ram_pwrite-WritesTo, phase_of,
}

abbrev write_six : Request
write_six = request_of 1 4 6

-- Four bytes come in, then two.
abbrev two_chunks : List Recv
two_chunks =
    record { result = pos 4; stored = 10 ∷ 11 ∷ 12 ∷ 13 ∷ [] }
    ∷ record { result = pos 2; stored = 14 ∷ 15 ∷ [] }
    ∷ []

abbrev arriving : Phase Medium
arriving = phase_of ram_plugin two_chunks

write_six-IsServable : IsServable ram_config 2 write_six arriving
write_six-IsServable = record {
  count_width = omega arith;
  offset_width = omega arith;
  positive = omega arith;
  fits = omega arith;
  small = omega arith;
  no_wrap = omega arith;
  within = refl;
}

of_pos : (n m : ℕ) → pos n ≡ pos m → n ≡ m
of_pos n m e = cc

IsHonest-four : IsHonest (record { result = pos 4; stored = 10 ∷ 11 ∷ 12 ∷ 13 ∷ [] })
IsHonest-four = record {
  count = λ n e. (of_pos 4 n e, omega (arith, of_pos 4 n e));
  failure = λ n e. absurd (cc);
}

IsHonest-two : IsHonest (record { result = pos 2; stored = 14 ∷ 15 ∷ [] })
IsHonest-two = record {
  count = λ n e. (of_pos 2 n e, omega (arith, of_pos 2 n e));
  failure = λ n e. absurd (cc);
}

write_request-IsWritten_example :
    Returns (write_request ram_config 2 write_six arriving) (IsWritten view write_six 4 6 arriving)
write_request-IsWritten_example =
    write_request-IsWritten view ram_config 2 write_six arriving ram_plugin ram_pwrite
      write_six-IsServable refl refl refl ram_pwrite-WritesTo (IsHonest-four, (IsHonest-two, tt))
      refl refl

abbrev beyond : Request
beyond = request_of 1 98 6

write_request-refused_example :
    write_request ram_config 2 beyond arriving
    ≡ done (record arriving {
      error = refusal beyond arriving;
      conn = (send arriving.conn (simple_reply (refusal beyond arriving) beyond.handle) 0).1;
    })
write_request-refused_example = write_request-refused ram_config 2 beyond arriving refl (inr refl)
