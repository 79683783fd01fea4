-- ===== src/Tests/Reading.antt =====
-- READ: served, refused, with a transfer flag left over, over a failing plugin, and stuck.
use lw_nbd.Prelude.{◌≡◌, ◌*◌, ◌/◌, refl, inl, [], Returns, out_of_fuel, done, arith}
use lw_nbd.Nbd.Phase.{Phase}
use lw_nbd.Nbd.Read.{read_request, read_loop, finished, exhausted}
use lw_nbd.Nbd.Read.Replies.{Served, Finishes, read_request-Served, read_request-Finishes}
use lw_nbd.Nbd.Read.Refuse.{refused, Leftover, read_request-past_end, read_request-stale_flag}
use lw_nbd.Nbd.Read.Retries.{read_loop-NeverReads}
use lw_nbd.Nbd.Wire.{Request}
use lw_nbd.Tests.{
  Medium, view, ram_plugin, broken_plugin, ram_pread, broken_pread, ram_config, request_of,
  ram_pread-ReadsFrom, ram_pread-AlwaysReads, broken_pread-NeverReads, phase_of,
}
use lw_nbd.Tests.Session.{read_six, read_six-IsServable}

abbrev idle : Phase Medium
idle = phase_of ram_plugin []

read_request-Served_example :
    Returns
      (read_request ram_config 2 read_six idle)
      (Served view read_six (4 / 2 * 2) (6 / 2 * 2) idle)
read_request-Served_example =
    read_request-Served view ram_config 2 read_six idle ram_plugin ram_pread
      (read_six-IsServable []) refl refl ram_pread-ReadsFrom

read_request-Finishes_example : Returns (read_request ram_config 2 read_six idle) (Finishes idle)
read_request-Finishes_example =
    read_request-Finishes view ram_config 2 read_six idle ram_plugin ram_pread
      (read_six-IsServable []) refl refl ram_pread-ReadsFrom ram_pread-AlwaysReads refl

abbrev beyond : Request
beyond = request_of 0 98 6

read_request-past_end_example :
    read_request ram_config 2 beyond idle ≡ done (finished, refused ram_config 2 beyond idle)
read_request-past_end_example = read_request-past_end ram_config 2 beyond idle refl refl

-- what a READ leaves whose second chunk could not be sent
abbrev cut_short : Phase Medium
cut_short = record idle {
  sendflag = 0x8000;
  bufblksz = 2;
  byteread = 4;
  blkremains = 3;
  offset = 2;
}

read_request-stale_flag_example :
    Returns (read_request ram_config 2 beyond cut_short) (Leftover view 2 beyond cut_short)
read_request-stale_flag_example =
    read_request-stale_flag view ram_config 2 ram_plugin ram_pread refl beyond cut_short refl
      ram_pread-ReadsFrom
      (record {
        rem_small = omega arith;
        fits = omega arith;
        exact = refl;
        progress = inl (omega arith);
        ended = λ e. absurd (omega (arith, e));
        in_range = omega arith;
      })
      refl

abbrev failing : Phase Medium
failing = record (phase_of broken_plugin []) {
  sendflag = 0x8000;
  bufblksz = 2;
  byteread = 4;
  blkremains = 3;
  offset = 2;
}

read_loop-NeverReads_example :
    Returns
      (read_loop ram_config 2 6 failing)
      (λ es. (es.0 ≡ exhausted) × (es.1.conn ≡ failing.conn))
    × (read_loop ram_config 2 5 failing ≡ out_of_fuel)
read_loop-NeverReads_example =
    read_loop-NeverReads ram_config 2 broken_plugin broken_pread refl 5 failing refl
      (λ e. absurd (omega (arith, e))) refl broken_pread-NeverReads
