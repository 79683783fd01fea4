-- ===== src/Tests/Returning.antt =====
-- A client that writes, reads the same bytes back and disconnects.
use lw_nbd.Prelude.{ℕ, refl, some, List, [], ◌∷◌, Returns, arith}
use lw_nbd.Nbd.Transmission.{transmission_phase}
use lw_nbd.Nbd.Transmission.WriteSession.{conversation, ReadBack, transmission_phase-ReadBack}
use lw_nbd.Nbd.Wire.{Request}
use lw_nbd.Nbd.Write.Pieces.{AlwaysWrites}
use lw_nbd.Tests.{
  view, numbered, ram_plugin, ram_config, ram_export, ram_pread, ram_pwrite, ram_pread-ReadsFrom,
  ram_pread-AlwaysReads, ram_pwrite-WritesTo, conn_of, request_of,
}
use lw_nbd.Tests.Session.{read_six, goodbye, read_six-IsWellSized, goodbye-IsWellSized}

abbrev write_six : Request
write_six = request_of 1 4 6

-- six bytes, in a piece of two blocks and one of one
abbrev two_pieces : List (List ℕ)
two_pieces = (11 ∷ 12 ∷ 13 ∷ 14 ∷ []) ∷ (15 ∷ 16 ∷ []) ∷ []

abbrev six : List ℕ
six = 11 ∷ 12 ∷ 13 ∷ 14 ∷ 15 ∷ 16 ∷ []

ram_pwrite-AlwaysWrites : AlwaysWrites 0 ram_pwrite
ram_pwrite-AlwaysWrites = λ buf count offset m. refl

transmission_phase-ReadBack_example :
    Returns
      (transmission_phase ram_config
        (some (ram_export ram_plugin))
        []
        []
        (conn_of (conversation write_six two_pieces read_six goodbye []))
        numbered)
      (ReadBack
        (ram_export ram_plugin)
        write_six
        read_six
        six
        (conn_of (conversation write_six two_pieces read_six goodbye []))
        [])
transmission_phase-ReadBack_example =
    transmission_phase-ReadBack view ram_config (ram_export ram_plugin) ram_plugin ram_pread
      ram_pwrite refl refl refl ram_pread-ReadsFrom ram_pwrite-WritesTo ram_pread-AlwaysReads
      ram_pwrite-AlwaysWrites refl write_six read_six goodbye two_pieces []
      (record {
        sized = record {
          magic = omega arith;
          flags = omega arith;
          type = omega arith;
          handle = refl;
          offset = omega arith;
          count = omega arith;
        };
        magic = refl;
        kind = refl;
      })
      (record { sized = read_six-IsWellSized; magic = refl; kind = refl })
      (record { sized = goodbye-IsWellSized; magic = refl; kind = refl }) refl refl refl refl
      (omega arith) (omega arith, refl, (omega arith, refl, refl))
      (conn_of (conversation write_six two_pieces read_six goodbye [])) [] [] numbered refl refl
      (record {
        count_width = omega arith;
        offset_width = omega arith;
        positive = omega arith;
        fits = omega arith;
        small = omega arith;
        no_wrap = omega arith;
        within = refl;
      })
