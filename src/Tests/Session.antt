-- ===== src/Tests/Session.antt =====
-- A session: READ of six bytes from byte 4 on, then DISC.
use lw_nbd.Prelude.{◌≡◌, refl, some, [], ◌∷◌, ◌++◌, Returns, List, arith}
use lw_nbd.Conn.{Recv}
use lw_nbd.Nbd.Phase.Accept.{IsServable}
use lw_nbd.Nbd.Transmission.{transmission_phase}
use lw_nbd.Nbd.Transmission.Dispatch.{request_recv}
use lw_nbd.Nbd.Transmission.Session.{SessionSpec, transmission_phase-read_disc}
use lw_nbd.Nbd.Wire.Codec.{IsWellSized, decode_request-encode_request}
use lw_nbd.Nbd.Wire.{Request, decode_request, encode_request}
use lw_nbd.Tests.{
  view, numbered, ram_plugin, ram_pread, ram_export, ram_config, conn_of, request_of,
  ram_pread-ReadsFrom, ram_pread-AlwaysReads, phase_of,
}

abbrev pub read_six : Request
read_six = request_of 0 4 6

abbrev pub goodbye : Request
goodbye = request_of 2 0 0

abbrev pub session : List Recv
session = request_recv read_six ∷ request_recv goodbye ∷ []

pub read_six-IsWellSized : IsWellSized read_six
read_six-IsWellSized = record {
  magic = omega arith;
  flags = omega arith;
  type = omega arith;
  handle = refl;
  offset = omega arith;
  count = omega arith;
}

pub goodbye-IsWellSized : IsWellSized goodbye
goodbye-IsWellSized = record {
  magic = omega arith;
  flags = omega arith;
  type = omega arith;
  handle = refl;
  offset = omega arith;
  count = omega arith;
}

pub read_six-IsServable :
    (inbox : List Recv) → IsServable ram_config 2 read_six (phase_of ram_plugin inbox)
read_six-IsServable inbox = record {
  count_width = omega arith;
  offset_width = omega arith;
  positive = omega arith;
  fits = omega arith;
  small = omega arith;
  no_wrap = omega arith;
  within = refl;
}

transmission_phase-read_disc_example :
    Returns
      (transmission_phase ram_config
        (some (ram_export ram_plugin))
        []
        []
        (conn_of session)
        numbered)
      (SessionSpec view ram_config
        (ram_export ram_plugin)
        ram_plugin
        ram_pread
        refl
        refl
        ram_pread-ReadsFrom
        ram_pread-AlwaysReads
        read_six
        (conn_of session)
        numbered
        [])
transmission_phase-read_disc_example =
    transmission_phase-read_disc view ram_config (ram_export ram_plugin) ram_plugin ram_pread refl
      refl ram_pread-ReadsFrom ram_pread-AlwaysReads read_six goodbye [] (conn_of session) [] []
      numbered (record { sized = read_six-IsWellSized; magic = refl; kind = refl })
      (record { sized = goodbye-IsWellSized; magic = refl; kind = refl }) refl refl
      (read_six-IsServable session) refl refl

decode_request-encode_request_example :
    decode_request (encode_request read_six ++ (9 ∷ [])) ≡ read_six
decode_request-encode_request_example =
    decode_request-encode_request read_six (9 ∷ []) read_six-IsWellSized
