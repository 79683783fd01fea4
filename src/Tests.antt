-- ===== src/Tests.antt =====
-- Concrete plugins, contexts and states, on which the theorems are applied to whole runs. The device
-- is a medium of bytes in blocks of two, the buffer has room for two blocks.
mod Session
mod Reading
mod Writing
mod Rounds
mod Exports
mod Haggling
mod Negotiating
mod Returning
mod Generated
mod Serving
mod Memories
mod Transport
mod Terminal
mod Cards
mod Disk
mod Shell
mod Shares
use lw_nbd.Prelude.{
  ℕ, ℤ, pos, minus_one, zero, suc, ◌*◌, ◌+◌, ◌≡◌, refl, ap, false, Option, some, none, List, [],
  ◌∷◌, take-all, sym,
}
use lw_nbd.Plugin.{Plugin, Context, Fields}
use lw_nbd.Conn.{Conn, Recv}
use lw_nbd.Nbd.Context.{NbdContext, State}
use lw_nbd.Nbd.Phase.{Config, Phase}
use lw_nbd.Nbd.Medium.{
  Pread, ReadsFrom, WritesTo, AlwaysReads, NeverReads, span, length-span, patch,
}
use lw_nbd.Nbd.Transmission.{start}
use lw_nbd.Nbd.Wire.{Request, request_magic}
use lw_nbd.Text.{codes}

abbrev pub Medium : Type 0
Medium = ℕ → ℕ

-- byte `a` of the medium is `a` itself
abbrev pub numbered : Medium
numbered a = a

abbrev pub view : Medium → ℕ → ℕ
view m = m

abbrev pub ram_pread : Pread Medium
ram_pread handle buf count offset flags m = (pos 0, span m (offset * 2) (count * 2), m)

abbrev pub ram_pwrite : ℕ → List ℕ → ℕ → ℕ → ℕ → Medium → ℤ × Medium
ram_pwrite handle buf count offset flags m = (pos 0, patch m (offset * 2) buf)

abbrev pub broken_pread : Pread Medium
broken_pread handle buf count offset flags m = (minus_one, buf, m)

abbrev pub accepting_ctor : ℕ → Option Fields → Medium → ℤ × Option Fields × Medium
accepting_ctor pconfig f m = (pos 0, f, m)

abbrev pub refusing_ctor : ℕ → Option Fields → Medium → ℤ × Option Fields × Medium
refusing_ctor pconfig f m = (minus_one, f, m)

abbrev pub ram_plugin : Plugin Medium
ram_plugin = record {
  name = codes "ram";
  longname = codes "ram disk";
  load = none;
  get_size = none;
  pread = some ram_pread;
  pwrite = some ram_pwrite;
  flush = none;
  block_size = none;
  config = none;
  magic_config_key = none;
  ctor = some accepting_ctor;
  query = none;
  export_without_handle = false;
}

abbrev pub broken_plugin : Plugin Medium
broken_plugin = record ram_plugin { pread = some broken_pread }

abbrev pub ram_fields : Fields
ram_fields = record { handle = 0; name = codes "ram0"; description = []; exportsize = pos 100 }

abbrev pub ram_export : Plugin Medium → NbdContext Medium
ram_export p = record {
  base = record { fields = ram_fields; p = some p };
  eflags = 1;
  minimum_block_size = 2;
  preferred_block_size = 2;
  maximum_block_size = 2;
  gflags = 0;
  readonly = false;
  state = State.transmission;
}

abbrev pub ram_config : Config
ram_config = record { max_retries = 5; nbd_buffer_len = 4 }

abbrev pub no_recvs : List Recv
no_recvs = []

abbrev pub conn_of : List Recv → Conn
conn_of inbox = record { inbox = inbox; acks = []; outbox = [] }

abbrev pub phase_of : Plugin Medium → List Recv → Phase Medium
phase_of p inbox = start ram_config (ram_export p) [] [] (conn_of inbox) numbered

abbrev pub handle_a : List ℕ
handle_a = 1 ∷ 2 ∷ 3 ∷ 4 ∷ 5 ∷ 6 ∷ 7 ∷ 8 ∷ []

abbrev pub request_of : ℕ → ℕ → ℕ → Request
request_of type offset count = record {
  magic = request_magic;
  flags = 0;
  type = type;
  handle = handle_a;
  offset = offset;
  count = count;
}

pub ram_pread-ReadsFrom : ReadsFrom view 2 0 ram_pread
ram_pread-ReadsFrom = record {
  reads =
      λ buf count offset m e. take-all (count * 2) _ (sym (length-span m (offset * 2) (count * 2)));
  keeps = λ buf count offset m. refl;
}

pub ram_pwrite-WritesTo : WritesTo view 2 0 ram_pwrite
ram_pwrite-WritesTo = record { writes = λ buf count offset m h e. refl }

pub ram_pread-AlwaysReads : AlwaysReads 0 ram_pread
ram_pread-AlwaysReads = λ buf count offset m. refl

pub broken_pread-NeverReads : NeverReads 0 broken_pread
broken_pread-NeverReads = λ buf count offset m. refl
