-- ===== src/Nbd/Transmission.antt =====
-- `transmission_phase` and `nbd_commands_to_string` of servers/nbd/protocol.c.
pub mod Dispatch
pub mod Session
pub mod WriteSession
use lw_nbd.Prelude.{
  ℕ, ℤ, zero, suc, ◌+◌, Option, none, some, List, [], ◌∷◌, Run, done, out_of_fuel, ◌>>=◌, deref,
  get_elem?, length, ltb, ◌==◌, not, if◌then◌else◌, is_zero, as_size, minus_one, pos,
}
use Prim.Native.String.{String}
use lw_nbd.Conn.{Conn, recv, send}
use lw_nbd.Device.{lwnbd_flush}
use lw_nbd.Nbd.Errno
use lw_nbd.Nbd.Context.{NbdContext, State}
use lw_nbd.Nbd.Phase.{Config, Phase}
use lw_nbd.Nbd.Read.{read_request, ReadEnd, exhausted}
use lw_nbd.Nbd.Write.{write_request}
use lw_nbd.Nbd.Wire.{Request, request_magic, decode_request, host_order, simple_reply}

abbrev pub nbd_commands : List String
nbd_commands =
    "NBD_CMD_READ" ∷ "NBD_CMD_WRITE" ∷ "NBD_CMD_DISC" ∷ "NBD_CMD_FLUSH" ∷ "NBD_CMD_TRIM"
    ∷ "NBD_CMD_CACHE" ∷ "NBD_CMD_WRITE_ZEROES" ∷ "NBD_CMD_BLOCK_STATUS" ∷ []

-- The array is read with no check.
unfoldable pub nbd_commands_to_string : ℕ → Run String
nbd_commands_to_string f = deref (get_elem? nbd_commands f)

-- The labels of the `switch` on the request's type that have code of their own.
pub data Command : Type 0 where
  read write disc flush unsupported : Command

unfoldable pub command : ℕ → Command
command zero = read
command (suc zero) = write
command (suc (suc zero)) = disc
command (suc (suc (suc zero))) = flush
command (suc (suc (suc (suc n)))) = unsupported

-- What a round of `while (1)` does next: another round, or `return` with a value.
pub data Next : Type 0 where
  continue : Next
  return : ℤ → Next

-- the size of `struct nbd_request`
abbrev pub request_size : ℕ
request_size = 28

abbrev pub after_read : ReadEnd → Next
after_read exhausted = return minus_one
after_read _ = continue

module _ {D : Type 0} (cfg : Config) (blocksize : ℕ) where
  unfoldable pub flush_request : Request → Phase D → Run (Phase D)
  flush_request req s = do
    (r, dev) ← lwnbd_flush s.ctx.base 0 s.dev
    let error = if is_zero r then Errno.success else Errno.io
    let (sent, conn) = send s.conn (simple_reply error req.handle) 0
    done (record s { dev = dev; error = error; conn = conn })

  unfoldable pub invalid_request : Request → Phase D → Phase D
  invalid_request req s =
      let (sent, conn) = send s.conn (simple_reply Errno.inval req.handle) 0 in
      record s { conn = conn }

  -- the `switch (request.type)`
  unfoldable pub handle_command : Command → Request → Phase D → Run (Next × Phase D)
  handle_command read req s = do
    (end, s') ← read_request cfg blocksize req s
    done (after_read end, s')
  handle_command write req s = do s' ← write_request cfg blocksize req s; done (continue, s')
  handle_command disc req s =
      done (return (pos 0), record s { ctx = record (s.ctx) { state = State.abort } })
  handle_command flush req s = do s' ← flush_request req s; done (continue, s')
  handle_command unsupported req s = done (continue, invalid_request req s)

  -- One round of `while (1)`. The receive's result is an `int` compared with a `size_t`.
  unfoldable pub request_round : Phase D → Run (Next × Phase D)
  request_round s =
      let (r, buf, conn) = recv s.conn s.request request_size in
      let req = decode_request buf in
      let s' = record s { request = host_order buf; conn = conn } in
      if ltb (as_size r) request_size
      then done (return minus_one, s')
      else if not (req.magic == request_magic)
      then done (return minus_one, s')
      else (nbd_commands_to_string req.type >>= λ _. handle_command (command req.type) req s')

  unfoldable pub request_loop : ℕ → Phase D → Run (ℤ × Phase D)
  request_loop zero s = out_of_fuel
  request_loop (suc fuel) s = request_round s >>= λ ns. elim ns.0 [
    | continue ↦ request_loop fuel ns.1
    | return r ↦ done (r, ns.1)
  ]

-- `none` for a NULL context. `request` and `nbd_buffer` are what the uninitialised locals hold; the
-- variable `error` is always assigned before it is read.
abbrev pub start : {D : Type 0} → Config → NbdContext D → List ℕ → List ℕ → Conn → D → Phase D
start cfg ctx request nbd_buffer conn dev = record {
  ctx = ctx;
  error = 0;
  retry = cfg.max_retries;
  sendflag = 0;
  blkremains = 0;
  byteread = 0;
  bufblksz = 0;
  offset = 0;
  nbd_buffer = nbd_buffer;
  request = request;
  conn = conn;
  dev = dev;
}

-- Each round takes an entry of the inbox, so its length bounds the rounds.
unfoldable pub transmission_phase :
    {D : Type 0}
    → Config
    → Option (NbdContext D)
    → List ℕ
    → List ℕ
    → Conn
    → D
    → Run (ℤ × Option (NbdContext D) × Conn × D)
transmission_phase cfg none request nbd_buffer conn dev = done (minus_one, none, conn, dev)
transmission_phase cfg (some ctx) request nbd_buffer conn dev = do
  (r, s) ←
      request_loop cfg ctx.minimum_block_size (length conn.inbox + 1)
        (start cfg ctx request nbd_buffer conn dev)
  done (r, some s.ctx, s.conn, s.dev)
