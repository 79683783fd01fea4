-- ===== src/Nbd/Handshake.antt =====
-- servers/nbd/protocol-handshake.c: the greeting and the haggling over options. The client's socket
-- and the context's are taken for the same connection, as the server means them to be.
pub mod Listing
pub mod Replies
pub mod Exporting
pub mod Negotiation
use lw_nbd.Prelude.{
  ℕ, ℤ, pos, minus_one, zero, suc, ◌+◌, ◌^◌, ◌≤◌, Bool, true, false, not, Option, none, some, List,
  [], ◌∷◌, ◌++◌, Run, done, fault, out_of_fuel, ◌>>=◌, deref, get_elem?, length, replicate, take,
  drop, ltb, ◌==◌, if◌then◌else◌, as_size, as_u32,
}
use Prim.Native.String.{String}
use lw_nbd.Conn.{Conn, recv, send}
use lw_nbd.Contexts.{lwnbd_contexts_count, lwnbd_get_context_i}
use lw_nbd.System.{System}
use lw_nbd.Uri.{Yuarel, lwnbd_get_context}
use lw_nbd.Nbd.Context.{NbdContext, State}
use lw_nbd.Nbd.Phase.{Config, msg_more}
use lw_nbd.Nbd.Transmission.{Next, continue, return}
use lw_nbd.Nbd.Wire.{
  be, of_be, has_flag, add_flag, nbd_magic, new_version, rep_magic, rep_ack, rep_server,
  rep_err_unsup, flag_no_zeroes, flag_read_only,
}

abbrev pub nbd_options : List (Option String)
nbd_options =
    none
    ∷ some "NBD_OPT_EXPORT_NAME"
    ∷ some "NBD_OPT_ABORT"
    ∷ some "NBD_OPT_LIST"
    ∷ some "NBD_OPT_STARTTLS"
    ∷ some "NBD_OPT_INFO"
    ∷ some "NBD_OPT_GO"
    ∷ some "NBD_OPT_STRUCTURED_REPLY"
    ∷ some "NBD_OPT_LIST_META_CONTEXT"
    ∷ some "NBD_OPT_SET_META_CONTEXT"
    ∷ []

-- The array is read with no check; the first pointer is NULL.
unfoldable pub nbd_option_to_string : ℕ → Run (Option String)
nbd_option_to_string f = deref (get_elem? nbd_options f)

-- The labels of the `switch` on the option that have code of their own.
pub data Opt : Type 0 where
  export_name abort list unsupported : Opt

unfoldable pub opt : ℕ → Opt
opt zero = unsupported
opt (suc zero) = export_name
opt (suc (suc zero)) = abort
opt (suc (suc (suc zero))) = list
opt (suc (suc (suc (suc n)))) = unsupported

-- `ctx` is the server's context, `client_ctx` is `c->ctx`, a pointer into the pool.
pub record Haggle (D : Type 0) : Type 0 where
  pub ctx : NbdContext D
  pub client_ctx : Option ℕ
  pub sys : System D
  pub new_opt : List ℕ
  pub nbd_buffer : List ℕ
  pub conn : Conn

-- `struct nbd_new_handshake`, `struct nbd_fixed_new_option_reply` and, up to its zeroes,
-- `struct nbd_export_name_option_reply`
abbrev pub new_handshake : ℕ → List ℕ
new_handshake gflags = be 8 nbd_magic ++ (be 8 new_version ++ be 2 gflags)

abbrev pub option_reply : ℕ → ℕ → ℕ → List ℕ
option_reply option reply replylen =
    be 8 rep_magic ++ (be 4 option ++ (be 4 reply ++ be 4 replylen))

abbrev pub export_name_reply : ℕ → ℕ → List ℕ
export_name_reply exportsize eflags = be 8 exportsize ++ be 2 eflags

-- the characters before the end mark
unfoldable pub c_string : List ℕ → List ℕ
c_string [] = []
c_string (zero ∷ bs) = []
c_string (suc b ∷ bs) = suc b ∷ c_string bs

module _ {D : Type 0} where
  -- A send, and whether the test of its result, an `int` compared with a `size_t`, lets it pass.
  unfoldable pub send_whole : List ℕ → ℕ → Haggle D → Bool × Haggle D
  send_whole bytes flags s =
      let (r, conn) = send s.conn bytes flags in
      (not (ltb (as_size r) (length bytes)), record s { conn = conn })

  -- One export's part of the answer to LIST: four sends, each with its test.
  unfoldable pub send_export : ℕ → List ℕ → List ℕ → Haggle D → Bool × Haggle D
  send_export option name description s =
      let len = length name + 4 + length description in
      let (ok₁, s₁) = send_whole (option_reply option rep_server len) msg_more s in
      if not ok₁
      then (false, s₁)
      else let (ok₂, s₂) = send_whole (be 4 (length name)) msg_more s₁ in
        if not ok₂
        then (false, s₂)
        else let (ok₃, s₃) = send_whole name msg_more s₂ in
          if not ok₃ then (false, s₃) else send_whole description msg_more s₃

  -- The loop over the `n` contexts from index `i` on.
  unfoldable pub list_exports : ℕ → ℕ → ℕ → Haggle D → Run (Bool × Haggle D)
  list_exports zero i option s = done (true, s)
  list_exports (suc n) i option s = do
    c ← deref (lwnbd_get_context_i s.sys.pool i)
    let (ok, s') = send_export option c.name c.description s
    let rest = list_exports n (i + 1) option s'
    (if ok then rest else done (false, s'))

  -- A last reply without data, and what the haggling does then: `next`, or -1.
  unfoldable pub send_reply : ℕ → ℕ → Next → Haggle D → Next × Haggle D
  send_reply option reply next s =
      let (ok, s') = send_whole (option_reply option reply 0) 0 s in
      (if ok then next else return minus_one, s')

  -- `handshake_finish.eflags`
  abbrev pub export_flags : NbdContext D → ℕ
  export_flags ctx = if ctx.readonly then add_flag flag_read_only ctx.eflags else ctx.eflags

  -- The reply to EXPORT_NAME, once `c->ctx` is known.
  unfoldable pub finish : ℕ → Haggle D → Next × Haggle D
  finish cflags s = elim s.client_ctx [
    | none ↦ (return minus_one, s)
    | some c ↦
        let short = export_name_reply (as_size s.ctx.exportsize) (export_flags s.ctx) in
        let bytes = if has_flag flag_no_zeroes cflags then short else short ++ replicate 124 0 in
        let (ok, s') = send_whole bytes 0 s in
        if ok
        then (return (pos 0), record s' { ctx = record (s'.ctx) { state = State.transmission } })
        else (return minus_one, s')
  ]

  -- the `switch (new_opt.option)`
  unfoldable pub handle_option : Yuarel → ℕ → Opt → ℕ → ℕ → Haggle D → Run (Next × Haggle D)
  handle_option y cflags export_name option optlen s = do
    s' ←
        (if ltb 0 optlen
          then (lwnbd_get_context y (c_string s.nbd_buffer) s.sys >>= λ cs.
              done (record s { client_ctx = cs.0; sys = cs.1 }))
          else done s)
    done (finish cflags s')
  handle_option y cflags abort option optlen s =
      let (ok, s') = send_whole (option_reply option rep_ack 0) 0 s in
      done (
        if ok
        then (return (pos 0), record s' { ctx = record (s'.ctx) { state = State.abort } })
        else (return minus_one, s'))
  handle_option y cflags list option optlen s = do
    (ok, s') ← list_exports (lwnbd_contexts_count s.sys.pool) 0 option s
    done (if ok then send_reply option rep_ack continue s' else (return minus_one, s'))
  handle_option y cflags unsupported option optlen s =
      done (send_reply option rep_err_unsup continue s)

  -- The option's data, with an end mark behind it, which has to be within the buffer; and whether
  -- the receive was long enough. Its result is an `int` compared with a `uint32_t`.
  unfoldable pub recv_data : Config → ℕ → Haggle D → Run (Bool × Haggle D)
  recv_data cfg optlen s =
      let (r, buf, conn) = recv s.conn s.nbd_buffer optlen in
      let s' = record s { nbd_buffer = buf; conn = conn } in
      if ltb (as_u32 r) optlen
      then done (false, s')
      else if optlen == cfg.nbd_buffer_len
      then fault
      else done (true, record s' { nbd_buffer = take optlen buf ++ (0 ∷ drop (optlen + 1) buf) })

  unfoldable pub get_data : Config → ℕ → Haggle D → Run (Bool × Haggle D)
  get_data cfg optlen s = if ltb 0 optlen then recv_data cfg optlen s else done (true, s)

  -- One round of `while (1)`.
  unfoldable pub option_round : Config → Yuarel → ℕ → Haggle D → Run (Next × Haggle D)
  option_round cfg y cflags s =
      let (r, buf, conn) = recv s.conn s.new_opt 16 in
      let option = of_be (take 4 (drop 8 buf)) in
      let optlen = of_be (take 4 (drop 12 buf)) in
      let s' = record s { new_opt = buf; conn = conn } in
      if ltb (as_size r) 16
      then done (return minus_one, s')
      else if not (of_be (take 8 buf) == new_version)
      then done (return minus_one, s')
      else (nbd_option_to_string option >>= λ _.
          if ltb cfg.nbd_buffer_len optlen
          then done (return minus_one, s')
          else (get_data cfg optlen s' >>= λ got.
              if got.0
              then handle_option y cflags (opt option) option optlen got.1
              else done (return minus_one, got.1)))

  unfoldable pub option_loop : ℕ → Config → Yuarel → ℕ → Haggle D → Run (ℤ × Haggle D)
  option_loop zero cfg y cflags s = out_of_fuel
  option_loop (suc fuel) cfg y cflags s = option_round cfg y cflags s >>= λ ns. elim ns.0 [
    | continue ↦ option_loop fuel cfg y cflags ns.1
    | return r ↦ done (r, ns.1)
  ]

  -- `flags_buffer` is what the uninitialised `cflags` holds. Each round of the haggling takes an
  -- entry of the inbox, so its length bounds the rounds.
  unfoldable pub protocol_handshake : Config → Yuarel → List ℕ → Haggle D → Run (ℤ × Haggle D)
  protocol_handshake cfg y flags_buffer s =
      let (greeted, s₁) = send_whole (new_handshake s.ctx.gflags) 0 s in
      if not greeted
      then done (minus_one, s₁)
      else let (r, buf, conn) = recv s₁.conn flags_buffer 4 in
        let s₂ = record s₁ { conn = conn } in
        if ltb (as_size r) 4
        then done (minus_one, s₂)
        else if not (of_be (take 4 buf) == s.ctx.gflags)
        then done (minus_one, s₂)
        else option_loop (length conn.inbox + 1) cfg y (of_be (take 4 buf)) s₂
