-- ===== src/Nbd/Transmission/Dispatch.antt =====
-- One round of `transmission_phase`, for each kind of request.
use lw_nbd.Prelude.{
  ℕ, pos, negsuc, minus_one, zero, suc, ◌^◌, ◌≤◌, ◌<◌, ◌≡◌, ◌≢◌, ◌⊎◌, refl, sym, ap, ◌∙◌, Returns,
  [], false, none, some, List, ◌∷◌, ◌++◌, done, fault, ◌>>=◌, deref, get_elem?-past_end, take-all,
  drop, ltb, ==_iff, as_size, arith,
}
use lw_nbd.Plugin.{Plugin}
use lw_nbd.Conn.{Recv, recv, send}
use lw_nbd.Device.{lwnbd_flush}
use lw_nbd.Nbd.Errno
use lw_nbd.Nbd.Context.{State}
use lw_nbd.Nbd.Phase.{Config, Phase}
use lw_nbd.Nbd.Transmission.{
  after_read, continue, return, request_round, nbd_commands, nbd_commands_to_string, command,
  handle_command, invalid_request, flush_request,
}
use lw_nbd.Nbd.Read.{read_request}
use lw_nbd.Nbd.Write.{write_request}
use lw_nbd.Nbd.Wire.{
  Request, request_magic, encode_request, decode_request, host_order, simple_reply,
}
use lw_nbd.Nbd.Wire.Codec.{IsWellSized, decode_request-encode_request, length-encode_request}

abbrev pub request_recv : Request → Recv
request_recv req = record { result = pos 28; stored = encode_request req }

-- The next receive brings the whole of a request.
pub record Brings {D : Type 0} (s : Phase D) (req : Request) (rest : List Recv) : Type 0 where
  pub next : s.conn.inbox ≡ request_recv req ∷ rest
  pub sized : IsWellSized req
  pub magic : req.magic ≡ request_magic

no_name : (t : ℕ) → 8 ≤ t → nbd_commands_to_string t ≡ fault
unfolding nbd_commands_to_string
no_name t h = ap deref (get_elem?-past_end nbd_commands t h)

module _ {D : Type 0} (cfg : Config) (bs : ℕ) (s : Phase D) where
  -- The state in which a request that has come in is handled.
  abbrev pub after_recv : Request → List Recv → Phase D
  after_recv req rest = record s {
    request = host_order (encode_request req ++ drop 28 s.request);
    conn = record (s.conn) { inbox = rest };
  }

  recv-Brings :
      (req : Request) (rest : List Recv)
      → Brings s req rest
      → recv s.conn s.request 28
        ≡ (pos 28, encode_request req ++ drop 28 s.request, record (s.conn) { inbox = rest })
  unfolding recv
  recv-Brings req rest b = rw b.next (
      rw (take-all 28 (encode_request req) (sym (length-encode_request req b.sized.handle)))
        (rw (length-encode_request req b.sized.handle) refl))

  pub request_round-Brings :
      (req : Request) (rest : List Recv)
      → Brings s req rest
      → request_round cfg bs s ≡ (
          nbd_commands_to_string req.type >>= λ _.
          handle_command cfg bs (command req.type) req (after_recv req rest))
  unfolding request_round
  request_round-Brings req rest b = rw (recv-Brings req rest b) (
      rw (decode_request-encode_request req (drop 28 s.request) b.sized)
        (rw ((==_iff req.magic request_magic).1 b.magic) refl))

  round-unsupported :
      (req : Request) (rest : List Recv)
      → Brings s req rest
      → 4 ≤ req.type
      → req.type ≤ 7
      → request_round cfg bs s ≡ done (continue, invalid_request cfg bs req (after_recv req rest))
  unfolding nbd_commands_to_string command handle_command
  round-unsupported req rest b lo hi = request_round-Brings req rest b ∙ by_type req.type lo hi
    where
      by_type :
          (t : ℕ)
          → 4 ≤ t
          → t ≤ 7
          → (nbd_commands_to_string t >>= λ _.
              handle_command cfg bs (command t) req (after_recv req rest))
            ≡ done (continue, invalid_request cfg bs req (after_recv req rest))
      by_type (suc (suc (suc (suc zero)))) l h = refl
      by_type (suc (suc (suc (suc (suc zero))))) l h = refl
      by_type (suc (suc (suc (suc (suc (suc zero)))))) l h = refl
      by_type (suc (suc (suc (suc (suc (suc (suc zero))))))) l h = refl
      by_type (suc (suc (suc (suc (suc (suc (suc (suc t)))))))) l h = absurd (omega arith)
      by_type zero l h = absurd (omega arith)
      by_type (suc zero) l h = absurd (omega arith)
      by_type (suc (suc zero)) l h = absurd (omega arith)
      by_type (suc (suc (suc zero))) l h = absurd (omega arith)

  -- A TRIM, CACHE, WRITE_ZEROES or BLOCK_STATUS (types 4 to 7) is answered by one reply, EINVAL with
  -- its own handle; the plugin is not called, nothing more is received, and the loop goes on.
  pub request_round-unsupported :
      (req : Request) (rest : List Recv)
      → Brings s req rest
      → 4 ≤ req.type
      → req.type ≤ 7
      → Returns (request_round cfg bs s) (λ ns.
        (ns.0 ≡ continue)
        × (ns.1.conn.outbox
            ≡ s.conn.outbox
              ++ (record { bytes = simple_reply Errno.inval req.handle; flags = 0 } ∷ []))
        × (ns.1.conn.inbox ≡ rest)
        × (ns.1.dev ≡ s.dev)
        × (ns.1.ctx ≡ s.ctx))
  unfolding invalid_request send
  request_round-unsupported req rest b lo hi =
      rw (round-unsupported req rest b lo hi) (refl, refl, refl, refl, refl)

  -- A request of a type above 7 reads past the end of the array of command names before the
  -- `switch` is reached.
  pub request_round-unknown :
      (req : Request) (rest : List Recv)
      → Brings s req rest
      → 8 ≤ req.type
      → request_round cfg bs s ≡ fault
  request_round-unknown req rest b h =
      request_round-Brings req rest b
      ∙ ap (λ m. m >>= λ _. handle_command cfg bs (command req.type) req (after_recv req rest))
          (no_name req.type h)

  -- A DISC sends nothing, puts the context's state to ABORT and ends the phase with 0.
  pub request_round-disc :
      (req : Request) (rest : List Recv)
      → Brings s req rest
      → req.type ≡ 2
      → request_round cfg bs s
        ≡ done (
          return (pos 0),
          record (after_recv req rest) { ctx = record (s.ctx) { state = State.abort } },
        )
  unfolding nbd_commands_to_string command handle_command
  request_round-disc req rest b t = request_round-Brings req rest b ∙ rw t refl

  -- A FLUSH to a plugin that has no `flush` calls through a null pointer.
  pub request_round-flush_null :
      (req : Request) (rest : List Recv) (p : Plugin D)
      → Brings s req rest
      → req.type ≡ 3
      → s.ctx.p ≡ some p
      → p.flush ≡ none
      → request_round cfg bs s ≡ fault
  unfolding nbd_commands_to_string command handle_command flush_request lwnbd_flush
  request_round-flush_null req rest p b t hp hf =
      request_round-Brings req rest b ∙ rw t (rw (hp, ◌>>=◌, deref) (rw (hf, ◌>>=◌, deref) refl))

  -- A receive that returns fewer bytes than a request, and no error, or a request with another
  -- magic ends the phase with -1, and nothing is sent.
  pub request_round-refused :
      let (r, buf, conn) = recv s.conn s.request 28 in
      (as_size r < 28) ⊎ ((decode_request buf).magic ≢ request_magic)
      → request_round cfg bs s
        ≡ done (return minus_one, record s { request = host_order buf; conn = conn })
  unfolding request_round
  request_round-refused why = ground arith

  -- The test of the receive's result takes an error (a negative result) for enough: with the same
  -- bytes in the buffer the round goes on as after a whole request.
  pub request_round-ignores_error :
      (n : ℕ) (bytes : List ℕ) (rest : List Recv)
      → n < 2 ^ 31
      → let failing = record s {
        conn = record (s.conn) { inbox = (record { result = negsuc n; stored = bytes }) ∷ rest };
      } in
        let whole = record s {
          conn = record (s.conn) { inbox = (record { result = pos 28; stored = bytes }) ∷ rest };
        } in
        request_round cfg bs failing ≡ request_round cfg bs whole
  unfolding request_round recv
  request_round-ignores_error n bytes rest h =
      let e : ltb (as_size (negsuc n)) 28 ≡ false = ground arith in rw e refl

  pub request_round-read :
      (req : Request) (rest : List Recv)
      → Brings s req rest
      → req.type ≡ 0
      → request_round cfg bs s
        ≡ (read_request cfg bs req (after_recv req rest) >>= λ es. done (after_read es.0, es.1))
  unfolding nbd_commands_to_string command handle_command
  request_round-read req rest b t =
      request_round-Brings req rest b
      ∙ ap
          (λ k. nbd_commands_to_string k >>= λ _.
            handle_command cfg bs (command k) req (after_recv req rest))
          t

  pub request_round-write :
      (req : Request) (rest : List Recv)
      → Brings s req rest
      → req.type ≡ 1
      → request_round cfg bs s
        ≡ (write_request cfg bs req (after_recv req rest) >>= λ s'. done (continue, s'))
  unfolding nbd_commands_to_string command handle_command
  request_round-write req rest b t =
      request_round-Brings req rest b
      ∙ ap
          (λ k. nbd_commands_to_string k >>= λ _.
            handle_command cfg bs (command k) req (after_recv req rest))
          t
