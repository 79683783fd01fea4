-- ===== src/Nbd/Handshake/Replies.antt =====
-- What the server answers to each option.
use lw_nbd.Prelude.{
  ℕ, pos, minus_one, zero, suc, ◌^◌, ◌%◌, ◌≤◌, ◌<◌, ◌≡◌, refl, ap, ◌∙◌, Bool, true, false, Option,
  List, [], ◌∷◌, ◌++◌, append_assoc, Run, done, fault, Returns, Returns->>=, ◌>>=◌,
  get_elem?-past_end, length, take, drop, ltb, ◌==◌, if◌then◌else◌, arith,
}
use lw_nbd.Conn.{Recv, recv, send-inbox}
use lw_nbd.Contexts.{lwnbd_contexts_count}
use lw_nbd.Uri.{Yuarel}
use lw_nbd.Nbd.Context.{State}
use lw_nbd.Nbd.Phase.{Config}
use lw_nbd.Nbd.Medium.{payload}
use lw_nbd.Nbd.Transmission.{Next, continue, return}
use lw_nbd.Nbd.Handshake.{
  Haggle, Opt, opt, nbd_options, nbd_option_to_string, option_reply, list_exports, send_reply,
  handle_option, get_data, recv_data, option_round,
}
use lw_nbd.Contexts.Pool.{IsPool, contexts_count_fits}
use lw_nbd.Nbd.Handshake.Listing.{
  AreNamed, entries, Listed, list_exports-Listed, sent, send_whole-all, payload-sent,
  length-option_reply,
}
use lw_nbd.Nbd.Wire.{be, of_be, new_version, rep_ack, rep_err_unsup}
use lw_nbd.Nbd.Wire.Codec.{of_be-be4, of_be-be8}

-- `struct nbd_new_option`, as a client sends it
abbrev pub option_bytes : ℕ → ℕ → List ℕ
option_bytes option optlen = be 8 new_version ++ (be 4 option ++ be 4 optlen)

abbrev pub option_recv : ℕ → ℕ → Recv
option_recv option optlen = record { result = pos 16; stored = option_bytes option optlen }

-- The next receive brings the whole of an option's header.
pub record BringsOption {D : Type 0} (s : Haggle D) (option optlen : ℕ) (rest : List Recv)
    : Type 0 where
  pub next : s.conn.inbox ≡ option_recv option optlen ∷ rest
  pub widths : (option < 2 ^ 32) × (optlen < 2 ^ 32)

length-option_bytes : (option optlen : ℕ) → length (option_bytes option optlen) ≡ 16
unfolding be
length-option_bytes option optlen = refl

unsupported_above : (option : ℕ) → 4 ≤ option → opt option ≡ Opt.unsupported
unfolding opt
unsupported_above zero h = absurd (omega arith)
unsupported_above (suc zero) h = absurd (omega arith)
unsupported_above (suc (suc zero)) h = absurd (omega arith)
unsupported_above (suc (suc (suc zero))) h = absurd (omega arith)
unsupported_above (suc (suc (suc (suc n)))) h = refl

short : (option reply : ℕ) → length (option_reply option reply 0) < 2 ^ 32
short option reply = omega (arith, length-option_reply option reply 0)

-- A last reply that is taken whole leads on to `next`.
send_reply-all :
    {D : Type 0} (option reply : ℕ) (next : Next) (s : Haggle D)
    → s.conn.acks ≡ []
    → send_reply option reply next s ≡ (next, sent (option_reply option reply 0) 0 s)
unfolding send_reply
send_reply-all option reply next s acked =
    rw (send_whole-all (option_reply option reply 0) 0 s acked (short option reply)) refl

module _ {D : Type 0} (cfg : Config) (y : Yuarel) (cflags : ℕ) (s : Haggle D) where
  -- The state once the header is in.
  abbrev pub after_header : ℕ → ℕ → List Recv → Haggle D
  after_header option optlen rest = record s {
    new_opt = option_bytes option optlen ++ drop 16 s.new_opt;
    conn = record (s.conn) { inbox = rest };
  }

  recv-option :
      (option optlen : ℕ) (rest : List Recv)
      → BringsOption s option optlen rest
      → recv s.conn s.new_opt 16 ≡ (
        pos 16,
        option_bytes option optlen ++ drop 16 s.new_opt,
        record (s.conn) { inbox = rest },
      )
  unfolding recv be
  recv-option option optlen rest b = rw b.next refl

  -- What a round does with a header that has come in whole.
  abbrev pub handled : ℕ → ℕ → List Recv → Run (Next × Haggle D)
  handled option optlen rest = nbd_option_to_string option >>= λ _.
      if ltb cfg.nbd_buffer_len optlen
      then done (return minus_one, after_header option optlen rest)
      else (get_data cfg optlen (after_header option optlen rest) >>= λ got.
          if got.0
          then handle_option y cflags (opt option) option optlen got.1
          else done (return minus_one, got.1))

  header_version :
      (option optlen : ℕ) (tail : List ℕ)
      → of_be (take 8 (option_bytes option optlen ++ tail)) ≡ new_version
  unfolding be
  header_version option optlen tail = of_be-be8 new_version (omega arith)

  header_option :
      (option optlen : ℕ) (tail : List ℕ)
      → option < 2 ^ 32
      → of_be (take 4 (drop 8 (option_bytes option optlen ++ tail))) ≡ option
  unfolding be
  header_option option optlen tail h = of_be-be4 option h

  header_optlen :
      (option optlen : ℕ) (tail : List ℕ)
      → optlen < 2 ^ 32
      → of_be (take 4 (drop 12 (option_bytes option optlen ++ tail))) ≡ optlen
  unfolding be
  header_optlen option optlen tail h = of_be-be4 optlen h

  pub option_round-BringsOption :
      (option optlen : ℕ) (rest : List Recv)
      → BringsOption s option optlen rest
      → option_round cfg y cflags s ≡ handled option optlen rest
  unfolding option_round
  option_round-BringsOption option optlen rest b = rw (recv-option option optlen rest b) (
      rw (header_version option optlen (drop 16 s.new_opt)) (
        rw (header_option option optlen (drop 16 s.new_opt) b.widths.0)
          (rw (header_optlen option optlen (drop 16 s.new_opt) b.widths.1) refl)))

  -- An option number from 10 on, NBD_OPT_SET_META_CONTEXT included, reads past the end of the array
  -- of option names before the `switch` is reached.
  pub option_round-out_of_table :
      (option optlen : ℕ) (rest : List Recv)
      → BringsOption s option optlen rest
      → 10 ≤ option
      → option_round cfg y cflags s ≡ fault
  unfolding nbd_option_to_string
  option_round-out_of_table option optlen rest b h =
      option_round-BringsOption option optlen rest b
      ∙ rw (get_elem?-past_end nbd_options option h) refl

  pub named :
      (option : ℕ) → option < 10 → (name : Option _) × (nbd_option_to_string option ≡ done name)
  unfolding nbd_option_to_string
  named zero h = (_, refl)
  named (suc zero) h = (_, refl)
  named (suc (suc zero)) h = (_, refl)
  named (suc (suc (suc zero))) h = (_, refl)
  named (suc (suc (suc (suc zero)))) h = (_, refl)
  named (suc (suc (suc (suc (suc zero))))) h = (_, refl)
  named (suc (suc (suc (suc (suc (suc zero)))))) h = (_, refl)
  named (suc (suc (suc (suc (suc (suc (suc zero))))))) h = (_, refl)
  named (suc (suc (suc (suc (suc (suc (suc (suc zero)))))))) h = (_, refl)
  named (suc (suc (suc (suc (suc (suc (suc (suc (suc zero))))))))) h = (_, refl)
  named (suc (suc (suc (suc (suc (suc (suc (suc (suc (suc n)))))))))) h = absurd (omega arith)

  -- An option whose data are longer than the buffer ends the haggling with -1: nothing is sent, and
  -- the data are not received.
  pub option_round-too_long :
      (option optlen : ℕ) (rest : List Recv)
      → BringsOption s option optlen rest
      → option < 10
      → cfg.nbd_buffer_len < optlen
      → option_round cfg y cflags s ≡ done (return minus_one, after_header option optlen rest)
  option_round-too_long option optlen rest b known h =
      option_round-BringsOption option optlen rest b
      ∙ rw ((named option known).1)
          (let long : ltb cfg.nbd_buffer_len optlen ≡ true = ground arith in rw long refl)

  -- Data that fill the buffer are let through, and the end mark is then written behind it.
  pub option_round-no_room :
      (option : ℕ) (data_ : List ℕ) (rest : List Recv)
      → BringsOption s option cfg.nbd_buffer_len
          (record { result = pos cfg.nbd_buffer_len; stored = data_ } ∷ rest)
      → option < 10
      → 0 < cfg.nbd_buffer_len
      → option_round cfg y cflags s ≡ fault
  unfolding get_data recv_data recv
  option_round-no_room option data_ rest b known h =
      option_round-BringsOption option cfg.nbd_buffer_len _ b
      ∙ rw ((named option known).1) (
          let fits : ltb cfg.nbd_buffer_len cfg.nbd_buffer_len ≡ false = ground arith in
          let some_data : ltb 0 cfg.nbd_buffer_len ≡ true = ground arith in
          let enough : ltb (cfg.nbd_buffer_len % 2 ^ 32) cfg.nbd_buffer_len ≡ false =
            ground (arith, b.widths.1) in
          let full : (cfg.nbd_buffer_len == cfg.nbd_buffer_len) ≡ true = ground arith in
          rw fits (rw some_data (rw enough (rw full refl))))

  -- An option without data is handled at once.
  option_round-no_data :
      (option : ℕ) (rest : List Recv)
      → BringsOption s option 0 rest
      → option < 10
      → option_round cfg y cflags s
        ≡ handle_option y cflags (opt option) option 0 (after_header option 0 rest)
  unfolding get_data
  option_round-no_data option rest b known =
      option_round-BringsOption option 0 rest b ∙ rw ((named option known).1) (ground arith)

  -- The options 4 to 9 (STARTTLS, INFO, GO and others), sent without data, are answered by one reply
  -- of type ERR_UNSUP with the option's number, and the haggling goes on.
  pub option_round-unsupported :
      (option : ℕ) (rest : List Recv)
      → BringsOption s option 0 rest
      → 4 ≤ option
      → option < 10
      → s.conn.acks ≡ []
      → Returns (option_round cfg y cflags s) (λ ns.
        (ns.0 ≡ continue)
        × (payload ns.1.conn.outbox ≡ payload s.conn.outbox ++ option_reply option rep_err_unsup 0)
        × (ns.1.conn.inbox ≡ rest)
        × (ns.1.ctx ≡ s.ctx)
        × (ns.1.client_ctx ≡ s.client_ctx))
  unfolding handle_option
  option_round-unsupported option rest b lo hi acked = rw (option_round-no_data option rest b hi) (
      rw (unsupported_above option lo) (
        rw (send_reply-all option rep_err_unsup continue (after_header option 0 rest) acked)
          (refl, payload-sent _ 0 (after_header option 0 rest), send-inbox _ _ 0, refl, refl)))

  -- ABORT is answered by an ACK; the context's state becomes ABORT and the haggling ends with 0.
  pub option_round-abort :
      (rest : List Recv)
      → BringsOption s 2 0 rest
      → s.conn.acks ≡ []
      → Returns (option_round cfg y cflags s) (λ ns.
        (ns.0 ≡ return (pos 0))
        × (payload ns.1.conn.outbox ≡ payload s.conn.outbox ++ option_reply 2 rep_ack 0)
        × (ns.1.ctx ≡ record (s.ctx) { state = State.abort }))
  unfolding handle_option opt
  option_round-abort rest b acked = rw (option_round-no_data 2 rest b (omega arith)) (
      rw
        (
          opt,
          handle_option,
          send_whole-all (option_reply 2 rep_ack 0) 0 (after_header 2 0 rest) acked
              (short 2 rep_ack),
        )
        (refl, payload-sent _ 0 (after_header 2 0 rest), refl))

  -- LIST is answered by an entry for every context in use, in the pool's order and with nothing
  -- between, and an ACK; the haggling then goes on. Every send takes all it is given.
  pub option_round-list :
      (rest : List Recv)
      → BringsOption s 3 0 rest
      → s.conn.acks ≡ []
      → IsPool s.sys.pool
      → AreNamed s.sys.pool.contexts
      → Returns (option_round cfg y cflags s) (λ ns.
        (ns.0 ≡ continue)
        × (payload ns.1.conn.outbox
            ≡ payload s.conn.outbox
              ++ (entries 3 (take (lwnbd_contexts_count s.sys.pool) s.sys.pool.contexts)
                  ++ option_reply 3 rep_ack 0))
        × (ns.1.conn.inbox ≡ rest)
        × (ns.1.sys ≡ s.sys))
  unfolding handle_option opt
  option_round-list rest b acked v named_ = rw (option_round-no_data 3 rest b (omega arith)) (
      Returns->>= (list_exports n 0 3 start) _
        (λ bs. (bs.0 ≡ true) × Listed 3 (take n (drop 0 s.sys.pool.contexts)) start bs.1) _
        (list_exports-Listed n 0 3 start acked named_
          (omega (arith, contexts_count_fits s.sys.pool v)))
        after_entries)
    where
      n : ℕ
      n = lwnbd_contexts_count s.sys.pool

      start : Haggle D
      start = after_header 3 0 rest

      after_entries :
          (bs : Bool × Haggle D)
          → (bs.0 ≡ true) × Listed 3 (take n (drop 0 s.sys.pool.contexts)) start bs.1
          → Returns
              (done (if bs.0 then send_reply 3 rep_ack continue bs.1 else (return minus_one, bs.1)))
              (λ ns.
                (ns.0 ≡ continue)
                × (payload ns.1.conn.outbox
                    ≡ payload s.conn.outbox
                      ++ (entries 3 (take n s.sys.pool.contexts) ++ option_reply 3 rep_ack 0))
                × (ns.1.conn.inbox ≡ rest)
                × (ns.1.sys ≡ s.sys))
      after_entries bs l = rw (l.0) (
          rw (send_reply-all 3 rep_ack continue bs.1 l.1.acks) (
            refl,
            payload-sent (option_reply 3 rep_ack 0) 0 bs.1
                ∙ ap (λ p. p ++ option_reply 3 rep_ack 0) l.1.bytes
                ∙ append_assoc (payload s.conn.outbox) _ _,
            send-inbox _ _ 0 ∙ l.1.inbox,
            l.1.same.2,
          ))
