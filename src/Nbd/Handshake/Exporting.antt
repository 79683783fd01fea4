-- ===== src/Nbd/Handshake/Exporting.antt =====
-- What the server answers to NBD_OPT_EXPORT_NAME.
use lw_nbd.Prelude.{
  ℕ, pos, zero, suc, ◌+◌, ◌^◌, ◌%◌, ◌<◌, ◌≡◌, refl, ap, inl, inr, true, false, some, List, [], ◌∷◌,
  ◌++◌, done, Returns, length, replicate, drop, take-all, take-append, ltb, ◌==◌, if◌then◌else◌,
  as_size, Bool-cases, arith,
}
use lw_nbd.Conn.{Recv, recv, send-inbox}
use lw_nbd.System.{System}
use lw_nbd.Uri.{Yuarel, lwnbd_get_context}
use lw_nbd.Nbd.Context.{NbdContext, State}
use lw_nbd.Nbd.Medium.{payload}
use lw_nbd.Nbd.Phase.{Config}
use lw_nbd.Nbd.Transmission.{return}
use lw_nbd.Nbd.Handshake.{
  Haggle, export_name_reply, export_flags, finish, handle_option, opt, recv_data, get_data,
  c_string, option_round,
}
use lw_nbd.Nbd.Handshake.Listing.{sent, send_whole-all, payload-sent}
use lw_nbd.Nbd.Handshake.Replies.{BringsOption, after_header, option_round-BringsOption, named}
use lw_nbd.Nbd.Wire.{be, has_flag, flag_no_zeroes}

-- A text without an end mark in it.
abbrev pub IsText : List ℕ → Type 0
IsText [] = Unit
IsText (b ∷ bs) = (0 < b) × IsText bs

c_string-IsText : (name rest : List ℕ) → IsText name → c_string (name ++ (0 ∷ rest)) ≡ name
unfolding c_string
c_string-IsText [] rest t = refl
c_string-IsText (zero ∷ name) rest t = absurd (omega (arith, t.0))
c_string-IsText (suc b ∷ name) rest t = ap (λ l. suc b ∷ l) (c_string-IsText name rest t.1)

abbrev pub name_recv : List ℕ → Recv
name_recv name = record { result = pos (length name); stored = name }

-- The reply to EXPORT_NAME: the size and the flags, and 124 zeroes for a client that has not said
-- that it can do without.
abbrev pub finish_bytes : {D : Type 0} → ℕ → NbdContext D → List ℕ
finish_bytes cflags ctx =
    let short = export_name_reply (as_size ctx.exportsize) (export_flags ctx) in
    if has_flag flag_no_zeroes cflags then short else short ++ replicate 124 0

length-finish_bytes :
    {D : Type 0} (cflags : ℕ) (ctx : NbdContext D) → length (finish_bytes cflags ctx) < 2 ^ 32
unfolding be
length-finish_bytes cflags ctx = elim (Bool-cases (has_flag flag_no_zeroes cflags)) [
  | inl short ↦ rw short (omega arith)
  | inr long ↦ rw long (omega arith)
]

module _ {D : Type 0} where
  -- What EXPORT_NAME leaves when the context is there.
  pub record Exported (cflags c : ℕ) (sys : System D) (rest : List Recv) (s s' : Haggle D)
      : Type 0 where
    pub bytes : payload s'.conn.outbox ≡ payload s.conn.outbox ++ finish_bytes cflags s.ctx
    pub left : s'.conn.inbox ≡ rest
    pub ctx : s'.ctx ≡ record (s.ctx) { state = State.transmission }
    pub found : (s'.client_ctx ≡ some c) × (s'.sys ≡ sys)

  finish-found :
      (cflags c : ℕ) (s : Haggle D)
      → s.client_ctx ≡ some c
      → s.conn.acks ≡ []
      → finish cflags s ≡ (
        return (pos 0),
        record (sent (finish_bytes cflags s.ctx) 0 s) {
          ctx = record (s.ctx) { state = State.transmission };
        },
      )
  unfolding finish
  finish-found cflags c s found acked = rw found (
      rw
        (send_whole-all (finish_bytes cflags s.ctx) 0 (record s { client_ctx = some c }) acked
          (length-finish_bytes cflags s.ctx))
        refl)

  recv_data-name :
      (cfg : Config) (name : List ℕ) (rest : List Recv) (s : Haggle D)
      → s.conn.inbox ≡ name_recv name ∷ rest
      → length name < cfg.nbd_buffer_len
      → length name < 2 ^ 32
      → recv_data cfg (length name) s
        ≡ done (
          true,
          record s {
            nbd_buffer =
                name ++ (0 ∷ drop (length name + 1) (name ++ drop (length name) s.nbd_buffer));
            conn = record (s.conn) { inbox = rest };
          },
        )
  unfolding recv_data recv
  recv_data-name cfg name rest s e fits small = rw e (
      rw (take-all (length name) name refl) (
        let enough : ltb (length name % 2 ^ 32) (length name) ≡ false = ground arith in
        let room : (length name == cfg.nbd_buffer_len) ≡ false = ground arith in
        rw enough (
          rw room
            (rw (take-append (length name) name (drop (length name) s.nbd_buffer) refl) refl))))

  -- An EXPORT_NAME whose data are the name of a context ends the haggling.
  pub option_round-export_name :
      (cfg : Config) (y : Yuarel) (cflags c : ℕ) (name : List ℕ) (rest : List Recv) (s : Haggle D)
      (sys : System D)
      → BringsOption s 1 (length name) (name_recv name ∷ rest)
      → IsText name
      → 0 < length name
      → length name < cfg.nbd_buffer_len
      → lwnbd_get_context y name s.sys ≡ done (some c, sys)
      → s.conn.acks ≡ []
      → Returns
          (option_round cfg y cflags s)
          (λ ns. (ns.0 ≡ return (pos 0)) × Exported cflags c sys rest s ns.1)
  unfolding get_data handle_option opt
  option_round-export_name cfg y cflags c name rest s sys b text some_ fits known acked =
      rw (option_round-BringsOption cfg y cflags s 1 (length name) (name_recv name ∷ rest) b) (
        rw ((named cfg y cflags s 1 (omega arith)).1) (
          let room : ltb cfg.nbd_buffer_len (length name) ≡ false = ground arith in
          let filled : ltb 0 (length name) ≡ true = ground arith in
          rw room (
            rw filled (
              rw (recv_data-name cfg name rest t refl fits b.widths.1) (
                rw (c_string-IsText name tail text) (
                  rw known (
                    rw (finish-found cflags c opened refl acked) (
                      refl,
                      record {
                        bytes = payload-sent (finish_bytes cflags s.ctx) 0 opened;
                        left = send-inbox opened.conn _ 0;
                        ctx = refl;
                        found = (refl, refl);
                      },
                    ))))))))
    where
      t : Haggle D
      t = after_header cfg y cflags s 1 (length name) (name_recv name ∷ rest)

      tail : List ℕ
      tail = drop (length name + 1) (name ++ drop (length name) s.nbd_buffer)

      opened : Haggle D
      opened = record t {
        nbd_buffer = name ++ (0 ∷ tail);
        conn = record (s.conn) { inbox = rest };
        client_ctx = some c;
        sys = sys;
      }
