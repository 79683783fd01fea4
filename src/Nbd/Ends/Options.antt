-- ===== src/Nbd/Ends/Options.antt =====
-- The handling of an option (servers/nbd/protocol-handshake.c) ends, and makes no receive.
use lw_nbd.Prelude.{
  ℕ, ℤ, zero, suc, ◌+◌, ◌≡◌, inl, inr, refl, ◌∙◌, Bool, not, none, some, List, ◌++◌, length,
  replicate, Ends, Ends-weaken, Option-cases, if_either, Ends-if, Ends->>=, Ends-deref_then, ltb,
  Bool-cases, done, ◌>>=◌, if◌then◌else◌, is_zero, as_size,
}
use lw_nbd.Conn.{send-inbox}
use lw_nbd.Contexts.{lwnbd_contexts_count, lwnbd_get_context_i, lwnbd_get_context_string}
use lw_nbd.Device.{lwnbd_update_size, lwnbd_update_size-Ends}
use lw_nbd.Plugin.{Context, Query}
use lw_nbd.System.{System}
use lw_nbd.Uri.{Yuarel, max_query, run_query, open_context, lwnbd_get_context}
use lw_nbd.Nbd.Ends.Transmission.{IsNext}
use lw_nbd.Nbd.Phase.{msg_more}
use lw_nbd.Nbd.Transmission.{Next, continue}
use lw_nbd.Nbd.Handshake.{
  Haggle, Opt, export_name, abort, list, unsupported, option_reply, export_name_reply, export_flags,
  send_whole, send_export, list_exports, send_reply, finish, handle_option, c_string,
}
use lw_nbd.Nbd.Wire.{be, has_flag, rep_ack, rep_server, rep_err_unsup, flag_no_zeroes}

module _ {D : Type 0} where
  open_context-Ends :
      (i : ℕ) (params : List Query) (n : ℤ) (sys : System D)
      → Ends (open_context i params n sys) (λ _. Unit)
  unfolding open_context
  open_context-Ends i params n sys =
      Ends-deref_then (lwnbd_get_context_i sys.pool i) _ (λ _. Unit)
        λ c.
          Ends-deref_then c.p _ (λ _. Unit)
            λ p. elim (Bool-cases (is_zero (run_query p.query c.handle params n sys.dev).0)) [
              | inl ok ↦ rw ok (
                  Ends->>= (lwnbd_update_size c (run_query p.query c.handle params n sys.dev).1) _
                    (λ _. Unit) (λ _. Unit) (lwnbd_update_size-Ends c _) λ cd _. tt)
              | inr bad ↦ rw bad tt
            ]

  lwnbd_get_context-Ends :
      (y : Yuarel) (uri : List ℕ) (sys : System D) → Ends (lwnbd_get_context y uri sys) (λ _. Unit)
  unfolding lwnbd_get_context
  lwnbd_get_context-Ends y uri sys =
      elim (y.parse uri)
        as (λ u.
          Ends
            (elim u [
              | none ↦ done (none, sys)
              | some url ↦
                  let (n, params) = y.parse_query url.query b'&' max_query in
                  elim (lwnbd_get_context_string sys.pool url.path) [
                    | none ↦ done (none, sys)
                    | some i ↦ open_context i params n sys
                  ]
            ])
            (λ _. Unit)) [
              | none ↦ tt
              | some url ↦
                  elim (lwnbd_get_context_string sys.pool url.path)
                    as (λ c.
                      Ends
                        (elim c [
                          | none ↦ done (none, sys)
                          | some i ↦
                              open_context i (y.parse_query url.query b'&' max_query).1
                                (y.parse_query url.query b'&' max_query).0 sys
                        ])
                        (λ _. Unit)) [ none ↦ tt | some i ↦ open_context-Ends i _ _ sys ]
            ]

  -- The script as it was.
  abbrev pub IsSame : Haggle D → Haggle D → Type 0
  IsSame s s' = s'.conn.inbox ≡ s.conn.inbox

  pub send_whole-IsSame :
      (bytes : List ℕ) (flags : ℕ) (s : Haggle D) → IsSame s (send_whole bytes flags s).1
  unfolding send_whole
  send_whole-IsSame bytes flags s = send-inbox s.conn bytes flags

  send_export-IsSame :
      (option : ℕ) (name description : List ℕ) (s : Haggle D)
      → IsSame s (send_export option name description s).1
  unfolding send_export
  send_export-IsSame option name description s =
      if_either (λ (bs : Bool × Haggle D). IsSame s bs.1) (not first.0) one
        (if_either (λ (bs : Bool × Haggle D). IsSame s bs.1) (not second.0) two
          (if_either (λ (bs : Bool × Haggle D). IsSame s bs.1) (not third.0) three
            (send_whole-IsSame description msg_more third.1 ∙ three)))
    where
      first : Bool × Haggle D
      first =
          send_whole (option_reply option rep_server (length name + 4 + length description))
            msg_more s

      second : Bool × Haggle D
      second = send_whole (be 4 (length name)) msg_more first.1

      third : Bool × Haggle D
      third = send_whole name msg_more second.1

      one : IsSame s first.1
      one = send_whole-IsSame _ msg_more s

      two : IsSame s second.1
      two = send_whole-IsSame (be 4 (length name)) msg_more first.1 ∙ one

      three : IsSame s third.1
      three = send_whole-IsSame name msg_more second.1 ∙ two

  list_exports-IsSame :
      (n i option : ℕ) (s : Haggle D) → Ends (list_exports n i option s) (λ bs. IsSame s bs.1)
  unfolding list_exports
  list_exports-IsSame zero i option s = refl
  list_exports-IsSame (suc n) i option s =
      Ends-deref_then (lwnbd_get_context_i s.sys.pool i) _ (λ bs. IsSame s bs.1)
        λ c.
          Ends-if (sent c).0 _ _ (λ bs. IsSame s bs.1)
            (Ends-weaken (list_exports n (i + 1) option (sent c).1)
              (λ bs e. e ∙ send_export-IsSame option c.name c.description s)
              (list_exports-IsSame n (i + 1) option (sent c).1))
            (send_export-IsSame option c.name c.description s)
    where
      sent : Context D → Bool × Haggle D
      sent c = send_export option c.name c.description s

  -- What the handling of an option leaves.
  pub record Handled (s : Haggle D) (ns : Next × Haggle D) : Type 0 where
    pub same : IsSame s ns.1
    pub next : IsNext ns.0

  send_reply-Handled :
      (option reply : ℕ) (next : Next) (s : Haggle D)
      → IsNext next
      → Handled s (send_reply option reply next s)
  unfolding send_reply
  send_reply-Handled option reply next s ok = record {
    same = send_whole-IsSame _ 0 s;
    next = if_either IsNext (send_whole (option_reply option reply 0) 0 s).0 ok (inr refl);
  }

  finish-Handled : (cflags : ℕ) (s : Haggle D) → Handled s (finish cflags s)
  unfolding finish
  finish-Handled cflags s = elim (Option-cases s.client_ctx) [
    | inl unknown ↦ rw unknown (record { same = refl; next = inr refl })
    | inr (c, found) ↦ rw found (
        let k = record s { client_ctx = some c } in
        let bytes = if has_flag flag_no_zeroes cflags then reply else reply ++ replicate 124 0 in
        if_either (Handled k) (send_whole bytes 0 k).0
          (record { same = send_whole-IsSame bytes 0 k; next = inl refl })
          (record { same = send_whole-IsSame bytes 0 k; next = inr refl }))
  ]
    where
      reply : List ℕ
      reply = export_name_reply (as_size s.ctx.exportsize) (export_flags s.ctx)

  -- An option that is handled leads on to the next one, or to 0 or -1.
  pub handle_option-Handled :
      (y : Yuarel) (cflags : ℕ) (o : Opt) (option optlen : ℕ) (s : Haggle D)
      → Ends (handle_option y cflags o option optlen s) (Handled s)
  unfolding handle_option
  handle_option-Handled y cflags export_name option optlen s =
      Ends->>=
        (if ltb 0 optlen
          then (lwnbd_get_context y (c_string s.nbd_buffer) s.sys >>= λ cs.
              done (record s { client_ctx = cs.0; sys = cs.1 }))
          else done s)
        _ (λ s'. IsSame s s') (Handled s)
        (Ends-if (ltb 0 optlen) _ _ (λ s'. IsSame s s')
          (Ends->>= (lwnbd_get_context y (c_string s.nbd_buffer) s.sys) _ (λ _. Unit)
            (λ s'. IsSame s s') (lwnbd_get_context-Ends y (c_string s.nbd_buffer) s.sys)
            λ cs _. refl)
          refl)
        λ s' e. let h = finish-Handled cflags s' in record { same = h.same ∙ e; next = h.next }
  handle_option-Handled y cflags abort option optlen s =
      if_either (Handled s) (send_whole (option_reply option rep_ack 0) 0 s).0
        (record { same = send_whole-IsSame (option_reply option rep_ack 0) 0 s; next = inl refl })
        (record { same = send_whole-IsSame (option_reply option rep_ack 0) 0 s; next = inr refl })
  handle_option-Handled y cflags list option optlen s =
      Ends->>= (list_exports (lwnbd_contexts_count s.sys.pool) 0 option s) _ (λ bs. IsSame s bs.1)
        (Handled s) (list_exports-IsSame (lwnbd_contexts_count s.sys.pool) 0 option s)
        λ bs e.
          if_either (Handled s) bs.0
            (let h = send_reply-Handled option rep_ack continue bs.1 tt in
              record { same = h.same ∙ e; next = h.next })
            (record { same = e; next = inr refl })
  handle_option-Handled y cflags unsupported option optlen s =
      send_reply-Handled option rep_err_unsup continue s tt
