-- ===== src/Nbd/Ends/Handshake.antt =====
-- `protocol_handshake` (servers/nbd/protocol-handshake.c) comes to an end: each round of the haggling
-- takes a receive.
use lw_nbd.Prelude.{
  pos, inl, inr, ◌⊎◌, ◌≡◌, ℕ, ℤ, minus_one, zero, suc, ◌+◌, ◌≤◌, ◌<◌, refl, ap, Bool, not, List,
  length, take, drop, Ends, Ends-weaken, Ends-if, Ends->>=, Ends-deref_then, get_elem?, ltb, ◌==◌,
  Bool-cases, done, as_size, as_u32, arith,
}
use lw_nbd.Conn.{Conn, recv, recv-shrinks, recv-takes}
use lw_nbd.Uri.{Yuarel}
use lw_nbd.Nbd.Ends.Options.{send_whole-IsSame, handle_option-Handled}
use lw_nbd.Nbd.Ends.Transmission.{IsResult, IsNext}
use lw_nbd.Nbd.Phase.{Config}
use lw_nbd.Nbd.Transmission.{Next, continue, return}
use lw_nbd.Nbd.Handshake.{
  Haggle, opt, nbd_options, nbd_option_to_string, new_handshake, send_whole, handle_option,
  recv_data, get_data, option_round, option_loop, protocol_handshake,
}
use lw_nbd.Nbd.Wire.{of_be, new_version}

module _ {D : Type 0} where
  -- The data of an option take from the script only.
  recv_data-Ends :
      (cfg : Config) (optlen : ℕ) (s : Haggle D)
      → Ends (recv_data cfg optlen s) (λ got. length got.1.conn.inbox ≤ length s.conn.inbox)
  unfolding recv_data
  recv_data-Ends cfg optlen s =
      Ends-if (ltb (as_u32 (recv s.conn s.nbd_buffer optlen).0) optlen) _ _
        (λ g. length g.1.conn.inbox ≤ length s.conn.inbox) shrinks
        (Ends-if (optlen == cfg.nbd_buffer_len) _ _
          (λ g. length g.1.conn.inbox ≤ length s.conn.inbox) tt shrinks)
    where
      shrinks : length (recv s.conn s.nbd_buffer optlen).2.inbox ≤ length s.conn.inbox
      shrinks = recv-shrinks s.conn s.nbd_buffer optlen

  get_data-Ends :
      (cfg : Config) (optlen : ℕ) (s : Haggle D)
      → Ends (get_data cfg optlen s) (λ got. length got.1.conn.inbox ≤ length s.conn.inbox)
  unfolding get_data
  get_data-Ends cfg optlen s =
      Ends-if (ltb 0 optlen) _ _ (λ got. length got.1.conn.inbox ≤ length s.conn.inbox)
        (recv_data-Ends cfg optlen s) (omega arith)

  -- A round that does not end with -1 has taken a receive.
  record Rounded (s : Haggle D) (ns : Next × Haggle D) : Type 0 where
    next : IsNext ns.0
    taken : (ns.0 ≡ return minus_one) ⊎ (length ns.1.conn.inbox < length s.conn.inbox)

  -- The phase has ended with -1, or with 0 and a receive taken.
  abbrev pub IsOver : Haggle D → ℤ × Haggle D → Type 0
  IsOver s rs =
      (rs.0 ≡ minus_one) ⊎ ((rs.0 ≡ pos 0) × (length rs.1.conn.inbox < length s.conn.inbox))

  option_round-Rounded :
      (cfg : Config) (y : Yuarel) (cflags : ℕ) (s : Haggle D)
      → Ends (option_round cfg y cflags s) (Rounded s)
  unfolding option_round nbd_option_to_string
  option_round-Rounded cfg y cflags s = elim (Bool-cases (ltb (as_size got.0) 16)) [
    | inl short ↦ rw short stopped
    | inr whole ↦ rw whole (
        Ends-if (not (of_be (take 8 got.1) == new_version)) _ _ (Rounded s) stopped (
          Ends-deref_then (get_elem? nbd_options option) _ (Rounded s) λ name.
            Ends-if (ltb cfg.nbd_buffer_len optlen) _ _ (Rounded s) stopped (
              Ends->>= (get_data cfg optlen s') _
                (λ g. length g.1.conn.inbox ≤ length s'.conn.inbox) (Rounded s)
                (get_data-Ends cfg optlen s')
                λ g drained.
                  Ends-if g.0 _ _ (Rounded s)
                    (Ends-weaken (handle_option y cflags (opt option) option optlen g.1)
                      (λ ns h. record {
                        next = h.next;
                        taken = inr (
                            omega (
                              arith,
                              ap length h.same,
                              drained,
                              recv-takes s.conn s.new_opt 16 15 whole,
                            ));
                      })
                      (handle_option-Handled y cflags (opt option) option optlen g.1))
                    (record { next = inr refl; taken = inl refl }))))
  ]
    where
      got : ℤ × List ℕ × Conn
      got = recv s.conn s.new_opt 16

      s' : Haggle D
      s' = record s { new_opt = got.1; conn = got.2 }

      option : ℕ
      option = of_be (take 4 (drop 8 got.1))

      optlen : ℕ
      optlen = of_be (take 4 (drop 12 got.1))

      stopped : Rounded s (return minus_one, s')
      stopped = record { next = inr refl; taken = inl refl }

  next_round :
      (fuel : ℕ) (cfg : Config) (y : Yuarel) (cflags : ℕ) (s : Haggle D) (ns : Next × Haggle D)
      → Rounded s ns
      → (ns.0 ≡ continue → Ends (option_loop fuel cfg y cflags ns.1) (IsOver ns.1))
      → Ends
          (elim ns.0 [ continue ↦ option_loop fuel cfg y cflags ns.1 | return r ↦ done (r, ns.1) ])
          (IsOver s)
  next_round fuel cfg y cflags s (continue, s') r later =
      Ends-weaken (option_loop fuel cfg y cflags s')
        (λ rs o. elim o [
          | inl failed ↦ inl failed
          | inr (ok, less) ↦
              inr (ok, elim r.taken [ inl e ↦ absurd (cc) | inr taken ↦ omega arith ])
        ])
        (later refl)
  next_round fuel cfg y cflags s (return v, s') r later = elim r.next [
    | inr failed ↦ inl failed
    | inl ok ↦ elim r.taken [ inl e ↦ inl (cc) | inr less ↦ inr (ok, less) ]
  ]

  option_loop-IsOver :
      (fuel : ℕ) (cfg : Config) (y : Yuarel) (cflags : ℕ) (s : Haggle D)
      → length s.conn.inbox < fuel
      → Ends (option_loop fuel cfg y cflags s) (IsOver s)
  unfolding option_loop
  option_loop-IsOver zero cfg y cflags s enough = absurd (omega arith)
  option_loop-IsOver (suc fuel) cfg y cflags s enough =
      Ends->>= (option_round cfg y cflags s) _ (Rounded s) (IsOver s)
        (option_round-Rounded cfg y cflags s)
        λ ns r. next_round fuel cfg y cflags s ns r λ e.
          option_loop-IsOver fuel cfg y cflags ns.1
            (elim r.taken [ inl last ↦ absurd (cc) | inr less ↦ omega arith ])

  pub protocol_handshake-IsOver :
      (cfg : Config) (y : Yuarel) (flags_buffer : List ℕ) (s : Haggle D)
      → Ends (protocol_handshake cfg y flags_buffer s) (IsOver s)
  unfolding protocol_handshake
  protocol_handshake-IsOver cfg y flags_buffer s =
      Ends-if (not greeted.0) _ _ (IsOver s) (inl refl) (
        Ends-if (ltb (as_size got.0) 4) _ _ (IsOver s) (inl refl) (
          Ends-if (not (of_be (take 4 got.1) == s.ctx.gflags)) _ _ (IsOver s) (inl refl) (
            Ends-weaken
              (option_loop (length got.2.inbox + 1) cfg y (of_be (take 4 got.1))
                (record (greeted.1) { conn = got.2 }))
              (λ rs o. elim o [
                | inl failed ↦ inl failed
                | inr (ok, less) ↦ inr (
                  ok,
                  omega (
                    arith,
                    recv-shrinks greeted.1.conn flags_buffer 4,
                    ap length (send_whole-IsSame (new_handshake s.ctx.gflags) 0 s),
                  ),
                )
              ])
              (option_loop-IsOver (length got.2.inbox + 1) cfg y (of_be (take 4 got.1))
                (record (greeted.1) { conn = got.2 }) (omega arith)))))
    where
      greeted : Bool × Haggle D
      greeted = send_whole (new_handshake s.ctx.gflags) 0 s

      got : ℤ × List ℕ × Conn
      got = recv greeted.1.conn flags_buffer 4

  -- Whatever the client sends, whatever its receives and the sends return and whatever the plugins
  -- and the parser of URIs answer, the handshake comes to an end: it runs into a fault, or it
  -- returns 0 or -1.
  pub protocol_handshake-Ends :
      (cfg : Config) (y : Yuarel) (flags_buffer : List ℕ) (s : Haggle D)
      → Ends (protocol_handshake cfg y flags_buffer s) (λ out. IsResult out.0)
  protocol_handshake-Ends cfg y flags_buffer s =
      Ends-weaken (protocol_handshake cfg y flags_buffer s)
        (λ rs o. elim o [ inl failed ↦ inr failed | inr (ok, less) ↦ inl ok ])
        (protocol_handshake-IsOver cfg y flags_buffer s)
