-- ===== src/Nbd/Client/Rounds.antt =====
-- What the loop over a client's states comes to.
use lw_nbd.Prelude.{
  ℕ, ℤ, minus_one, zero, suc, ◌<◌, ◌^◌, ◌≤◌, ◌≡◌, inl, inr, refl, ◌∙◌, ap, some, List, [], ◌++◌,
  append_assoc, length, done, Ends, Ends-weaken, Ends-result, Ends->>=, pos, Returns,
  Returns-weaken, Returns->>=, Bool-cases, Bool, is_zero, arith,
}
use lw_nbd.Conn.{recv-closed}
use lw_nbd.Nbd.Ends.Options.{send_whole-IsSame}
use lw_nbd.System.{System}
use lw_nbd.Uri.{Yuarel, lwnbd_get_context}
use lw_nbd.Nbd.Client.{client_loop}
use lw_nbd.Nbd.Context.{NbdContext, State}
use lw_nbd.Nbd.Ends.Handshake.{IsOver, protocol_handshake-IsOver}
use lw_nbd.Nbd.Handshake.{Haggle, new_handshake, send_whole, protocol_handshake}
use lw_nbd.Nbd.Handshake.Exporting.{IsText, finish_bytes}
use lw_nbd.Nbd.Handshake.Listing.{payload-sent}
use lw_nbd.Nbd.Handshake.Negotiation.{asks_for, protocol_handshake-Exported}
use lw_nbd.Nbd.Medium.{payload}
use lw_nbd.Nbd.Phase.{Config}

module _ {D : Type 0} (cfg : Config) (y : Yuarel) (locals : List ℕ) where
  -- From the first state to the last, nothing has been run but whole handshakes: each but the
  -- last gave 0, and the last gave -1.
  pub data Negotiations : Haggle D → Haggle D → Type 0 where
    dropped :
        {s s' : Haggle D}
        → protocol_handshake cfg y locals s ≡ done (minus_one, s')
        → Negotiations s s'
    again :
        {s s₁ s' : Haggle D}
        → protocol_handshake cfg y locals s ≡ done (pos 0, s₁)
        → Negotiations s₁ s'
        → Negotiations s s'

  -- A client in the state HANDSHAKE is never served: whatever it sends and the plugins answer, the
  -- loop over its states comes to an end, with a fault, or with -1 after one handshake or more and
  -- nothing else, so that what it has then sent, received and asked of plugins is what those
  -- handshakes have. The rounds that it may make are more than the receives of the script.
  pub client_loop-handshake :
      (fuel : ℕ) (s : Haggle D)
      → length s.conn.inbox < fuel
      → Ends
          (client_loop fuel cfg y State.handshake locals s)
          (λ rs. (rs.0 ≡ minus_one) × Negotiations s rs.1)
  unfolding client_loop
  client_loop-handshake zero s enough = absurd (omega arith)
  client_loop-handshake (suc fuel) s enough =
      Ends->>= (protocol_handshake cfg y locals s) _ _ _
        (Ends-result (protocol_handshake cfg y locals s) (IsOver s)
          (protocol_handshake-IsOver cfg y locals s))
        λ rs oe. elim oe.0 [
          | inl failed ↦
              rw (ap is_zero failed) (failed, dropped (oe.1 ∙ ap (λ r. done (r, rs.1)) failed))
          | inr (ok, less) ↦ rw (ap is_zero ok) (
              Ends-weaken (client_loop fuel cfg y State.handshake locals rs.1)
                (λ out n. (n.0, again (oe.1 ∙ ap (λ r. done (r, rs.1)) ok) n.1))
                (client_loop-handshake fuel rs.1 (omega arith)))
        ]

  payload-greeted :
      (bytes : List ℕ) (s : Haggle D)
      → payload (send_whole bytes 0 s).1.conn.outbox ≡ payload s.conn.outbox ++ bytes
  unfolding send_whole
  payload-greeted bytes s = payload-sent bytes 0 s

  -- A handshake that has greeted and failed.
  abbrev GreetedOnly : Haggle D → ℤ × Haggle D → Type 0
  GreetedOnly s rs =
      (rs.0 ≡ minus_one)
      × (payload rs.1.conn.outbox ≡ payload s.conn.outbox ++ new_handshake s.ctx.gflags)

  -- With nothing more to receive, a handshake sends the greeting and fails.
  protocol_handshake-GreetedOnly :
      (s : Haggle D)
      → s.conn.inbox ≡ []
      → Returns (protocol_handshake cfg y locals s) (GreetedOnly s)
  unfolding protocol_handshake
  protocol_handshake-GreetedOnly s e = elim (Bool-cases greeted.0) [
    | inl ok ↦ rw ok (
        rw
          (recv-closed greeted.1.conn locals 4
            (send_whole-IsSame (new_handshake s.ctx.gflags) 0 s ∙ e))
          (refl, payload-greeted (new_handshake s.ctx.gflags) s))
    | inr cut ↦ rw cut (refl, payload-greeted (new_handshake s.ctx.gflags) s)
  ]
    where
      greeted : Bool × Haggle D
      greeted = send_whole (new_handshake s.ctx.gflags) 0 s

  last_round :
      (fuel : ℕ) (s : Haggle D)
      → s.conn.inbox ≡ []
      → Returns (client_loop (suc fuel) cfg y State.handshake locals s) (GreetedOnly s)
  unfolding client_loop
  last_round fuel s e =
      Returns->>= (protocol_handshake cfg y locals s) _ (GreetedOnly s) (GreetedOnly s)
        (protocol_handshake-GreetedOnly s e) λ rs g. rw (ap is_zero g.0) g

  -- A client in the state HANDSHAKE that has negotiated an export and sends nothing more is
  -- greeted again, as if it had not, and dropped with -1: the transmission phase is not entered.
  -- Its flags are the server's and below 2^32; the name is not empty, has no zero byte and is
  -- shorter than the buffer, which is no longer than 2^32; the parser and the plugin accept the
  -- name, and no send falls short.
  pub client_loop-greets_again :
      (fuel c : ℕ) (name : List ℕ) (s : Haggle D) (sys : System D)
      → s.conn.inbox ≡ asks_for s.ctx.gflags name []
      → s.ctx.gflags < 2 ^ 32
      → IsText name
      → 0 < length name
      → length name < cfg.nbd_buffer_len
      → cfg.nbd_buffer_len ≤ 2 ^ 32
      → lwnbd_get_context y name s.sys ≡ done (some c, sys)
      → s.conn.acks ≡ []
      → Returns (client_loop (suc (suc fuel)) cfg y State.handshake locals s) (λ rs.
        (rs.0 ≡ minus_one)
        × (payload rs.1.conn.outbox
            ≡ payload s.conn.outbox
              ++ (new_handshake s.ctx.gflags
                  ++ (finish_bytes s.ctx.gflags s.ctx ++ new_handshake s.ctx.gflags))))
  unfolding client_loop
  client_loop-greets_again fuel c name s sys e width text some_ fits buffer known acked =
      Returns->>= (protocol_handshake cfg y locals s) _ _ _
        (protocol_handshake-Exported cfg y locals c name [] s sys e width text some_ fits buffer
          known acked)
        λ rs q. rw (ap is_zero q.0) (
          Returns-weaken (client_loop (suc fuel) cfg y State.handshake locals rs.1)
            (λ out g. (
              g.0,
              g.1
                  ∙ ap (λ l. l ++ new_handshake rs.1.ctx.gflags) q.1
                  ∙ ap
                      (λ (x : NbdContext D).
                        (payload s.conn.outbox ++ (hello ++ answer)) ++ new_handshake x.gflags)
                      q.3
                  ∙ append_assoc (payload s.conn.outbox) (hello ++ answer) hello
                  ∙ ap (λ l. payload s.conn.outbox ++ l) (append_assoc hello answer hello),
            ))
            (last_round fuel rs.1 q.2))
    where
      hello : List ℕ
      hello = new_handshake s.ctx.gflags

      answer : List ℕ
      answer = finish_bytes s.ctx.gflags s.ctx
