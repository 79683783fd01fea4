-- ===== src/Nbd/Handshake/Listing.antt =====
-- NBD_OPT_LIST: one entry for each context in use, and an ACK.
use lw_nbd.Prelude.{
  ℕ, pos, zero, suc, ◌+◌, ◌^◌, ◌≤◌, ◌<◌, ◌≡◌, refl, sym, ap, ◌∙◌, true, false, some, List, [], ◌∷◌,
  ◌++◌, append_assoc, append-nil, Returns, Returns-weaken, get_elem?, length, take, drop, ltb,
  as_size, arith,
}
use lw_nbd.Plugin.{Context}
use lw_nbd.Conn.{send, send-all, acks-send}
use lw_nbd.Contexts.{lwnbd_get_context_i}
use lw_nbd.Nbd.Phase.{msg_more}
use lw_nbd.Nbd.Medium.{payload, payload-send}
use lw_nbd.Nbd.Handshake.{Haggle, option_reply, send_whole, send_export, list_exports}
use lw_nbd.Nbd.Wire.{be, rep_server}
use lw_nbd.Nbd.Wire.Codec.{length-be}

-- The entry of an export in the answer: a reply of type SERVER whose data are the length of the
-- name, the name and the description.
abbrev pub entry : {D : Type 0} → ℕ → Context D → List ℕ
entry option c =
    option_reply option rep_server (length c.name + 4 + length c.description)
    ++ (be 4 (length c.name) ++ (c.name ++ c.description))

abbrev pub entries : {D : Type 0} → ℕ → List (Context D) → List ℕ
entries option [] = []
entries option (c ∷ cs) = entry option c ++ entries option cs

-- The strings of the contexts fit their arrays.
abbrev pub AreNamed : {D : Type 0} → List (Context D) → Type 0
AreNamed [] = Unit
AreNamed (c ∷ cs) = ((length c.name < 32) × (length c.description < 64)) × AreNamed cs

regroup : (p a b c d : List ℕ) → (((p ++ a) ++ b) ++ c) ++ d ≡ p ++ (a ++ (b ++ (c ++ d)))
regroup p a b c d =
    append_assoc ((p ++ a) ++ b) c d
    ∙ append_assoc (p ++ a) b (c ++ d)
    ∙ append_assoc p a (b ++ (c ++ d))

pub length-option_reply :
    (option reply replylen : ℕ) → length (option_reply option reply replylen) ≡ 20
unfolding be
length-option_reply option reply replylen = refl

-- The element at an index within a list, and what the list is from there on.
record At {D : Type 0} (cs : List (Context D)) (i : ℕ) : Type 0 where
  item : Context D
  found : get_elem? cs i ≡ some item
  from : drop i cs ≡ item ∷ drop (suc i) cs
  named : AreNamed cs → (length item.name < 32) × (length item.description < 64)

At-index : {D : Type 0} (cs : List (Context D)) (i : ℕ) → i < length cs → At cs i
At-index [] i h = absurd (omega arith)
At-index (c ∷ cs) zero h = record { item = c; found = refl; from = refl; named = λ all. all.0 }
At-index (c ∷ cs) (suc i) h =
    let a = At-index cs i (omega arith) in
    record { item = a.item; found = a.found; from = a.from; named = λ all. a.named all.1 }

module _ {D : Type 0} where
  abbrev pub sent : List ℕ → ℕ → Haggle D → Haggle D
  sent bytes flags s = record s { conn = (send s.conn bytes flags).1 }

  -- A send that takes all its bytes passes the test of its result.
  pub send_whole-all :
      (bytes : List ℕ) (flags : ℕ) (s : Haggle D)
      → s.conn.acks ≡ []
      → length bytes < 2 ^ 32
      → send_whole bytes flags s ≡ (true, sent bytes flags s)
  unfolding send_whole
  send_whole-all bytes flags s none small = rw (send-all s.conn bytes flags none) (
      let passes : ltb (as_size (pos (length bytes))) (length bytes) ≡ false = ground arith in
      rw passes refl)

  pub payload-sent :
      (bytes : List ℕ) (flags : ℕ) (s : Haggle D)
      → payload (sent bytes flags s).conn.outbox ≡ payload s.conn.outbox ++ bytes
  unfolding send
  payload-sent bytes flags s = payload-send s.conn.outbox _

  acks-sent :
      (bytes : List ℕ) (flags : ℕ) (s : Haggle D)
      → s.conn.acks ≡ []
      → (sent bytes flags s).conn.acks ≡ []
  acks-sent bytes flags s none = acks-send s.conn bytes flags none

  module _ (option : ℕ) (c : Context D) (s : Haggle D) where
    -- The state after each of the four sends of an entry.
    abbrev header : List ℕ
    header = option_reply option rep_server (length c.name + 4 + length c.description)

    abbrev first : Haggle D
    first = sent header msg_more s

    abbrev second : Haggle D
    second = sent (be 4 (length c.name)) msg_more first

    abbrev third : Haggle D
    third = sent c.name msg_more second

    abbrev entry_sent : Haggle D
    entry_sent = sent c.description msg_more third

    entry_sent-acks : s.conn.acks ≡ [] → entry_sent.conn.acks ≡ []
    entry_sent-acks none = acks-sent c.description msg_more third (
        acks-sent c.name msg_more second
          (acks-sent (be 4 (length c.name)) msg_more first (acks-sent header msg_more s none)))

    entry_sent-inbox : entry_sent.conn.inbox ≡ s.conn.inbox
    unfolding send
    entry_sent-inbox = refl

    send_export-all :
        s.conn.acks ≡ []
        → (length c.name < 32) × (length c.description < 64)
        → send_export option c.name c.description s ≡ (true, entry_sent)
    unfolding send_export
    send_export-all none small = rw (send_whole-all header msg_more s none header_small) (
        rw
          (send_whole-all (be 4 (length c.name)) msg_more first one
            (omega (arith, length-be 4 (length c.name))))
          (rw (send_whole-all c.name msg_more second two (omega (arith, small.0))) (
            send_whole-all c.description msg_more third (acks-sent c.name msg_more second two)
              (omega (arith, small.1)))))
      where
        one : first.conn.acks ≡ []
        one = acks-sent header msg_more s none

        two : second.conn.acks ≡ []
        two = acks-sent (be 4 (length c.name)) msg_more first one

        header_small : length header < 2 ^ 32
        header_small = omega (
          arith,
          length-option_reply option rep_server (length c.name + 4 + length c.description),
        )

    payload-entry_sent : payload entry_sent.conn.outbox ≡ payload s.conn.outbox ++ entry option c
    payload-entry_sent =
        payload-sent c.description msg_more third
        ∙ ap (λ l. l ++ c.description)
            (payload-sent c.name msg_more second
              ∙ ap (λ l. l ++ c.name)
                  (payload-sent (be 4 (length c.name)) msg_more first
                    ∙ ap (λ l. l ++ be 4 (length c.name)) (payload-sent header msg_more s)))
        ∙ regroup (payload s.conn.outbox) header (be 4 (length c.name)) c.name c.description

  -- What the loop has done when it passes: every entry has gone out, in the pool's order.
  pub record Listed (option : ℕ) (cs : List (Context D)) (s s' : Haggle D) : Type 0 where
    pub bytes : payload s'.conn.outbox ≡ payload s.conn.outbox ++ entries option cs
    pub acks : s'.conn.acks ≡ []
    pub inbox : s'.conn.inbox ≡ s.conn.inbox
    pub same : (s'.ctx ≡ s.ctx) × (s'.client_ctx ≡ s.client_ctx) × (s'.sys ≡ s.sys)

  pub list_exports-Listed :
      (n i option : ℕ) (s : Haggle D)
      → s.conn.acks ≡ []
      → AreNamed s.sys.pool.contexts
      → i + n ≤ length s.sys.pool.contexts
      → Returns
          (list_exports n i option s)
          (λ bs. (bs.0 ≡ true) × Listed option (take n (drop i s.sys.pool.contexts)) s bs.1)
  unfolding list_exports lwnbd_get_context_i
  list_exports-Listed zero i option s none named fits = (
    refl,
    record {
      bytes = sym (append-nil (payload s.conn.outbox));
      acks = none;
      inbox = refl;
      same = (refl, refl, refl);
    },
  )
  list_exports-Listed (suc n) i option s none named fits = rw a.found (
      rw (send_export-all option a.item s none (a.named named)) (
        Returns-weaken (list_exports n (i + 1) option e)
          (λ bs l. (
            l.0,
            record {
              bytes =
                  l.1.bytes
                  ∙ ap (λ r. r ++ entries option later) (payload-entry_sent option a.item s)
                  ∙ append_assoc (payload s.conn.outbox) (entry option a.item)
                      (entries option later)
                  ∙ ap (λ r. payload s.conn.outbox ++ entries option r) (sym from_here);
              acks = l.1.acks;
              inbox = l.1.inbox ∙ entry_sent-inbox option a.item s;
              same = l.1.same;
            },
          ))
          (list_exports-Listed n (i + 1) option e (entry_sent-acks option a.item s none) named
            (omega arith))))
    where
      cs : List (Context D)
      cs = s.sys.pool.contexts

      a : At cs i
      a = At-index cs i (omega arith)

      e : Haggle D
      e = entry_sent option a.item s

      later : List (Context D)
      later = take n (drop (i + 1) cs)

      from_here : take (suc n) (drop i cs) ≡ a.item ∷ later
      from_here =
          ap (take (suc n)) a.from ∙ ap (λ k. a.item ∷ take n (drop k cs)) {x = suc i} (omega arith)
