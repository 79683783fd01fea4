-- ===== src/Conn.antt =====
-- The transport callbacks `sync_recv_cb` and `sync_send_cb` of include/lwnbd/lwnbd.h, which the NBD
-- server calls and does not implement. The peer and the network are a script: what every later
-- receive stores and returns, and what every later send returns. Any finite behaviour is such a
-- script, short and failed transfers included.
use lw_nbd.Prelude.{
  ℕ, ℤ, pos, suc, ◌≤◌, ◌<◌, ◌≡◌, refl, ap, false, List, [], ◌∷◌, ◌++◌, length, take, drop, ltb,
  as_size, arith,
}

-- One receive: the value returned (as the `int` it is stored in) and the bytes put in the buffer.
pub record Recv : Type 0 where
  pub result : ℤ
  pub stored : List ℕ

-- One send: the bytes handed over and the flags. How many of them the transport has taken is what
-- the send returns.
pub record Packet : Type 0 where
  pub bytes : List ℕ
  pub flags : ℕ

pub record Conn : Type 0 where
  pub inbox : List Recv
  pub acks : List ℤ
  pub outbox : List Packet

-- A receive overwrites the front of the buffer by at most `len` bytes. When the script is over the
-- peer has closed the connection.
abbrev pub receive : List Recv → Conn → List ℕ → ℕ → ℤ × List ℕ × Conn
receive [] c buf len = (pos 0, buf, c)
receive (r ∷ rs) c buf len =
    let bytes = take len r.stored in
    (r.result, bytes ++ drop (length bytes) buf, record c { inbox = rs })

unfoldable pub recv : Conn → List ℕ → ℕ → ℤ × List ℕ × Conn
recv c buf len = receive c.inbox c buf len

abbrev ack : List ℤ → ℕ → ℤ × List ℤ
ack [] n = (pos n, [])
ack (a ∷ rest) n = (a, rest)

-- A send past the end of the script takes all its bytes.
unfoldable pub send : Conn → List ℕ → ℕ → ℤ × Conn
send c bytes flags =
    let (r, rest) = ack c.acks (length bytes) in
    (
      r,
      record c { acks = rest; outbox = c.outbox ++ (record { bytes = bytes; flags = flags } ∷ []) },
    )

receive-outbox :
    (l : List Recv) (c : Conn) (buf : List ℕ) (len : ℕ) → (receive l c buf len).2.outbox ≡ c.outbox
receive-outbox [] c buf len = refl
receive-outbox (r ∷ rs) c buf len = refl

pub recv-outbox : (c : Conn) (buf : List ℕ) (len : ℕ) → (recv c buf len).2.outbox ≡ c.outbox
unfolding recv
recv-outbox c buf len = receive-outbox c.inbox c buf len

pub acks-send :
    (c : Conn) (bytes : List ℕ) (flags : ℕ) → c.acks ≡ [] → (send c bytes flags).1.acks ≡ []
unfolding send
acks-send c bytes flags e = rw e refl

-- Past the end of the script a send takes all its bytes.
pub send-all :
    (c : Conn) (bytes : List ℕ) (flags : ℕ)
    → c.acks ≡ []
    → (send c bytes flags).0 ≡ pos (length bytes)
unfolding send
send-all c bytes flags e = rw e refl

pub send-inbox : (c : Conn) (bytes : List ℕ) (flags : ℕ) → (send c bytes flags).1.inbox ≡ c.inbox
unfolding send
send-inbox c bytes flags = refl

receive-shrinks :
    (l : List Recv) (c : Conn) (buf : List ℕ) (len : ℕ)
    → c.inbox ≡ l
    → length (receive l c buf len).2.inbox ≤ length c.inbox
receive-shrinks [] c buf len e = omega arith
receive-shrinks (r ∷ rs) c buf len e = omega (arith, ap length e)

pub recv-shrinks :
    (c : Conn) (buf : List ℕ) (len : ℕ) → length (recv c buf len).2.inbox ≤ length c.inbox
unfolding recv
recv-shrinks c buf len = receive-shrinks c.inbox c buf len refl

receive-takes :
    (l : List Recv) (c : Conn) (buf : List ℕ) (len n : ℕ)
    → c.inbox ≡ l
    → ltb (as_size (receive l c buf len).0) (suc n) ≡ false
    → length (receive l c buf len).2.inbox < length c.inbox
receive-takes [] c buf len n e h = absurd (ground arith)
receive-takes (r ∷ rs) c buf len n e h = omega (arith, ap length e)

-- A receive that reports a byte or more has taken an entry of the script.
pub recv-takes :
    (c : Conn) (buf : List ℕ) (len n : ℕ)
    → ltb (as_size (recv c buf len).0) (suc n) ≡ false
    → length (recv c buf len).2.inbox < length c.inbox
unfolding recv
recv-takes c buf len n h = receive-takes c.inbox c buf len n refl h

-- With the script over the peer has closed the connection.
pub recv-closed :
    (c : Conn) (buf : List ℕ) (len : ℕ) → c.inbox ≡ [] → recv c buf len ≡ (pos 0, buf, c)
unfolding recv
recv-closed c buf len e = rw e refl
