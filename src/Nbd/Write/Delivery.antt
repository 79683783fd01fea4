-- ===== src/Nbd/Write/Delivery.antt =====
-- A whole NBD_CMD_WRITE whose payload comes in the pieces that are asked for: it reports success.
use lw_nbd.Prelude.{
  ℕ, ℤ, ◌+◌, ◌-◌, ◌*◌, ◌/◌, ◌%◌, ◌≤◌, ◌<◌, ◌≡◌, ap, ◌∙◌, false, List, [], ◌∷◌, ◌++◌, length,
  length-append, some, done, Returns, Returns->>=, arith,
}
use lw_nbd.Plugin.{Plugin}
use lw_nbd.Conn.{Conn, Recv, send, acks-send}
use lw_nbd.Nbd.Phase.{Config, Phase}
use lw_nbd.Nbd.Phase.Accept.{IsServable, accepted}
use lw_nbd.Nbd.Medium.{patch, WritesTo}
use lw_nbd.Nbd.Write.{write_loop, write_request, write_fuel}
use lw_nbd.Nbd.Write.Pieces.{
  AlwaysWrites, piece, ArePieces, joined, delivered, AllTaken, write_loop-AllTaken,
}
use lw_nbd.Nbd.Write.Replies.{admit_write-accepted, accepted-IsReady, reply_packet}
use lw_nbd.Nbd.Wire.{Request, simple_reply, has_flag, flag_read_only}

-- The pieces hold the blocks that they are cut from.
pub length-joined :
    (bs k n : ℕ) (ds : List (List ℕ)) → ArePieces bs k n ds → length (joined ds) ≡ n * bs
length-joined bs k n [] none = omega (arith, ap (λ (t : ℕ). t * bs) none)
length-joined bs k n (d ∷ ds) (some_, size, pieces) =
    length-append d (joined ds)
    ∙ omega (
      arith,
      size,
      length-joined bs (piece k n) (n - piece k n) ds pieces,
      split (piece k n) n (ground arith),
    )
  where
    split : (k n : ℕ) → k ≤ n → k * bs + (n - k) * bs ≡ n * bs
    split k n h = grind arith

-- What the WRITE leaves: one reply that carries no error, and the payload on the medium.
pub record IsDelivered {D : Type 0} (view : D → ℕ → ℕ) (req : Request) (bytes : List ℕ)
    (rest : List Recv) (s s' : Phase D) : Type 0 where
  pub ctx : s'.ctx ≡ s.ctx
  pub replied : s'.conn.outbox ≡ s.conn.outbox ++ (reply_packet 0 req ∷ [])
  pub left : s'.conn.inbox ≡ rest
  pub acks : s'.conn.acks ≡ []
  pub stored : view s'.dev ≡ patch (view s.dev) req.offset bytes

module _ {D : Type 0} (view : D → ℕ → ℕ) (cfg : Config) (bs : ℕ) (req : Request) (s : Phase D)
    (p : Plugin D) (f : ℕ → List ℕ → ℕ → ℕ → ℕ → D → ℤ × D) (v : IsServable cfg bs req s)
    (writable : has_flag flag_read_only s.ctx.eflags ≡ false) (connected : s.ctx.p ≡ some p)
    (has : p.pwrite ≡ some f) (disk : WritesTo view bs s.ctx.handle f)
    (always : AlwaysWrites s.ctx.handle f) (offset_aligned : req.offset % bs ≡ 0)
    (count_aligned : req.count % bs ≡ 0) (some_bytes : 0 < req.count) where
  start : Phase D
  start = accepted cfg bs req s

  AllTaken-IsDelivered :
      (ds : List (List ℕ)) (rest : List Recv) (s' : Phase D)
      → s.conn.acks ≡ []
      → AllTaken view cfg bs p f has ds rest start s'
      → Returns
          (let (r, conn) = send s'.conn (simple_reply s'.error req.handle) 0 in
            done (record s' { conn = conn }))
          (IsDelivered view req (joined ds) rest s)
  unfolding start send
  AllTaken-IsDelivered ds rest s' acked a = record {
    ctx = a.same.0;
    replied =
        ap (λ (x : Conn). x.outbox ++ (reply_packet s'.error req ∷ [])) a.same.2
        ∙ ap (λ k. s.conn.outbox ++ (reply_packet k req ∷ [])) a.same.1;
    left = ap (λ (x : Conn). x.inbox) a.same.2;
    acks =
        acks-send s'.conn (simple_reply s'.error req.handle) 0
          (ap (λ (x : Conn). x.acks) a.same.2 ∙ acked);
    stored = a.bytes ∙ ap (λ k. patch (view s.dev) k (joined ds)) (whole req.offset offset_aligned);
  }
    where
      whole : (n : ℕ) → n % bs ≡ 0 → n / bs * bs ≡ n
      whole n h = grind arith

  pub write_request-IsDelivered :
      (ds : List (List ℕ)) (rest : List Recv)
      → ArePieces bs (cfg.nbd_buffer_len / bs) (req.count / bs) ds
      → s.conn.inbox ≡ delivered ds rest
      → s.conn.acks ≡ []
      → Returns (write_request cfg bs req s) (IsDelivered view req (joined ds) rest s)
  unfolding write_request start
  write_request-IsDelivered ds rest pieces e acked =
      rw (admit_write-accepted cfg bs req s v writable) (
        Returns->>= (write_loop cfg bs (write_fuel start) start) _
          (AllTaken view cfg bs p f has ds rest start) (IsDelivered view req (joined ds) rest s)
          (write_loop-AllTaken view cfg bs p f has (write_fuel start) start ds rest connected disk
            always (accepted-IsReady cfg bs req s v) (λ none. absurd (some_blocks none)) pieces e
            (omega arith))
          λ s' a. AllTaken-IsDelivered ds rest s' acked a)
    where
      some_blocks : req.count / bs ≡ 0 → ⊥
      some_blocks none = grind (arith, count_aligned, some_bytes, v.positive)
