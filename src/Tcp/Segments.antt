-- ===== src/Tcp/Segments.antt =====
-- A message may arrive in any number of segments.
use lw_nbd.Prelude.{
  ℕ, ℤ, pos, zero, suc, ◌+◌, ◌-◌, ◌≤◌, ◌<◌, ◌≡◌, refl, sym, ap, ◌∙◌, false, inl, inr, List, [], ◌∷◌,
  ◌++◌, map, append_assoc, append-nil, take, drop, take-long, take-append, drop-append, drop-drop,
  length, length-append, ltb, ◌==◌, ==_iff, Run, done, Bool-cases, arith,
}
use lw_nbd.Conn.{Conn, Recv, recv}
use lw_nbd.Tcp.{recv_rounds, tcp_recv_block}

-- one `recv` that delivers these bytes
abbrev pub segment : List ℕ → Recv
segment bytes = record { result = pos (length bytes); stored = bytes }

-- what the segments carry
abbrev pub joined : List (List ℕ) → List ℕ
joined [] = []
joined (x ∷ xs) = x ++ joined xs

-- No segment is empty: an empty one would mean that the peer has closed the connection.
abbrev pub NoneEmpty : List (List ℕ) → Type 0
NoneEmpty [] = Unit
NoneEmpty (x ∷ xs) = (0 < length x) × NoneEmpty xs

joined-nil : (segs : List (List ℕ)) → NoneEmpty segs → length (joined segs) ≡ 0 → segs ≡ []
joined-nil [] h e = refl
joined-nil (x ∷ xs) h e = absurd (omega (arith, h.0, length-append x (joined xs)))

-- One `recv` into the buffer behind what has come in.
recv-segment :
    (x pre old : List ℕ) (left : ℕ) (socket : Conn) (rest : List Recv)
    → socket.inbox ≡ segment x ∷ rest
    → length x ≤ left
    → recv socket (drop (length pre) (pre ++ old)) left
      ≡ (pos (length x), x ++ drop (length x) old, record socket { inbox = rest })
unfolding recv
recv-segment x pre old left socket rest e fits =
    rw (drop-append (length pre) pre old refl) (rw e (rw (take-long left x fits) refl))

length-map {ℓ κ} :
    {A : Type ℓ} {B : Type κ} (f : A → B) (xs : List A) → length (map f xs) ≡ length xs
length-map f [] = refl
length-map f (x ∷ xs) = ap suc (length-map f xs)

same_result :
    (socket : Conn) {m n : ℕ} {xs ys : List ℕ}
    → m ≡ n
    → xs ≡ ys
    → ◌≡◌ {A = Run (ℤ × List ℕ × Conn)} (done (pos m, xs, socket)) (done (pos n, ys, socket))
same_result socket p q = λ i. done (pos (p i), q i, socket)

module _ (rest : List Recv) where
  rounds-segments :
      (segs : List (List ℕ)) (fuel left : ℕ) (pre old : List ℕ) (socket : Conn)
      → socket.inbox ≡ map segment segs ++ rest
      → NoneEmpty segs
      → length (joined segs) ≡ left
      → 0 < left
      → length segs < fuel
      → recv_rounds fuel left (length pre) (pre ++ old) socket
        ≡ done (
          pos (length pre + left),
          pre ++ (joined segs ++ drop left old),
          record socket { inbox = rest },
        )
  unfolding recv_rounds
  rounds-segments segs zero left pre old socket e some_ total more fuel = absurd (omega arith)
  rounds-segments [] (suc fuel) left pre old socket e some_ total more enough = absurd (omega arith)
  rounds-segments ([] ∷ xs) (suc fuel) left pre old socket e some_ total more enough =
      absurd (omega (arith, some_.0))
  rounds-segments ((b ∷ bs) ∷ xs) (suc fuel) left pre old socket e some_ total more enough =
      rw (recv-segment x pre old left socket (map segment xs ++ rest) e fits, recv_rounds)
        (rw (take-append (length pre) pre old refl) (
          rw not_over (elim (Bool-cases (left == length x)) [
            | inl last ↦ rw last (ended ((==_iff left (length x)).0 last))
            | inr later ↦ rw later (
                rw (regroup, sym (length-append pre x))
                  (rounds-segments xs fuel (left - length x) (pre ++ x) (drop (length x) old)
                      (record socket { inbox = map segment xs ++ rest }) refl some_.1 left_over
                      (ground (arith, later, fits)) (omega (arith, enough))
                    ∙ same_result (record socket { inbox = rest }) count bytes))
          ])))
    where
      x : List ℕ
      x = b ∷ bs

      both : length x + length (joined xs) ≡ left
      both = sym (length-append x (joined xs)) ∙ total

      fits : length x ≤ left
      fits = omega (arith, both)

      not_over : ltb left (length x) ≡ false
      not_over = ground (arith, fits)

      left_over : length (joined xs) ≡ left - length x
      left_over = omega (arith, both)

      regroup : pre ++ (x ++ drop (length x) old) ≡ (pre ++ x) ++ drop (length x) old
      regroup = sym (append_assoc pre x (drop (length x) old))

      count : length (pre ++ x) + (left - length x) ≡ length pre + left
      count = omega (arith, length-append pre x, fits)

      bytes :
          (pre ++ x) ++ (joined xs ++ drop (left - length x) (drop (length x) old))
          ≡ pre ++ ((x ++ joined xs) ++ drop left old)
      bytes =
          append_assoc pre x _
          ∙ ap (λ l. pre ++ (x ++ (joined xs ++ l)))
              (drop-drop (length x) (left - length x) old
                ∙ ap (λ k. drop k old) {y = left} (omega (arith, fits)))
          ∙ ap (λ l. pre ++ l) (sym (append_assoc x (joined xs) (drop left old)))

      ended :
          left ≡ length x
          → ◌≡◌ {A = Run (ℤ × List ℕ × Conn)}
              (done (
                pos (length pre + length x),
                pre ++ (x ++ drop (length x) old),
                record socket { inbox = map segment xs ++ rest },
              ))
              (done (
                pos (length pre + left),
                pre ++ ((x ++ joined xs) ++ drop left old),
                record socket { inbox = rest },
              ))
      ended whole =
          rw (joined-nil xs some_.1 (omega (arith, both, whole)))
            (rw whole (rw (append-nil bs) refl))

  -- A message that arrives in any number of non-empty segments is read whole: the call returns
  -- just what one `recv` would that delivered it at once, and takes no more from the socket.
  pub tcp_recv_block-segments :
      (segs : List (List ℕ)) (mem : List ℕ) (len : ℕ) (socket : Conn)
      → NoneEmpty segs
      → length (joined segs) ≡ len
      → 0 < len
      → tcp_recv_block (record socket { inbox = map segment segs ++ rest }) mem len
        ≡ done (recv (record socket { inbox = segment (joined segs) ∷ rest }) mem len)
  unfolding tcp_recv_block recv
  tcp_recv_block-segments segs mem len socket some_ total more =
      rounds-segments segs (length (map segment segs ++ rest) + 1) len [] mem
        (record socket { inbox = map segment segs ++ rest }) refl some_ total more enough
      ∙ same_result (record socket { inbox = rest }) (omega (arith, total)) bytes
    where
      enough : length segs < length (map segment segs ++ rest) + 1
      enough = omega (arith, length-append (map segment segs) rest, length-map segment segs)

      fits : take len (joined segs) ≡ joined segs
      fits = take-long len (joined segs) (omega (arith, total))

      bytes :
          joined segs ++ drop len mem
          ≡ take len (joined segs) ++ drop (length (take len (joined segs))) mem
      bytes = rw fits (ap (λ k. joined segs ++ drop k mem) (sym total))
