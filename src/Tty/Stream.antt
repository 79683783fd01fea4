-- ===== src/Tty/Stream.antt =====
-- The ring buffer as a stream: what is read is what was written, in order.
use lw_nbd.Prelude.{
  ℕ, pos, ◌+◌, ◌-◌, ◌%◌, ◌≤◌, ◌<◌, ◌≡◌, refl, sym, ap, subst, ◌∙◌, true, inl, inr, List, [], ◌∷◌,
  ◌++◌, length, length-append, get_or, leb, ltb, ltb→lt, done, Returns, Returns-weaken, Returns->>=,
  Bool-cases, arith,
}
use lw_nbd.Nbd.Medium.{span, patch, patch_before, patch_inside, patch-append, span-eq, span-add}
use lw_nbd.Tty.{tty_size, Tty, copy_out, ring_write, tty_write, ring_read, write_all}
use lw_nbd.Tty.Ring.{behind, Written, ring_write-Written}

-- `stream k` is the byte that was written as number `k`. The ring holds the last ones.
pub record Tracks (stream : ℕ → ℕ) (t : Tty) : Type 0 where
  pub byte :
      (k : ℕ) → k < t.wwhence → t.wwhence ≤ k + tty_size → t.ringbuffer (k % tty_size) ≡ stream k

-- What a write does to the stream: it appends.
pub record Appended (stream : ℕ → ℕ) (buf : List ℕ) (t t' : Tty) : Type 0 where
  pub tracks : Tracks (patch stream t.wwhence buf) t'
  pub producer : t'.wwhence ≡ t.wwhence + length buf
  pub consumer : t'.rwhence ≡ t.rwhence

Written-Tracks :
    (stream : ℕ → ℕ) (buf : List ℕ) (t t' : Tty)
    → Tracks stream t
    → length buf ≤ tty_size
    → t'.wwhence ≡ t.wwhence + length buf
    → Written t.ringbuffer (t.wwhence % tty_size) buf t'.ringbuffer
    → Tracks (patch stream t.wwhence buf) t'
Written-Tracks stream buf t t' tr fits w wr = record {
  byte = λ k lt recent. elim (Bool-cases (ltb k t.wwhence)) [
    | inl earlier ↦
        let e : k < t.wwhence = ltb→lt k t.wwhence earlier in
        wr.old (k % tty_size) (omega arith) (omega (arith, e, w))
        ∙ tr.byte k e (omega (arith, w))
        ∙ sym (patch_before stream t.wwhence buf k e)
    | inr now ↦
        let e : t.wwhence ≤ k = ground (arith, now) in
        let near : behind (t.wwhence % tty_size) (k % tty_size) ≡ k - t.wwhence =
          omega (arith, e, w, fits) in
        wr.fresh (k % tty_size) (omega arith) (omega (arith, near, w))
        ∙ ap (λ i. get_or buf i 0) near
        ∙ sym (patch_inside stream t.wwhence buf (k - t.wwhence) (omega (arith, e, w)))
        ∙ ap (patch stream t.wwhence buf) {y = k} (omega (arith, e))
  ];
}

-- A terminal write that is no longer than the ring returns 0 and appends its bytes to the output:
-- the ring then holds the latest bytes of the longer output, and the reader's place is as it was.
pub tty_write-Appended :
    (stream : ℕ → ℕ) (buf : List ℕ) (t : Tty)
    → Tracks stream t
    → length buf ≤ tty_size
    → Returns (tty_write buf t) (λ rt. (rt.0 ≡ pos 0) × Appended stream buf t rt.1)
unfolding tty_write
tty_write-Appended stream buf t tr fits =
    Returns->>= (ring_write t.ringbuffer (t.wwhence % tty_size) buf) _
      (Written t.ringbuffer (t.wwhence % tty_size) buf)
      (λ rt. (rt.0 ≡ pos 0) × Appended stream buf t rt.1)
      (ring_write-Written t.ringbuffer (t.wwhence % tty_size) buf (omega arith) fits)
      λ ring wr. (
        refl,
        record {
          tracks = Written-Tracks stream buf t _ tr fits refl wr;
          producer = refl;
          consumer = refl;
        },
      )

copy_out-done :
    (ring : ℕ → ℕ) (at n : ℕ) → at + n ≤ tty_size → copy_out ring at n ≡ done (span ring at n)
unfolding copy_out
copy_out-done ring at n h =
    let fits : leb (at + n) (tty_size + 1) ≡ true = ground arith in rw fits refl

module _ (stream : ℕ → ℕ) (t : Tty) (tr : Tracks stream t) where
  -- A piece of the ring without its seam.
  piece :
      (at r n : ℕ)
      → r % tty_size ≡ at
      → at + n ≤ tty_size
      → r + n ≤ t.wwhence
      → t.wwhence ≤ r + tty_size
      → span t.ringbuffer at n ≡ span stream r n
  piece at r n place whole there recent = span-eq t.ringbuffer stream at r n λ i lt.
      ap t.ringbuffer {y = (r + i) % tty_size} (omega (arith, place))
      ∙ tr.byte (r + i) (omega (arith, there)) (omega (arith, recent))

  -- A read of what is still in the ring gives the stream's bytes.
  pub ring_read-Tracks :
      (r count : ℕ)
      → r + count ≤ t.wwhence
      → t.wwhence ≤ r + tty_size
      → ring_read t.ringbuffer (r % tty_size) count ≡ done (span stream r count)
  unfolding ring_read
  ring_read-Tracks r count there recent = elim (Bool-cases (ltb tty_size (r % tty_size + count))) [
    | inl wraps ↦
        let over : tty_size < r % tty_size + count = ltb→lt tty_size (r % tty_size + count) wraps in
        rw wraps (
          rw (copy_out-done t.ringbuffer (r % tty_size) first (omega arith)) (
            rw (copy_out-done t.ringbuffer 0 (count - first) (omega (arith, there, recent))) (
              ap done (
                ap (λ l. l ++ span t.ringbuffer 0 (count - first))
                  (piece (r % tty_size) r first refl (omega arith) (omega (arith, there, over))
                    recent)
                ∙ ap (λ l. span stream r first ++ l)
                    (piece 0 (r + first) (count - first) (omega arith)
                      (omega (arith, there, recent)) (omega (arith, there, over))
                      (omega (arith, recent)))
                ∙ sym (span-add stream r first (count - first))
                ∙ ap (span stream r) (omega (arith, over))))))
    | inr plain ↦
        let under : r % tty_size + count ≤ tty_size = ground (arith, plain) in
        rw plain (
          rw (copy_out-done t.ringbuffer (r % tty_size) count under)
            (ap done (piece (r % tty_size) r count refl under there recent)))
  ]
    where
      first : ℕ
      first = tty_size - r % tty_size

-- All that is written while the waits last, in order.
abbrev pub all_bytes : List (List ℕ) → List ℕ
all_bytes [] = []
all_bytes (buf ∷ bufs) = buf ++ all_bytes bufs

abbrev pub scheduled : List (List (List ℕ)) → List ℕ
scheduled [] = []
scheduled (bufs ∷ schedule) = all_bytes bufs ++ scheduled schedule

-- No single write is longer than the ring.
abbrev pub AllFit : List (List ℕ) → Type 0
AllFit [] = Unit
AllFit (buf ∷ bufs) = (length buf ≤ tty_size) × AllFit bufs

abbrev pub ScheduleFits : List (List (List ℕ)) → Type 0
ScheduleFits [] = Unit
ScheduleFits (bufs ∷ schedule) = AllFit bufs × ScheduleFits schedule

pub call_flag-Tracks :
    (stream : ℕ → ℕ) (t t' : Tty)
    → t'.ringbuffer ≡ t.ringbuffer
    → t'.wwhence ≡ t.wwhence
    → Tracks stream t
    → Tracks stream t'
call_flag-Tracks stream t t' r w tr = record {
  byte = λ k lt recent.
      ap (λ (m : ℕ → ℕ). m (k % tty_size)) r ∙ tr.byte k (omega (arith, w)) (omega (arith, w));
}

Appended-nil : (stream : ℕ → ℕ) (t : Tty) → Tracks stream t → Appended stream [] t t
unfolding patch
Appended-nil stream t tr = record { tracks = tr; producer = omega arith; consumer = refl }

pub Appended-append :
    (stream : ℕ → ℕ) (xs ys : List ℕ) (t t' t'' : Tty)
    → Appended stream xs t t'
    → Appended (patch stream t.wwhence xs) ys t' t''
    → Appended stream (xs ++ ys) t t''
Appended-append stream xs ys t t' t'' a b = record {
  tracks =
      subst (λ m. Tracks m t'')
        (ap (λ w. patch (patch stream t.wwhence xs) w ys) a.producer
          ∙ sym (patch-append stream t.wwhence xs ys))
        b.tracks;
  producer = omega (arith, a.producer, b.producer, length-append xs ys);
  consumer = b.consumer ∙ a.consumer;
}

pub write_all-Appended :
    (stream : ℕ → ℕ) (bufs : List (List ℕ)) (t : Tty)
    → Tracks stream t
    → AllFit bufs
    → Returns (write_all bufs t) (Appended stream (all_bytes bufs) t)
write_all-Appended stream [] t tr fits = Appended-nil stream t tr
write_all-Appended stream (buf ∷ bufs) t tr fits =
    Returns->>= (tty_write buf t) _ (λ rt. (rt.0 ≡ pos 0) × Appended stream buf t rt.1)
      (Appended stream (buf ++ all_bytes bufs) t) (tty_write-Appended stream buf t tr fits.0)
      λ rt a.
        Returns-weaken (write_all bufs rt.1)
          (λ t'' b. Appended-append stream buf (all_bytes bufs) t rt.1 t'' a.1 b)
          (write_all-Appended (patch stream t.wwhence buf) bufs rt.1 a.1.tracks fits.1)
