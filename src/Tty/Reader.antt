-- ===== src/Tty/Reader.antt =====
-- `nbdtty_pread`: it waits for the data it was asked for, and then gives the stream's next bytes.
use lw_nbd.Prelude.{
  ℕ, ℤ, pos, ◌+◌, ◌≤◌, ◌<◌, ◌≡◌, ◌≢◌, ◌⊎◌, refl, sym, ap, subst, ◌∙◌, inl, inr, List, [], ◌∷◌, ◌++◌,
  append_assoc, take, take-append, drop, length, length-append, ltb, ltb→lt, Returns,
  Returns-weaken, Returns->>=, Bool-cases, arith,
}
use lw_nbd.Nbd.Medium.{span, patch, patch_before, patch-append, span-eq, length-span}
use lw_nbd.Tty.{
  tty_size, Tty, write_all, wait_data, nbdtty_pread, call_flag, wait_flag, set_flag, data_bits,
  busy_bits, idle_bits,
}
use lw_nbd.Tty.Stream.{
  Tracks, Appended, call_flag-Tracks, Appended-append, write_all-Appended, ring_read-Tracks,
  all_bytes, scheduled, ScheduleFits,
}

-- What the waits have done: a first part of what is written meanwhile has come in, and it is enough.
record Waited (stream : ℕ → ℕ) (schedule : List (List (List ℕ))) (count : ℕ) (t : Tty)
    (out : List (List (List ℕ)) × Tty) : Type 0 where
  come : List ℕ
  split : scheduled schedule ≡ come ++ scheduled out.0
  appended : Appended stream come t out.1
  enough : out.1.rwhence + count ≤ out.1.wwhence

Waited-more :
    (stream : ℕ → ℕ) (bufs : List (List ℕ)) (schedule : List (List (List ℕ))) (count : ℕ)
    (t t' : Tty) (out : List (List (List ℕ)) × Tty)
    → Appended stream (all_bytes bufs) t t'
    → Waited (patch stream t.wwhence (all_bytes bufs)) schedule count t' out
    → Waited stream (bufs ∷ schedule) count t out
Waited-more stream bufs schedule count t t' out a w = record {
  come = all_bytes bufs ++ w.come;
  split =
      ap (λ l. all_bytes bufs ++ l) w.split
      ∙ sym (append_assoc (all_bytes bufs) w.come (scheduled out.0));
  appended = Appended-append stream (all_bytes bufs) w.come t t' out.1 a w.appended;
  enough = w.enough;
}

-- An append between states that differ from the given ones in their flags.
reflag :
    (stream : ℕ → ℕ) (bytes : List ℕ) (t u t' u' : Tty)
    → (u.wwhence ≡ t.wwhence) × (u.rwhence ≡ t.rwhence)
    → (u'.ringbuffer ≡ t'.ringbuffer) × (u'.wwhence ≡ t'.wwhence) × (u'.rwhence ≡ t'.rwhence)
    → Appended stream bytes t t'
    → Appended stream bytes u u'
reflag stream bytes t u t' u' same same' a = record {
  tracks =
      call_flag-Tracks _ t' u' same'.0 same'.1
        (subst (λ w. Tracks (patch stream w bytes) t') (sym same.0) a.tracks);
  producer = omega (arith, a.producer, same.0, same'.1);
  consumer = same'.2 ∙ a.consumer ∙ sym same.1;
}

wait_data-Waited :
    (schedule : List (List (List ℕ))) (stream : ℕ → ℕ) (count : ℕ) (t : Tty)
    → Tracks stream t
    → ScheduleFits schedule
    → (schedule ≢ []) ⊎ (t.wwhence < t.rwhence + count)
    → t.rwhence + count ≤ t.wwhence + length (scheduled schedule)
    → Returns (wait_data schedule count t) (Waited stream schedule count t)
unfolding wait_data
wait_data-Waited [] stream count t tr fits (inl some_) comes = absurd (some_ refl)
wait_data-Waited [] stream count t tr fits (inr short) comes = absurd (omega arith)
wait_data-Waited (bufs ∷ schedule) stream count t tr fits why comes =
    Returns->>= (write_all bufs t₀) _ (Appended stream (all_bytes bufs) t₀)
      (Waited stream (bufs ∷ schedule) count t)
      (write_all-Appended stream bufs t₀ (call_flag-Tracks stream t t₀ refl refl tr) fits.0)
      λ t₁ a. elim (Bool-cases (ltb t₁.wwhence (t₁.rwhence + count))) [
        | inl short ↦ rw short (
            Returns-weaken (wait_data schedule count (tried t₁))
              (λ out w. Waited-more stream bufs schedule count t (tried t₁) out (flagged t₁ a) w)
              (wait_data-Waited schedule (patch stream t.wwhence (all_bytes bufs)) count (tried t₁)
                (flagged t₁ a).tracks fits.1 (inr (ltb→lt _ _ short)) (still t₁ a)))
        | inr enough ↦ rw enough (record {
          come = all_bytes bufs;
          split = refl;
          appended =
              reflag stream (all_bytes bufs) t₀ t t₁ (call_flag (set_flag busy_bits) t₁)
                (refl, refl) (refl, refl, refl) a;
          enough = ground (arith, enough);
        })
      ]
  where
    t₀ : Tty
    t₀ = call_flag (wait_flag data_bits) t

    tried : Tty → Tty
    tried u = call_flag (set_flag idle_bits) (call_flag (set_flag busy_bits) u)

    flagged :
        (t₁ : Tty)
        → Appended stream (all_bytes bufs) t₀ t₁
        → Appended stream (all_bytes bufs) t (tried t₁)
    flagged t₁ a =
        reflag stream (all_bytes bufs) t₀ t t₁ (tried t₁) (refl, refl) (refl, refl, refl) a

    still :
        (t₁ : Tty)
        → Appended stream (all_bytes bufs) t₀ t₁
        → t₁.rwhence + count ≤ t₁.wwhence + length (scheduled schedule)
    still t₁ a =
        omega (
          arith,
          comes,
          a.producer,
          a.consumer,
          length-append (all_bytes bufs) (scheduled schedule),
        )

-- Bytes that lie before the last part of what is appended do not depend on it.
span-append :
    (stream : ℕ → ℕ) (w : ℕ) (xs ys : List ℕ) (r count : ℕ)
    → r + count ≤ w + length xs
    → span (patch stream w xs) r count ≡ span (patch stream w (xs ++ ys)) r count
span-append stream w xs ys r count h =
    span-eq (patch stream w xs) (patch stream w (xs ++ ys)) r r count λ i lt.
      sym (patch_before (patch stream w xs) (w + length xs) ys (r + i) (omega arith))
      ∙ ap (λ (m : ℕ → ℕ). m (r + i)) (sym (patch-append stream w xs ys))

-- What a read has done: it has given the next `count` bytes of the stream that everything written
-- meanwhile goes into, and has moved on by as many.
pub record IsRead (stream : ℕ → ℕ) (written : List ℕ) (count : ℕ) (t : Tty) (out : ℤ × List ℕ × Tty)
    : Type 0 where
  pub result : out.0 ≡ pos 0
  pub bytes : take count out.1 ≡ span (patch stream t.wwhence written) t.rwhence count
  pub consumer : out.2.rwhence ≡ t.rwhence + count
  pub still_tracks : (come : List ℕ) × Tracks (patch stream t.wwhence come) out.2

-- A terminal read waits no longer than until what has been written is enough, and then gives the
-- next bytes of the output, in order, none lost and none twice, wherever they lie in the ring. The
-- other threads write enough, none of them more at once than the ring holds, and not so much that
-- bytes not yet read are overwritten.
pub nbdtty_pread-IsRead :
    (schedule : List (List (List ℕ))) (stream : ℕ → ℕ) (handle : ℕ) (buf : List ℕ)
    (count offset flags : ℕ) (t : Tty)
    → Tracks stream t
    → ScheduleFits schedule
    → schedule ≢ []
    → t.rwhence + count ≤ t.wwhence + length (scheduled schedule)
    → t.wwhence + length (scheduled schedule) ≤ t.rwhence + tty_size
    → Returns
        (nbdtty_pread schedule handle buf count offset flags t)
        (IsRead stream (scheduled schedule) count t)
unfolding nbdtty_pread
nbdtty_pread-IsRead schedule stream handle buf count offset flags t tr fits some_ comes room =
    Returns->>= (wait_data schedule count t) _ (Waited stream schedule count t)
      (IsRead stream (scheduled schedule) count t)
      (wait_data-Waited schedule stream count t tr fits (inl some_) comes)
      λ out w.
        rw
          (ring_read-Tracks (patch stream t.wwhence w.come) out.1 w.appended.tracks t.rwhence count
            (omega (arith, w.enough, w.appended.consumer)) (recent out w))
          (record {
            result = refl;
            bytes =
                take-append count _ (drop count buf) (sym (length-span _ t.rwhence count))
                ∙ span-append stream t.wwhence w.come (scheduled out.0) t.rwhence count
                    (omega (arith, w.enough, w.appended.consumer, w.appended.producer))
                ∙ ap (λ l. span (patch stream t.wwhence l) t.rwhence count) (sym w.split);
            consumer = ap (λ k. k + count) w.appended.consumer;
            still_tracks = (w.come, call_flag-Tracks _ out.1 _ refl refl w.appended.tracks);
          })
  where
    recent :
        (out : List (List (List ℕ)) × Tty)
        → Waited stream schedule count t out
        → out.1.wwhence ≤ t.rwhence + tty_size
    recent out w = omega (
      arith,
      room,
      w.appended.producer,
      ap length w.split,
      length-append w.come (scheduled out.0),
    )
