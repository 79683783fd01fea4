-- ===== src/Pcmstream.antt =====
-- plugins/pcmstream/pcmstream.c: a context that plays what is written to it. The audio library is
-- the parameter Audio.
use lw_nbd.Prelude.{
  length-set, lt→ltb, Returns, ◌<◌, ℕ, ℤ, pos, minus_one, zero, suc, ◌≡◌, refl, ◌∙◌, false, List,
  [], ◌∷◌, take, length, set, get_elem?, Run, done, fault, ◌>>=◌, deref, leb, is_zero,
  if◌then◌else◌,
}
use lw_nbd.Plugin.{Fields}
use lw_nbd.System.{strcpy}

-- The library's calls: `init`, `quit`, the format, the volume, and a wait and a play.
pub record Audio (D : Type 0) : Type 0 where
  pub init : D → ℤ × D
  pub quit : D → D
  pub set_format : ℤ → ℤ → ℤ → D → D
  pub set_volume : ℤ → D → D
  pub wait_audio : ℕ → D → D
  pub play_audio : List ℕ → ℕ → D → D

-- `struct pcmstream_config`
pub record PcmConfig : Type 0 where
  pub name : List ℕ
  pub desc : List ℕ
  pub rate : ℤ
  pub bits : ℤ
  pub channels : ℤ
  pub volume : ℤ

-- `handle_state_t`
pub data HandleState : Type 0 where
  handle_free handle_created : HandleState

-- The static variables: a pointer to `handles[i]` is `i + 1`.
pub record Streams (D : Type 0) : Type 0 where
  pub handles : List PcmConfig
  pub handle_in_use : List HandleState
  pub dev : D

unfoldable pub first_free : List HandleState → ℕ
first_free [] = 0
first_free (handle_free ∷ rest) = 0
first_free (handle_created ∷ rest) = suc (first_free rest)

module _ {D : Type 0} (audio : Audio D) where
  abbrev pub stream_at : ℕ → Streams D → Run PcmConfig
  stream_at zero s = fault
  stream_at (suc i) s = deref (get_elem? s.handles i)

  abbrev pub put_stream : ℕ → PcmConfig → Streams D → Streams D
  put_stream zero h s = s
  put_stream (suc i) h s = record s { handles = set s.handles i h }

  unfoldable pub pcmstream_set_volume : ℕ → ℤ → Streams D → Run (ℤ × Streams D)
  pcmstream_set_volume handle volume s = do
    h ← stream_at handle s
    done (
      pos 0,
      record (put_stream handle (record h { volume = volume }) s) {
        dev = audio.set_volume volume s.dev;
      },
    )

  -- A read leaves the buffer as it is.
  unfoldable pub pcmstream_pread : ℕ → List ℕ → ℕ → ℕ → ℕ → Streams D → ℤ × List ℕ × Streams D
  pcmstream_pread handle buf count offset flags s = (pos 0, buf, s)

  unfoldable pub pcmstream_pwrite : ℕ → List ℕ → ℕ → ℕ → ℕ → Streams D → ℤ × Streams D
  pcmstream_pwrite handle buf count offset flags s = (
    pos 0,
    record s { dev = audio.play_audio (take count buf) count (audio.wait_audio count s.dev) },
  )

  unfoldable pub pcmstream_flush : ℕ → ℕ → ℤ
  pcmstream_flush handle flags = pos 0

  -- The library is set up last; where that fails the handle stays in use.
  abbrev pub set_up : PcmConfig → Fields → Streams D → ℤ × Fields × Streams D
  set_up h c s =
      let (r, d) = audio.init s.dev in
      if is_zero r
      then (
        pos 0,
        c,
        record s { dev = audio.set_volume h.volume (audio.set_format h.rate h.bits h.channels d) },
      )
      else (minus_one, c, record s { dev = d })

  -- With no free handle the loop leaves `i` at the array's size, and `handles[i]` lies behind it.
  unfoldable pub pcmstream_ctor : PcmConfig → Fields → Streams D → Run (ℤ × Fields × Streams D)
  pcmstream_ctor pconfig c s =
      let i = first_free s.handle_in_use in
      if leb (length s.handles) i then fault else do
        name ← strcpy 32 pconfig.name
        description ← strcpy 64 pconfig.desc
        done (
            set_up pconfig (record c { handle = suc i; name = name; description = description })
              (record s {
                handles = set s.handles i pconfig;
                handle_in_use = set s.handle_in_use i handle_created;
              }))

  unfoldable pub pcmstream_close : ℕ → Streams D → Streams D
  pcmstream_close handle s = record s { dev = audio.quit s.dev }

abbrev pub pcmstream_block_size : ℕ × ℕ × ℕ
pcmstream_block_size = (1, 1, 1)

-- A constructor that fails for want of the library keeps the only handle: the next one runs past the
-- end of the table.
pcmstream_ctor-failed :
    {D : Type 0} (audio : Audio D) (pconfig pconfig' : PcmConfig) (c c' : Fields) (s : Streams D)
    → length s.handles ≡ 1
    → s.handle_in_use ≡ handle_free ∷ []
    → length pconfig.name < 32
    → length pconfig.desc < 64
    → is_zero (audio.init s.dev).0 ≡ false
    → Returns
        (pcmstream_ctor audio pconfig c s)
        (λ out. (out.0 ≡ minus_one) × (pcmstream_ctor audio pconfig' c' out.2 ≡ fault))
unfolding pcmstream_ctor first_free strcpy
pcmstream_ctor-failed audio pconfig pconfig' c c' s one unused name_fits desc_fits broken =
    rw (one, unused)
      (rw (lt→ltb _ _ name_fits, lt→ltb _ _ desc_fits, broken)
        (refl, rw (length-set s.handles 0 pconfig ∙ one) refl))
