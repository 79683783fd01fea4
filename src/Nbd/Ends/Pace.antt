-- ===== src/Nbd/Ends/Pace.antt =====
-- What makes a round of the transfer loops (servers/nbd/protocol.c) come nearer to their end.
use lw_nbd.Prelude.{
  ℕ, ◌≤◌, ◌<◌, ◌≡◌, ◌⊎◌, inl, inr, refl, true, length, Ends, ltb, leb, ◌==◌, Bool-cases, arith,
}
use lw_nbd.Nbd.Phase.{Config, Phase, accept, clip, last_chunk, advance}
use lw_nbd.Nbd.Wire.{Request}

module _ {D : Type 0} where
  -- A chunk has no blocks only if none remain.
  abbrev pub IsPaced : Phase D → Type 0
  IsPaced s = s.bufblksz ≡ 0 → s.blkremains ≡ 0

  -- Nothing has come into the script.
  abbrev pub IsDrained : Phase D → Phase D → Type 0
  IsDrained s s' = length s'.conn.inbox ≤ length s.conn.inbox

  -- The chunk of a round: at most what remains; the last one clears the flag.
  pub record IsCut (s c : Phase D) : Type 0 where
    pub within : c.bufblksz ≤ s.blkremains
    pub same : (c.blkremains ≡ s.blkremains) × (c.retry ≡ s.retry) × (c.conn ≡ s.conn)
    pub last : (c.sendflag ≡ 0) ⊎ (0 < c.bufblksz)
    pub paced : IsPaced c

  pub chunk-IsCut : (bs : ℕ) (s : Phase D) → IsPaced s → IsCut s (last_chunk (clip bs s))
  unfolding last_chunk clip
  chunk-IsCut bs s p = elim (Bool-cases (ltb s.blkremains s.bufblksz)) [
    | inl few ↦ rw few (
        let whole : leb s.blkremains s.blkremains ≡ true = ground arith in
        rw whole (record {
          within = omega arith;
          same = (refl, refl, refl);
          last = inl refl;
          paced = λ e. e;
        }))
    | inr many ↦ rw many (elim (Bool-cases (leb s.blkremains s.bufblksz)) [
      | inl last ↦
          rw last (record {
            within = ground arith;
            same = (refl, refl, refl);
            last = inl refl;
            paced = p;
          })
      | inr more ↦ rw more (record {
        within = ground arith;
        same = (refl, refl, refl);
        last = elim (Bool-cases (s.bufblksz == 0)) [
          | inl none ↦ absurd (ground (arith, p))
          | inr some_ ↦ inr (ground arith)
        ];
        paced = p;
      })
    ])
  ]

  pub advance-IsPaced : (cfg : Config) (s : Phase D) → IsPaced s → IsPaced (advance cfg s)
  unfolding advance
  advance-IsPaced cfg s p e = omega (arith, p e, e)

  pub accept-IsPaced :
      (cfg : Config) (bs : ℕ) (req : Request) (s : Phase D)
      → bs ≤ cfg.nbd_buffer_len
      → Ends (accept cfg bs req s) (λ s'. IsPaced s' × (s'.conn ≡ s.conn) × (s'.retry ≡ s.retry))
  unfolding accept
  accept-IsPaced cfg bs req s h = elim (Bool-cases (bs == 0)) [
    | inl zero_ ↦ rw zero_ tt
    | inr some_ ↦ rw some_ (λ e. absurd (grind arith), refl, refl)
  ]
