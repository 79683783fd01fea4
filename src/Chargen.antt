-- ===== src/Chargen.antt =====
-- servers/chargen.c: a stream of the same line. What `write` returns is an argument of the callback,
-- and the bytes that it has taken are kept.
use lw_nbd.Prelude.{
  ℕ, ℤ, pos, negsuc, zero, suc, ◌≡◌, sym, ap, ◌∙◌, Option, none, some, List, [], ◌∷◌, ◌++◌,
  append_assoc, append-nil, length, take, drop, take-drop, take-long, ltb, Bool-cases, inl, inr,
  if◌then◌else◌, arith,
}

unfoldable pub count_up : ℕ → ℕ → List ℕ
count_up zero a = []
count_up (suc n) a = a ∷ count_up n (suc a)

-- the printable characters from `!` to `~`, and a newline
unfoldable pub chargen_line : List ℕ
unfolding count_up
chargen_line = count_up 94 b'!' ++ (10 ∷ [])

-- `struct chargen_state` as what lies between `ptr` and `ptr + len`, and what has been written
pub record ChargenState : Type 0 where
  pub left : List ℕ
  pub sent : List ℕ

unfoldable pub service_chargen_new : ChargenState
service_chargen_new = record { left = chargen_line; sent = [] }

-- `n` is what `write` returns; `none` once the descriptor has been closed. The time of the last
-- activity is left out.
unfoldable pub chargen_on_writable : ℤ → ChargenState → Option ChargenState
chargen_on_writable (negsuc n) st = none
chargen_on_writable (pos zero) st = none
chargen_on_writable (pos (suc n)) st = some (record {
  left = if ltb (suc n) (length st.left) then drop (suc n) st.left else chargen_line;
  sent = st.sent ++ take (suc n) st.left;
})

-- The callback for each time that the descriptor is writable; after a failure it is not called again.
unfoldable pub chargen_run : List ℤ → ChargenState → ChargenState
chargen_run [] st = st
chargen_run (n ∷ ns) st = elim (chargen_on_writable n st) [
  | none ↦ st
  | some st' ↦ chargen_run ns st'
]

unfoldable pub repeated : ℕ → List ℕ → List ℕ
repeated zero line = []
repeated (suc k) line = line ++ repeated k line

repeated_more : (k : ℕ) (line : List ℕ) → repeated k line ++ line ≡ repeated (suc k) line
unfolding repeated
repeated_more zero line = sym (append-nil line)
repeated_more (suc k) line =
    append_assoc line (repeated k line) line ∙ ap (λ r. line ++ r) (repeated_more k line)

-- What has been written and what is left of the line are whole lines.
abbrev pub InLine : ChargenState → Type 0
InLine st = (k : ℕ) × (st.sent ++ st.left ≡ repeated k chargen_line)

after_write-InLine :
    (n : ℕ) (st : ChargenState)
    → InLine st
    → InLine (record {
      left = if ltb (suc n) (length st.left) then drop (suc n) st.left else chargen_line;
      sent = st.sent ++ take (suc n) st.left;
    })
after_write-InLine n st (k, whole) = elim (Bool-cases (ltb (suc n) (length st.left))) [
  | inl part ↦ rw part (
    k,
    append_assoc st.sent (take (suc n) st.left) (drop (suc n) st.left)
        ∙ ap (λ l. st.sent ++ l) (take-drop (suc n) st.left)
        ∙ whole,
  )
  | inr all ↦ rw all (
    suc k,
    ap (λ l. (st.sent ++ l) ++ chargen_line) (take-long (suc n) st.left (ground arith))
        ∙ ap (λ l. l ++ chargen_line) whole
        ∙ repeated_more k chargen_line,
  )
]

run-InLine : (ns : List ℤ) (st : ChargenState) → InLine st → InLine (chargen_run ns st)
unfolding chargen_run chargen_on_writable
run-InLine [] st h = h
run-InLine (negsuc n ∷ ns) st h = h
run-InLine (pos zero ∷ ns) st h = h
run-InLine (pos (suc n) ∷ ns) st h = run-InLine ns _ (after_write-InLine n st h)

-- Whatever the writes return, short ones and failures included, the bytes written to a client of
-- chargen and what is left of the line are together a number of whole lines: no byte is left out
-- or sent twice.
pub chargen_run-InLine : (ns : List ℤ) → InLine (chargen_run ns service_chargen_new)
unfolding service_chargen_new repeated
chargen_run-InLine ns = run-InLine ns service_chargen_new (1, sym (append-nil chargen_line))
