-- ===== src/Log.antt =====
-- src/log.c: messages up to a level go to a callback. `W` is what the callbacks write to. The names
-- `__FILE__` and `__func__`, and what `vsnprintf` makes of a format and its arguments, are arguments.
use lw_nbd.Prelude.{
  ℕ, ℤ, pos, negsuc, minus_one, ◌-◌, ◌≡◌, refl, sym, ap, Bool, true, false, Option, none, some,
  List, ◌∷◌, ◌++◌, append_assoc, length, length-append, take, Option-cases, inl, inr, Bool-cases,
  ltb, ◌==◌, if◌then◌else◌, arith,
}
use lw_nbd.Text.{codes, pad_right}

abbrev pub lwnbd_buffer_len : ℕ
lwnbd_buffer_len = 2048

-- `enum LWNBD_LOG`
abbrev pub log_error : ℤ
log_error = pos 1

abbrev pub log_warn : ℤ
log_warn = pos 2

abbrev pub log_info : ℤ
log_info = pos 3

-- `a > b` on `int`
abbrev pub above : ℤ → ℤ → Bool
above (pos a) (pos b) = ltb b a
above (pos a) (negsuc b) = true
above (negsuc a) (pos b) = false
above (negsuc a) (negsuc b) = ltb a b

abbrev pub same_int : ℤ → ℤ → Bool
same_int (pos a) (pos b) = a == b
same_int (pos a) (negsuc b) = false
same_int (negsuc a) (pos b) = false
same_int (negsuc a) (negsuc b) = a == b

-- file, tag, level, line, func, message
abbrev pub LogCallback : Type 0 → Type 0
LogCallback W = List ℕ → List ℕ → ℤ → ℕ → List ℕ → List ℕ → W → W

-- `Global`
pub record Global (W : Type 0) : Type 0 where
  pub level : ℤ
  pub log_callback : Option (LogCallback W)

unfoldable pub level_name : ℤ → List ℕ
level_name level =
    let name₁ = if same_int level log_info then codes "INFO" else codes "DEBUG" in
    let name₂ = if same_int level log_warn then codes "WARN" else name₁ in
    if same_int level log_error then codes "ERROR" else name₂

-- `printf("[%-5s][%s] %s", level_name, tag, message)`, on what has been printed so far
unfoldable pub lwnbd_default_log_callback : LogCallback (List ℕ)
lwnbd_default_log_callback file tag level line func message out =
    out
    ++ (codes "["
        ++ (pad_right 5 (level_name level) ++ (codes "][" ++ (tag ++ (codes "] " ++ message)))))

-- `vsnprintf` into an array of `n` characters keeps the first `n - 1`.
abbrev pub cut_text : ℕ → List ℕ → List ℕ
cut_text n text = take (n - 1) text

module _ {W : Type 0} where
  unfoldable pub lwnbd_log : Global W → List ℕ → ℤ → ℕ → List ℕ → List ℕ → W → ℤ × W
  lwnbd_log g file level line func text w = elim g.log_callback [
    | none ↦ (minus_one, w)
    | some callback ↦ if above level g.level then (minus_one, w) else (
      pos 0,
      callback file (codes "LWNBD") level line func (cut_text lwnbd_buffer_len text) w,
    )
  ]

  abbrev pub lwnbd_set_log_callback : Option (LogCallback W) → Global W → Global W
  lwnbd_set_log_callback callback g = record g { log_callback = callback }

  abbrev pub lwnbd_set_log_level : ℤ → Global W → Global W
  lwnbd_set_log_level level g = record g { level = level }

  -- A message above the level that has been set changes nothing, whatever the callback.
  pub lwnbd_log-silent :
      (g : Global W) (limit level : ℤ) (file func text : List ℕ) (line : ℕ) (w : W)
      → above level limit ≡ true
      → lwnbd_log (lwnbd_set_log_level limit g) file level line func text w ≡ (minus_one, w)
  unfolding lwnbd_log
  lwnbd_log-silent g limit level file func text line w h = elim (Option-cases g.log_callback) [
    | inl null ↦ rw null refl
    | inr (callback, set) ↦ rw set (rw h refl)
  ]

length-level_name : (level : ℤ) → length (pad_right 5 (level_name level)) ≡ 5
unfolding level_name
length-level_name level = elim (Bool-cases (same_int level log_error)) [
  | inl error ↦ rw error refl
  | inr a ↦ rw a (elim (Bool-cases (same_int level log_warn)) [
    | inl warn ↦ rw warn refl
    | inr b ↦ rw b (elim (Bool-cases (same_int level log_info)) [
      | inl info ↦ rw info refl
      | inr debug ↦ rw debug refl
    ])
  ])
]

-- the default callback's logger
abbrev pub default_logger : ℤ → Global (List ℕ)
default_logger limit = record { level = limit; log_callback = some lwnbd_default_log_callback }

-- A message that the level lets pass is printed behind what has been: a head of 15 characters, and
-- the first 2047 of the text.
pub lwnbd_log-printed :
    (limit level : ℤ) (file func text out : List ℕ) (line : ℕ)
    → above level limit ≡ false
    → let (r, out') = lwnbd_log (default_logger limit) file level line func text out in
      (r ≡ pos 0) × (head : List ℕ) × (out' ≡ out ++ (head ++ take 2047 text)) × (length head ≡ 15)
unfolding lwnbd_log lwnbd_default_log_callback
lwnbd_log-printed limit level file func text out line h = rw h (
  refl,
  codes "[" ++ (pad_right 5 (level_name level) ++ codes "][LWNBD] "),
  ap (λ l. out ++ (b'[' ∷ l))
      (sym (append_assoc (pad_right 5 (level_name level)) (codes "][LWNBD] ") (take 2047 text))),
  omega (
    arith,
    length-append (pad_right 5 (level_name level)) (codes "][LWNBD] "),
    length-level_name level,
  ),
)
