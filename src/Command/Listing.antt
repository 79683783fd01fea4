-- ===== src/Command/Listing.antt =====
-- `list_command` of plugins/command/builtin.c: one line for each command, if they fit the buffer.
use lw_nbd.Prelude.{
  ℕ, ℤ, pos, ◌+◌, ◌≤◌, ◌<◌, ◌≡◌, refl, sym, ap, ◌∙◌, inl, inr, true, List, [], ◌∷◌, ◌++◌,
  append_assoc, append-nil, take, drop, take-append, length, length-append, length-take, leb,
  leb→le, fault, Returns, Returns-weaken, Returns->>=, Bool-cases, arith,
}
use native.Mathlib.Nat.{add-zero}
use lw_nbd.Plugin.{Query}
use lw_nbd.Command.{Texts, cmd_buffer_sz, command_line, list_lines, list_command}

-- the lines of the commands, in the table's order
unfoldable pub all_lines : Texts → List ℕ
all_lines [] = []
all_lines (text ∷ rest) = command_line text ++ all_lines rest

-- The buffer after a line.
after_line : List ℕ → ℕ → List ℕ → List ℕ
after_line result size line =
    take size result ++ (line ++ (0 ∷ drop (size + length line + 1) result))

take-after_line :
    (result : List ℕ) (size : ℕ) (line : List ℕ)
    → size ≤ length result
    → take (size + length line) (after_line result size line) ≡ take size result ++ line
unfolding after_line
take-after_line result size line room =
    ap (take (size + length line)) (sym (append_assoc (take size result) line _))
    ∙ take-append (size + length line) (take size result ++ line) _
        (omega (arith, length-append (take size result) line, length-take size result, room))

length-after_line :
    (result : List ℕ) (size : ℕ) (line : List ℕ)
    → size ≤ length result
    → size + length line ≤ length (after_line result size line)
unfolding after_line
length-after_line result size line room = omega (
  arith,
  room,
  length-take size result,
  length-append (take size result) (line ++ (0 ∷ drop (size + length line + 1) result)),
  length-append line (0 ∷ drop (size + length line + 1) result),
)

-- What the loop gives: the lines behind what there was.
record Listed (ts : Texts) (result : List ℕ) (size : ℕ) (out : List ℕ × ℕ) : Type 0 where
  total : out.1 ≡ size + length (all_lines ts)
  front : take out.1 out.0 ≡ take size result ++ all_lines ts

list_lines-Listed :
    (ts : Texts) (result : List ℕ) (size : ℕ)
    → size ≤ length result
    → size + length (all_lines ts) < cmd_buffer_sz
    → Returns (list_lines ts result size) (Listed ts result size)
unfolding list_lines all_lines after_line
list_lines-Listed [] result size room fits = record {
  total = sym (add-zero size);
  front = sym (append-nil (take size result));
}
list_lines-Listed (text ∷ rest) result size room fits = rw line_fits (
    Returns-weaken (list_lines rest (after_line result size line) (size + length line))
      (λ out l. record {
        total = l.total ∙ omega (arith, length-append line (all_lines rest));
        front =
            l.front
            ∙ ap (λ r. r ++ all_lines rest) (take-after_line result size line room)
            ∙ append_assoc (take size result) line (all_lines rest);
      })
      (list_lines-Listed rest (after_line result size line) (size + length line)
        (length-after_line result size line room)
        (omega (arith, fits, length-append line (all_lines rest)))))
  where
    line : List ℕ
    line = command_line text

    line_fits : leb (size + length line + 1) cmd_buffer_sz ≡ true
    line_fits = ground (arith, fits, length-append line (all_lines rest))

list_lines-over :
    (ts : Texts) (result : List ℕ) (size : ℕ)
    → size < cmd_buffer_sz
    → cmd_buffer_sz ≤ size + length (all_lines ts)
    → list_lines ts result size ≡ fault
unfolding list_lines all_lines
list_lines-over [] result size start over = absurd (omega arith)
list_lines-over (text ∷ rest) result size start over =
    elim (Bool-cases (leb (size + length line + 1) cmd_buffer_sz)) [
      | inl fits ↦ rw fits (
          list_lines-over rest _ (size + length line)
            (omega (arith, leb→le (size + length line + 1) cmd_buffer_sz fits))
            (omega (arith, over, length-append line (all_lines rest))))
      | inr long ↦ rw long refl
    ]
  where
    line : List ℕ
    line = command_line text

-- What the command gives: the lines and their length.
pub record IsListing {D : Type 0} (ts : Texts) (d : D) (out : ℤ × List ℕ × ℤ × D) : Type 0 where
  pub result : out.0 ≡ pos 0
  pub size : out.2 ≡ pos (length (all_lines ts))
  pub lines : take (length (all_lines ts)) out.1 ≡ all_lines ts
  pub unchanged : out.3 ≡ d

-- `lc` gives one line for each command, in the order of the table, and their length, if they leave
-- room for the end mark in the buffer.
pub list_command-IsListing :
    {D : Type 0} (ts : Texts) (argc : ℕ) (argv : List Query) (buffer : List ℕ) (size : ℤ) (d : D)
    → length (all_lines ts) < cmd_buffer_sz
    → Returns (list_command ts argc argv buffer size d) (IsListing ts d)
unfolding list_command
list_command-IsListing {D} ts argc argv buffer size d fits =
    Returns->>= (list_lines ts buffer 0) _ (Listed ts buffer 0) (IsListing ts d)
      (list_lines-Listed ts buffer 0 (omega arith) (omega (arith, fits)))
      λ out l. record {
        result = refl;
        size = ap pos l.total ∙ ap pos {y = length (all_lines ts)} (omega arith);
        lines =
            ap (λ t. take t out.0) {x = length (all_lines ts)} {y = out.1} (omega (arith, l.total))
            ∙ l.front;
        unchanged = refl;
      }

-- Lines that leave no room for the end mark overrun the buffer.
pub list_command-overrun :
    {D : Type 0} (ts : Texts) (argc : ℕ) (argv : List Query) (buffer : List ℕ) (size : ℤ) (d : D)
    → cmd_buffer_sz ≤ length (all_lines ts)
    → list_command ts argc argv buffer size d ≡ fault
unfolding list_command
list_command-overrun {D} ts argc argv buffer size d over =
    rw (list_lines-over ts buffer 0 (omega arith) (omega (arith, over))) refl
