-- ===== src/Tty.antt =====
-- plugins/tty/tty.c: a terminal whose output is read as an export. The kernel's event flags are
-- outside the program: the calls made to them are kept as a trace, and what other threads write
-- while `nbdtty_pread` waits is a schedule, one entry for each wait.
pub mod Ring
pub mod Stream
pub mod Reader
use lw_nbd.Prelude.{
  ℕ, ℤ, pos, minus_one, zero, suc, ◌+◌, ◌-◌, ◌%◌, true, false, List, [], ◌∷◌, ◌++◌, take, drop,
  length, leb, ltb, Run, done, fault, out_of_fuel, ◌>>=◌, if◌then◌else◌,
}
use lw_nbd.Nbd.Medium.{span, patch}
use lw_nbd.Plugin.{Fields}
use lw_nbd.Text.{codes}

abbrev pub tty_size : ℕ
tty_size = 4096

-- the calls of the event flag library, with the bits
pub data FlagCall : Type 0 where
  wait_flag set_flag : ℕ → FlagCall

abbrev pub idle_bits : ℕ
idle_bits = 0

abbrev pub busy_bits : ℕ
busy_bits = 1

abbrev pub data_bits : ℕ
data_bits = 2

-- The static variables. The counters are `int64_t`, which no run comes to the end of.
pub record Tty : Type 0 where
  pub ringbuffer : ℕ → ℕ
  pub rwhence : ℕ
  pub wwhence : ℕ
  pub flag_calls : List FlagCall

-- Copies into and out of the array of `tty_size + 1` characters.
unfoldable pub copy_in : (ℕ → ℕ) → ℕ → List ℕ → Run (ℕ → ℕ)
copy_in ring at bytes =
    if leb (at + length bytes) (tty_size + 1) then done (patch ring at bytes) else fault

unfoldable pub copy_out : (ℕ → ℕ) → ℕ → ℕ → Run (List ℕ)
copy_out ring at n = if leb (at + n) (tty_size + 1) then done (span ring at n) else fault

abbrev pub call_flag : FlagCall → Tty → Tty
call_flag c t = record t { flag_calls = t.flag_calls ++ (c ∷ []) }

-- Both copies of a write, the second one from the front of the array.
unfoldable pub ring_write : (ℕ → ℕ) → ℕ → List ℕ → Run (ℕ → ℕ)
ring_write ring at buf =
    if ltb tty_size (at + length buf)
    then (copy_in ring at (take (tty_size - at) buf) >>= λ r.
        copy_in r 0 (drop (tty_size - at) buf))
    else copy_in ring at buf

unfoldable pub tty_write : List ℕ → Tty → Run (ℤ × Tty)
tty_write buf t = do
  ring ← ring_write t.ringbuffer (t.wwhence % tty_size) buf
  let t₁ = call_flag (set_flag busy_bits) (call_flag (wait_flag idle_bits) t)
  let t₂ = record t₁ { ringbuffer = ring; wwhence = t.wwhence + length buf }
  done (pos 0, call_flag (set_flag data_bits) t₂)

-- Both copies of a read.
unfoldable pub ring_read : (ℕ → ℕ) → ℕ → ℕ → Run (List ℕ)
ring_read ring at count =
    if ltb tty_size (at + count)
    then (copy_out ring at (tty_size - at) >>= λ front.
        copy_out ring 0 (count - (tty_size - at)) >>= λ back. done (front ++ back))
    else copy_out ring at count

-- What other threads write while a wait lasts.
abbrev pub write_all : List (List ℕ) → Tty → Run Tty
write_all [] t = done t
write_all (buf ∷ bufs) t = tty_write buf t >>= λ rt. write_all bufs rt.1

-- The loop that waits for enough data, over the schedule; when it is over the loop waits for ever.
unfoldable pub wait_data : List (List (List ℕ)) → ℕ → Tty → Run (List (List (List ℕ)) × Tty)
wait_data [] count t = out_of_fuel
wait_data (bufs ∷ schedule) count t = do
  t₁ ← write_all bufs (call_flag (wait_flag data_bits) t)
  let t₂ = call_flag (set_flag busy_bits) t₁
  elim (ltb t₂.wwhence (t₂.rwhence + count)) [
    | true ↦ wait_data schedule count (call_flag (set_flag idle_bits) t₂)
    | false ↦ done (schedule, t₂)
  ]

unfoldable pub nbdtty_pread :
    List (List (List ℕ)) → ℕ → List ℕ → ℕ → ℕ → ℕ → Tty → Run (ℤ × List ℕ × Tty)
nbdtty_pread schedule handle buf count offset flags t = do
  (rest, t₁) ← wait_data schedule count t
  bytes ← ring_read t₁.ringbuffer (t.rwhence % tty_size) count
  let t₂ = record t₁ { rwhence = t₁.rwhence + count }
  let left = if ltb t₂.rwhence t₂.wwhence then data_bits else idle_bits
  done (pos 0, bytes ++ drop count buf, call_flag (set_flag left) t₂)

-- The kernel's calls in `nbdtty_ctor`, by their results: CreateEventFlag and AddDrv.
unfoldable pub nbdtty_ctor : ℤ → ℤ → Fields → ℤ × Fields
nbdtty_ctor (ℤ.negsuc n) add_drv c = (minus_one, c)
nbdtty_ctor (ℤ.pos ev) (ℤ.negsuc n) c = (minus_one, c)
nbdtty_ctor (ℤ.pos ev) (ℤ.pos n) c = (pos 0, record c { name = codes "tty" })

abbrev pub nbdtty_block_size : ℕ × ℕ × ℕ
nbdtty_block_size = (1, 1, 1)
