-- ===== src/Tests/Terminal.antt =====
-- A terminal whose first two bytes have been written, and a reader that waits for a third.
use lw_nbd.Prelude.{◌≡◌, ◌≢◌, pos, List, ℕ, [], ◌∷◌, Returns, arith}
use lw_nbd.Tty.{Tty, tty_write, nbdtty_pread}
use lw_nbd.Tty.Stream.{Tracks, Appended, tty_write-Appended}
use lw_nbd.Tty.Reader.{IsRead, nbdtty_pread-IsRead}
use lw_nbd.Tests.{numbered}

abbrev two_written : Tty
two_written = record { ringbuffer = numbered; rwhence = 0; wwhence = 2; flag_calls = [] }

two_written-Tracks : Tracks numbered two_written
two_written-Tracks = record { byte = λ k lt recent. omega arith }

abbrev later_write : List (List (List ℕ))
later_write = ((72 ∷ 105 ∷ []) ∷ []) ∷ []

tty_write-Appended_example :
    Returns
      (tty_write (72 ∷ 105 ∷ []) two_written)
      (λ rt. (rt.0 ≡ pos 0) × Appended numbered (72 ∷ 105 ∷ []) two_written rt.1)
tty_write-Appended_example =
    tty_write-Appended numbered (72 ∷ 105 ∷ []) two_written two_written-Tracks (omega arith)

some_schedule : later_write ≢ []
some_schedule e = absurd (cc)

nbdtty_pread-IsRead_example :
    Returns
      (nbdtty_pread later_write 0 [] 3 0 0 two_written)
      (IsRead numbered (72 ∷ 105 ∷ []) 3 two_written)
nbdtty_pread-IsRead_example =
    nbdtty_pread-IsRead later_write numbered 0 [] 3 0 0 two_written two_written-Tracks (omega arith)
      some_schedule (omega arith) (omega arith)
