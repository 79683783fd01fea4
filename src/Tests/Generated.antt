-- ===== src/Tests/Generated.antt =====
-- A client of chargen whose descriptor takes a part of the line, then a line, and fails.
use lw_nbd.Prelude.{pos, minus_one, [], ◌∷◌}
use lw_nbd.Chargen.{InLine, chargen_run, service_chargen_new, chargen_run-InLine}

chargen_run-InLine_example :
    InLine (chargen_run (pos 40 ∷ pos 55 ∷ pos 95 ∷ minus_one ∷ pos 3 ∷ []) service_chargen_new)
chargen_run-InLine_example = chargen_run-InLine (pos 40 ∷ pos 55 ∷ pos 95 ∷ minus_one ∷ pos 3 ∷ [])
