-- ===== src/Tests/Lines.antt =====
-- A line of the log.
use stdsc.Base.{some, [], ◌∷◌}
use stdsc.Base.Int.{ℤ, pos}
use stdsc.Packet.{Bytes}
use stdsc.Log.{Place, log}
use stdsc.Log.Lines.{Logs, log-Logs}

-- main.cpp, run and 7
abbrev place : Place
place = record {
  source_file_name = 115 ∷ 47 ∷ 109 ∷ 97 ∷ 105 ∷ 110 ∷ 46 ∷ 99 ∷ 112 ∷ 112 ∷ [];
  func_name = 114 ∷ 117 ∷ 110 ∷ [];
  source_line_number = pos 7;
}

abbrev seven : ℤ → Bytes
seven line = 55 ∷ []

log-Logs_example :
    Logs seven place
      (104 ∷ 105 ∷ [])
      (pos 4)
      (pos 2)
      (log seven (some (pos 4)) (pos 2) place (104 ∷ 105 ∷ []))
log-Logs_example = log-Logs seven place (104 ∷ 105 ∷ []) (pos 4) (pos 2)
