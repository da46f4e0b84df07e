-- ===== src/Tests/Data.antt =====
-- A machine after reset with the carry set, and one with no flag.
use atua_computer.Base.{ℕ, List, [], ◌∷◌}
use atua_computer.Machine.{Machine}

abbrev pub registers : List ℕ
registers = 0x0b05 ∷ 0 ∷ 0 ∷ 0 ∷ 0 ∷ 0 ∷ 0 ∷ 0 ∷ 0 ∷ 0 ∷ 0 ∷ 0 ∷ 0 ∷ 0 ∷ 0 ∷ 0 ∷ []

abbrev pub idle : Machine
idle = record { flags = 0x202; weg = registers }

abbrev pub carried : Machine
carried = record { flags = 0x203; weg = registers }
