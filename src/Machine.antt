-- ===== src/Machine.antt =====
-- native/blink/blink/machine.h: the part of `struct Machine` that the modelled operations read or
-- write. `flags` is a `u32`; `weg` holds the sixteen 64-bit registers, `ax` first.
use atua_computer.Base.{ℕ, ◌+◌, ◌*◌, ◌/◌, ◌%◌, ◌≡◌, List, get_or, set, length}

pub record Machine : Type 0 where
  pub flags : ℕ
  pub weg : List ℕ

-- What a function of `aluop_f` gives: the machine after it, and the result as a 64-bit pattern.
abbrev pub Outcome : Type 0
Outcome = Machine × ℕ

-- `m->ax`, `m->al` and `m->ah` name bytes of the same register.
abbrev pub ax : Machine → ℕ
ax m = get_or m.weg 0 0

abbrev pub al : Machine → ℕ
al m = ax m % 256

abbrev pub ah : Machine → ℕ
ah m = ax m / 256 % 256

-- `Put16(m->ax, v)`: the other bytes of the register stay.
unfoldable pub put_ax : ℕ → Machine → Machine
put_ax v m = record m { weg = set m.weg 0 (ax m / 65536 * 65536 + v % 65536) }

unfoldable pub put_al : ℕ → Machine → Machine
put_al v m = record m { weg = set m.weg 0 (ax m / 256 * 256 + v % 256) }

unfoldable pub put_ah : ℕ → Machine → Machine
put_ah v m = record m { weg = set m.weg 0 (ax m / 65536 * 65536 + v % 256 * 256 + al m) }

pub record IsMachine (m : Machine) : Type 0 where
  pub flags_fit : m.flags / 0x1_0000_0000 ≡ 0
  pub registers : length m.weg ≡ 16
