-- ===== src/Policy/Mode.antt =====
-- `Mode`: how many releases of an image a rule keeps.
pub mod Text
use ocid.Prelude.{ℕ, max, Option, none, some, Eq, ℕ_discrete}

pub data Mode : Type 0 where
  full latest : Mode
  last : ℕ → Mode

-- `Mode::default`
abbrev pub default : Mode
default = latest

-- `Mode::window`: `none` is unlimited.
unfoldable pub window : Mode → Option ℕ
window full = none
window latest = some 1
window (last n) = some (max n 1)

mode_dec : Discrete Mode
mode_dec = hlevel ℕ_discrete

instance unfoldable pub mode_eq : Eq Mode
unfolding mode_dec
mode_eq = record { dec = mode_dec }
