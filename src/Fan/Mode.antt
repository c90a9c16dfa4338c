-- ===== src/Fan/Mode.antt =====
-- daemon/crates/fan/src/control.rs: the modes a fan setting can be in, and which of them this
-- machine's driver can be told.
mod Names
use pyren.Base.{◌≡◌, refl, Bool, true, false, ◌&&◌, Option, none, some, if◌then◌else◌}
use Prim.Native.String.{String}
use text.Mathlib.Text.{◌==◌}

pub data FanMode : Type 0 where
  auto max manual curve : FanMode

-- `lower` is `str::to_ascii_lowercase`.
pub parse : (String → String) → String → Option FanMode
parse lower given =
    let value : String = lower given in
    if value == "auto"
    then some auto
    else if value == "max"
    then some max
    else if value == "manual"
    then some manual
    else if value == "curve"
    then some curve
    else none

pub as_str : FanMode → String
as_str auto = "auto"
as_str max = "max"
as_str manual = "manual"
as_str curve = "curve"

unfoldable pub needs_pwm : FanMode → Bool
needs_pwm auto = false
needs_pwm max = false
needs_pwm manual = true
needs_pwm curve = true

pub record Capabilities : Type 0 where
  pub switch_mode : Bool
  pub set_speed : Bool

unfoldable pub supports : Capabilities → FanMode → Bool
supports c auto = c.switch_mode
supports c max = c.switch_mode
supports c manual = c.switch_mode && c.set_speed
supports c curve = c.switch_mode && c.set_speed
