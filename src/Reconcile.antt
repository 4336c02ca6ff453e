-- ===== src/Reconcile.antt =====
-- components/cn105/reconciliation_policy.h: what the unit should be driven to, and whether to
-- command it. Temperatures are values of an abstract IEEE float.
pub mod Latch
pub mod FanStop
pub mod Converge
pub mod Repeat
pub mod Tests
use mitsubishi_cn105esphome.Prelude.{
  ℕ, Bool, true, false, not, ◌&&◌, ◌||◌, Option, none, some, if◌then◌else◌, has_value,
}
use Prim.Native.String.{String}
use mitsubishi_cn105esphome.Prelude.Int.{pos}
use mitsubishi_cn105esphome.Prelude.Float.{Float}
use mitsubishi_cn105esphome.Enums.Kinds.{HpPower, HpMode, same, power_enum, mode_enum}
use mitsubishi_cn105esphome.Protocol.{normalize_setpoint}
use mitsubishi_cn105esphome.Schedule.{should_suppress_repeat_command}

pub data ProtectionState : Type 0 where
  normal fan_stop_active low_temp_protection : ProtectionState

unfoldable pub protection_state_to_str : ProtectionState → String
protection_state_to_str ProtectionState.low_temp_protection = "Low Temp Protection"
protection_state_to_str ProtectionState.fan_stop_active = "Fan Stop Active"
protection_state_to_str ProtectionState.normal = "Normal"

pub record PhysicalTarget (F : Type 0) : Type 0 where
  pub power_on : Bool
  pub mode : Option HpMode
  pub temperature : F

pub record ReconcileInputs (F : Type 0) : Type 0 where
  pub now_ms : ℕ
  pub update_interval_ms : ℕ
  pub desired_power_on : Bool
  pub desired_mode : Option HpMode
  pub desired_temp : F
  pub current_power : HpPower
  pub current_mode : HpMode
  pub current_temperature : Option F
  pub current_temp : F
  pub ltp_enabled : Bool
  pub ltp_active : Bool
  pub low_temp_temp : F
  pub low_temp_hysteresis : F
  pub fan_stop_enabled : Bool
  pub hysteresis : F
  pub has_issued_command : Bool
  pub last_issued : PhysicalTarget F
  pub last_issued_ms : ℕ

pub record ReconcileDecision (F : Type 0) : Type 0 where
  pub ltp_active : Bool
  pub target : PhysicalTarget F
  pub mode_mismatch : Bool
  pub temp_mismatch : Bool
  pub suppressed_repeat : Bool
  pub should_command : Bool
  pub protection : ProtectionState

-- `mode == other.mode` of two `std::optional<HPMode>`.
abbrev pub same_mode : Option HpMode → Option HpMode → Bool
same_mode none none = true
same_mode none (some b) = false
same_mode (some a) none = false
same_mode (some a) (some b) = same a b

-- `target.mode.has_value() && current_mode != *target.mode`.
abbrev pub differs_from : Option HpMode → HpMode → Bool
differs_from none current = false
differs_from (some m) current = not (same current m)

-- `*desired_mode == HPMode::HEAT || *desired_mode == HPMode::COOL`.
abbrev pub governed_mode : Option HpMode → Bool
governed_mode none = false
governed_mode (some m) = same m HpMode.heat || same m HpMode.cool

module _ (fl : Float) where
  open fl use {F, of_int, add, sub, div, fabs, fmax, lt, le, is_nan}

  abbrev pub setpoint_epsilon : F
  setpoint_epsilon = div (of_int (pos 1)) (of_int (pos 4))

  unfoldable pub same_as : PhysicalTarget F → PhysicalTarget F → Bool
  same_as t other =
      if not (same_bool t.power_on other.power_on)
      then false
      else if not t.power_on
      then true
      else if not (same_mode t.mode other.mode)
      then false
      else if is_nan t.temperature || is_nan other.temperature
      then false
      else lt (fabs (sub t.temperature other.temperature)) setpoint_epsilon
    where
      same_bool : Bool → Bool → Bool
      same_bool a b = if a then b else not b

  unfoldable pub next_ltp_active : Bool → Bool → F → F → F → Bool
  next_ltp_active enabled active current_temp low_temp_temp low_temp_hysteresis =
      if not enabled
      then false
      else if is_nan current_temp
      then active
      else if not active && lt current_temp low_temp_temp
      then true
      else if active && lt (add low_temp_temp low_temp_hysteresis) current_temp
      then false
      else active

  unfoldable pub fan_stop_wants_running : HpMode → F → F → F → HpPower → Bool
  fan_stop_wants_running mode current_temp desired_temp hysteresis current_power =
      let heating = same mode HpMode.heat in
      let above = add desired_temp hysteresis in
      let below = sub desired_temp hysteresis in
      let satisfied_at = if heating then above else below in
      let demand_at = if heating then below else above in
      if (if heating then le satisfied_at current_temp else le current_temp satisfied_at)
      then false
      else if (if heating then le current_temp demand_at else le demand_at current_temp)
      then true
      else not (same current_power HpPower.off)

  -- The target that fan stop may switch off.
  pub user_target : ReconcileInputs F → PhysicalTarget F
  user_target i = record {
    power_on = i.desired_power_on;
    mode = if i.desired_power_on then i.desired_mode else none;
    temperature = i.desired_temp;
  }

  -- `fan_stop_wants_running(*in.desired_mode, …)`; it is asked only where there is a mode.
  pub wants_running : Option HpMode → ReconcileInputs F → Bool
  wants_running none i = true
  wants_running (some m) i =
      fan_stop_wants_running m i.current_temp i.desired_temp i.hysteresis i.current_power

  unfoldable pub resolve_physical_target : ReconcileInputs F → Bool → PhysicalTarget F
  unfolding user_target wants_running
  resolve_physical_target i ltp =
      let floor = add i.low_temp_temp i.low_temp_hysteresis in
      let governed = i.desired_power_on && governed_mode i.desired_mode in
      if ltp
      then record {
        power_on = true;
        mode = some HpMode.heat;
        temperature = if is_nan i.desired_temp then floor else fmax floor i.desired_temp;
      }
      else if not i.fan_stop_enabled
          || not governed
          || is_nan i.current_temp
          || is_nan i.desired_temp
      then user_target i
      else if not (wants_running i.desired_mode i)
      then record (user_target i) { power_on = false; mode = none }
      else user_target i

  -- The `if` of `decide_reconciliation` that compares the unit with the target.
  unfoldable pub find_mode_mismatch : ReconcileInputs F → PhysicalTarget F → Bool
  find_mode_mismatch i t =
      if not t.power_on
      then not (same i.current_power HpPower.off)
      else not (same i.current_power HpPower.on) || differs_from t.mode i.current_mode

  temperature_differs : Option F → F → Bool
  temperature_differs none normalized = true
  temperature_differs (some t) normalized = le setpoint_epsilon (fabs (sub t normalized))

  unfoldable pub find_temp_mismatch : ReconcileInputs F → PhysicalTarget F → Bool
  unfolding temperature_differs
  find_temp_mismatch i t =
      if not t.power_on
      then false
      else temperature_differs i.current_temperature (normalize_setpoint fl t.temperature)

  abbrev pub has_mismatch : ReconcileDecision F → Bool
  has_mismatch d = d.mode_mismatch || d.temp_mismatch

  unfoldable pub decide_reconciliation : ReconcileInputs F → ReconcileDecision F
  decide_reconciliation i =
      let ltp =
        next_ltp_active i.ltp_enabled i.ltp_active i.current_temp i.low_temp_temp
          i.low_temp_hysteresis in
      let target = resolve_physical_target i ltp in
      let mode_mismatch = find_mode_mismatch i target in
      let temp_mismatch = find_temp_mismatch i target in
      let same_target = i.has_issued_command && same_as target i.last_issued in
      let suppressed =
        should_suppress_repeat_command i.has_issued_command same_target i.now_ms i.last_issued_ms
          i.update_interval_ms in
      record {
        ltp_active = ltp;
        target = target;
        mode_mismatch = mode_mismatch;
        temp_mismatch = temp_mismatch;
        suppressed_repeat = suppressed;
        should_command = (mode_mismatch || temp_mismatch) && not suppressed;
        protection =
            if ltp
            then ProtectionState.low_temp_protection
            else if i.fan_stop_enabled && same i.current_power HpPower.off && i.desired_power_on
            then ProtectionState.fan_stop_active
            else ProtectionState.normal;
      }
