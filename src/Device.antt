-- ===== src/Device.antt =====
-- components/cn105/cn105.h, hp_readings.cpp, hp_writings.cpp and component_entries.cpp: the whole component,
-- composed of its parts. `update_interval_` stands in the link and in the climate entity, and `operating` in
-- the status and in the climate entity, as each part reads it. A callback of the request scheduler that
-- sends a packet or ends the cycle is an event, which is performed after the scheduler's call: no request
-- has a `can_send`, so that the scheduler reads nothing that a callback changes. Sensors and selects are left
-- out, but for whether there is one where the code's state depends on it.
pub mod Reading
pub mod Sending
pub mod Receiving
pub mod Main
pub mod OneWrite
pub mod OnePacket
pub mod OneReply
pub mod Report
pub mod Arrival
pub mod Start
pub mod Configuration
pub mod Setup
pub mod Started
pub mod StartTests
pub mod Tests
use mitsubishi_cn105esphome.Prelude.{
  ℕ, ◌+◌, ◌-◌, ◌==◌, Bool, true, false, Option, List, if◌then◌else◌,
}
use mitsubishi_cn105esphome.Enums.Kinds.{HpAirflowControl}
use mitsubishi_cn105esphome.Settings.{HeatpumpStatus, WantedHeatpumpRunStates}
use mitsubishi_cn105esphome.Packet.{VaneType}
use mitsubishi_cn105esphome.Cycle.{CycleManagement}
use mitsubishi_cn105esphome.Climate.{Climate}
use mitsubishi_cn105esphome.Functions.{HeatpumpFunctions}
use mitsubishi_cn105esphome.Functions.Sending.{FunctionParts}
use mitsubishi_cn105esphome.Link.{Link, write_packet}
use mitsubishi_cn105esphome.Remote.{Remote}
use mitsubishi_cn105esphome.Requests.{RequestScheduler}

pub record Device (F : Type 0) : Type 0 where
  pub link : Link
  pub climate : Climate F
  pub loop_cycle : CycleManagement
  pub remote : Remote F
  pub functions : HeatpumpFunctions
  pub parts : FunctionParts
  pub current_status : HeatpumpStatus F
  pub current_airflow_control : HpAirflowControl
  pub wanted_run_states : WantedHeatpumpRunStates
  pub wide_vane_adj : Bool
  pub vane_type : VaneType
  pub debounce_delay : ℕ
  pub is_get_functions : Bool
  pub is_set_functions : Bool
  pub last_wanted_settings_send_ms : ℕ
  pub last_room_temp : F
  pub last_evaluation_time : ℕ
  pub last_rx_byte_ms : ℕ
  pub nb_cycles : ℕ
  pub nb_complete_cycles : ℕ
  pub remote_temp_margin : F
  pub power_unit_is_btu : Bool
  pub has_horizontal_vane_select : Bool
  pub has_airflow_control_select : Bool
  pub has_hardware_settings : Bool

-- The component, with the queue of its INFO requests.
abbrev pub Component : Type 0 → Type 0
Component F = RequestScheduler (Device F)

module _ {F : Type 0} where
  -- The climate entity after `n` calls of `disconnect_uart`.
  unfoldable pub after_disconnects : ℕ → Climate F → Climate F
  after_disconnects n c =
      if n == 0
      then c
      else record c { first_real_state_received = false; published = c.published + n }

  -- The link after one of its calls, with what `disconnect_uart` does to the climate entity.
  unfoldable pub with_link : Link → Device F → Device F
  unfolding after_disconnects
  with_link l d = record d {
    link = l;
    climate = after_disconnects (l.disconnects - d.link.disconnects) d.climate;
  }

  -- `write_packet` with `check_is_active`.
  unfoldable pub write_checked : ℕ → List ℕ → Device F → Device F
  unfolding with_link
  write_checked now packet d = with_link (write_packet now packet true d.link).0 d
