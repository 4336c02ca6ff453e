-- ===== src/Device/Configuration.antt =====
-- components/cn105/cn105.h and cn105.cpp: the component as it is constructed, and the setters of its
-- configuration. The members of ESPHome's class Climate are an `Entity`; their values before setup() are a
-- parameter. The setters of the remote temperature are those of Remote. The setters of sensors and of the
-- remote temperature source only store a pointer.
use mitsubishi_cn105esphome.Prelude.{
  ℕ, Bool, true, false, Option, none, some, List, [], ◌∷◌, replicate,
}
use mitsubishi_cn105esphome.Prelude.Int.{pos}
use mitsubishi_cn105esphome.Prelude.Float.{Float}
use mitsubishi_cn105esphome.Enums.Kinds.{HpAirflowControl}
use mitsubishi_cn105esphome.Settings.{HeatpumpStatus, no_settings, reset_wanted, reset_run_states}
use mitsubishi_cn105esphome.Parser.{fresh}
use mitsubishi_cn105esphome.Packet.{VaneType}
use mitsubishi_cn105esphome.Cycle.{init}
use mitsubishi_cn105esphome.Functions.{cleared}
use mitsubishi_cn105esphome.Link.{DriverState, Link}
use mitsubishi_cn105esphome.Remote.{
  Remote, no_remote, set_remote_temp_timeout, set_remote_temp_keepalive_interval,
}
use mitsubishi_cn105esphome.Climate.{ClimateMode, ClimateFan, ClimateSwing, ClimateAction, Climate}
use mitsubishi_cn105esphome.Device.{Component}

-- `climate::Climate`.
pub record Entity (F : Type 0) : Type 0 where
  pub mode : ClimateMode
  pub target_temperature : F
  pub current_temperature : F
  pub fan_mode : Option ClimateFan
  pub swing_mode : ClimateSwing
  pub action : ClimateAction

module _ {F : Type 0} where
  abbrev pub entity_of : Climate F → Entity F
  entity_of c = record {
    mode = c.mode;
    target_temperature = c.target_temperature;
    current_temperature = c.current_temperature;
    fan_mode = c.fan_mode;
    swing_mode = c.swing_mode;
    action = c.action;
  }

  abbrev pub with_entity : Entity F → Climate F → Climate F
  with_entity e c = record c {
    mode = e.mode;
    target_temperature = e.target_temperature;
    current_temperature = e.current_temperature;
    fan_mode = e.fan_mode;
    swing_mode = e.swing_mode;
    action = e.action;
  }

-- The members of the link before setup(); `serial` says whether the port is 8E1.
unfoldable pub unpowered : Bool → Link
unpowered serial = record {
  state = DriverState.boot;
  boot_ms = 0;
  conn_bootstrap_delay_ms = 10000;
  uart_retry_pending = false;
  installer_mode = false;
  installer_mode_effective = false;
  installer_mode_fallback_done = false;
  update_interval = 2000;
  last_reconnect_time_ms = 0;
  last_connect_rq_time_ms = 0;
  last_response_ms = 0;
  last_send = 0;
  nb_heatpump_connections = 0;
  pending = none;
  parser = fresh;
  serial_8e1 = serial;
  bootstrap_timeout = none;
  retry_uart_setup = none;
  check_first_connection = none;
  write_retry = none;
  wire = [];
  disconnects = 0;
}

module _ (fl : Float) where
  open fl use {F, nan, of_int, div, is_nan}

  -- The status of which nothing is known.
  unfoldable pub no_status : HeatpumpStatus F
  no_status = record {
    room_temperature = nan;
    outside_air_temperature = nan;
    operating = false;
    compressor_frequency = nan;
    input_power = nan;
    kwh = nan;
    runtime_hours = nan;
  }

  unfoldable pub constructed_climate : Entity F → Climate F
  unfolding reset_wanted
  constructed_climate entity = with_entity entity (record {
    desired_mode = ClimateMode.off;
    desired_temp = of_int (pos 22);
    mode = entity.mode;
    target_temperature = entity.target_temperature;
    current_temperature = entity.current_temperature;
    fan_mode = entity.fan_mode;
    swing_mode = entity.swing_mode;
    action = entity.action;
    current_settings = no_settings;
    wanted_settings = reset_wanted (record {
      settings = no_settings;
      has_changed = false;
      has_been_sent = false;
      last_change = 0;
    });
    operating = false;
    use_stage_for_operating_status = false;
    supports_horizontal = false;
    fan_stop_switch = none;
    low_temp_protection_switch = none;
    diagnostic_sensor = none;
    low_temp_temp = of_int (pos 8);
    low_temp_hysteresis = of_int (pos 4);
    hysteresis = div (of_int (pos 1)) (of_int (pos 2));
    ltp_active = false;
    update_interval = 2000;
    first_real_state_received = false;
    has_issued_command = false;
    last_issued_command_target = record { power_on = false; mode = none; temperature = nan };
    last_issued_command_ms = 0;
    last_mode_command_time_ms = 0;
    last_commanded_real_mode = ClimateMode.off;
    last_commanded_real_temp = of_int (pos 22);
    published = 0;
  })

  -- The constructor, at the time `now`.
  unfoldable pub constructed : ℕ → Entity F → Bool → Component F
  unfolding unpowered no_status constructed_climate reset_run_states
  constructed now entity serial = record {
    requests = [];
    events = [];
    context = record {
      link = unpowered serial;
      climate = constructed_climate entity;
      loop_cycle =
          init
            (record {
              cycle_running = false;
              last_cycle_start_ms = 0;
              last_complete_cycle_ms = 0;
              last_cycle_end_ms = 0;
            })
            now;
      remote = no_remote;
      functions = cleared;
      parts = record {
        pending_functions_packet2 = replicate 22 0;
        functions_part2_pending = false;
        fn_set_part2 = none;
      };
      current_status = no_status;
      current_airflow_control = HpAirflowControl.unknown;
      wanted_run_states = reset_run_states (record {
        airflow_control = HpAirflowControl.unknown;
        has_changed = false;
        has_been_sent = false;
        last_change = 0;
      });
      wide_vane_adj = false;
      vane_type = VaneType.standard;
      debounce_delay = 100;
      is_get_functions = false;
      is_set_functions = false;
      last_wanted_settings_send_ms = 0;
      last_room_temp = nan;
      last_evaluation_time = 0;
      last_rx_byte_ms = 0;
      nb_cycles = 0;
      nb_complete_cycles = 0;
      remote_temp_margin = div (of_int (pos 2)) (of_int (pos 5));
      power_unit_is_btu = false;
      has_horizontal_vane_select = false;
      has_airflow_control_select = false;
      has_hardware_settings = false;
    };
  }

  -- One call of a setter of the configuration.
  pub data Setting : Type 0 where
    installer_mode use_stage_for_operating_status power_unit_is_btu supports_horizontal :
        Bool → Setting
    connection_bootstrap_delay update_interval debounce_delay : ℕ → Setting
    fan_stop_switch low_temp_protection_switch : Bool → Setting
    low_temp_temp low_temp_hysteresis hysteresis remote_temperature_margin : F → Setting
    vane_type : VaneType → Setting
    remote_temp_timeout : ℕ → ℕ → Setting
    remote_temp_keepalive_interval : ℕ → Setting
    horizontal_vane_select airflow_control_select hardware_setting : Setting

  abbrev on_link : (Link → Link) → Component F → Component F
  on_link f s = record s { context = record s.context { link = f s.context.link } }

  abbrev on_climate : (Climate F → Climate F) → Component F → Component F
  on_climate f s = record s { context = record s.context { climate = f s.context.climate } }

  abbrev on_remote : (Remote F → Remote F) → Component F → Component F
  on_remote f s = record s { context = record s.context { remote = f s.context.remote } }

  -- A switch is given with its state, and the timeout of the remote temperature with the time of the call,
  -- at which it may start a timer.
  unfoldable pub configure : Setting → Component F → Component F
  unfolding set_remote_temp_timeout set_remote_temp_keepalive_interval
  configure (installer_mode mode) s =
      on_link
        (λ l. record l {
          installer_mode = mode;
          installer_mode_effective = mode;
          installer_mode_fallback_done = false;
        })
        s
  configure (use_stage_for_operating_status value) s =
      on_climate (λ c. record c { use_stage_for_operating_status = value }) s
  configure (power_unit_is_btu v) s = record s {
    context = record s.context { power_unit_is_btu = v };
  }
  configure (supports_horizontal v) s = on_climate (λ c. record c { supports_horizontal = v }) s
  configure (connection_bootstrap_delay delay_ms) s =
      on_link (λ l. record l { conn_bootstrap_delay_ms = delay_ms }) s
  configure (update_interval interval) s =
      on_climate (λ c. record c { update_interval = interval })
        (on_link (λ l. record l { update_interval = interval }) s)
  configure (debounce_delay delay) s = record s {
    context = record s.context { debounce_delay = delay };
  }
  configure (fan_stop_switch state) s =
      on_climate (λ c. record c { fan_stop_switch = some state }) s
  configure (low_temp_protection_switch state) s =
      on_climate (λ c. record c { low_temp_protection_switch = some state }) s
  configure (low_temp_temp t) s = on_climate (λ c. record c { low_temp_temp = t }) s
  configure (low_temp_hysteresis t) s = on_climate (λ c. record c { low_temp_hysteresis = t }) s
  configure (hysteresis t) s = on_climate (λ c. record c { hysteresis = t }) s
  configure (remote_temperature_margin margin) s = record s {
    context = record s.context { remote_temp_margin = margin };
  }
  configure (vane_type type) s = record s { context = record s.context { vane_type = type } }
  configure (remote_temp_timeout now timeout) s = on_remote (set_remote_temp_timeout now timeout) s
  configure (remote_temp_keepalive_interval interval_ms) s =
      on_remote (set_remote_temp_keepalive_interval interval_ms) s
  configure horizontal_vane_select s = record s {
    context = record s.context { has_horizontal_vane_select = true };
  }
  configure airflow_control_select s = record s {
    context = record s.context { has_airflow_control_select = true };
  }
  configure hardware_setting s = record s {
    context = record s.context { has_hardware_settings = true };
  }

  unfoldable pub configure_all : List Setting → Component F → Component F
  unfolding configure
  configure_all [] s = s
  configure_all (x ∷ xs) s = configure_all xs (configure x s)
