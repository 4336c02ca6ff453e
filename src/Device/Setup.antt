-- ===== src/Device/Setup.antt =====
-- components/cn105/component_entries.cpp: setup(). The state that `restore_state_` finds in the flash and what
-- its `apply` does to the members of the entity, and which modes the traits support, are parameters.
use mitsubishi_cn105esphome.Prelude.{ℕ, Bool, not, ◌&&◌, Option, none, some, if◌then◌else◌}
use mitsubishi_cn105esphome.Prelude.Int.{pos}
use mitsubishi_cn105esphome.Prelude.Float.{Float}
use mitsubishi_cn105esphome.Parser.{reset}
use mitsubishi_cn105esphome.Climate.{ClimateMode, ClimateFan, ClimateSwing, Climate, is_off}
use mitsubishi_cn105esphome.Device.{Device, Component}
use mitsubishi_cn105esphome.Device.Start.{register_info_requests}
use mitsubishi_cn105esphome.Device.Configuration.{Entity, entity_of, with_entity}

module _ (fl : Float) where
  open fl use {F, nan, of_int, is_nan}

  -- The end of setup(): what is desired of the unit.
  unfoldable pub restore :
      (ClimateMode → Bool) → Option (Entity F → Entity F) → Climate F → Climate F
  restore supports_mode none c = record c {
    desired_mode = ClimateMode.off;
    desired_temp = of_int (pos 22);
  }
  restore supports_mode (some apply) c =
      let e = apply (entity_of c) in
      let mode =
        if not (is_off e.mode) && not (supports_mode e.mode) then ClimateMode.off else e.mode in
      record (with_entity (record e { mode = mode }) c) {
        desired_mode = mode;
        desired_temp =
            if not (is_nan e.target_temperature) then e.target_temperature else of_int (pos 22);
      }

  -- What setup() does besides the registration of the requests.
  unfoldable pub prepared :
      ℕ → (ClimateMode → Bool) → Option (Entity F → Entity F) → Device F → Device F
  unfolding restore reset
  prepared now supports_mode restored d = record d {
    link = record d.link {
      boot_ms = now;
      last_response_ms = now;
      parser = reset d.link.parser;
      nb_heatpump_connections = 0;
    };
    climate = restore supports_mode restored (record d.climate {
      current_temperature = nan;
      target_temperature = nan;
      fan_mode = some ClimateFan.off;
      swing_mode = ClimateSwing.off;
    });
    nb_cycles = 0;
    nb_complete_cycles = 0;
  }

  -- setup() at the time `now`, with `hardware_settings_interval_ms_`.
  unfoldable pub setup :
      ℕ → ℕ → (ClimateMode → Bool) → Option (Entity F → Entity F) → Component F → Component F
  unfolding prepared
  setup now interval_ms supports_mode restored s =
      register_info_requests s.context.has_hardware_settings interval_ms
        (record s { context = prepared now supports_mode restored s.context })
