-- ===== src/Device/StartTests.antt =====
-- A power-up of the component: it is configured, and heating at 21 degrees is restored.
use mitsubishi_cn105esphome.Prelude.{
  ◌≡◌, refl, Bool, true, false, Option, none, some, List, [], ◌∷◌,
}
use mitsubishi_cn105esphome.Prelude.Int.{pos}
use mitsubishi_cn105esphome.Prelude.Fixed.{Fixed, fixed, whole}
use mitsubishi_cn105esphome.Climate.{ClimateMode, ClimateSwing, ClimateAction}
use mitsubishi_cn105esphome.Remote.{set_remote_temp_timeout}
use mitsubishi_cn105esphome.Device.{Component}
use mitsubishi_cn105esphome.Device.Start.{register_info_requests}
use mitsubishi_cn105esphome.Device.Configuration.{Entity, Setting, constructed, configure_all}
use mitsubishi_cn105esphome.Device.Setup.{setup}

abbrev new_entity : Entity Fixed
new_entity = record {
  mode = ClimateMode.off;
  target_temperature = whole (pos 0);
  current_temperature = whole (pos 0);
  fan_mode = none;
  swing_mode = ClimateSwing.off;
  action = ClimateAction.off;
}

abbrev heating : Option (Entity Fixed → Entity Fixed)
heating = some (λ e. record e { mode = ClimateMode.heat; target_temperature = whole (pos 21) })

-- The component only cools.
abbrev cools_only : ClimateMode → Bool
cools_only ClimateMode.cool = true
cools_only _ = false

abbrev settings : List (Setting fixed)
settings =
    Setting.installer_mode true
    ∷ Setting.update_interval 4000
    ∷ Setting.hardware_setting
    ∷ Setting.remote_temp_timeout 30 600000
    ∷ Setting.remote_temp_keepalive_interval 0
    ∷ []

abbrev booted : Component Fixed
booted =
    setup fixed 500 60000 cools_only heating
      (configure_all fixed settings (constructed fixed 20 new_entity true))

-- The keep-alive is raised to 20 seconds, and the timeout runs since its setter was called.
booted_remote :
    (booted.context.remote.remote_temp_keepalive_interval_ms ≡ 20000)
    × (booted.context.remote.remote_temp_timer ≡ some 600030)
unfolding setup constructed configure_all set_remote_temp_timeout register_info_requests
booted_remote = (refl, refl)
