-- ===== src/Device/Started.antt =====
-- components/cn105/component_entries.cpp, `setup`: what holds of the component when its loop starts.
use mitsubishi_cn105esphome.Prelude.{ℕ, ◌≤◌, ◌≡◌, has_value, ◌⊎◌, Bool, true, false, []}
use mitsubishi_cn105esphome.Prelude.Float.{Float, IsIeee}
use mitsubishi_cn105esphome.Settings.{WantedHeatpumpRunStates, has_payload}
use mitsubishi_cn105esphome.Parser.{fresh}
use mitsubishi_cn105esphome.Link.{Link}
use mitsubishi_cn105esphome.Link.Steps.{powered}
use mitsubishi_cn105esphome.Remote.{Remote, no_remote, never}
use mitsubishi_cn105esphome.Climate.{ClimateMode, Climate, is_off}
use mitsubishi_cn105esphome.Device.{Device, Component}
use mitsubishi_cn105esphome.Device.Configuration.{unpowered}

module _ (fl : Float) (ieee : IsIeee fl) where
  open fl use {F, nan, of_int, is_nan}

  -- Nothing is wanted, and nothing was.
  abbrev Idle : Climate F → WantedHeatpumpRunStates → Type 0
  Idle c r =
      (has_payload c.wanted_settings ≡ false)
      × (c.wanted_settings.has_changed ≡ false)
      × (r.has_changed ≡ false)
      × (c.first_real_state_received ≡ false)

  -- No remote temperature is held, kept alive, sent, queued or deferred; the keep-alive is set to 20
  -- seconds or more, and the timer of the timeout is armed, if there is a timeout.
  abbrev pub Unused : Remote F → Type 0
  Unused r =
      (r ≡ record no_remote {
        remote_temp_timeout = r.remote_temp_timeout;
        remote_temp_keepalive_interval_ms = r.remote_temp_keepalive_interval_ms;
        remote_temp_timer = r.remote_temp_timer;
      })
      × (20000 ≤ r.remote_temp_keepalive_interval_ms)
      × ((r.remote_temp_timeout ≡ never) ⊎ (has_value r.remote_temp_timer ≡ true))

  -- The component before setup(), as far as the setters leave it alone.
  abbrev Unstarted : Component F → Type 0
  Unstarted s =
      let d = s.context in
      (d.link ≡ record (unpowered d.link.serial_8e1) {
        conn_bootstrap_delay_ms = d.link.conn_bootstrap_delay_ms;
        installer_mode = d.link.installer_mode;
        installer_mode_effective = d.link.installer_mode;
        update_interval = d.link.update_interval;
      })
      × (d.link.update_interval ≡ d.climate.update_interval)
      × Idle d.climate d.wanted_run_states
      × Unused d.remote
      × (s.events ≡ [])

  -- What holds when the loop starts.
  pub record IsStarted (supports_mode : ClimateMode → Bool) (now : ℕ) (d : Device F) : Type 0 where
    pub link :
        d.link
        ≡ powered now d.link.conn_bootstrap_delay_ms d.link.installer_mode d.link.update_interval
            d.link.serial_8e1 fresh
    pub interval : d.link.update_interval ≡ d.climate.update_interval
    pub not_wanted : has_payload d.climate.wanted_settings ≡ false
    pub not_changed : d.climate.wanted_settings.has_changed ≡ false
    pub not_asked : d.wanted_run_states.has_changed ≡ false
    pub not_heard : d.climate.first_real_state_received ≡ false
    pub remote : Unused d.remote
    pub supported :
        (is_off d.climate.desired_mode ≡ true) ⊎ (supports_mode d.climate.desired_mode ≡ true)
    pub temperature : is_nan d.climate.desired_temp ≡ false
