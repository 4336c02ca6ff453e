-- ===== src/Enums/Tables.antt =====
-- components/cn105/cn105_types.h: the tables of wire bytes and labels.
use mitsubishi_cn105esphome.Prelude.{[], ◌∷◌}
use mitsubishi_cn105esphome.Enums.Kinds.{
  HpPower, HpMode, HpFanMode, HpVaneMode, HpWideVaneMode, HpStage, HpSubMode, HpAutoSubMode,
  HpAirflowControl,
}
use mitsubishi_cn105esphome.Enums.Table.{EnumTable}

abbrev pub power_table : EnumTable HpPower
power_table =
    record { value = HpPower.off; protocol_byte = 0x00; label = "OFF" }
    ∷ record { value = HpPower.on; protocol_byte = 0x01; label = "ON" }
    ∷ []

abbrev pub mode_table : EnumTable HpMode
mode_table =
    record { value = HpMode.heat; protocol_byte = 0x01; label = "HEAT" }
    ∷ record { value = HpMode.dry; protocol_byte = 0x02; label = "DRY" }
    ∷ record { value = HpMode.cool; protocol_byte = 0x03; label = "COOL" }
    ∷ record { value = HpMode.fan; protocol_byte = 0x07; label = "FAN" }
    ∷ record { value = HpMode.auto; protocol_byte = 0x08; label = "AUTO" }
    ∷ []

abbrev pub fan_table : EnumTable HpFanMode
fan_table =
    record { value = HpFanMode.auto; protocol_byte = 0x00; label = "AUTO" }
    ∷ record { value = HpFanMode.quiet; protocol_byte = 0x01; label = "QUIET" }
    ∷ record { value = HpFanMode.f1; protocol_byte = 0x02; label = "1" }
    ∷ record { value = HpFanMode.f2; protocol_byte = 0x03; label = "2" }
    ∷ record { value = HpFanMode.f3; protocol_byte = 0x05; label = "3" }
    ∷ record { value = HpFanMode.f4; protocol_byte = 0x06; label = "4" }
    ∷ []

abbrev pub vane_table : EnumTable HpVaneMode
vane_table =
    record { value = HpVaneMode.auto; protocol_byte = 0x00; label = "AUTO" }
    ∷ record { value = HpVaneMode.v1; protocol_byte = 0x01; label = "↑↑" }
    ∷ record { value = HpVaneMode.v2; protocol_byte = 0x02; label = "↑" }
    ∷ record { value = HpVaneMode.v3; protocol_byte = 0x03; label = "—" }
    ∷ record { value = HpVaneMode.v4; protocol_byte = 0x04; label = "↓" }
    ∷ record { value = HpVaneMode.v5; protocol_byte = 0x05; label = "↓↓" }
    ∷ record { value = HpVaneMode.swing; protocol_byte = 0x07; label = "SWING" }
    ∷ []

abbrev pub wide_vane_table : EnumTable HpWideVaneMode
wide_vane_table =
    record { value = HpWideVaneMode.left_left; protocol_byte = 0x01; label = "←←" }
    ∷ record { value = HpWideVaneMode.left; protocol_byte = 0x02; label = "←" }
    ∷ record { value = HpWideVaneMode.center; protocol_byte = 0x03; label = "|" }
    ∷ record { value = HpWideVaneMode.right; protocol_byte = 0x04; label = "→" }
    ∷ record { value = HpWideVaneMode.right_right; protocol_byte = 0x05; label = "→→" }
    ∷ record { value = HpWideVaneMode.left_right; protocol_byte = 0x08; label = "←→" }
    ∷ record { value = HpWideVaneMode.swing; protocol_byte = 0x0c; label = "SWING" }
    ∷ record {
      value = HpWideVaneMode.airflow_control;
      protocol_byte = 0x00;
      label = "AIRFLOW CONTROL";
    }
    ∷ []

abbrev pub stage_table : EnumTable HpStage
stage_table =
    record { value = HpStage.idle; protocol_byte = 0x00; label = "IDLE" }
    ∷ record { value = HpStage.low; protocol_byte = 0x01; label = "LOW" }
    ∷ record { value = HpStage.gentle; protocol_byte = 0x02; label = "GENTLE" }
    ∷ record { value = HpStage.medium; protocol_byte = 0x03; label = "MEDIUM" }
    ∷ record { value = HpStage.moderate; protocol_byte = 0x04; label = "MODERATE" }
    ∷ record { value = HpStage.high; protocol_byte = 0x05; label = "HIGH" }
    ∷ record { value = HpStage.diffuse; protocol_byte = 0x06; label = "DIFFUSE" }
    ∷ []

abbrev pub sub_mode_table : EnumTable HpSubMode
sub_mode_table =
    record { value = HpSubMode.normal; protocol_byte = 0x00; label = "NORMAL" }
    ∷ record { value = HpSubMode.warmup; protocol_byte = 0x01; label = "WARMUP" }
    ∷ record { value = HpSubMode.defrost; protocol_byte = 0x02; label = "DEFROST" }
    ∷ record { value = HpSubMode.preheat; protocol_byte = 0x04; label = "PREHEAT" }
    ∷ record { value = HpSubMode.standby; protocol_byte = 0x08; label = "STANDBY" }
    ∷ record { value = HpSubMode.off; protocol_byte = 0x10; label = "OFF" }
    ∷ []

abbrev pub auto_sub_mode_table : EnumTable HpAutoSubMode
auto_sub_mode_table =
    record { value = HpAutoSubMode.auto_off; protocol_byte = 0x00; label = "AUTO_OFF" }
    ∷ record { value = HpAutoSubMode.auto_cool; protocol_byte = 0x01; label = "AUTO_COOL" }
    ∷ record { value = HpAutoSubMode.auto_heat; protocol_byte = 0x02; label = "AUTO_HEAT" }
    ∷ record { value = HpAutoSubMode.auto_leader; protocol_byte = 0x03; label = "AUTO_LEADER" }
    ∷ record { value = HpAutoSubMode.auto_inactive; protocol_byte = 0x40; label = "AUTO_INACTIVE" }
    ∷ record { value = HpAutoSubMode.auto_idle; protocol_byte = 0x41; label = "AUTO_IDLE" }
    ∷ record { value = HpAutoSubMode.auto_active; protocol_byte = 0x43; label = "AUTO_ACTIVE" }
    ∷ []

abbrev pub airflow_control_table : EnumTable HpAirflowControl
airflow_control_table =
    record { value = HpAirflowControl.even; protocol_byte = 0x00; label = "EVEN" }
    ∷ record { value = HpAirflowControl.indirect; protocol_byte = 0x01; label = "INDIRECT" }
    ∷ record { value = HpAirflowControl.direct; protocol_byte = 0x02; label = "DIRECT" }
    ∷ []
