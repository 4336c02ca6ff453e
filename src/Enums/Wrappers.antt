-- ===== src/Enums/Wrappers.antt =====
-- components/cn105/cn105_types.h: the wrappers that fix the table of a lookup.
use Prim.Native.String.{String}
use mitsubishi_cn105esphome.Prelude.{ℕ, Option}
use mitsubishi_cn105esphome.Enums.Kinds.{
  HpPower, HpMode, HpFanMode, HpVaneMode, HpWideVaneMode, HpStage, HpSubMode, HpAutoSubMode,
  HpAirflowControl, power_enum, mode_enum, fan_enum, vane_enum, wide_vane_enum, stage_enum,
  sub_mode_enum, auto_sub_mode_enum, airflow_control_enum,
}
use mitsubishi_cn105esphome.Enums.Table.{enum_to_str, enum_from_str, wire_to_enum, enum_to_wire}
use mitsubishi_cn105esphome.Enums.Tables.{
  power_table, mode_table, fan_table, vane_table, wide_vane_table, stage_table, sub_mode_table,
  auto_sub_mode_table, airflow_control_table,
}

abbrev pub hp_power_to_str : HpPower → String
hp_power_to_str val = enum_to_str power_table val

abbrev pub hp_power_from_str : Option String → HpPower
hp_power_from_str str = enum_from_str power_table str HpPower.unknown

abbrev pub hp_power_from_wire : ℕ → Option HpPower
hp_power_from_wire byte = wire_to_enum power_table byte

abbrev pub hp_power_to_wire : HpPower → Option ℕ
hp_power_to_wire val = enum_to_wire power_table val

abbrev pub hp_mode_to_str : HpMode → String
hp_mode_to_str val = enum_to_str mode_table val

abbrev pub hp_mode_from_str : Option String → HpMode
hp_mode_from_str str = enum_from_str mode_table str HpMode.unknown

abbrev pub hp_mode_from_wire : ℕ → Option HpMode
hp_mode_from_wire byte = wire_to_enum mode_table byte

abbrev pub hp_mode_to_wire : HpMode → Option ℕ
hp_mode_to_wire val = enum_to_wire mode_table val

abbrev pub hp_fan_to_str : HpFanMode → String
hp_fan_to_str val = enum_to_str fan_table val

abbrev pub hp_fan_from_str : Option String → HpFanMode
hp_fan_from_str str = enum_from_str fan_table str HpFanMode.unknown

abbrev pub hp_fan_from_wire : ℕ → Option HpFanMode
hp_fan_from_wire byte = wire_to_enum fan_table byte

abbrev pub hp_fan_to_wire : HpFanMode → Option ℕ
hp_fan_to_wire val = enum_to_wire fan_table val

abbrev pub hp_vane_to_str : HpVaneMode → String
hp_vane_to_str val = enum_to_str vane_table val

abbrev pub hp_vane_from_str : Option String → HpVaneMode
hp_vane_from_str str = enum_from_str vane_table str HpVaneMode.unknown

abbrev pub hp_vane_from_wire : ℕ → Option HpVaneMode
hp_vane_from_wire byte = wire_to_enum vane_table byte

abbrev pub hp_vane_to_wire : HpVaneMode → Option ℕ
hp_vane_to_wire val = enum_to_wire vane_table val

abbrev pub hp_wide_vane_to_str : HpWideVaneMode → String
hp_wide_vane_to_str val = enum_to_str wide_vane_table val

abbrev pub hp_wide_vane_from_str : Option String → HpWideVaneMode
hp_wide_vane_from_str str = enum_from_str wide_vane_table str HpWideVaneMode.unknown

abbrev pub hp_wide_vane_from_wire : ℕ → Option HpWideVaneMode
hp_wide_vane_from_wire byte = wire_to_enum wide_vane_table byte

abbrev pub hp_wide_vane_to_wire : HpWideVaneMode → Option ℕ
hp_wide_vane_to_wire val = enum_to_wire wide_vane_table val

abbrev pub hp_stage_to_str : HpStage → String
hp_stage_to_str val = enum_to_str stage_table val

abbrev pub hp_stage_from_str : Option String → HpStage
hp_stage_from_str str = enum_from_str stage_table str HpStage.unknown

abbrev pub hp_stage_from_wire : ℕ → Option HpStage
hp_stage_from_wire byte = wire_to_enum stage_table byte

abbrev pub hp_stage_to_wire : HpStage → Option ℕ
hp_stage_to_wire val = enum_to_wire stage_table val

abbrev pub hp_sub_mode_to_str : HpSubMode → String
hp_sub_mode_to_str val = enum_to_str sub_mode_table val

abbrev pub hp_sub_mode_from_str : Option String → HpSubMode
hp_sub_mode_from_str str = enum_from_str sub_mode_table str HpSubMode.unknown

abbrev pub hp_sub_mode_from_wire : ℕ → Option HpSubMode
hp_sub_mode_from_wire byte = wire_to_enum sub_mode_table byte

abbrev pub hp_sub_mode_to_wire : HpSubMode → Option ℕ
hp_sub_mode_to_wire val = enum_to_wire sub_mode_table val

abbrev pub hp_auto_sub_mode_to_str : HpAutoSubMode → String
hp_auto_sub_mode_to_str val = enum_to_str auto_sub_mode_table val

abbrev pub hp_auto_sub_mode_from_str : Option String → HpAutoSubMode
hp_auto_sub_mode_from_str str = enum_from_str auto_sub_mode_table str HpAutoSubMode.unknown

abbrev pub hp_auto_sub_mode_from_wire : ℕ → Option HpAutoSubMode
hp_auto_sub_mode_from_wire byte = wire_to_enum auto_sub_mode_table byte

abbrev pub hp_auto_sub_mode_to_wire : HpAutoSubMode → Option ℕ
hp_auto_sub_mode_to_wire val = enum_to_wire auto_sub_mode_table val

abbrev pub hp_airflow_control_to_str : HpAirflowControl → String
hp_airflow_control_to_str val = enum_to_str airflow_control_table val

abbrev pub hp_airflow_control_from_str : Option String → HpAirflowControl
hp_airflow_control_from_str str = enum_from_str airflow_control_table str HpAirflowControl.unknown

abbrev pub hp_airflow_control_from_wire : ℕ → Option HpAirflowControl
hp_airflow_control_from_wire byte = wire_to_enum airflow_control_table byte

abbrev pub hp_airflow_control_to_wire : HpAirflowControl → Option ℕ
hp_airflow_control_to_wire val = enum_to_wire airflow_control_table val
