-- ===== src/Enums/Kinds.antt =====
-- components/cn105/cn105_types.h: the protocol's enumerations. `code` is the underlying value
-- of an `enum class`, by which the source compares.
use mitsubishi_cn105esphome.Prelude.{ℕ, Bool, ◌==◌}

pub record Enum (E : Type 0) : Type 0 where
  pub code : E → ℕ
  -- Every such type has the sentinel that stands for "nothing known yet".
  pub unknown_value : E

-- `a == b` of an `enum class`.
abbrev pub same : {E : Type 0} ⦃e : Enum E⦄ → E → E → Bool
same ⦃e⦄ a b = e.code a == e.code b

pub data HpPower : Type 0 where
  off on unknown : HpPower

abbrev pub power_code : HpPower → ℕ
power_code HpPower.off = 0
power_code HpPower.on = 1
power_code HpPower.unknown = 2

instance abbrev pub power_enum : Enum HpPower
power_enum = record { code = power_code; unknown_value = HpPower.unknown }

pub data HpMode : Type 0 where
  heat dry cool fan auto unknown : HpMode

abbrev pub mode_code : HpMode → ℕ
mode_code HpMode.heat = 0
mode_code HpMode.dry = 1
mode_code HpMode.cool = 2
mode_code HpMode.fan = 3
mode_code HpMode.auto = 4
mode_code HpMode.unknown = 5

instance abbrev pub mode_enum : Enum HpMode
mode_enum = record { code = mode_code; unknown_value = HpMode.unknown }

pub data HpFanMode : Type 0 where
  auto quiet f1 f2 f3 f4 unknown : HpFanMode

abbrev pub fan_code : HpFanMode → ℕ
fan_code HpFanMode.auto = 0
fan_code HpFanMode.quiet = 1
fan_code HpFanMode.f1 = 2
fan_code HpFanMode.f2 = 3
fan_code HpFanMode.f3 = 4
fan_code HpFanMode.f4 = 5
fan_code HpFanMode.unknown = 6

instance abbrev pub fan_enum : Enum HpFanMode
fan_enum = record { code = fan_code; unknown_value = HpFanMode.unknown }

pub data HpVaneMode : Type 0 where
  auto v1 v2 v3 v4 v5 swing unknown : HpVaneMode

abbrev pub vane_code : HpVaneMode → ℕ
vane_code HpVaneMode.auto = 0
vane_code HpVaneMode.v1 = 1
vane_code HpVaneMode.v2 = 2
vane_code HpVaneMode.v3 = 3
vane_code HpVaneMode.v4 = 4
vane_code HpVaneMode.v5 = 5
vane_code HpVaneMode.swing = 6
vane_code HpVaneMode.unknown = 7

instance abbrev pub vane_enum : Enum HpVaneMode
vane_enum = record { code = vane_code; unknown_value = HpVaneMode.unknown }

pub data HpWideVaneMode : Type 0 where
  left_left left center right right_right left_right swing airflow_control unknown : HpWideVaneMode

abbrev pub wide_vane_code : HpWideVaneMode → ℕ
wide_vane_code HpWideVaneMode.left_left = 0
wide_vane_code HpWideVaneMode.left = 1
wide_vane_code HpWideVaneMode.center = 2
wide_vane_code HpWideVaneMode.right = 3
wide_vane_code HpWideVaneMode.right_right = 4
wide_vane_code HpWideVaneMode.left_right = 5
wide_vane_code HpWideVaneMode.swing = 6
wide_vane_code HpWideVaneMode.airflow_control = 7
wide_vane_code HpWideVaneMode.unknown = 8

instance abbrev pub wide_vane_enum : Enum HpWideVaneMode
wide_vane_enum = record { code = wide_vane_code; unknown_value = HpWideVaneMode.unknown }

pub data HpStage : Type 0 where
  idle low gentle medium moderate high diffuse unknown : HpStage

abbrev pub stage_code : HpStage → ℕ
stage_code HpStage.idle = 0
stage_code HpStage.low = 1
stage_code HpStage.gentle = 2
stage_code HpStage.medium = 3
stage_code HpStage.moderate = 4
stage_code HpStage.high = 5
stage_code HpStage.diffuse = 6
stage_code HpStage.unknown = 7

instance abbrev pub stage_enum : Enum HpStage
stage_enum = record { code = stage_code; unknown_value = HpStage.unknown }

pub data HpSubMode : Type 0 where
  normal warmup defrost preheat standby off unknown : HpSubMode

abbrev pub sub_mode_code : HpSubMode → ℕ
sub_mode_code HpSubMode.normal = 0
sub_mode_code HpSubMode.warmup = 1
sub_mode_code HpSubMode.defrost = 2
sub_mode_code HpSubMode.preheat = 3
sub_mode_code HpSubMode.standby = 4
sub_mode_code HpSubMode.off = 5
sub_mode_code HpSubMode.unknown = 6

instance abbrev pub sub_mode_enum : Enum HpSubMode
sub_mode_enum = record { code = sub_mode_code; unknown_value = HpSubMode.unknown }

pub data HpAutoSubMode : Type 0 where
  auto_off auto_cool auto_heat auto_leader auto_inactive auto_idle auto_active unknown :
      HpAutoSubMode

abbrev pub auto_sub_mode_code : HpAutoSubMode → ℕ
auto_sub_mode_code HpAutoSubMode.auto_off = 0
auto_sub_mode_code HpAutoSubMode.auto_cool = 1
auto_sub_mode_code HpAutoSubMode.auto_heat = 2
auto_sub_mode_code HpAutoSubMode.auto_leader = 3
auto_sub_mode_code HpAutoSubMode.auto_inactive = 4
auto_sub_mode_code HpAutoSubMode.auto_idle = 5
auto_sub_mode_code HpAutoSubMode.auto_active = 6
auto_sub_mode_code HpAutoSubMode.unknown = 7

instance abbrev pub auto_sub_mode_enum : Enum HpAutoSubMode
auto_sub_mode_enum = record { code = auto_sub_mode_code; unknown_value = HpAutoSubMode.unknown }

pub data HpAirflowControl : Type 0 where
  even indirect direct unknown : HpAirflowControl

abbrev pub airflow_control_code : HpAirflowControl → ℕ
airflow_control_code HpAirflowControl.even = 0
airflow_control_code HpAirflowControl.indirect = 1
airflow_control_code HpAirflowControl.direct = 2
airflow_control_code HpAirflowControl.unknown = 3

instance abbrev pub airflow_control_enum : Enum HpAirflowControl
airflow_control_enum = record {
  code = airflow_control_code;
  unknown_value = HpAirflowControl.unknown;
}
