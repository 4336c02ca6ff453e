-- ===== src/Enums/RoundTrip.antt =====
-- components/cn105/cn105_types.h: what is written to the wire or shown as a label is read back.
use Prim.Native.String.{String}
use mitsubishi_cn105esphome.Prelude.{ℕ, ◌≡◌, refl, ◌↔◌, Option, some, arith}
use mitsubishi_cn105esphome.Enums.Kinds.{
  HpPower, HpMode, HpFanMode, HpVaneMode, HpWideVaneMode, HpStage, HpSubMode, HpAutoSubMode,
  HpAirflowControl,
}
use mitsubishi_cn105esphome.Enums.Table.{enum_to_wire, wire_to_enum, enum_to_str, enum_from_str}
use mitsubishi_cn105esphome.Enums.Wrappers.{
  hp_power_to_wire, hp_mode_to_wire, hp_fan_to_wire, hp_vane_to_wire, hp_wide_vane_to_wire,
  hp_stage_to_wire, hp_sub_mode_to_wire, hp_auto_sub_mode_to_wire, hp_airflow_control_to_wire,
  hp_power_from_wire, hp_mode_from_wire, hp_fan_from_wire, hp_vane_from_wire,
  hp_wide_vane_from_wire, hp_stage_from_wire, hp_sub_mode_from_wire, hp_auto_sub_mode_from_wire,
  hp_airflow_control_from_wire, hp_power_to_str, hp_mode_to_str, hp_fan_to_str, hp_vane_to_str,
  hp_wide_vane_to_str, hp_stage_to_str, hp_sub_mode_to_str, hp_auto_sub_mode_to_str,
  hp_airflow_control_to_str, hp_power_from_str, hp_mode_from_str, hp_fan_from_str, hp_vane_from_str,
  hp_wide_vane_from_str, hp_stage_from_str, hp_sub_mode_from_str, hp_auto_sub_mode_from_str,
  hp_airflow_control_from_str,
}

-- Encoding and decoding are inverse to one another, as partial functions.
abbrev pub Inverse : {E : Type 0} → (E → Option ℕ) → (ℕ → Option E) → Type 0
Inverse {E} encode decode = (v : E) (b : ℕ) → (encode v ≡ some b) ↔ (decode b ≡ some v)

-- A label, sent back, names the value that it was shown for.
abbrev pub ReadsBack : {E : Type 0} → (E → String) → (Option String → E) → Type 0
ReadsBack {E} show read = (v : E) → read (some (show v)) ≡ v

power_wire : Inverse hp_power_to_wire hp_power_from_wire
unfolding enum_to_wire wire_to_enum
power_wire v b = (λ h. ground arith, λ h. ground arith)

power_label : ReadsBack hp_power_to_str hp_power_from_str
unfolding enum_to_str enum_from_str
power_label HpPower.off = refl
power_label HpPower.on = refl
power_label HpPower.unknown = refl

mode_wire : Inverse hp_mode_to_wire hp_mode_from_wire
unfolding enum_to_wire wire_to_enum
mode_wire v b = (λ h. ground arith, λ h. ground arith)

mode_label : ReadsBack hp_mode_to_str hp_mode_from_str
unfolding enum_to_str enum_from_str
mode_label HpMode.heat = refl
mode_label HpMode.dry = refl
mode_label HpMode.cool = refl
mode_label HpMode.fan = refl
mode_label HpMode.auto = refl
mode_label HpMode.unknown = refl

fan_wire : Inverse hp_fan_to_wire hp_fan_from_wire
unfolding enum_to_wire wire_to_enum
fan_wire v b = (λ h. ground arith, λ h. ground arith)

fan_label : ReadsBack hp_fan_to_str hp_fan_from_str
unfolding enum_to_str enum_from_str
fan_label HpFanMode.auto = refl
fan_label HpFanMode.quiet = refl
fan_label HpFanMode.f1 = refl
fan_label HpFanMode.f2 = refl
fan_label HpFanMode.f3 = refl
fan_label HpFanMode.f4 = refl
fan_label HpFanMode.unknown = refl

vane_wire : Inverse hp_vane_to_wire hp_vane_from_wire
unfolding enum_to_wire wire_to_enum
vane_wire v b = (λ h. ground arith, λ h. ground arith)

vane_label : ReadsBack hp_vane_to_str hp_vane_from_str
unfolding enum_to_str enum_from_str
vane_label HpVaneMode.auto = refl
vane_label HpVaneMode.v1 = refl
vane_label HpVaneMode.v2 = refl
vane_label HpVaneMode.v3 = refl
vane_label HpVaneMode.v4 = refl
vane_label HpVaneMode.v5 = refl
vane_label HpVaneMode.swing = refl
vane_label HpVaneMode.unknown = refl

wide_vane_wire : Inverse hp_wide_vane_to_wire hp_wide_vane_from_wire
unfolding enum_to_wire wire_to_enum
wide_vane_wire v b = (λ h. ground arith, λ h. ground arith)

wide_vane_label : ReadsBack hp_wide_vane_to_str hp_wide_vane_from_str
unfolding enum_to_str enum_from_str
wide_vane_label HpWideVaneMode.left_left = refl
wide_vane_label HpWideVaneMode.left = refl
wide_vane_label HpWideVaneMode.center = refl
wide_vane_label HpWideVaneMode.right = refl
wide_vane_label HpWideVaneMode.right_right = refl
wide_vane_label HpWideVaneMode.left_right = refl
wide_vane_label HpWideVaneMode.swing = refl
wide_vane_label HpWideVaneMode.airflow_control = refl
wide_vane_label HpWideVaneMode.unknown = refl

stage_wire : Inverse hp_stage_to_wire hp_stage_from_wire
unfolding enum_to_wire wire_to_enum
stage_wire v b = (λ h. ground arith, λ h. ground arith)

stage_label : ReadsBack hp_stage_to_str hp_stage_from_str
unfolding enum_to_str enum_from_str
stage_label HpStage.idle = refl
stage_label HpStage.low = refl
stage_label HpStage.gentle = refl
stage_label HpStage.medium = refl
stage_label HpStage.moderate = refl
stage_label HpStage.high = refl
stage_label HpStage.diffuse = refl
stage_label HpStage.unknown = refl

sub_mode_wire : Inverse hp_sub_mode_to_wire hp_sub_mode_from_wire
unfolding enum_to_wire wire_to_enum
sub_mode_wire v b = (λ h. ground arith, λ h. ground arith)

sub_mode_label : ReadsBack hp_sub_mode_to_str hp_sub_mode_from_str
unfolding enum_to_str enum_from_str
sub_mode_label HpSubMode.normal = refl
sub_mode_label HpSubMode.warmup = refl
sub_mode_label HpSubMode.defrost = refl
sub_mode_label HpSubMode.preheat = refl
sub_mode_label HpSubMode.standby = refl
sub_mode_label HpSubMode.off = refl
sub_mode_label HpSubMode.unknown = refl

auto_sub_mode_wire : Inverse hp_auto_sub_mode_to_wire hp_auto_sub_mode_from_wire
unfolding enum_to_wire wire_to_enum
auto_sub_mode_wire v b = (λ h. ground arith, λ h. ground arith)

auto_sub_mode_label : ReadsBack hp_auto_sub_mode_to_str hp_auto_sub_mode_from_str
unfolding enum_to_str enum_from_str
auto_sub_mode_label HpAutoSubMode.auto_off = refl
auto_sub_mode_label HpAutoSubMode.auto_cool = refl
auto_sub_mode_label HpAutoSubMode.auto_heat = refl
auto_sub_mode_label HpAutoSubMode.auto_leader = refl
auto_sub_mode_label HpAutoSubMode.auto_inactive = refl
auto_sub_mode_label HpAutoSubMode.auto_idle = refl
auto_sub_mode_label HpAutoSubMode.auto_active = refl
auto_sub_mode_label HpAutoSubMode.unknown = refl

airflow_control_wire : Inverse hp_airflow_control_to_wire hp_airflow_control_from_wire
unfolding enum_to_wire wire_to_enum
airflow_control_wire v b = (λ h. ground arith, λ h. ground arith)

airflow_control_label : ReadsBack hp_airflow_control_to_str hp_airflow_control_from_str
unfolding enum_to_str enum_from_str
airflow_control_label HpAirflowControl.even = refl
airflow_control_label HpAirflowControl.indirect = refl
airflow_control_label HpAirflowControl.direct = refl
airflow_control_label HpAirflowControl.unknown = refl

-- For each of the nine enumerations, a value encodes to a byte exactly when the byte decodes to the
-- value.
pub wire_round_trip :
    Inverse hp_power_to_wire hp_power_from_wire
    × Inverse hp_mode_to_wire hp_mode_from_wire
    × Inverse hp_fan_to_wire hp_fan_from_wire
    × Inverse hp_vane_to_wire hp_vane_from_wire
    × Inverse hp_wide_vane_to_wire hp_wide_vane_from_wire
    × Inverse hp_stage_to_wire hp_stage_from_wire
    × Inverse hp_sub_mode_to_wire hp_sub_mode_from_wire
    × Inverse hp_auto_sub_mode_to_wire hp_auto_sub_mode_from_wire
    × Inverse hp_airflow_control_to_wire hp_airflow_control_from_wire
wire_round_trip = (
  power_wire, mode_wire, fan_wire, vane_wire, wide_vane_wire, stage_wire, sub_mode_wire,
  auto_sub_mode_wire, airflow_control_wire,
)

-- For each of the nine enumerations and every value, the sentinel too, the label of the value is
-- read back as the value.
label_round_trip :
    ReadsBack hp_power_to_str hp_power_from_str
    × ReadsBack hp_mode_to_str hp_mode_from_str
    × ReadsBack hp_fan_to_str hp_fan_from_str
    × ReadsBack hp_vane_to_str hp_vane_from_str
    × ReadsBack hp_wide_vane_to_str hp_wide_vane_from_str
    × ReadsBack hp_stage_to_str hp_stage_from_str
    × ReadsBack hp_sub_mode_to_str hp_sub_mode_from_str
    × ReadsBack hp_auto_sub_mode_to_str hp_auto_sub_mode_from_str
    × ReadsBack hp_airflow_control_to_str hp_airflow_control_from_str
label_round_trip = (
  power_label, mode_label, fan_label, vane_label, wide_vane_label, stage_label, sub_mode_label,
  auto_sub_mode_label, airflow_control_label,
)
