-- ===== src/Packet/Layout.antt =====
-- components/cn105/hp_writings.cpp, `create_packet`: where each wanted setting stands.
use Prim.Native.Nat.{bit_or}
use mitsubishi_cn105esphome.Prelude.{
  ℕ, ◌+◌, ◌≡◌, refl, Bool, Option, none, some, List, [], ◌∷◌, ◌++◌, arith, if◌then◌else◌, value_or,
}
use mitsubishi_cn105esphome.Enums.Kinds.{
  HpPower, HpMode, HpFanMode, HpVaneMode, HpWideVaneMode, same, power_enum, mode_enum, fan_enum,
  vane_enum, wide_vane_enum,
}
use mitsubishi_cn105esphome.Enums.Table.{enum_to_wire}
use mitsubishi_cn105esphome.Enums.Wrappers.{
  hp_power_to_wire, hp_mode_to_wire, hp_fan_to_wire, hp_vane_to_wire, hp_wide_vane_to_wire,
}
use mitsubishi_cn105esphome.Packet.{
  VaneType, put_field, put_wanted, put_wide_vane, prepare_set_packet,
}

-- The bytes of a SET packet that `create_packet` may write.
pub record SetBytes : Type 0 where
  pub flags : ℕ
  pub wide_flag : ℕ
  pub power : ℕ
  pub mode : ℕ
  pub fan : ℕ
  pub vane : ℕ
  pub left_vane : ℕ
  pub wide_vane : ℕ
  pub temperature : ℕ

-- The payload with these bytes.
abbrev pub set_payload : SetBytes → List ℕ
set_payload s =
    0x01 ∷ s.flags ∷ s.wide_flag ∷ s.power ∷ s.mode ∷ 0 ∷ s.fan ∷ s.vane ∷ 0 ∷ 0 ∷ 0 ∷ s.left_vane
    ∷ 0 ∷ s.wide_vane ∷ s.temperature ∷ 0 ∷ []

-- A packet before its checksum.
abbrev pub unsigned : SetBytes → List ℕ
unsigned s = (0xfc ∷ 0x41 ∷ 0x01 ∷ 0x30 ∷ 0x10 ∷ set_payload s) ++ 0 ∷ []

-- The flag of a setting that is sent.
abbrev pub flag_of : Option ℕ → ℕ → ℕ
flag_of none flag = 0
flag_of (some b) flag = flag

-- The wanted settings as bytes: a setting that is unknown is a byte 0 with its flag clear.
abbrev pub wanted_bytes :
    Option ℕ → Option ℕ → Option ℕ → Option ℕ → Option ℕ → Option ℕ → Bool → VaneType → SetBytes
wanted_bytes p m t f v w adj type = record {
  flags = flag_of p 1 + flag_of m 2 + flag_of t 4 + flag_of f 8 + flag_of v 16;
  wide_flag = flag_of w 1;
  power = value_or p 0;
  mode = value_or m 0;
  fan = value_or f 0;
  vane = value_or v 0;
  left_vane = left type w;
  wide_vane = wide w adj;
  temperature = value_or t 0;
}
  where
    left : VaneType → Option ℕ → ℕ
    left VaneType.split_horizontal o = value_or o 0
    left VaneType.split_vertical o = 0
    left VaneType.standard o = 0

    wide : Option ℕ → Bool → ℕ
    wide none a = 0
    wide (some b) a = bit_or b (if a then 0x80 else 0x00)

-- Settings that are unknown have no wire byte, so the test before the lookup changes nothing.
pub put_power :
    (p : HpPower) (packet : List ℕ)
    → put_wanted (same p HpPower.unknown) (hp_power_to_wire p) 8 6 0x01 packet
      ≡ put_field (hp_power_to_wire p) 8 6 0x01 packet
unfolding put_field enum_to_wire
put_power HpPower.off packet = refl
put_power _ packet = refl

pub put_mode :
    (m : HpMode) (packet : List ℕ)
    → put_wanted (same m HpMode.unknown) (hp_mode_to_wire m) 9 6 0x02 packet
      ≡ put_field (hp_mode_to_wire m) 9 6 0x02 packet
unfolding put_field enum_to_wire
put_mode HpMode.heat packet = refl
put_mode _ packet = refl

pub put_fan :
    (f : HpFanMode) (packet : List ℕ)
    → put_wanted (same f HpFanMode.unknown) (hp_fan_to_wire f) 11 6 0x08 packet
      ≡ put_field (hp_fan_to_wire f) 11 6 0x08 packet
unfolding put_field enum_to_wire
put_fan HpFanMode.auto packet = refl
put_fan _ packet = refl

pub put_vane :
    (v : HpVaneMode) (packet : List ℕ)
    → put_wanted (same v HpVaneMode.unknown) (hp_vane_to_wire v) 12 6 0x10 packet
      ≡ put_field (hp_vane_to_wire v) 12 6 0x10 packet
unfolding put_field enum_to_wire
put_vane HpVaneMode.auto packet = refl
put_vane _ packet = refl

pub put_wide :
    (w : HpWideVaneMode) (adj : Bool) (type : VaneType) (packet : List ℕ)
    → (if same w HpWideVaneMode.unknown
        then packet
        else put_wide_vane (hp_wide_vane_to_wire w) adj type packet)
      ≡ put_wide_vane (hp_wide_vane_to_wire w) adj type packet
unfolding put_wide_vane enum_to_wire
put_wide HpWideVaneMode.left_left adj type packet = refl
put_wide _ adj type packet = refl

module _ (adj : Bool) (type : VaneType) where
  -- The packet once the first settings have been put.
  abbrev pub upto : Option ℕ → Option ℕ → Option ℕ → Option ℕ → Option ℕ → Option ℕ → List ℕ
  upto p m t f v w = unsigned (wanted_bytes p m t f v w adj type)

  pub start : prepare_set_packet ≡ upto none none none none none none
  unfolding prepare_set_packet
  start = ground arith

  pub power_stage :
      (p : Option ℕ)
      → put_field p 8 6 0x01 (upto none none none none none none) ≡ upto p none none none none none
  unfolding put_field
  power_stage p = ground arith

  pub mode_stage :
      (p m : Option ℕ)
      → put_field m 9 6 0x02 (upto p none none none none none) ≡ upto p m none none none none
  unfolding put_field
  mode_stage p m = ground arith

  pub fan_stage :
      (p m t f : Option ℕ)
      → put_field f 11 6 0x08 (upto p m t none none none) ≡ upto p m t f none none
  unfolding put_field
  fan_stage p m t f = ground arith

  pub vane_stage :
      (p m t f v : Option ℕ) → put_field v 12 6 0x10 (upto p m t f none none) ≡ upto p m t f v none
  unfolding put_field
  vane_stage p m t f v = ground arith

  pub wide_stage :
      (p m t f v w : Option ℕ) → put_wide_vane w adj type (upto p m t f v none) ≡ upto p m t f v w
  unfolding put_wide_vane
  wide_stage p m t f v w = ground arith
