-- ===== src/Schedule/Shift.antt =====
-- components/cn105/scheduling_policy.h: which tests survive the wrap of the millisecond clock.
use mitsubishi_cn105esphome.Prelude.{ℕ, ◌+◌, ◌<◌, ◌≡◌, Bool, arith}
use mitsubishi_cn105esphome.Prelude.Word.{u32, sub32}
use mitsubishi_cn105esphome.Schedule.{
  should_suppress_repeat_command, is_cycle_starved, should_force_remote_temp_send,
}

sub32_shift :
    (a b k : ℕ) → a < 4294967296 → b < 4294967296 → sub32 (u32 (a + k)) (u32 (b + k)) ≡ sub32 a b
sub32_shift a b k h l = omega arith

-- Moving all 32-bit time stamps by the same amount, through the wrap of the clock or not, changes none of
-- the three tests that subtract before they compare.
pub windows_shift :
    (p q : Bool) (now since sent interval k : ℕ)
    → now < 4294967296
    → since < 4294967296
    → sent < 4294967296
    → (should_suppress_repeat_command p q (u32 (now + k)) (u32 (since + k)) interval
        ≡ should_suppress_repeat_command p q now since interval)
      × (is_cycle_starved (u32 (now + k)) (u32 (since + k)) interval
          ≡ is_cycle_starved now since interval)
      × (should_force_remote_temp_send p (u32 (now + k)) (u32 (since + k)) (u32 (sent + k)) interval
          ≡ should_force_remote_temp_send p now since sent interval)
unfolding should_suppress_repeat_command is_cycle_starved should_force_remote_temp_send
windows_shift p q now since sent interval k h l m = (
  rw (sub32_shift now since k h l),
  rw (sub32_shift now since k h l),
  rw (sub32_shift now since k h l, sub32_shift now sent k h m),
)
