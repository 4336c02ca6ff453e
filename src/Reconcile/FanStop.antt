-- ===== src/Reconcile/FanStop.antt =====
-- components/cn105/reconciliation_policy.h: the deadband of fan stop.
use mitsubishi_cn105esphome.Prelude.{
  ◌≡◌, refl, ◌⊎◌, Bool, false, not, List, [], ◌∷◌, ◌++◌, ◌∙◌, arith, All, if◌then◌else◌,
}
use mitsubishi_cn105esphome.Prelude.Float.{Float}
use mitsubishi_cn105esphome.Enums.Kinds.{HpMode, HpPower, power_enum, mode_enum, same}
use mitsubishi_cn105esphome.Reconcile.{fan_stop_wants_running}

module _ (fl : Float) where
  open fl use {F, add, sub, lt, le, is_nan}

  -- The power that the unit is switched to, when it follows the reconciler.
  abbrev pub followed : Bool → HpPower
  followed running = if running then HpPower.on else HpPower.off

  -- The unit follows fan stop over a sequence of room temperatures.
  pub follow : HpMode → F → F → Bool → List F → Bool
  follow mode desired h running [] = running
  follow mode desired h running (t ∷ ts) =
      follow mode desired h (fan_stop_wants_running fl mode t desired h (followed running)) ts

  -- A temperature strictly inside the deadband.
  abbrev pub Inside : F → F → F → Type 0
  Inside desired h t = (le (add desired h) t ≡ false) × (le t (sub desired h) ≡ false)

  -- Inside the deadband the unit holds what it does.
  holds :
      (mode : HpMode) (desired h : F) (running : Bool) (ts : List F)
      → (mode ≡ HpMode.heat) ⊎ (mode ≡ HpMode.cool)
      → All (Inside desired h) ts
      → follow mode desired h running ts ≡ running
  unfolding follow fan_stop_wants_running
  holds mode desired h running [] m b = refl
  holds mode desired h running (t ∷ ts) m b =
      ground (arith, b.0, holds mode desired h running ts m b.1)

  crosses :
      (mode : HpMode) (desired h t : F) (power : HpPower) (upward : Bool)
      → (mode ≡ HpMode.heat) ⊎ (mode ≡ HpMode.cool)
      → le (add desired h) t ≡ upward
      → le t (sub desired h) ≡ not upward
      → fan_stop_wants_running fl mode t desired h power
        ≡ (if same mode HpMode.cool then upward else not upward)
  unfolding fan_stop_wants_running
  crosses mode desired h t power upward m above below = ground (arith, above, below)

  -- Heating or cooling, whatever the room and the unit did before, the last temperature outside the deadband decides: while the
  -- room has stayed strictly inside it since, a unit that follows fan stop runs exactly if the room left the
  -- deadband on the side that asks for it, upward when cooling and downward when heating.
  pub follow_last_crossing :
      (mode : HpMode) (desired h t : F) (running upward : Bool) (before inside : List F)
      → (mode ≡ HpMode.heat) ⊎ (mode ≡ HpMode.cool)
      → le (add desired h) t ≡ upward
      → le t (sub desired h) ≡ not upward
      → All (Inside desired h) inside
      → follow mode desired h running (before ++ t ∷ inside)
        ≡ (if same mode HpMode.cool then upward else not upward)
  unfolding follow
  follow_last_crossing mode desired h t running upward [] inside m above below b =
      holds mode desired h _ inside m b
      ∙ crosses mode desired h t (followed running) upward m above below
  follow_last_crossing mode desired h t running upward (u ∷ before) inside m above below b =
      follow_last_crossing mode desired h t
        (fan_stop_wants_running fl mode u desired h (followed running)) upward before inside m above
        below b
