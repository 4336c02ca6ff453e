-- ===== src/Reconcile/Latch.antt =====
-- components/cn105/reconciliation_policy.h: the latch of the low-temperature protection.
use mitsubishi_cn105esphome.Prelude.{◌≡◌, refl, ◌⊎◌, Bool, true, false, List, [], ◌∷◌, arith, All}
use mitsubishi_cn105esphome.Prelude.Float.{Float}
use mitsubishi_cn105esphome.Reconcile.{next_ltp_active}

module _ (fl : Float) where
  open fl use {F, add, lt, le, is_nan}

  -- The latch over a sequence of room temperatures.
  pub latch_run : Bool → F → F → List F → Bool
  latch_run active low h [] = active
  latch_run active low h (t ∷ ts) = latch_run (next_ltp_active fl true active t low h) low h ts

  -- Unknown, or neither below the threshold nor above the release point.
  abbrev pub InBand : F → F → F → Type 0
  InBand low h t = (is_nan t ≡ true) ⊎ ((lt t low ≡ false) × (lt (add low h) t ≡ false))

  -- However long the room stays between the threshold and the release point, or unknown, the latch
  -- of the enabled protection keeps the state it had.
  pub latch_run_band :
      (active : Bool) (low h : F) (ts : List F)
      → All (InBand low h) ts
      → latch_run active low h ts ≡ active
  unfolding latch_run next_ltp_active
  latch_run_band active low h [] b = refl
  latch_run_band active low h (t ∷ ts) b = ground (arith, b.0, latch_run_band active low h ts b.1)

  -- A temperature below the threshold engages the latch, and it stays engaged while no temperature
  -- after that is above the release point.
  latch_run_engaged :
      (active : Bool) (low h t : F) (ts : List F)
      → is_nan t ≡ false
      → lt t low ≡ true
      → lt (add low h) t ≡ false
      → All (λ s. lt (add low h) s ≡ false) ts
      → latch_run active low h (t ∷ ts) ≡ true
  unfolding latch_run next_ltp_active
  latch_run_engaged active low h t ts n below above b = ground (arith, keeps ts b)
    where
      keeps :
          (ss : List F) → All (λ s. lt (add low h) s ≡ false) ss → latch_run true low h ss ≡ true
      keeps [] c = refl
      keeps (s ∷ ss) c = ground (arith, c.0, keeps ss c.1)
