-- ===== src/Remote/Pace.antt =====
-- climate_controls.cpp, `set_remote_temperature`: at most one write in ten seconds, and none for a byte that
-- the unit has.
use mitsubishi_cn105esphome.Prelude.{
  ℕ, ◌+◌, ◌-◌, ◌<◌, ◌≡◌, refl, Bool, true, false, ◌&&◌, ◌||◌, none, some, Bool-cases, inl, inr, ◌⊎◌,
  ltb, leb, ◌==◌, arith, ap,
}
use mitsubishi_cn105esphome.Prelude.Int.{pos}
use mitsubishi_cn105esphome.Prelude.Word.{u32, sub32}
use mitsubishi_cn105esphome.Prelude.Float.{Float}
use mitsubishi_cn105esphome.Remote.{
  Remote, queue_remote_temperature_send, start_remote_temp_keep_alive, ping_external_temperature,
  byte_unchanged, pace, set_remote_temperature, never,
}

-- Ten seconds after the last write, on a clock that wraps.
pub defer_until :
    (now last : ℕ)
    → now < 4294967296
    → last < 4294967296
    → leb 10000 (sub32 now last) ≡ false
    → u32 (now + (10000 - sub32 now last)) ≡ u32 (last + 10000)
defer_until now last a b h = waits (le_of_leb (sub32 now last) h)
  where
    le_of_leb : (n : ℕ) → leb 10000 n ≡ false → n < 10000
    le_of_leb n h = ground arith

    waits : sub32 now last < 10000 → u32 (now + (10000 - sub32 now last)) ≡ u32 (last + 10000)
    waits k = omega arith

module _ (fl : Float) where
  open fl use {F, is_nan, eq, of_int}

  -- What `pace` makes of `r` at the time `now`, as `n`.
  abbrev pub Paced : ℕ → F → Remote F → Remote F → Type 0
  Paced now t r n =
      ((byte_unchanged fl r.last_remote_temp_sent t ≡ true)
        × (n.should_send_external_temperature ≡ r.should_send_external_temperature)
        × (n.deferred_send ≡ none))
      ⊎ (((r.last_remote_temp_send_ms == 0 || leb 10000 (sub32 now r.last_remote_temp_send_ms)
              ≡ true)
            × (n.should_send_external_temperature ≡ true)
            × (n.deferred_send ≡ none))
          ⊎ ((n.should_send_external_temperature ≡ r.should_send_external_temperature)
              × (n.deferred_send ≡ some (u32 (r.last_remote_temp_send_ms + 10000)))))

  both : (a b : Bool) → a && b ≡ true → a ≡ true
  both a b h = ground arith

  neither : (a b : Bool) → a || b ≡ false → b ≡ false
  neither a b h = ground arith

  pace-Paced :
      (now : ℕ) (t : F) (r : Remote F)
      → now < 4294967296
      → r.last_remote_temp_send_ms < 4294967296
      → Paced now t r (pace fl now t r)
        × ((pace fl now t r).remote_temperature ≡ r.remote_temperature)
        × ((pace fl now t r).remote_temp_keepalive_active ≡ r.remote_temp_keepalive_active)
  unfolding pace queue_remote_temperature_send
  pace-Paced now t r a b =
      elim (Bool-cases
        (byte_unchanged fl r.last_remote_temp_sent t && ltb 0 r.last_remote_temp_send_ms)) [
          | inl h ↦ rw h (
            inl (
              both (byte_unchanged fl r.last_remote_temp_sent t) (ltb 0 r.last_remote_temp_send_ms)
                  h,
              refl,
              refl,
            ),
            refl,
            refl,
          )
          | inr h ↦
              rw h
                (elim (Bool-cases (
                  r.last_remote_temp_send_ms == 0
                  || leb 10000 (sub32 now r.last_remote_temp_send_ms))) [
                    | inl k ↦ rw k (inr (inl (refl, refl, refl)), refl, refl)
                    | inr k ↦ rw k (
                      inr (
                          inr (
                            refl,
                            ap some (
                                defer_until now r.last_remote_temp_send_ms a b (
                                  neither (r.last_remote_temp_send_ms == 0)
                                    (leb 10000 (sub32 now r.last_remote_temp_send_ms)) k)),
                          )),
                      refl,
                      refl,
                    )
                  ])
        ]

  -- What comes before it leaves the rest of the state alone.
  held_kept :
      (now : ℕ) (t : F) (r : Remote F)
      → start_remote_temp_keep_alive
          (ping_external_temperature now (record r { remote_temperature = some t }))
        ≡ record r {
          remote_temperature = some t;
          remote_temp_keepalive_active = true;
          keepalive_timer = (start_remote_temp_keep_alive r).keepalive_timer;
          remote_temp_timer = (ping_external_temperature now r).remote_temp_timer;
        }
  unfolding start_remote_temp_keep_alive ping_external_temperature
  held_kept now t r = by_active r.remote_temp_keepalive_active
    where
      by_active :
          (active : Bool)
          → start_remote_temp_keep_alive (
              ping_external_temperature now
                (record r { remote_temperature = some t; remote_temp_keepalive_active = active }))
            ≡ record r {
              remote_temperature = some t;
              remote_temp_keepalive_active = true;
              keepalive_timer =
                  (start_remote_temp_keep_alive
                    (record r { remote_temp_keepalive_active = active })).keepalive_timer;
              remote_temp_timer = (ping_external_temperature now r).remote_temp_timer;
            }
      by_active true = elim (Bool-cases (r.remote_temp_timeout == never)) [
        | inl h ↦ rw h refl
        | inr h ↦ rw h refl
      ]
      by_active false = elim (Bool-cases (r.remote_temp_timeout == never)) [
        | inl h ↦ rw h refl
        | inr h ↦ rw h refl
      ]

  -- A number other than zero is held and kept alive from now on, and its write is paced: it is left out only
  -- if the unit was last sent the same byte; it is queued at once only if nothing was sent before or ten
  -- seconds have passed since; otherwise it is deferred to ten seconds after the last write. Times are
  -- 32-bit milliseconds, and wrap.
  pub set_remote_temperature-Paced :
      (now : ℕ) (t : F) (r : Remote F)
      → is_nan t ≡ false
      → eq t (of_int (pos 0)) ≡ false
      → now < 4294967296
      → r.last_remote_temp_send_ms < 4294967296
      → Paced now t r (set_remote_temperature fl now t r)
        × ((set_remote_temperature fl now t r).remote_temperature ≡ some t)
        × ((set_remote_temperature fl now t r).remote_temp_keepalive_active ≡ true)
  unfolding set_remote_temperature
  set_remote_temperature-Paced now t r number nonzero a b =
      rw (number, nonzero, held_kept now t r)
        (pace-Paced now t
          (record r {
            remote_temperature = some t;
            remote_temp_keepalive_active = true;
            keepalive_timer = (start_remote_temp_keep_alive r).keepalive_timer;
            remote_temp_timer = (ping_external_temperature now r).remote_temp_timer;
          })
          a b)
