-- ===== src/Remote/Tracked.antt =====
-- climate_controls.cpp and cn105.cpp: what it means that the remote temperature is kept alive, watched and
-- told to the unit, and that setting and clearing it keep this.
use mitsubishi_cn105esphome.Prelude.{
  ℕ, ◌-◌, ◌≡◌, refl, sym, subst, Bool, true, false, not, ◌&&◌, ◌||◌, Option, none, some, Bool-cases,
  if_keeps, inl, inr, has_value, ltb, leb, ◌==◌, arith, if◌then◌else◌,
}
use mitsubishi_cn105esphome.Prelude.Int.{pos}
use mitsubishi_cn105esphome.Prelude.Float.{Float}
use mitsubishi_cn105esphome.Prelude.Word.{sub32}
use mitsubishi_cn105esphome.Link.{due}
use mitsubishi_cn105esphome.Link.Watched.{is_armed}
use mitsubishi_cn105esphome.Remote.{
  Remote, never, queue_remote_temperature_send, ping_external_temperature,
  start_remote_temp_keep_alive, stop_remote_temp_keep_alive, clear_remote_temperature,
  byte_unchanged, pace, set_remote_temperature, remote_temp_min_send_interval_ms,
}

module _ (fl : Float) where
  open fl use {F, is_nan, eq, of_int}

  -- What was sent last has the byte of what is held, or neither is there.
  abbrev pub in_sync : Option F → Option F → Bool
  in_sync none none = true
  in_sync none (some sent) = false
  in_sync (some held) sent = byte_unchanged fl sent held

  abbrev Alive : Remote F → Type 0
  Alive r =
      (has_value r.remote_temperature ≡ r.remote_temp_keepalive_active)
      × (is_armed r.keepalive_timer ≡ r.remote_temp_keepalive_active)

  abbrev pub Watched : Remote F → Type 0
  Watched r =
      not (has_value r.remote_temperature && not (r.remote_temp_timeout == never))
        || is_armed r.remote_temp_timer
      ≡ true

  abbrev pub Told : Remote F → Type 0
  Told r =
      in_sync r.remote_temperature r.last_remote_temp_sent
        || r.should_send_external_temperature
        || is_armed r.deferred_send
      ≡ true

  -- The keep-alive runs exactly while a temperature is held; a temperature that is held is watched by the
  -- timeout, if there is one; and a temperature that the unit was not told is queued or deferred.
  abbrev pub IsTracked : Remote F → Type 0
  IsTracked r = Alive r × Watched r × Told r

  told_queued : (a b c : Bool) → b ≡ true → a || b || c ≡ true
  told_queued a b c h = ground arith

  told_deferred : (a b : Bool) → a || b || true ≡ true
  told_deferred a b = ground arith

  pub queue-IsTracked :
      (now : ℕ) (r : Remote F)
      → Alive r
      → Watched r
      → IsTracked (queue_remote_temperature_send now r)
  unfolding queue_remote_temperature_send
  queue-IsTracked now r a w = (
    a,
    w,
    told_queued (in_sync r.remote_temperature r.last_remote_temp_sent) true
        (is_armed r.deferred_send) refl,
  )

  pub clear_remote_temperature-IsTracked :
      (now : ℕ) (r : Remote F) → Alive r → IsTracked (clear_remote_temperature now r)
  unfolding clear_remote_temperature stop_remote_temp_keep_alive
  clear_remote_temperature-IsTracked now r (a, b) = by_active r.remote_temp_keepalive_active b
    where
      cleared : Bool → Remote F
      cleared active = record r {
        remote_temp_keepalive_active = active;
        remote_temperature = none;
        remote_temp_timer = none;
        deferred_send = none;
      }

      by_active :
          (active : Bool)
          → is_armed r.keepalive_timer ≡ active
          → IsTracked
              (clear_remote_temperature now (record r { remote_temp_keepalive_active = active }))
      by_active true b =
          queue-IsTracked now (record (cleared false) { keepalive_timer = none }) (refl, refl) refl
      by_active false b = queue-IsTracked now (cleared false) (refl, b) refl

  byte_pace : (b c queued armed : Bool) → b && c ≡ true → b || queued || armed ≡ true
  byte_pace b c queued armed h = ground arith

  pace-IsTracked :
      (now : ℕ) (t : F) (r : Remote F)
      → Alive r
      → Watched r
      → r.remote_temperature ≡ some t
      → IsTracked (pace fl now t r)
  unfolding pace
  pace-IsTracked now t r a w e =
      let elapsed : ℕ = sub32 now r.last_remote_temp_send_ms in
      let queued : Remote F =
        queue_remote_temperature_send now (record r { deferred_send = none }) in
      let later : Remote F = record r {
        deferred_send = due now (remote_temp_min_send_interval_ms - elapsed);
      } in
      elim (Bool-cases
        (byte_unchanged fl r.last_remote_temp_sent t && ltb 0 r.last_remote_temp_send_ms)) [
          | inl h ↦ rw h (
            a,
            w,
            rw e (
                byte_pace (byte_unchanged fl r.last_remote_temp_sent t)
                  (ltb 0 r.last_remote_temp_send_ms) r.should_send_external_temperature false h),
          )
          | inr h ↦ rw h (
              if_keeps IsTracked
                (r.last_remote_temp_send_ms == 0 || leb remote_temp_min_send_interval_ms elapsed)
                queued later (queue-IsTracked now (record r { deferred_send = none }) a w)
                (
                  a,
                  w,
                  told_deferred (in_sync r.remote_temperature r.last_remote_temp_sent)
                      r.should_send_external_temperature,
                ))
        ]

  -- Watched by a timer that was just set, or that is never set.
  pub watched_set : (b armed held : Bool) → b || armed ≡ true → not (held && not b) || armed ≡ true
  watched_set b armed held h = ground arith

  pub pinged : (now : ℕ) (r : Remote F) → Watched (ping_external_temperature now r)
  unfolding ping_external_temperature
  pinged now r = elim (Bool-cases (r.remote_temp_timeout == never)) [
    | inl h ↦ rw h (
        watched_set (r.remote_temp_timeout == never) (is_armed r.remote_temp_timer)
          (has_value r.remote_temperature) (rw h refl))
    | inr h ↦ rw h (
        watched_set (r.remote_temp_timeout == never) true (has_value r.remote_temperature)
          (rw h refl))
  ]

  -- Where the timer of the timeout stands does not matter to the keep-alive.
  pub ping_kept :
      (now : ℕ) (r : Remote F)
      → ping_external_temperature now r
        ≡ record r { remote_temp_timer = (ping_external_temperature now r).remote_temp_timer }
  unfolding ping_external_temperature
  ping_kept now r = elim (Bool-cases (r.remote_temp_timeout == never)) [
    | inl h ↦ rw h refl
    | inr h ↦ rw h refl
  ]

  start_kept :
      (now : ℕ) (t : F) (r : Remote F)
      → is_armed r.keepalive_timer ≡ r.remote_temp_keepalive_active
      → Watched (record r { remote_temperature = some t })
      → Alive (start_remote_temp_keep_alive (record r { remote_temperature = some t }))
        × Watched (start_remote_temp_keep_alive (record r { remote_temperature = some t }))
        × ((start_remote_temp_keep_alive
              (record r { remote_temperature = some t })).remote_temperature
            ≡ some t)
  unfolding start_remote_temp_keep_alive
  start_kept now t r b w = by_active r.remote_temp_keepalive_active b
    where
      held : Bool → Remote F
      held active = record r { remote_temperature = some t; remote_temp_keepalive_active = active }

      by_active :
          (active : Bool)
          → is_armed r.keepalive_timer ≡ active
          → Alive (start_remote_temp_keep_alive (held active))
            × Watched (start_remote_temp_keep_alive (held active))
            × ((start_remote_temp_keep_alive (held active)).remote_temperature ≡ some t)
      by_active true b = ((refl, b), w, refl)
      by_active false b = ((refl, refl), w, refl)

  pub set_remote_temperature-IsTracked :
      (now : ℕ) (t : F) (r : Remote F) → IsTracked r → IsTracked (set_remote_temperature fl now t r)
  unfolding set_remote_temperature
  set_remote_temperature-IsTracked now t r (a, w, u) =
      let held : Remote F = record r { remote_temperature = some t } in
      let timed : Remote F = record held {
        remote_temp_timer = (ping_external_temperature now held).remote_temp_timer;
      } in
      let k = start_kept now t timed a.1 (subst Watched (ping_kept now held) (pinged now held)) in
      if_keeps IsTracked (is_nan t) r
        (if eq t (of_int (pos 0))
          then clear_remote_temperature now r
          else pace fl now t (start_remote_temp_keep_alive (ping_external_temperature now held)))
        (a, w, u)
        (if_keeps IsTracked (eq t (of_int (pos 0))) (clear_remote_temperature now r)
          (pace fl now t (start_remote_temp_keep_alive (ping_external_temperature now held)))
          (clear_remote_temperature-IsTracked now r a)
          (subst (λ p. IsTracked (pace fl now t (start_remote_temp_keep_alive p)))
            (sym (ping_kept now held))
            (pace-IsTracked now t (start_remote_temp_keep_alive timed) k.0 k.1 k.2)))
