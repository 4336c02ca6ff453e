-- ===== src/Remote/Tracking.antt =====
-- climate_controls.cpp, cn105.cpp and hp_writings.cpp: the remote temperature is kept alive, watched and
-- told to the unit, in every order of its operations and timers.
use mitsubishi_cn105esphome.Prelude.{
  ℕ, ◌≡◌, refl, sym, subst, Bool, true, false, not, ◌||◌, Option, none, some, Bool-cases, if_keeps,
  inl, inr, has_value, ◌==◌, ==_iff, arith, if◌then◌else◌,
}
use mitsubishi_cn105esphome.Prelude.Float.{Float}
use mitsubishi_cn105esphome.Protocol.{encode_temperature_b}
use mitsubishi_cn105esphome.Link.{Link, is_uart_ready, is_heatpump_connection_active}
use mitsubishi_cn105esphome.Link.Watched.{is_armed}
use mitsubishi_cn105esphome.Remote.{
  Remote, never, no_remote, ping_external_temperature, set_remote_temp_timeout,
  set_remote_temp_keepalive_interval, keepalive_fires, clear_remote_temperature, timeout_fires,
  send_remote_temperature_deferred, set_remote_temperature, send_remote_temperature,
  send_pending_remote_temperature,
}
use mitsubishi_cn105esphome.Remote.Tracked.{
  IsTracked, Told, Watched, clear_remote_temperature-IsTracked, in_sync, ping_kept, pinged,
  queue-IsTracked, set_remote_temperature-IsTracked, watched_set,
}

module _ (fl : Float) where
  open fl use {F, is_nan, eq, of_int}

  keepalive_fires-IsTracked :
      (connected : Bool) (now : ℕ) (r : Remote F)
      → IsTracked fl r
      → IsTracked fl (keepalive_fires connected now r)
  unfolding keepalive_fires
  keepalive_fires-IsTracked connected now r (a, w, u) =
      by_value connected r.remote_temperature a.0 w u
    where
      held : Option F → Remote F
      held o = record r { remote_temperature = o }

      by_value :
          (connected : Bool) (o : Option F)
          → has_value o ≡ r.remote_temp_keepalive_active
          → Watched fl (held o)
          → Told fl (held o)
          → IsTracked fl (keepalive_fires connected now (held o))
      by_value connected none b w u = ((b, a.1), w, u)
      by_value true (some t) b w u = queue-IsTracked fl now (held (some t)) (b, a.1) w
      by_value false (some t) b w u = ((b, a.1), w, u)

  in_sync_same : (o : Option F) → in_sync fl o o ≡ true
  in_sync_same none = refl
  in_sync_same (some t) = (==_iff (encode_temperature_b fl t) (encode_temperature_b fl t)).1 refl

  told_sent : (a b c : Bool) → a ≡ true → a || b || c ≡ true
  told_sent a b c h = ground arith

  send_remote_temperature-IsTracked :
      (now : ℕ) (r : Remote F) (l : Link)
      → IsTracked fl r
      → IsTracked fl (send_remote_temperature fl now r l).0
  unfolding send_remote_temperature
  send_remote_temperature-IsTracked now r l (a, w, u) = (
    a,
    w,
    told_sent (in_sync fl r.remote_temperature r.remote_temperature) false false
        (in_sync_same r.remote_temperature),
  )

  send_pending-IsTracked :
      (now : ℕ) (r : Remote F) (l : Link)
      → IsTracked fl r
      → IsTracked fl (send_pending_remote_temperature fl now r l).0
  unfolding send_pending_remote_temperature
  send_pending-IsTracked now r l a =
      if_keeps (λ (p : Remote F × Link). IsTracked fl p.0)
        (not (is_heatpump_connection_active now l) || not (is_uart_ready l.state))
        (record r { remote_temp_pending_since_ms = now }, l) (send_remote_temperature fl now r l) a
        (send_remote_temperature-IsTracked now r l a)

  set_remote_temp_timeout-IsTracked :
      (now timeout : ℕ) (r : Remote F)
      → IsTracked fl r
      → IsTracked fl (set_remote_temp_timeout now timeout r)
  unfolding set_remote_temp_timeout
  set_remote_temp_timeout-IsTracked now timeout r (a, w, u) =
      let set : Remote F = record r { remote_temp_timeout = timeout } in
      elim (Bool-cases (timeout == never)) [
        | inl h ↦ rw h (
          a,
          watched_set fl (timeout == never) (is_armed r.remote_temp_timer)
              (has_value r.remote_temperature) (rw h refl),
          u,
        )
        | inr h ↦
            subst (λ b. IsTracked fl (if b then set else ping_external_temperature now set)) (sym h)
              (subst (IsTracked fl) (sym (ping_kept fl now set))
                (a, subst (Watched fl) (ping_kept fl now set) (pinged fl now set), u))
      ]

  -- The operations, each timer only while it is armed.
  pub data Step : Remote F → Remote F → Type 0 where
    sets : (now : ℕ) (t : F) (r : Remote F) → Step r (set_remote_temperature fl now t r)
    clears : (now : ℕ) (r : Remote F) → Step r (clear_remote_temperature now r)
    times : (now timeout : ℕ) (r : Remote F) → Step r (set_remote_temp_timeout now timeout r)
    paces : (interval : ℕ) (r : Remote F) → Step r (set_remote_temp_keepalive_interval interval r)
    revives :
        (connected : Bool) (now : ℕ) (r : Remote F)
        → is_armed r.keepalive_timer ≡ true
        → Step r (keepalive_fires connected now r)
    expires :
        (now : ℕ) (r : Remote F)
        → is_armed r.remote_temp_timer ≡ true
        → Step r (timeout_fires now r)
    defers :
        (now : ℕ) (r : Remote F)
        → is_armed r.deferred_send ≡ true
        → Step r (send_remote_temperature_deferred now r)
    sends : (now : ℕ) (r : Remote F) (l : Link) → Step r (send_remote_temperature fl now r l).0
    forces :
        (now : ℕ) (r : Remote F) (l : Link) → Step r (send_pending_remote_temperature fl now r l).0

  pub data Reach (s : Remote F) : Remote F → Type 0 where
    here : Reach s s
    next : {r t : Remote F} → Reach s r → Step r t → Reach s t

  pub Step-IsTracked : {r t : Remote F} → Step r t → IsTracked fl r → IsTracked fl t
  unfolding set_remote_temp_keepalive_interval timeout_fires send_remote_temperature_deferred
  Step-IsTracked (Step.sets now t r) a = set_remote_temperature-IsTracked fl now t r a
  Step-IsTracked (Step.clears now r) a = clear_remote_temperature-IsTracked fl now r a.0
  Step-IsTracked (Step.times now timeout r) a = set_remote_temp_timeout-IsTracked now timeout r a
  Step-IsTracked (Step.paces interval r) a = a
  Step-IsTracked (Step.revives connected now r e) a = keepalive_fires-IsTracked connected now r a
  Step-IsTracked (Step.expires now r e) a =
      clear_remote_temperature-IsTracked fl now (record r { remote_temp_timer = none }) a.0
  Step-IsTracked (Step.defers now r e) a =
      queue-IsTracked fl now (record r { deferred_send = none }) a.0 a.1
  Step-IsTracked (Step.sends now r l) a = send_remote_temperature-IsTracked now r l a
  Step-IsTracked (Step.forces now r l) a = send_pending-IsTracked now r l a

  -- In every order of new temperatures, clearings, configurations, timers and writes, from the start on:
  -- the keep-alive runs exactly while a temperature is held; while one is held and a timeout is configured,
  -- the timeout is armed; and unless the unit was last told the byte of what is held, a write is queued or
  -- deferred.
  pub Reach-IsTracked : {r : Remote F} → Reach no_remote r → IsTracked fl r
  Reach-IsTracked Reach.here = ((refl, refl), refl, refl)
  Reach-IsTracked (Reach.next r t) = Step-IsTracked t (Reach-IsTracked r)
