-- ===== src/Link/Attended.antt =====
-- cn105.cpp, hp_writings.cpp and component_entries.cpp: the connection never waits for something that no
-- timer brings about.
use mitsubishi_cn105esphome.Prelude.{
  ℕ, ◌≡◌, refl, subst, Bool, true, false, not, ◌&&◌, ◌||◌, none, Bool-cases, inl, inr,
  if◌then◌else◌, ltb, arith, if_keeps,
}
use mitsubishi_cn105esphome.Link.{
  DriverState, Link, is_uart_ready, setup_uart, send_first_connection_packet, reconnect_uart, due,
  write_packet, set_heatpump_connected, maybe_start_connection, bootstrap_fires, retry_uart_fires,
  fall_back, first_check_fires, reconnect_if_connection_lost, is_heatpump_connection_active,
}
use mitsubishi_cn105esphome.Prelude.Word.{sub32}
use mitsubishi_cn105esphome.Parser.{FrameParser}
use mitsubishi_cn105esphome.Link.Steps.{Step, Reach, powered}
use mitsubishi_cn105esphome.Link.Fuel.{
  prepared, set_up, send_first-ready, send_first-not_ready, setup_uart-set_up,
}
use mitsubishi_cn105esphome.Link.Watched.{
  IsAttended, PacketWatched, RetryWatched, StartWatched, asked-LineWatched, is_armed, is_awaiting,
  is_starting, or_true, reconnect_uart-IsAttended, reconnect_uart-LineWatched, reconnect_uart-kept,
  start_prepared, write_packet-IsAttended, write_retry_fires-IsAttended,
}

-- Opening the port and asking, as the start of a connection does.
idle_again :
    (b armed : Bool) (s : DriverState)
    → is_uart_ready (prepared b s) ≡ false
    → not (is_awaiting (prepared b (prepared b s))) || armed ≡ true
idle_again true armed s h = cc
idle_again false armed DriverState.boot h = refl
idle_again false armed DriverState.wait_wifi h = refl
idle_again false armed DriverState.wait_grace h = refl
idle_again false armed DriverState.connecting h = cc
idle_again false armed DriverState.connected h = cc
idle_again false armed DriverState.disconnected h = cc

send_first_connection_packet-IsAttended :
    (now : ℕ) (l : Link)
    → RetryWatched l
    → PacketWatched l
    → IsAttended (send_first_connection_packet now (setup_uart l))
send_first_connection_packet-IsAttended now l r q =
    rw (setup_uart-set_up l) (elim (Bool-cases (is_uart_ready (set_up l).state)) [
      | inl h ↦ rw (send_first-ready 1 now (set_up l) h) (
        asked-LineWatched now (set_up l) r
            (start_prepared l.serial_8e1 (is_armed l.bootstrap_timeout) l.state),
        q,
      )
      | inr h ↦ rw (send_first-not_ready write_packet now (set_up l) h) (
          rw (setup_uart-set_up (set_up l)) (
            (
              idle_again l.serial_8e1 (is_armed l.check_first_connection) l.state h,
              r,
              start_prepared l.serial_8e1 (is_armed l.bootstrap_timeout)
                  (prepared l.serial_8e1 l.state),
            ),
            q,
          ))
    ])

ready_started :
    (b armed : Bool) (s : DriverState)
    → is_uart_ready s ≡ true
    → not (b && is_starting s) || armed ≡ true
ready_started b armed DriverState.boot h = cc
ready_started b armed DriverState.wait_wifi h = cc
ready_started b armed DriverState.wait_grace h = cc
ready_started b armed DriverState.connecting h = ground arith
ready_started b armed DriverState.connected h = ground arith
ready_started b armed DriverState.disconnected h = ground arith

bootstrap_fires-IsAttended :
    (now : ℕ) (l : Link) → IsAttended l → IsAttended (bootstrap_fires now l)
unfolding bootstrap_fires
bootstrap_fires-IsAttended now l ((w, r, s), q) = elim (Bool-cases (is_uart_ready l.state)) [
  | inl h ↦ rw h ((w, r, ready_started l.serial_8e1 false l.state h), q)
  | inr h ↦
      rw h (send_first_connection_packet-IsAttended now (record l { bootstrap_timeout = none }) r q)
]

-- Backing off from a port that cannot be opened.
backed_off :
    (b armed : Bool)
    → is_uart_ready (prepared b DriverState.wait_grace) ≡ false
    → not (is_awaiting (prepared b DriverState.wait_grace)) || armed ≡ true
backed_off true armed h = cc
backed_off false armed h = refl

abbrev pub backs_off : ℕ → Link → Link
backs_off now l =
    let c = setup_uart l in
    if is_uart_ready c.state
    then send_first_connection_packet now c
    else record c { uart_retry_pending = true; retry_uart_setup = due now 10000 }

backs_off-IsAttended :
    (now : ℕ) (g : Link)
    → g.state ≡ DriverState.wait_grace
    → IsAttended g
    → IsAttended (backs_off now g)
backs_off-IsAttended now g starting ((w, r, s), q) =
    elim (Bool-cases (is_uart_ready (setup_uart g).state)) [
      | inl h ↦ rw h (send_first_connection_packet-IsAttended now g r q)
      | inr h ↦
          let unready : is_uart_ready (set_up g).state ≡ false =
            subst (λ m. is_uart_ready m.state ≡ false) (setup_uart-set_up g) h in
          rw h (
            rw (setup_uart-set_up g) (
              (
                rw starting (
                    backed_off g.serial_8e1 (is_armed g.check_first_connection) (
                      subst (λ x. is_uart_ready (prepared g.serial_8e1 x) ≡ false) starting
                        unready)),
                refl,
                start_prepared g.serial_8e1 (is_armed g.bootstrap_timeout) g.state,
              ),
              q,
            ))
    ]

maybe_start_connection-IsAttended :
    (wifi : Bool) (now : ℕ) (l : Link)
    → IsAttended l
    → IsAttended (maybe_start_connection wifi now l)
unfolding maybe_start_connection
maybe_start_connection-IsAttended wifi now l a = by_state wifi l.state a
  where
    by_state :
        (wifi : Bool) (s : DriverState)
        → IsAttended (record l { state = s })
        → IsAttended (maybe_start_connection wifi now (record l { state = s }))
    by_state true DriverState.boot ((w, r, s), q) =
        ((refl, r, or_true (not (l.serial_8e1 && true))), q)
    by_state false DriverState.boot ((w, r, s), q) =
        ((refl, r, or_true (not (l.serial_8e1 && true))), q)
    by_state true DriverState.wait_wifi a = a
    by_state false DriverState.wait_wifi a = a
    by_state wifi DriverState.wait_grace a =
        let g : Link = record l { state = DriverState.wait_grace } in
        if_keeps IsAttended l.uart_retry_pending g
          (if ltb (sub32 now l.boot_ms) l.conn_bootstrap_delay_ms then g else backs_off now g) a
          (if_keeps IsAttended (ltb (sub32 now l.boot_ms) l.conn_bootstrap_delay_ms) g
            (backs_off now g) a (backs_off-IsAttended now g refl a))
    by_state wifi DriverState.connecting a = a
    by_state wifi DriverState.connected a = a
    by_state wifi DriverState.disconnected a = a

first_check_fires-IsAttended :
    (now : ℕ) (l : Link) → IsAttended l → IsAttended (first_check_fires now l)
unfolding first_check_fires
first_check_fires-IsAttended now l ((w, r, s), q) = by_state l.state s
  where
    restart :
        (m : Link)
        → RetryWatched m
        → PacketWatched m
        → IsAttended (reconnect_uart now (fall_back (record m { check_first_connection = none })))
    restart m r q =
        let f : Link = fall_back (record m { check_first_connection = none }) in
        let k : RetryWatched f × PacketWatched f =
          if_keeps (λ x. RetryWatched x × PacketWatched x)
            (m.installer_mode && m.installer_mode_effective && not m.installer_mode_fallback_done)
            (record m {
              check_first_connection = none;
              installer_mode_effective = false;
              installer_mode_fallback_done = true;
            })
            (record m { check_first_connection = none }) (r, q) (r, q) in
        (
          reconnect_uart-LineWatched now f k.0,
          rw ((reconnect_uart-kept now f).0, (reconnect_uart-kept now f).1) k.1,
        )

    by_state :
        (s : DriverState)
        → StartWatched (record l { state = s })
        → IsAttended (first_check_fires now (record l { state = s }))
    by_state DriverState.boot a = restart (record l { state = DriverState.boot }) r q
    by_state DriverState.wait_wifi a = restart (record l { state = DriverState.wait_wifi }) r q
    by_state DriverState.wait_grace a = restart (record l { state = DriverState.wait_grace }) r q
    by_state DriverState.connecting a = restart (record l { state = DriverState.connecting }) r q
    by_state DriverState.connected a = ((refl, r, a), q)
    by_state DriverState.disconnected a =
        restart (record l { state = DriverState.disconnected }) r q

reconnect_if_connection_lost-IsAttended :
    (now : ℕ) (l : Link) → IsAttended l → IsAttended (reconnect_if_connection_lost now l)
unfolding reconnect_if_connection_lost
reconnect_if_connection_lost-IsAttended now l a =
    let again : IsAttended (reconnect_uart now l) = reconnect_uart-IsAttended now l a in
    let asks : Link =
      if ltb l.update_interval (sub32 now l.last_connect_rq_time_ms)
      then reconnect_uart now l
      else l in
    let quiet : Link = if is_heatpump_connection_active now l then l else asks in
    if_keeps IsAttended (ltb (sub32 now l.last_reconnect_time_ms) l.update_interval) l quiet a (
      if_keeps IsAttended (is_heatpump_connection_active now l) l asks a (
        if_keeps IsAttended (ltb l.update_interval (sub32 now l.last_connect_rq_time_ms))
          (reconnect_uart now l) l again a))

-- Every step keeps a link attended.
pub Step-IsAttended : {l m : Link} → Step l m → IsAttended l → IsAttended m
unfolding set_heatpump_connected retry_uart_fires
Step-IsAttended (Step.loops wifi now l) a = maybe_start_connection-IsAttended wifi now l a
Step-IsAttended (Step.bootstraps now t l e) a = bootstrap_fires-IsAttended now l a
Step-IsAttended (Step.retries t l e) a = ((a.0.0, refl, a.0.2), a.1)
Step-IsAttended (Step.checks now t l e) a = first_check_fires-IsAttended now l a
Step-IsAttended (Step.rewrites now t l e) a = write_retry_fires-IsAttended now l a
Step-IsAttended (Step.writes now p check l) a = write_packet-IsAttended now p check l a
Step-IsAttended (Step.answers l) a = (
  (
    refl,
    a.0.1,
    ready_started l.serial_8e1 (is_armed l.bootstrap_timeout) DriverState.connected refl,
  ),
  a.1,
)
Step-IsAttended (Step.heard now parser l) a = a
Step-IsAttended (Step.stamps now l) a = a
Step-IsAttended (Step.loses now l) a = reconnect_if_connection_lost-IsAttended now l a

idle_start : (b : Bool) → not (b && false) || false ≡ true
idle_start true = refl
idle_start false = refl

-- From power-up on, in every order of loop calls, timers, writes and answers: a link that awaits an answer
-- has the ten-second check armed, a link that backs off from its port has the retry armed, a link that is
-- starting on a port that can be opened has the bootstrap timeout armed, and a packet that waits fits its
-- buffer and has the retry of its write armed.
pub Reach-IsAttended :
    (now delay : ℕ) (installer : Bool) (interval : ℕ) (serial : Bool) (parser : FrameParser)
    {l : Link}
    → Reach (powered now delay installer interval serial parser) l
    → IsAttended l
Reach-IsAttended now delay installer interval serial parser Reach.here =
    ((refl, refl, idle_start serial), refl)
Reach-IsAttended now delay installer interval serial parser (Reach.next r s) =
    Step-IsAttended s (Reach-IsAttended now delay installer interval serial parser r)
