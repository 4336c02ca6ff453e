-- ===== src/Link/Diagram.antt =====
-- cn105.h and cn105.cpp: the state machine that `DriverState` and `transition_to_` promise, and that every
-- call of the connection is a route of it.
use mitsubishi_cn105esphome.Prelude.{
  ℕ, ◌≡◌, refl, sym, ◌∙◌, subst, Bool, true, false, Bool-cases, inl, inr, if◌then◌else◌, if_keeps,
  ltb, ◌&&◌, not, Option, none, some, List, length,
}
use mitsubishi_cn105esphome.Link.{
  DriverState, Pending, Link, is_uart_ready, is_connected, setup_uart, send_first_connection_packet,
  reconnect_uart, due, queue_packet, write_packet, set_heatpump_connected, maybe_start_connection,
  bootstrap_fires, retry_uart_fires, fall_back, first_check_fires, write_retry_fires,
  reconnect_if_connection_lost, is_heatpump_connection_active,
}
use mitsubishi_cn105esphome.Prelude.Word.{sub32}
use mitsubishi_cn105esphome.Link.Steps.{Step, Reach}
use mitsubishi_cn105esphome.Link.Fuel.{
  dropped, prepared, set_up, can_start, send_first-ready, send_first-not_ready, setup_uart-set_up,
  reconnect_uart-asked, reconnect_uart-idle, write_packet-cases,
}

-- The transitions, for a port that is configured as 8E1 or not. A port that is not is never opened.
pub data Transition (serial : Bool) : DriverState → DriverState → Type 0 where
  no_wifi : Transition serial DriverState.boot DriverState.wait_wifi
  has_wifi : Transition serial DriverState.boot DriverState.wait_grace
  associates : Transition serial DriverState.wait_wifi DriverState.wait_grace
  opens : (s : DriverState) → serial ≡ true → Transition serial s DriverState.connecting
  answered : (s : DriverState) → Transition serial s DriverState.connected
  loses : Transition serial DriverState.connected DriverState.disconnected

pub data Route (serial : Bool) (s : DriverState) : DriverState → Type 0 where
  stay : Route serial s s
  then : {t u : DriverState} → Route serial s t → Transition serial t u → Route serial s u

-- A link follows another: the port is the same, and the state is at the end of a route.
abbrev pub Follows : Link → Link → Type 0
Follows l m = (m.serial_8e1 ≡ l.serial_8e1) × Route l.serial_8e1 l.state m.state

join : {b : Bool} {s t u : DriverState} → Route b s t → Route b t u → Route b s u
join p Route.stay = p
join p (Route.then q t) = Route.then (join p q) t

follow : (l m n : Link) → Follows l m → Follows m n → Follows l n
follow l m n (e, p) (f, q) = (f ∙ e, join p (subst (λ b. Route b m.state n.state) e q))

-- The two moves that every operation is made of.
Route-dropped : (b : Bool) (s : DriverState) → Route b s (dropped s)
Route-dropped b DriverState.boot = Route.stay
Route-dropped b DriverState.wait_wifi = Route.stay
Route-dropped b DriverState.wait_grace = Route.stay
Route-dropped b DriverState.connecting = Route.stay
Route-dropped b DriverState.connected = Route.then Route.stay Transition.loses
Route-dropped b DriverState.disconnected = Route.stay

Route-prepared : (b : Bool) (s : DriverState) → Route b s (prepared b s)
Route-prepared true s = Route.then Route.stay (Transition.opens s refl)
Route-prepared false s = Route-dropped false s

Route-restarted : (b : Bool) (s : DriverState) → Route b s (prepared b (dropped s))
Route-restarted b s = join (Route-dropped b s) (Route-prepared b (dropped s))

reconnect_uart-Follows : (now : ℕ) (l : Link) → Follows l (reconnect_uart now l)
reconnect_uart-Follows now l = elim (Bool-cases (can_start l)) [
  | inl h ↦ subst (Follows l) (sym (reconnect_uart-asked now l h)) (
    refl,
    join (Route-restarted l.serial_8e1 l.state)
        (Route-dropped l.serial_8e1 (prepared l.serial_8e1 (dropped l.state))),
  )
  | inr h ↦ subst (Follows l) (sym (reconnect_uart-idle now l h)) (
    refl,
    join (Route-restarted l.serial_8e1 l.state)
        (Route-prepared l.serial_8e1 (prepared l.serial_8e1 (dropped l.state))),
  )
]

send_first_connection_packet-Follows :
    (now : ℕ) (l : Link) → Follows l (send_first_connection_packet now (setup_uart l))
send_first_connection_packet-Follows now l =
    rw (setup_uart-set_up l) (elim (Bool-cases (is_uart_ready (set_up l).state)) [
      | inl h ↦ rw (send_first-ready 1 now (set_up l) h) (
        refl,
        join (Route-prepared l.serial_8e1 l.state)
            (Route-dropped l.serial_8e1 (prepared l.serial_8e1 l.state)),
      )
      | inr h ↦ rw (send_first-not_ready write_packet now (set_up l) h) (
          rw (setup_uart-set_up (set_up l)) (
            refl,
            join (Route-prepared l.serial_8e1 l.state)
                (Route-prepared l.serial_8e1 (prepared l.serial_8e1 l.state)),
          ))
    ])

queue_packet-Follows :
    (now : ℕ) (p : List ℕ) (check : Bool) (l m : Link)
    → Follows l m
    → Follows l (queue_packet now p check m)
unfolding queue_packet
queue_packet-Follows now p check l m f =
    if_keeps (Follows l) (ltb 22 (length p)) m
      (record m {
        pending = some (record { packet = p; check_is_active = check });
        write_retry = due now 4000;
      })
      f f

write_packet-Follows :
    (now : ℕ) (p : List ℕ) (check : Bool) (l : Link) → Follows l (write_packet now p check l).0
write_packet-Follows now p check l = elim (write_packet-cases now p check l) [
  | inl h ↦ subst (λ r. Follows l r.0) (sym h.1) (refl, Route.stay)
  | inr h ↦
      subst (λ r. Follows l r.0) (sym h)
        (queue_packet-Follows now p check l (reconnect_uart now l) (reconnect_uart-Follows now l))
]

write_retry_fires-Follows : (now : ℕ) (l : Link) → Follows l (write_retry_fires now l)
unfolding write_retry_fires
write_retry_fires-Follows now l = by_pending l.pending
  where
    by_pending : (o : Option Pending) → Follows l (write_retry_fires now (record l { pending = o }))
    by_pending none = (refl, Route.stay)
    by_pending (some p) =
        let fired : Link = record l { pending = some p; write_retry = none } in
        let again : Link = reconnect_uart now fired in
        let r : Link × Bool = write_packet now p.packet p.check_is_active fired in
        let w : Follows l r.0 = write_packet-Follows now p.packet p.check_is_active fired in
        if_keeps (Follows l) (not (is_uart_ready l.state))
          (record again { write_retry = due now 2000 })
          (if r.1 then record r.0 { pending = none } else r.0) (reconnect_uart-Follows now fired)
          (if_keeps (Follows l) r.1 (record r.0 { pending = none }) r.0 w w)

bootstrap_fires-Follows : (now : ℕ) (l : Link) → Follows l (bootstrap_fires now l)
unfolding bootstrap_fires
bootstrap_fires-Follows now l =
    let fired : Link = record l { bootstrap_timeout = none } in
    if_keeps (Follows l) (is_uart_ready l.state) fired
      (send_first_connection_packet now (setup_uart fired)) (refl, Route.stay)
      (send_first_connection_packet-Follows now fired)

maybe_start_connection-Follows :
    (wifi : Bool) (now : ℕ) (l : Link) → Follows l (maybe_start_connection wifi now l)
unfolding maybe_start_connection
maybe_start_connection-Follows wifi now l = by_state wifi l.state
  where
    by_state :
        (wifi : Bool) (s : DriverState)
        → Follows
            (record l { state = s })
            (maybe_start_connection wifi now (record l { state = s }))
    by_state true DriverState.boot = (refl, Route.then Route.stay Transition.has_wifi)
    by_state false DriverState.boot = (refl, Route.then Route.stay Transition.no_wifi)
    by_state true DriverState.wait_wifi = (refl, Route.then Route.stay Transition.associates)
    by_state false DriverState.wait_wifi = (refl, Route.stay)
    by_state wifi DriverState.wait_grace =
        let g : Link = record l { state = DriverState.wait_grace } in
        let c : Link = setup_uart g in
        let asks : Link = send_first_connection_packet now c in
        let backs_off : Link = record c {
          uart_retry_pending = true;
          retry_uart_setup = due now 10000;
        } in
        let opens : Link = if is_uart_ready c.state then asks else backs_off in
        let prepares : Follows g backs_off =
          rw (setup_uart-set_up g) (refl, Route-prepared l.serial_8e1 DriverState.wait_grace) in
        if_keeps (Follows g) l.uart_retry_pending g
          (if ltb (sub32 now l.boot_ms) l.conn_bootstrap_delay_ms then g else opens)
          (refl, Route.stay)
          (if_keeps (Follows g) (ltb (sub32 now l.boot_ms) l.conn_bootstrap_delay_ms) g opens
            (refl, Route.stay)
            (if_keeps (Follows g) (is_uart_ready c.state) asks backs_off
              (send_first_connection_packet-Follows now g) prepares))
    by_state wifi DriverState.connecting = (refl, Route.stay)
    by_state wifi DriverState.connected = (refl, Route.stay)
    by_state wifi DriverState.disconnected = (refl, Route.stay)

first_check_fires-Follows : (now : ℕ) (l : Link) → Follows l (first_check_fires now l)
unfolding first_check_fires
first_check_fires-Follows now l =
    let fired : Link = record l { check_first_connection = none } in
    let back : Link = fall_back fired in
    let falls : Follows l back =
      if_keeps (Follows l)
        (l.installer_mode && l.installer_mode_effective && not l.installer_mode_fallback_done)
        (record fired { installer_mode_effective = false; installer_mode_fallback_done = true })
        fired (refl, Route.stay) (refl, Route.stay) in
    if_keeps (Follows l) (is_connected l.state) fired (reconnect_uart now back) (refl, Route.stay)
      (follow l back (reconnect_uart now back) falls (reconnect_uart-Follows now back))

reconnect_if_connection_lost-Follows :
    (now : ℕ) (l : Link) → Follows l (reconnect_if_connection_lost now l)
unfolding reconnect_if_connection_lost
reconnect_if_connection_lost-Follows now l =
    let again : Link = reconnect_uart now l in
    let asks : Link =
      if ltb l.update_interval (sub32 now l.last_connect_rq_time_ms) then again else l in
    let quiet : Link = if is_heatpump_connection_active now l then l else asks in
    if_keeps (Follows l) (ltb (sub32 now l.last_reconnect_time_ms) l.update_interval) l quiet
      (refl, Route.stay)
      (if_keeps (Follows l) (is_heatpump_connection_active now l) l asks (refl, Route.stay)
        (if_keeps (Follows l) (ltb l.update_interval (sub32 now l.last_connect_rq_time_ms)) again l
          (reconnect_uart-Follows now l) (refl, Route.stay)))

-- Every step is a route of the diagram.
pub Step-Follows : {l m : Link} → Step l m → Follows l m
unfolding set_heatpump_connected retry_uart_fires
Step-Follows (Step.loops wifi now l) = maybe_start_connection-Follows wifi now l
Step-Follows (Step.bootstraps now t l e) = bootstrap_fires-Follows now l
Step-Follows (Step.retries t l e) = (refl, Route.stay)
Step-Follows (Step.checks now t l e) = first_check_fires-Follows now l
Step-Follows (Step.rewrites now t l e) = write_retry_fires-Follows now l
Step-Follows (Step.writes now p check l) = write_packet-Follows now p check l
Step-Follows (Step.answers l) = (refl, Route.then Route.stay (Transition.answered l.state))
Step-Follows (Step.heard now parser l) = (refl, Route.stay)
Step-Follows (Step.stamps now l) = (refl, Route.stay)
Step-Follows (Step.loses now l) = reconnect_if_connection_lost-Follows now l

-- The connection refines the diagram: from any link, whatever loop calls, timers, writes and answers follow
-- each other, the configuration of the port stays what it is and the state moves along the diagram, in
-- which a port that is not 8E1 is never opened and no state leads back to the start.
pub Reach-Follows : {s l : Link} → Reach s l → Follows s l
Reach-Follows Reach.here = (refl, Route.stay)
Reach-Follows {s = s} (Reach.next {l = l} {m = m} r t) =
    follow s l m (Reach-Follows r) (Step-Follows t)

-- A line that is open stays open.
pub Route-is_uart_ready :
    {b : Bool} {s t : DriverState} → Route b s t → is_uart_ready s ≡ true → is_uart_ready t ≡ true
Route-is_uart_ready Route.stay h = h
Route-is_uart_ready (Route.then p Transition.no_wifi) h = Route-is_uart_ready p h
Route-is_uart_ready (Route.then p Transition.has_wifi) h = Route-is_uart_ready p h
Route-is_uart_ready (Route.then p Transition.associates) h = Route-is_uart_ready p h
Route-is_uart_ready (Route.then p (Transition.opens s e)) h = refl
Route-is_uart_ready (Route.then p (Transition.answered s)) h = refl
Route-is_uart_ready (Route.then p Transition.loses) h = refl

pub Reach-is_uart_ready :
    {s l : Link} → Reach s l → is_uart_ready s.state ≡ true → is_uart_ready l.state ≡ true
Reach-is_uart_ready r h = Route-is_uart_ready (Reach-Follows r).1 h
