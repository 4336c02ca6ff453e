-- ===== src/Link/Growth.antt =====
-- cn105.cpp, hp_writings.cpp and component_entries.cpp: no call of the connection puts more than one packet
-- on the wire.
use mitsubishi_cn105esphome.Prelude.{
  ℕ, suc, ◌≤◌, ◌≡◌, refl, sym, subst, ◌⊎◌, Bool, true, false, some, List, Bool-cases, if_keeps, inl,
  inr, length, ltb, arith, if◌then◌else◌,
}
use mitsubishi_cn105esphome.Prelude.Word.{sub32}
use mitsubishi_cn105esphome.Link.{
  DriverState, Link, is_uart_ready, is_connected, is_heatpump_connection_active, due,
  reconnect_uart, queue_packet, write_packet, reconnect_if_connection_lost, maybe_start_connection,
}
use mitsubishi_cn105esphome.Link.Attended.{backs_off}
use mitsubishi_cn105esphome.Link.Fuel.{
  set_up, can_start, dropped, setup_uart-set_up, send_first-ready, reconnect_uart-asked,
  reconnect_uart-idle, write_packet-cases, prepared,
}

-- At most one packet more.
abbrev pub Grown : List (List ℕ) → Link → Type 0
Grown wire m = length m.wire ≤ suc (length wire)

Grown-refl : (l : Link) → Grown l.wire l
Grown-refl l = omega arith

Grown-cons : (n : ℕ) → suc n ≤ suc n
Grown-cons n = omega arith

reconnect_uart-Grown : (now : ℕ) (l : Link) → Grown l.wire (reconnect_uart now l)
reconnect_uart-Grown now l = elim (Bool-cases (can_start l)) [
  | inl h ↦ subst (Grown l.wire) (sym (reconnect_uart-asked now l h)) (Grown-cons (length l.wire))
  | inr h ↦ subst (Grown l.wire) (sym (reconnect_uart-idle now l h)) (Grown-refl l)
]

queue_packet-Grown :
    (wire : List (List ℕ)) (now : ℕ) (p : List ℕ) (check : Bool) (l : Link)
    → Grown wire l
    → Grown wire (queue_packet now p check l)
unfolding queue_packet
queue_packet-Grown wire now p check l g =
    if_keeps (Grown wire) (ltb 22 (length p)) l
      (record l {
        pending = some (record { packet = p; check_is_active = check });
        write_retry = due now 4000;
      })
      g g

pub write_packet-Grown :
    (now : ℕ) (p : List ℕ) (check : Bool) (l : Link) → Grown l.wire (write_packet now p check l).0
write_packet-Grown now p check l = elim (write_packet-cases now p check l) [
  | inl h ↦ subst (λ r. Grown l.wire r.0) (sym h.1) (Grown-cons (length l.wire))
  | inr h ↦
      subst (λ r. Grown l.wire r.0) (sym h)
        (queue_packet-Grown l.wire now p check (reconnect_uart now l) (reconnect_uart-Grown now l))
]

pub reconnect_if_connection_lost-Grown :
    (now : ℕ) (l : Link) → Grown l.wire (reconnect_if_connection_lost now l)
unfolding reconnect_if_connection_lost
reconnect_if_connection_lost-Grown now l =
    let again : Link = reconnect_uart now l in
    let asks : Link =
      if ltb l.update_interval (sub32 now l.last_connect_rq_time_ms) then again else l in
    let quiet : Link = if is_heatpump_connection_active now l then l else asks in
    if_keeps (Grown l.wire) (ltb (sub32 now l.last_reconnect_time_ms) l.update_interval) l quiet
      (Grown-refl l)
      (if_keeps (Grown l.wire) (is_heatpump_connection_active now l) l asks (Grown-refl l) (
        if_keeps (Grown l.wire) (ltb l.update_interval (sub32 now l.last_connect_rq_time_ms)) again
          l (reconnect_uart-Grown now l) (Grown-refl l)))

abbrev Unconnected : List (List ℕ) → Link → Type 0
Unconnected wire m = (is_connected m.state ≡ false) × Grown wire m

dropped-is_connected : (s : DriverState) → is_connected (dropped s) ≡ false
dropped-is_connected DriverState.connected = refl
dropped-is_connected DriverState.boot = refl
dropped-is_connected DriverState.wait_wifi = refl
dropped-is_connected DriverState.wait_grace = refl
dropped-is_connected DriverState.connecting = refl
dropped-is_connected DriverState.disconnected = refl

prepared-is_connected : (b : Bool) → is_connected (prepared b DriverState.wait_grace) ≡ false
prepared-is_connected true = refl
prepared-is_connected false = refl

backs_off-Unconnected :
    (now : ℕ) (g : Link) → g.state ≡ DriverState.wait_grace → Unconnected g.wire (backs_off now g)
backs_off-Unconnected now g starting =
    rw (setup_uart-set_up g) (elim (Bool-cases (is_uart_ready (set_up g).state)) [
      | inl h ↦
          rw (h, send_first-ready 1 now (set_up g) h)
            (dropped-is_connected (prepared g.serial_8e1 g.state), Grown-cons (length g.wire))
      | inr h ↦ rw h (rw starting (prepared-is_connected g.serial_8e1), Grown-refl g)
    ])

-- A link that is connected is left alone; any other is not connected afterwards, and has at most one packet
-- more on the wire.
pub maybe_start_connection-Grown :
    (wifi : Bool) (now : ℕ) (l : Link)
    → (maybe_start_connection wifi now l ≡ l)
      ⊎ ((is_connected (maybe_start_connection wifi now l).state ≡ false)
          × Grown l.wire (maybe_start_connection wifi now l))
unfolding maybe_start_connection
maybe_start_connection-Grown wifi now l = by_state wifi l.state
  where
    by_state :
        (wifi : Bool) (s : DriverState)
        → (maybe_start_connection wifi now (record l { state = s }) ≡ record l { state = s })
          ⊎ Unconnected l.wire (maybe_start_connection wifi now (record l { state = s }))
    by_state true DriverState.boot = inr (refl, Grown-refl l)
    by_state false DriverState.boot = inr (refl, Grown-refl l)
    by_state true DriverState.wait_wifi = inr (refl, Grown-refl l)
    by_state false DriverState.wait_wifi = inl refl
    by_state wifi DriverState.wait_grace =
        let g : Link = record l { state = DriverState.wait_grace } in
        let P : Link → Type 0 = λ m. (m ≡ g) ⊎ Unconnected l.wire m in
        let waits : Bool = ltb (sub32 now l.boot_ms) l.conn_bootstrap_delay_ms in
        if_keeps P l.uart_retry_pending g (if waits then g else backs_off now g) (inl refl)
          (if_keeps P waits g (backs_off now g) (inl refl) (inr (backs_off-Unconnected now g refl)))
    by_state wifi DriverState.connecting = inl refl
    by_state wifi DriverState.connected = inl refl
    by_state wifi DriverState.disconnected = inl refl
