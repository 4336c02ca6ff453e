-- ===== src/Link/Fuel.antt =====
-- cn105.cpp and hp_writings.cpp: how `write_packet`, `send_first_connection_packet` and `reconnect_uart`
-- end, in closed form.
use mitsubishi_cn105esphome.Prelude.{
  ℕ, suc, ◌≡◌, refl, sym, ap, ◌∙◌, Bool, true, false, ◌&&◌, ◌||◌, not, if◌then◌else◌, List, ◌∷◌,
  Bool-cases, ◌⊎◌,
}
use mitsubishi_cn105esphome.Prelude.{inl, inr}
use mitsubishi_cn105esphome.Parser.{reset}
use mitsubishi_cn105esphome.Packet.{connection_packet}
use mitsubishi_cn105esphome.Link.{
  DriverState, Link, is_uart_ready, is_heatpump_connection_active, set_heatpump_connected,
  setup_uart, disconnect_uart, due, send_first, reconnect, queue_packet, write_within, write_packet,
  reconnect_uart,
}

-- The state after a disconnection.
abbrev pub dropped : DriverState → DriverState
dropped DriverState.connected = DriverState.disconnected
dropped s = s

abbrev pub prepared : Bool → DriverState → DriverState
prepared true s = DriverState.connecting
prepared false s = dropped s

-- The link that has sent the handshake.
abbrev pub asked : ℕ → Link → Link
asked now l = record l {
  state = dropped l.state;
  last_reconnect_time_ms = now;
  wire = connection_packet l.installer_mode_effective ∷ l.wire;
  last_send = now;
  last_connect_rq_time_ms = now;
  nb_heatpump_connections = suc l.nb_heatpump_connections;
  check_first_connection = due now 10000;
}

or_true : (b : Bool) → b || true ≡ true
or_true true = refl
or_true false = refl

write_choice {ℓ} :
    {A : Type ℓ} (s : DriverState) (active : Bool) (x y : A)
    → is_uart_ready s ≡ true
    → (if is_uart_ready s && (active || not false) then x else y) ≡ x
write_choice s active x y h = rw (h, or_true active) refl

pub write_within-ready :
    (n now : ℕ) (p : List ℕ) (l : Link)
    → is_uart_ready l.state ≡ true
    → write_within (suc n) now p false l ≡ (record l { wire = p ∷ l.wire; last_send = now }, true)
unfolding write_within
write_within-ready n now p l h =
    write_choice l.state (is_heatpump_connection_active now l)
      (record l { wire = p ∷ l.wire; last_send = now }, true)
      (queue_packet now p false (reconnect (write_within n) now l), false) h

-- On a line that is ready the handshake is written.
pub send_first-ready :
    (n now : ℕ) (l : Link)
    → is_uart_ready l.state ≡ true
    → send_first (write_within (suc n)) now l ≡ asked now l
unfolding send_first set_heatpump_connected
send_first-ready n now l h = by_state l l.state h
  where
    finish : Link → Link
    finish l = record l {
      last_send = now;
      last_connect_rq_time_ms = now;
      nb_heatpump_connections = suc l.nb_heatpump_connections;
      check_first_connection = due now 10000;
    }

    written :
        (l : Link)
        → is_uart_ready l.state ≡ true
        → finish (write_within (suc n) now (connection_packet l.installer_mode_effective) false l).0
          ≡ finish (record l { wire = connection_packet l.installer_mode_effective ∷ l.wire })
    written l h =
        ap (λ r. finish r.0)
          (write_within-ready n now (connection_packet l.installer_mode_effective) l h)

    by_state :
        (l : Link) (s : DriverState)
        → is_uart_ready s ≡ true
        → send_first (write_within (suc n)) now (record l { state = s })
          ≡ asked now (record l { state = s })
    by_state l DriverState.boot h = cc
    by_state l DriverState.wait_wifi h = cc
    by_state l DriverState.wait_grace h = cc
    by_state l DriverState.connecting h =
        written (record l { state = DriverState.connecting; last_reconnect_time_ms = now }) refl
    by_state l DriverState.connected h =
        written (record l { state = DriverState.disconnected; last_reconnect_time_ms = now }) refl
    by_state l DriverState.disconnected h =
        written (record l { state = DriverState.disconnected; last_reconnect_time_ms = now }) refl

pub send_first-not_ready :
    (write : ℕ → List ℕ → Bool → Link → Link × Bool) (now : ℕ) (l : Link)
    → is_uart_ready l.state ≡ false
    → send_first write now l ≡ setup_uart l
unfolding send_first
send_first-not_ready write now l h = rw h refl

-- The link after `setup_uart`.
abbrev pub set_up : Link → Link
set_up l = record l {
  state = prepared l.serial_8e1 l.state;
  parser = if l.serial_8e1 then reset l.parser else l.parser;
}

pub setup_uart-set_up : (l : Link) → setup_uart l ≡ set_up l
unfolding setup_uart set_heatpump_connected
setup_uart-set_up l = by_state l l.state l.serial_8e1
  where
    by_state :
        (l : Link) (s : DriverState) (b : Bool)
        → setup_uart (record l { state = s; serial_8e1 = b })
          ≡ set_up (record l { state = s; serial_8e1 = b })
    by_state l DriverState.boot true = refl
    by_state l DriverState.boot false = refl
    by_state l DriverState.wait_wifi true = refl
    by_state l DriverState.wait_wifi false = refl
    by_state l DriverState.wait_grace true = refl
    by_state l DriverState.wait_grace false = refl
    by_state l DriverState.connecting true = refl
    by_state l DriverState.connecting false = refl
    by_state l DriverState.connected true = refl
    by_state l DriverState.connected false = refl
    by_state l DriverState.disconnected true = refl
    by_state l DriverState.disconnected false = refl

pub disconnect_uart-dropped :
    (l : Link)
    → disconnect_uart l ≡ record l { state = dropped l.state; disconnects = suc l.disconnects }
unfolding disconnect_uart set_heatpump_connected
disconnect_uart-dropped l = by_state l l.state
  where
    by_state :
        (l : Link) (s : DriverState)
        → disconnect_uart (record l { state = s })
          ≡ record l { state = dropped s; disconnects = suc l.disconnects }
    by_state l DriverState.boot = refl
    by_state l DriverState.wait_wifi = refl
    by_state l DriverState.wait_grace = refl
    by_state l DriverState.connecting = refl
    by_state l DriverState.connected = refl
    by_state l DriverState.disconnected = refl

-- The link that is about to send the handshake again.
abbrev pub restarted : ℕ → Link → Link
restarted now l = set_up (record l {
  last_reconnect_time_ms = now;
  state = dropped l.state;
  disconnects = suc l.disconnects;
})

pub reconnect-restarted :
    (write : ℕ → List ℕ → Bool → Link → Link × Bool) (now : ℕ) (l : Link)
    → reconnect write now l ≡ send_first write now (restarted now l)
unfolding reconnect
reconnect-restarted write now l =
    ap (λ d. send_first write now (setup_uart d))
      (disconnect_uart-dropped (record l { last_reconnect_time_ms = now }))
    ∙ ap (send_first write now) (
        setup_uart-set_up (record l {
          last_reconnect_time_ms = now;
          state = dropped l.state;
          disconnects = suc l.disconnects;
        }))

-- One call of `write_packet` is enough for the handshake.
send_first-enough :
    (n now : ℕ) (l : Link)
    → send_first (write_within (suc n)) now l ≡ send_first (write_within 1) now l
send_first-enough n now l = elim (Bool-cases (is_uart_ready l.state)) [
  | inl h ↦ send_first-ready n now l h ∙ sym (send_first-ready 0 now l h)
  | inr h ↦
      send_first-not_ready (write_within (suc n)) now l h
      ∙ sym (send_first-not_ready (write_within 1) now l h)
]

reconnect-enough :
    (n now : ℕ) (l : Link)
    → reconnect (write_within (suc n)) now l ≡ reconnect (write_within 1) now l
reconnect-enough n now l =
    reconnect-restarted (write_within (suc n)) now l
    ∙ send_first-enough n now (restarted now l)
    ∙ sym (reconnect-restarted (write_within 1) now l)

-- `write_packet`, `reconnect_uart` and `send_first_connection_packet` call each other in a circle, and the
-- circle ends: however many further calls are allowed, the second call of `write_packet` is the last, and
-- the link and the result are those of two calls.
pub write_packet-Ended :
    (n now : ℕ) (p : List ℕ) (check : Bool) (l : Link)
    → write_within (suc (suc n)) now p check l ≡ write_packet now p check l
unfolding write_within
write_packet-Ended n now p check l =
    ap
      (λ (again : Link).
        if is_uart_ready l.state && (is_heatpump_connection_active now l || not check)
        then (record l { wire = p ∷ l.wire; last_send = now }, true)
        else (queue_packet now p check again, false))
      (reconnect-enough n now l)

-- A reconnection, by whether the line can be brought up.
abbrev pub can_start : Link → Bool
can_start l = l.serial_8e1 || is_uart_ready l.state

ready_prepared :
    (b : Bool) (s : DriverState) → b || is_uart_ready s ≡ is_uart_ready (prepared b (dropped s))
ready_prepared true s = refl
ready_prepared false DriverState.boot = refl
ready_prepared false DriverState.wait_wifi = refl
ready_prepared false DriverState.wait_grace = refl
ready_prepared false DriverState.connecting = refl
ready_prepared false DriverState.connected = refl
ready_prepared false DriverState.disconnected = refl

pub reconnect_uart-asked :
    (now : ℕ) (l : Link) → can_start l ≡ true → reconnect_uart now l ≡ asked now (restarted now l)
reconnect_uart-asked now l h =
    reconnect-restarted write_packet now l
    ∙ send_first-ready 1 now (restarted now l) (sym (ready_prepared l.serial_8e1 l.state) ∙ h)

pub reconnect_uart-idle :
    (now : ℕ) (l : Link) → can_start l ≡ false → reconnect_uart now l ≡ set_up (restarted now l)
reconnect_uart-idle now l h =
    reconnect-restarted write_packet now l
    ∙ send_first-not_ready write_packet now (restarted now l)
        (sym (ready_prepared l.serial_8e1 l.state) ∙ h)
    ∙ setup_uart-set_up (restarted now l)

-- What `write_packet` does: it writes, or it reconnects and queues.
write_cases {ℓ} :
    {A : Type ℓ} (b : Bool) (x y : A)
    → ((b ≡ true) × ((if b then x else y) ≡ x)) ⊎ ((if b then x else y) ≡ y)
write_cases true x y = inl (refl, refl)
write_cases false x y = inr refl

pub write_packet-cases :
    (now : ℕ) (p : List ℕ) (check : Bool) (l : Link)
    → ((is_uart_ready l.state && (is_heatpump_connection_active now l || not check) ≡ true)
        × (write_packet now p check l ≡ (record l { wire = p ∷ l.wire; last_send = now }, true)))
      ⊎ (write_packet now p check l ≡ (queue_packet now p check (reconnect_uart now l), false))
unfolding write_within
write_packet-cases now p check l =
    elim (write_cases {A = Link × Bool}
      (is_uart_ready l.state && (is_heatpump_connection_active now l || not check))
      (record l { wire = p ∷ l.wire; last_send = now }, true)
      (queue_packet now p check (reconnect (write_within 1) now l), false)) [
        | inl h ↦ inl h
        | inr h ↦ inr (
            h
            ∙ ap (λ (again : Link). (queue_packet now p check again, false))
                (sym (reconnect-enough 1 now l)))
      ]
