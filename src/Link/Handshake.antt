-- ===== src/Link/Handshake.antt =====
-- hp_writings.cpp: what happens when the unit does not answer the handshake within ten seconds.
use mitsubishi_cn105esphome.Prelude.{
  ℕ, suc, ◌≡◌, refl, Bool, true, false, not, ◌&&◌, ◌||◌, ◌∷◌, none,
}
use mitsubishi_cn105esphome.Packet.{connection_packet}
use mitsubishi_cn105esphome.Link.{
  DriverState, Link, is_uart_ready, is_connected, fall_back, first_check_fires, due,
}
use mitsubishi_cn105esphome.Link.Fuel.{dropped, prepared, can_start, reconnect_uart-asked}
use mitsubishi_cn105esphome.Link.Watched.{is_awaiting}

-- The installer's handshake is used exactly as long as it is wanted and has not failed.
abbrev pub HasMode : Link → Type 0
HasMode l = l.installer_mode_effective ≡ (l.installer_mode && not l.installer_mode_fallback_done)

awaiting :
    (b : Bool) (s : DriverState)
    → b || is_uart_ready s ≡ true
    → is_awaiting (dropped (prepared b (dropped s))) ≡ true
awaiting true s h = refl
awaiting false DriverState.boot h = cc
awaiting false DriverState.wait_wifi h = cc
awaiting false DriverState.wait_grace h = cc
awaiting false DriverState.connecting h = refl
awaiting false DriverState.connected h = refl
awaiting false DriverState.disconnected h = refl

-- The mode after the fallback.
fall_back-Standard :
    (l : Link) (wanted effective done : Bool)
    → effective ≡ (wanted && not done)
    → fall_back (record l {
      installer_mode = wanted;
      installer_mode_effective = effective;
      installer_mode_fallback_done = done;
    })
      ≡ record l {
        installer_mode = wanted;
        installer_mode_effective = false;
        installer_mode_fallback_done = wanted || done;
      }
fall_back-Standard l true true false e = refl
fall_back-Standard l true true true e = cc
fall_back-Standard l true false false e = cc
fall_back-Standard l true false true e = refl
fall_back-Standard l false true done e = cc
fall_back-Standard l false false done e = refl

-- When the unit has not answered within the time of the check, on a line that is open or can be opened and
-- with the handshake in the mode it should have, the check writes exactly one packet, the standard
-- handshake, awaits its answer, is armed again ten seconds on, counts one connection more, remembers that
-- the installer's handshake failed, and leaves the mode as it should be.
pub first_check_fires-asks :
    (now : ℕ) (l : Link)
    → is_connected l.state ≡ false
    → can_start l ≡ true
    → HasMode l
    → ((first_check_fires now l).wire ≡ connection_packet false ∷ l.wire)
      × (is_awaiting (first_check_fires now l).state ≡ true)
      × ((first_check_fires now l).check_first_connection ≡ due now 10000)
      × ((first_check_fires now l).nb_heatpump_connections ≡ suc l.nb_heatpump_connections)
      × ((first_check_fires now l).installer_mode_fallback_done
          ≡ (l.installer_mode || l.installer_mode_fallback_done))
      × HasMode (first_check_fires now l)
unfolding first_check_fires
first_check_fires-asks now l unanswered h m =
    let fired : Link = record l { check_first_connection = none } in
    let back : Link = record fired {
      installer_mode_effective = false;
      installer_mode_fallback_done = l.installer_mode || l.installer_mode_fallback_done;
    } in
    let fell : fall_back fired ≡ back =
      fall_back-Standard fired l.installer_mode l.installer_mode_effective
        l.installer_mode_fallback_done m in
    rw (unanswered, fell, reconnect_uart-asked now back h)
      (
        refl,
        awaiting l.serial_8e1 l.state h,
        refl,
        refl,
        refl,
        mode l.installer_mode l.installer_mode_fallback_done,
      )
  where
    mode : (wanted done : Bool) → false ≡ (wanted && not (wanted || done))
    mode true done = refl
    mode false done = refl
