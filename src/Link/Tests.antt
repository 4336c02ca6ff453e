-- ===== src/Link/Tests.antt =====
-- Runs of the connection: a start on a port that can be opened, one that fails, and a retry.
use mitsubishi_cn105esphome.Prelude.{
  ℕ, ◌≡◌, refl, suc, true, false, ◌||◌, some, List, ◌∷◌, length, arith,
}
use mitsubishi_cn105esphome.Parser.{fresh}
use mitsubishi_cn105esphome.Packet.{connection_packet, create_info_packet}
use mitsubishi_cn105esphome.Link.{
  DriverState, Pending, Link, write_retry_fires, maybe_start_connection, write_within, write_packet,
  first_check_fires, due, send_first, set_heatpump_connected,
}
use mitsubishi_cn105esphome.Link.Steps.{Step, Reach, powered}
use mitsubishi_cn105esphome.Link.Watched.{IsAttended, is_awaiting}
use mitsubishi_cn105esphome.Link.Attended.{Reach-IsAttended}
use mitsubishi_cn105esphome.Link.Diagram.{Follows, Reach-Follows}
use mitsubishi_cn105esphome.Link.Fuel.{write_packet-Ended}
use mitsubishi_cn105esphome.Link.Delivery.{Retried, write_retry_fires-Retried}
use mitsubishi_cn105esphome.Link.Handshake.{HasMode, first_check_fires-asks}

-- Switched on with the installer's handshake, a grace delay of 500 ms and an interval of 2 s.
abbrev pub on : Link
on = powered 100 500 true 2000 true fresh

abbrev pub started : Link
started = maybe_start_connection true 700 (maybe_start_connection true 100 on)

abbrev pub unanswered : Link
unanswered = first_check_fires 10700 started

abbrev request : List ℕ
request = create_info_packet 0x02

-- The unit has answered the second handshake, is silent for a minute, and a request has to wait.
abbrev waiting : Link
waiting = (write_packet 70000 request true (set_heatpump_connected true unanswered)).0

waiting-Reach : Reach on waiting
unfolding maybe_start_connection send_first
waiting-Reach =
    Reach.next
      (Reach.next
        (Reach.next
          (Reach.next (Reach.next Reach.here (Step.loops true 100 on))
            (Step.loops true 700 (maybe_start_connection true 100 on)))
          (Step.checks 10700 10700 started started_check))
        (Step.answers unanswered))
      (Step.writes 70000 request true (set_heatpump_connected true unanswered))
  where
    started_check : started.check_first_connection ≡ some 10700
    started_check = refl

Reach-IsAttended_example : IsAttended waiting
Reach-IsAttended_example = Reach-IsAttended 100 500 true 2000 true fresh waiting-Reach

Reach-Follows_example : Follows on waiting
Reach-Follows_example = Reach-Follows waiting-Reach

-- The silent unit is asked again: the third handshake, and the request waits for its retry.
waiting_state :
    (waiting.state ≡ DriverState.connecting)
    × (waiting.write_retry ≡ some 74000)
    × (length waiting.wire ≡ 3)
unfolding maybe_start_connection first_check_fires write_within create_info_packet
waiting_state = (refl, refl, refl)

write_packet-Ended_example :
    write_within 9 70000 request true on ≡ write_packet 70000 request true on
write_packet-Ended_example = write_packet-Ended 7 70000 request true on

first_check_fires-asks_example :
    (unanswered.wire ≡ connection_packet false ∷ started.wire)
    × (is_awaiting unanswered.state ≡ true)
    × (unanswered.check_first_connection ≡ due 10700 10000)
    × (unanswered.nb_heatpump_connections ≡ suc started.nb_heatpump_connections)
    × (unanswered.installer_mode_fallback_done
        ≡ (started.installer_mode || started.installer_mode_fallback_done))
    × HasMode unanswered
unfolding maybe_start_connection send_first write_within
first_check_fires-asks_example = first_check_fires-asks 10700 started refl refl refl

abbrev held : Pending
held = record { packet = request; check_is_active = true }

write_retry_fires-Retried_example :
    Retried held
      (record unanswered { pending = some held })
      (write_retry_fires 20000 (record unanswered { pending = some held }))
unfolding create_info_packet
write_retry_fires-Retried_example =
    write_retry_fires-Retried 20000 held (record unanswered { pending = some held }) refl
      (omega arith)
