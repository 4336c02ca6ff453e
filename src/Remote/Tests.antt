-- ===== src/Remote/Tests.antt =====
-- Runs of the remote temperature: 22 degrees, then 23 while the first is being written.
use mitsubishi_cn105esphome.Prelude.{◌≡◌, refl, true, some, arith}
use mitsubishi_cn105esphome.Prelude.Int.{pos}
use mitsubishi_cn105esphome.Prelude.Fixed.{Fixed, fixed, whole}
use mitsubishi_cn105esphome.Link.Tests.{started}
use mitsubishi_cn105esphome.Protocol.{encode_temperature_b}
use mitsubishi_cn105esphome.Remote.{
  Remote, no_remote, set_remote_temperature, send_remote_temperature, set_remote_temp_timeout,
}
use mitsubishi_cn105esphome.Remote.Tracked.{IsTracked}
use mitsubishi_cn105esphome.Remote.Tracking.{Reach, Step, Reach-IsTracked}
use mitsubishi_cn105esphome.Remote.Pace.{Paced, set_remote_temperature-Paced}

abbrev timed : Remote Fixed
timed = set_remote_temp_timeout 500 1800000 no_remote

abbrev first : Remote Fixed
first = set_remote_temperature fixed 1000 (whole (pos 22)) timed

abbrev sent : Remote Fixed
sent = (send_remote_temperature fixed 2000 first started).0

abbrev second : Remote Fixed
second = set_remote_temperature fixed 5000 (whole (pos 23)) sent

second-Reach : Reach fixed no_remote second
second-Reach =
    Reach.next
      (Reach.next
        (Reach.next (Reach.next Reach.here (Step.times 500 1800000 no_remote))
          (Step.sets 1000 (whole (pos 22)) timed))
        (Step.sends 2000 first started))
      (Step.sets 5000 (whole (pos 23)) sent)

Reach-IsTracked_example : IsTracked fixed second
Reach-IsTracked_example = Reach-IsTracked fixed second-Reach

-- Ten seconds after the write at 2 s.
second_deferred : second.deferred_send ≡ some 12000
unfolding set_remote_temperature send_remote_temperature set_remote_temp_timeout
    encode_temperature_b
second_deferred = refl

set_remote_temperature-Paced_example :
    Paced fixed 5000 (whole (pos 23)) sent second
    × (second.remote_temperature ≡ some (whole (pos 23)))
    × (second.remote_temp_keepalive_active ≡ true)
unfolding send_remote_temperature
set_remote_temperature-Paced_example =
    set_remote_temperature-Paced fixed 5000 (whole (pos 23)) sent refl refl (omega arith)
      (omega arith)
