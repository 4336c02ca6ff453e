-- ===== src/Remote/Delivery.antt =====
-- hp_writings.cpp, `send_remote_temperature`: what is written is what is held.
use mitsubishi_cn105esphome.Prelude.{
  ℕ, ◌≤◌, ◌≡◌, refl, subst, false, true, Option, none, some, length, ap, arith,
}
use mitsubishi_cn105esphome.Prelude.Float.{Float}
use mitsubishi_cn105esphome.Parser.Frame.{frame}
use mitsubishi_cn105esphome.Packet.{remote_temperature_packet}
use mitsubishi_cn105esphome.Packet.Frames.{remote_payload, remote-frame}
use mitsubishi_cn105esphome.Link.{Link}
use mitsubishi_cn105esphome.Link.Delivery.{Kept, write_packet-Kept}
use mitsubishi_cn105esphome.Remote.{Remote, send_remote_temperature}

module _ (fl : Float) where
  open fl use {F}

  short_packet : (o : Option F) → length (remote_temperature_packet fl o) ≤ 22
  short_packet none = omega (arith, ap length (remote-frame fl none))
  short_packet (some t) = omega (arith, ap length (remote-frame fl (some t)))

  -- Sending the remote temperature hands over the frame for what is held, or for no temperature: it is
  -- written at once on a line that is open and active, and waits for a retry in four seconds otherwise.
  -- Nothing stays queued or deferred, and what is held counts as sent now.
  pub send_remote_temperature-Kept :
      (now : ℕ) (r : Remote F) (l : Link)
      → Kept
          (frame 0x41 0x01 0x30 (remote_payload fl r.remote_temperature))
          true
          now
          4000
          l
          (send_remote_temperature fl now r l).1
        × ((send_remote_temperature fl now r l).0.should_send_external_temperature ≡ false)
        × ((send_remote_temperature fl now r l).0.deferred_send ≡ none)
        × ((send_remote_temperature fl now r l).0.last_remote_temp_send_ms ≡ now)
        × ((send_remote_temperature fl now r l).0.last_remote_temp_sent ≡ r.remote_temperature)
  unfolding send_remote_temperature
  send_remote_temperature-Kept now r l = (
    subst (λ p. Kept p true now 4000 l (send_remote_temperature fl now r l).1)
        (remote-frame fl r.remote_temperature)
        (write_packet-Kept now (remote_temperature_packet fl r.remote_temperature) true l
          (short_packet r.remote_temperature)),
    refl,
    refl,
    refl,
    refl,
  )
