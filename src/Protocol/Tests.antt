-- ===== src/Protocol/Tests.antt =====
-- Runs of components/cn105/cn105_protocol.h on the handshake packet and on two setpoints.
use mitsubishi_cn105esphome.Prelude.{ℕ, ◌≡◌, refl, List, [], ◌∷◌}
use mitsubishi_cn105esphome.Protocol.{checksum}

abbrev handshake : List ℕ
handshake = 0xfc ∷ 0x5a ∷ 0x01 ∷ 0x30 ∷ 0x02 ∷ 0xca ∷ 0x01 ∷ []

handshake-checksum : checksum handshake 7 ≡ 0xa8
unfolding checksum
handshake-checksum = refl
