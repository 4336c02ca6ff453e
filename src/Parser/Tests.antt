-- ===== src/Parser/Tests.antt =====
-- Runs of components/cn105/frame_parser.h on a short frame, whole, damaged and interrupted.
use mitsubishi_cn105esphome.Prelude.{
  ℕ, ◌+◌, ◌≡◌, refl, true, false, List, [], ◌∷◌, ◌++◌, arith, length, set, length-replicate,
}
use mitsubishi_cn105esphome.Protocol.{checksum}
use mitsubishi_cn105esphome.Parser.{Receiver, fresh, feed, feed_all, payload, checksum_valid}
use mitsubishi_cn105esphome.Parser.Invariant.{IsValid, fresh-IsValid, feed_all-IsValid}
use mitsubishi_cn105esphome.Parser.Frame.{
  IsIdle, Parsed, body, frame, feed_all-frame, feed_all-corrupted,
}
use mitsubishi_cn105esphome.Parser.Resync.{bytes_of, receive_all, resync}

abbrev two_bytes : List ℕ
two_bytes = 0x09 ∷ 0x11 ∷ []

-- A header that declares more than the buffer holds.
abbrev oversized : List ℕ
oversized = 0xFC ∷ 0x62 ∷ 0x01 ∷ 0x30 ∷ 0xFF ∷ 0x02 ∷ []

feed_all-IsValid_example : IsValid (feed_all fresh oversized)
feed_all-IsValid_example = feed_all-IsValid fresh oversized fresh-IsValid

fresh-IsIdle : IsIdle fresh
unfolding fresh
fresh-IsIdle = record {
  sized = length-replicate {A = ℕ} 128 0;
  no_start = refl;
  open_frame = refl;
  undeclared = refl;
}

feed_all-frame_example :
    Parsed (feed_all fresh ((0x00 ∷ 0x30 ∷ []) ++ frame 0x62 0x01 0x30 two_bytes)) 0x62 two_bytes
feed_all-frame_example =
    feed_all-frame fresh (0x00 ∷ 0x30 ∷ []) 0x62 0x01 0x30 two_bytes fresh-IsIdle
      (omega arith, (omega arith, tt)) (omega arith)

feed_all-corrupted_example :
    let q = feed_all fresh (
      body 0x62 0x01 0x30 (set two_bytes 1 0x12)
      ++ checksum (body 0x62 0x01 0x30 two_bytes) (length two_bytes + 5) ∷ []) in
    (q.complete ≡ true) × (payload q ≡ set two_bytes 1 0x12) × (checksum_valid q ≡ false)
feed_all-corrupted_example =
    feed_all-corrupted fresh 0x62 0x01 0x30 two_bytes 1 0x12 fresh-IsIdle (omega arith)
      (omega arith) (omega arith) (omega arith) (omega arith)

-- Three bytes of a frame have arrived, the last one at 1000 ms.
abbrev interrupted : Receiver
interrupted = record { parser = feed_all fresh (0xFC ∷ 0x62 ∷ 0x01 ∷ []); last_rx_byte_ms = 1000 }

interrupted_open : (feed_all fresh (0xFC ∷ 0x62 ∷ 0x01 ∷ [])).complete ≡ false
unfolding fresh feed_all feed
interrupted_open = refl

abbrev arrivals : List (ℕ × ℕ)
arrivals =
    (2001, 0x62) ∷ (2002, 0x01) ∷ (2003, 0x30) ∷ (2004, 0x01) ∷ (2005, 0x09) ∷ (2006, 0x63) ∷ []

arrivals-frame : 0xFC ∷ bytes_of arrivals ≡ frame 0x62 0x01 0x30 (0x09 ∷ [])
unfolding checksum
arrivals-frame = refl

resync_example : Parsed (receive_all interrupted ((2000, 0xFC) ∷ arrivals)).parser 0x62 (0x09 ∷ [])
resync_example =
    resync interrupted 2000 arrivals 0x62 0x01 0x30 (0x09 ∷ [])
      (feed_all-IsValid fresh (0xFC ∷ 0x62 ∷ 0x01 ∷ []) fresh-IsValid) interrupted_open
      (omega arith)
      (omega arith, (omega arith, (omega arith, (omega arith, (omega arith, (omega arith, tt))))))
      arrivals-frame (omega arith)
