-- ===== src/Parser.antt =====
-- components/cn105/frame_parser.h: the byte-by-byte frame parser, and `FRAME_RESYNC_GAP_MS` with the
-- loop of `process_input` in components/cn105/hp_readings.cpp, which resets it after a silence.
pub mod Invariant
pub mod Assemble
pub mod Frame
pub mod Resync
pub mod Arrivals
pub mod Tests
use mitsubishi_cn105esphome.Prelude.{
  ℕ, zero, suc, ◌+◌, ◌-◌, ◌%◌, Bool, true, false, not, ◌&&◌, Option, none, some, List, [], ◌∷◌, ltb,
  leb, ◌==◌, if◌then◌else◌, value_or, get_or, set, take, drop, replicate,
}
use mitsubishi_cn105esphome.Prelude.Word.{sub32}
use mitsubishi_cn105esphome.Protocol.{checksum}

abbrev pub max_frame_bytes : ℕ
max_frame_bytes = 128

-- `data_length_` is -1 until the header is read: `none`.
pub record FrameParser : Type 0 where
  pub buffer : List ℕ
  pub found_start : Bool
  pub complete : Bool
  pub bytes_read : ℕ
  pub declared : Option ℕ
  pub command : ℕ
  pub checksum_byte : ℕ

unfoldable pub reset : FrameParser → FrameParser
reset p = record p {
  found_start = false;
  complete = false;
  bytes_read = 0;
  declared = none;
  command = 0;
  checksum_byte = 0;
}

-- The constructor: the buffer is zeroed and `reset` is called.
unfoldable pub fresh : FrameParser
unfolding reset
fresh = reset (record {
  buffer = replicate max_frame_bytes 0;
  found_start = false;
  complete = false;
  bytes_read = 0;
  declared = none;
  command = 0;
  checksum_byte = 0;
})

-- The end of `feed`: the frame is complete at its checksum byte.
pub close : FrameParser → ℕ → FrameParser
close p byte = elim p.declared [
  | none ↦ record p { bytes_read = p.bytes_read + 1 }
  | some n ↦
      if p.bytes_read == n + 5
      then record p { checksum_byte = byte; complete = true }
      else record p { bytes_read = p.bytes_read + 1 }
]

-- The middle of `feed`, behind the write to the buffer: the header's last byte gives the length.
pub read_header : FrameParser → ℕ → FrameParser
unfolding close reset
read_header p byte =
    if p.bytes_read == 4
    then (let h = record p { declared = some byte; command = get_or p.buffer 1 0 } in
        if ltb max_frame_bytes (byte + 6) then reset h else close h byte)
    else close p byte

unfoldable pub feed : FrameParser → ℕ → FrameParser
unfolding read_header reset
feed p byte =
    if p.complete
    then p
    else if not p.found_start
    then (if byte == 0xFC
        then record p { found_start = true; bytes_read = 1; buffer = set p.buffer 0 byte }
        else p)
    else if leb max_frame_bytes p.bytes_read
    then reset p
    else read_header (record p { buffer = set p.buffer p.bytes_read byte }) byte

abbrev pub in_progress : FrameParser → Bool
in_progress p = p.found_start && not p.complete

unfoldable pub data_length : FrameParser → ℕ
data_length p = value_or p.declared 0

unfoldable pub checksum_valid : FrameParser → Bool
unfolding data_length
checksum_valid p = p.complete && checksum p.buffer (data_length p + 5) == p.checksum_byte

-- The payload that `data()` points at, as long as `data_length()`.
unfoldable pub payload : FrameParser → List ℕ
unfolding data_length
payload p = take (data_length p) (drop 5 p.buffer)

unfoldable pub frame_size : FrameParser → ℕ
unfolding data_length
frame_size p = if p.complete then data_length p + 6 else 0

-- Bytes fed one after the other.
unfoldable pub feed_all : FrameParser → List ℕ → FrameParser
feed_all p [] = p
feed_all p (b ∷ bs) = feed_all (feed p b) bs

abbrev pub frame_resync_gap_ms : ℕ
frame_resync_gap_ms = 500

-- The parser and the arrival time of the last byte.
pub record Receiver : Type 0 where
  pub parser : FrameParser
  pub last_rx_byte_ms : ℕ

-- One round of the loop of `process_input` for the byte that arrives at `now`, up to the test of
-- `frame_complete()`.
unfoldable pub receive : Receiver → ℕ → ℕ → Receiver
receive r now byte =
    let parser =
      if in_progress r.parser && ltb frame_resync_gap_ms (sub32 now r.last_rx_byte_ms)
      then reset r.parser
      else r.parser in
    record { parser = feed parser byte; last_rx_byte_ms = now }
