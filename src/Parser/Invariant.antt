-- ===== src/Parser/Invariant.antt =====
-- components/cn105/frame_parser.h: the parser never writes or reads outside its buffer.
use mitsubishi_cn105esphome.Prelude.{
  ℕ, ◌+◌, ◌≤◌, ◌<◌, ◌≡◌, refl, Bool, true, false, Option, none, some, List, [], ◌∷◌, arith, length,
  length-set, length-replicate,
}
use mitsubishi_cn105esphome.Parser.{FrameParser, reset, fresh, feed, feed_all, max_frame_bytes}

-- The length is known from the fifth byte on, fits the buffer, and bounds the index.
abbrev pub Progress : Option ℕ → ℕ → Bool → Type 0
Progress none i done = (i ≤ 4) × (done ≡ false)
Progress (some n) i done =
    (4 < i) × (n + 6 ≤ max_frame_bytes) × (i ≤ n + 5) × (done ≡ true → i ≡ n + 5)

-- What holds between two calls of `feed`.
pub record IsValid (p : FrameParser) : Type 0 where
  pub sized : length p.buffer ≡ max_frame_bytes
  pub idle : p.found_start ≡ false → (p.bytes_read ≡ 0) × (p.declared ≡ none)
  pub progress : Progress p.declared p.bytes_read p.complete

pub reset-IsValid : (p : FrameParser) → length p.buffer ≡ max_frame_bytes → IsValid (reset p)
unfolding reset
reset-IsValid p h = record { sized = h; idle = λ _. (refl, refl); progress = (omega arith, refl) }

pub fresh-IsValid : IsValid fresh
unfolding fresh
fresh-IsValid = record {
  sized = length-replicate {A = ℕ} 128 0;
  idle = λ _. (refl, refl);
  progress = (omega arith, refl);
}

feed-Progress :
    (d : Option ℕ) (p : FrameParser) (byte : ℕ)
    → p.declared ≡ d
    → (p.found_start ≡ false → (p.bytes_read ≡ 0) × (d ≡ none))
    → Progress d p.bytes_read p.complete
    → Progress (feed p byte).declared (feed p byte).bytes_read (feed p byte).complete
unfolding feed
feed-Progress none p byte e i v = ground arith
feed-Progress (some n) p byte e i v = ground arith

feed-idle :
    (p : FrameParser) (byte : ℕ)
    → (p.found_start ≡ false → (p.bytes_read ≡ 0) × (p.declared ≡ none))
    → (feed p byte).found_start ≡ false
    → ((feed p byte).bytes_read ≡ 0) × ((feed p byte).declared ≡ none)
unfolding feed
feed-idle p byte i f = ground arith

feed-sized : (p : FrameParser) (byte : ℕ) → length (feed p byte).buffer ≡ length p.buffer
unfolding feed
feed-sized p byte =
    ground (arith, length-set p.buffer 0 byte, length-set p.buffer p.bytes_read byte)

-- Every byte keeps the invariant.
pub feed-IsValid : (p : FrameParser) (byte : ℕ) → IsValid p → IsValid (feed p byte)
feed-IsValid p byte v = record {
  sized = omega (arith, feed-sized p byte, v.sized);
  idle = feed-idle p byte v.idle;
  progress = feed-Progress p.declared p byte refl v.idle v.progress;
}

-- After any bytes at all a parser that satisfied its invariant does so again: the buffer keeps its 128 cells, and a
-- declared length, once read, leaves room for the header, the payload and the checksum.
pub feed_all-IsValid : (p : FrameParser) (bytes : List ℕ) → IsValid p → IsValid (feed_all p bytes)
unfolding feed_all
feed_all-IsValid p [] v = v
feed_all-IsValid p (b ∷ bs) v = feed_all-IsValid (feed p b) bs (feed-IsValid p b v)

-- So the index of the next write lies inside the buffer, and the overflow guard is never taken.
index_bound : (d : Option ℕ) (i : ℕ) (done : Bool) → Progress d i done → i < max_frame_bytes
index_bound none i done v = omega arith
index_bound (some n) i done v = omega arith

-- After any bytes fed to a new parser, the index of the next write lies inside the buffer.
write_in_bounds :
    (bytes : List ℕ) → (feed_all fresh bytes).bytes_read < length (feed_all fresh bytes).buffer
write_in_bounds bytes =
    let v = feed_all-IsValid fresh bytes fresh-IsValid in
    omega (arith, v.sized, index_bound _ _ _ v.progress)
