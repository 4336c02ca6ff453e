-- ===== src/Parser/Assemble.antt =====
-- components/cn105/frame_parser.h, `feed`: the bytes of a frame, one at a time.
use mitsubishi_cn105esphome.Prelude.{
  ℕ, suc, ◌+◌, ◌≤◌, ◌<◌, ◌≡◌, sym, ◌∙◌, ap, true, false, none, some, List, [], ◌∷◌, ◌++◌, arith,
  length, get_or, take, set, length-set, length-append, take-set_next, take-set_same, get_or-take,
  get_or-set_ne,
}
use mitsubishi_cn105esphome.Parser.{FrameParser, feed, max_frame_bytes}

-- The bytes `pre` of the header have arrived.
pub record Starting (p : FrameParser) (pre : List ℕ) : Type 0 where
  pub sized : length p.buffer ≡ max_frame_bytes
  pub found : p.found_start ≡ true
  pub open_frame : p.complete ≡ false
  pub undeclared : p.declared ≡ none
  pub index : p.bytes_read ≡ length pre
  pub short : length pre ≤ 4
  pub received : take (length pre) p.buffer ≡ pre

-- The header has arrived, with command `c` and length `n`; `pre` is the frame up to here.
pub record Assembling (p : FrameParser) (pre : List ℕ) (n c : ℕ) : Type 0 where
  pub sized : length p.buffer ≡ max_frame_bytes
  pub found : p.found_start ≡ true
  pub open_frame : p.complete ≡ false
  pub declared : p.declared ≡ some n
  pub index : p.bytes_read ≡ length pre
  pub long : 4 < length pre
  pub within : length pre ≤ n + 5
  pub fits : n + 6 ≤ max_frame_bytes
  pub received : take (length pre) p.buffer ≡ pre
  pub command : p.command ≡ c

write_next :
    (xs pre : List ℕ) (i b : ℕ)
    → i ≡ length pre
    → i < length xs
    → take (length pre) xs ≡ pre
    → take (length (pre ++ b ∷ [])) (set xs i b) ≡ pre ++ b ∷ []
write_next xs pre i b e h r =
    ap (λ k. take k (set xs i b)) {y = suc i} (omega (arith, length-append pre (b ∷ [])))
    ∙ take-set_next xs i b h
    ∙ ap (λ k. take k xs ++ b ∷ []) e
    ∙ ap (λ ys. ys ++ b ∷ []) r

pub first_byte :
    (p : FrameParser)
    → length p.buffer ≡ max_frame_bytes
    → p.found_start ≡ false
    → p.complete ≡ false
    → p.declared ≡ none
    → Starting (feed p 0xFC) (0xFC ∷ [])
unfolding feed
first_byte p s f c d = record {
  sized = ground (arith, length-set p.buffer 0 0xFC);
  found = ground arith;
  open_frame = ground arith;
  undeclared = ground arith;
  index = ground arith;
  short = omega arith;
  received = ground (arith, take-set_next p.buffer 0 0xFC);
}

pub header_byte :
    (p : FrameParser) (pre : List ℕ) (b : ℕ)
    → Starting p pre
    → length pre < 4
    → Starting (feed p b) (pre ++ b ∷ [])
unfolding feed
header_byte p pre b v h = record {
  sized = ground (arith, length-set p.buffer p.bytes_read b);
  found = ground arith;
  open_frame = ground arith;
  undeclared = ground arith;
  index = ground (arith, length-append pre (b ∷ []));
  short = omega (arith, length-append pre (b ∷ []));
  received = ground (
    arith,
    write_next p.buffer pre p.bytes_read b v.index (omega (arith, v.sized, v.index)) v.received,
  );
}

pub length_byte :
    (p : FrameParser) (pre : List ℕ) (n : ℕ)
    → Starting p pre
    → length pre ≡ 4
    → n + 6 ≤ max_frame_bytes
    → Assembling (feed p n) (pre ++ n ∷ []) n (get_or pre 1 0)
unfolding feed
length_byte p pre n v h f = record {
  sized = ground (arith, length-set p.buffer p.bytes_read n);
  found = ground arith;
  open_frame = ground arith;
  declared = ground arith;
  index = ground (arith, length-append pre (n ∷ []));
  long = omega (arith, length-append pre (n ∷ []));
  within = omega (arith, length-append pre (n ∷ []));
  fits = f;
  received = ground (
    arith,
    write_next p.buffer pre p.bytes_read n v.index (omega (arith, v.sized, v.index)) v.received,
  );
  command = ground (arith, command_byte);
}
  where
    command_byte : get_or (set p.buffer p.bytes_read n) 1 0 ≡ get_or pre 1 0
    command_byte =
        get_or-set_ne p.buffer p.bytes_read 1 n 0 (omega (arith, v.index))
        ∙ sym (get_or-take p.buffer (length pre) 1 0 (omega arith))
        ∙ ap (λ ys. get_or ys 1 0) v.received

pub payload_byte :
    (p : FrameParser) (pre : List ℕ) (n c b : ℕ)
    → Assembling p pre n c
    → length pre < n + 5
    → Assembling (feed p b) (pre ++ b ∷ []) n c
unfolding feed
payload_byte p pre n c b v h = record {
  sized = ground (arith, length-set p.buffer p.bytes_read b);
  found = ground arith;
  open_frame = ground arith;
  declared = ground arith;
  index = ground (arith, length-append pre (b ∷ []));
  long = omega (arith, v.long, length-append pre (b ∷ []));
  within = omega (arith, length-append pre (b ∷ []));
  fits = v.fits;
  received = ground (
    arith,
    write_next p.buffer pre p.bytes_read b v.index (omega (arith, v.sized, v.index, v.fits))
        v.received,
  );
  command = ground arith;
}

-- The frame `pre` has arrived whole, with the checksum byte `b`.
pub record Complete (p : FrameParser) (pre : List ℕ) (n c b : ℕ) : Type 0 where
  pub done : p.complete ≡ true
  pub declared : p.declared ≡ some n
  pub received : take (n + 5) p.buffer ≡ pre
  pub command : p.command ≡ c
  pub checksum_byte : p.checksum_byte ≡ b

pub last_byte :
    (p : FrameParser) (pre : List ℕ) (n c b : ℕ)
    → Assembling p pre n c
    → length pre ≡ n + 5
    → Complete (feed p b) pre n c b
unfolding feed
last_byte p pre n c b v h = record {
  done = ground arith;
  declared = ground arith;
  received = ground (arith, kept);
  command = ground arith;
  checksum_byte = ground arith;
}
  where
    kept : take (n + 5) (set p.buffer p.bytes_read b) ≡ pre
    kept =
        ap (λ k. take k (set p.buffer p.bytes_read b)) (sym h ∙ sym v.index)
        ∙ take-set_same p.buffer p.bytes_read b
        ∙ ap (λ k. take k p.buffer) v.index
        ∙ v.received
