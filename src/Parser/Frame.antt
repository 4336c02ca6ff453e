-- ===== src/Parser/Frame.antt =====
-- components/cn105/frame_parser.h: a frame that is sent is the frame that is read.
use mitsubishi_cn105esphome.Prelude.{
  ℕ, suc, ◌+◌, ◌≤◌, ◌<◌, ◌≡◌, refl, sym, ◌∙◌, ap, subst, ◌==◌, ◌≢◌, true, false, none, List, [],
  ◌∷◌, ◌++◌, arith, length, take, drop, All, length-append, append_cons, take-take, take-drop,
  get_or, set, length-set, value_or,
}
use mitsubishi_cn105esphome.Protocol.{checksum}
use mathlib.Core.List.{append-nil}
use mitsubishi_cn105esphome.Protocol.Checksum.{checksum_cong, checksum-set_ne}
use mitsubishi_cn105esphome.Parser.{
  FrameParser, feed, feed_all, checksum_valid, payload, data_length, frame_size, max_frame_bytes,
}
use mitsubishi_cn105esphome.Parser.Assemble.{
  Assembling, Complete, first_byte, header_byte, length_byte, payload_byte, last_byte,
}

-- The part of a frame that the checksum covers.
abbrev pub body : ℕ → ℕ → ℕ → List ℕ → List ℕ
body cmd b2 b3 xs = 0xFC ∷ cmd ∷ b2 ∷ b3 ∷ length xs ∷ xs

-- A frame as the unit sends it: header, payload, checksum.
abbrev pub frame : ℕ → ℕ → ℕ → List ℕ → List ℕ
frame cmd b2 b3 xs = body cmd b2 b3 xs ++ checksum (body cmd b2 b3 xs) (length xs + 5) ∷ []

pub feed_all-append :
    (p : FrameParser) (xs ys : List ℕ) → feed_all p (xs ++ ys) ≡ feed_all (feed_all p xs) ys
unfolding feed_all
feed_all-append p [] ys = refl
feed_all-append p (x ∷ xs) ys = feed_all-append (feed p x) xs ys

payload_bytes :
    (p : FrameParser) (pre xs : List ℕ) (n c : ℕ)
    → Assembling p pre n c
    → length pre + length xs ≡ n + 5
    → Assembling (feed_all p xs) (pre ++ xs) n c
unfolding feed_all
payload_bytes p pre [] n c v h = subst (λ ys. Assembling p ys n c) (sym (append-nil pre)) v
payload_bytes p pre (x ∷ xs) n c v h =
    subst (λ ys. Assembling (feed_all (feed p x) xs) ys n c) (append_cons pre x xs)
      (payload_bytes (feed p x) (pre ++ x ∷ []) xs n c (payload_byte p pre n c x v (omega arith))
        (omega (arith, length-append pre (x ∷ []))))

-- A parser that waits for a start byte.
pub record IsIdle (p : FrameParser) : Type 0 where
  pub sized : length p.buffer ≡ max_frame_bytes
  pub no_start : p.found_start ≡ false
  pub open_frame : p.complete ≡ false
  pub undeclared : p.declared ≡ none

header_bytes :
    (p : FrameParser) (cmd b2 b3 n : ℕ)
    → IsIdle p
    → n + 6 ≤ max_frame_bytes
    → Assembling (feed_all p (0xFC ∷ cmd ∷ b2 ∷ b3 ∷ n ∷ [])) (0xFC ∷ cmd ∷ b2 ∷ b3 ∷ n ∷ []) n cmd
unfolding feed_all
header_bytes p cmd b2 b3 n v f =
    let s1 = first_byte p v.sized v.no_start v.open_frame v.undeclared in
    let s2 = header_byte _ (0xFC ∷ []) cmd s1 (omega arith) in
    let s3 = header_byte _ (0xFC ∷ cmd ∷ []) b2 s2 (omega arith) in
    let s4 = header_byte _ (0xFC ∷ cmd ∷ b2 ∷ []) b3 s3 (omega arith) in
    length_byte _ (0xFC ∷ cmd ∷ b2 ∷ b3 ∷ []) n s4 (omega arith) f

-- The parser before the last byte of a frame.
pub body-Assembling :
    (p : FrameParser) (cmd b2 b3 : ℕ) (xs : List ℕ)
    → IsIdle p
    → length xs + 6 ≤ max_frame_bytes
    → Assembling (feed_all p (body cmd b2 b3 xs)) (body cmd b2 b3 xs) (length xs) cmd
unfolding feed_all
body-Assembling p cmd b2 b3 xs v f =
    payload_bytes (feed_all p (0xFC ∷ cmd ∷ b2 ∷ b3 ∷ length xs ∷ []))
      (0xFC ∷ cmd ∷ b2 ∷ b3 ∷ length xs ∷ []) xs (length xs) cmd
      (header_bytes p cmd b2 b3 (length xs) v f) (omega arith)

-- The parser after any frame, whatever its last byte.
pub frame-Complete :
    (p : FrameParser) (cmd b2 b3 c : ℕ) (xs : List ℕ)
    → IsIdle p
    → length xs + 6 ≤ max_frame_bytes
    → Complete (feed_all p (body cmd b2 b3 xs ++ c ∷ [])) (body cmd b2 b3 xs) (length xs) cmd c
unfolding feed_all
frame-Complete p cmd b2 b3 c xs v f =
    subst (λ q. Complete q (body cmd b2 b3 xs) (length xs) cmd c)
      (sym (feed_all-append p (body cmd b2 b3 xs) (c ∷ [])))
      (last_byte _ _ _ _ _ (body-Assembling p cmd b2 b3 xs v f) (omega arith))

-- Bytes other than the start byte are skipped.
pub garbage_skipped :
    (p : FrameParser) (noise : List ℕ) → IsIdle p → All (λ b. b ≢ 0xFC) noise → feed_all p noise ≡ p
unfolding feed_all feed
garbage_skipped p [] v h = refl
garbage_skipped p (b ∷ noise) v h = ground (arith, garbage_skipped p noise v h.1, h.0)

-- `checksum_valid` and `payload` read only the bytes of the frame.
pub valid_lem :
    (p : FrameParser) (pre : List ℕ) (n c b : ℕ)
    → Complete p pre n c b
    → checksum_valid p ≡ (checksum pre (n + 5) == b)
unfolding checksum_valid data_length
valid_lem p pre n c b v =
    ground
      (arith, v.done, v.declared, v.checksum_byte, checksum_cong p.buffer pre (n + 5) same_bytes)
  where
    same_bytes : take (n + 5) p.buffer ≡ take (n + 5) pre
    same_bytes = sym (take-take (n + 5) p.buffer) ∙ ap (take (n + 5)) v.received

payload_lem :
    (p : FrameParser) (pre : List ℕ) (n c b : ℕ) → Complete p pre n c b → payload p ≡ drop 5 pre
unfolding payload data_length
payload_lem p pre n c b v =
    ap (λ d. take (value_or d 0) (drop 5 p.buffer)) v.declared
    ∙ take-drop 5 n p.buffer
    ∙ ap (λ k. drop 5 (take k p.buffer)) {y = n + 5} (omega arith)
    ∙ ap (drop 5) v.received

-- What a caller reads off a complete and valid parser.
pub record Parsed (p : FrameParser) (cmd : ℕ) (xs : List ℕ) : Type 0 where
  pub done : p.complete ≡ true
  pub valid : checksum_valid p ≡ true
  pub read_command : p.command ≡ cmd
  pub read_length : data_length p ≡ length xs
  pub read_size : frame_size p ≡ length xs + 6
  pub read_payload : payload p ≡ xs

-- A waiting parser that is fed any bytes without a start byte, and then a frame of at most 128
-- bytes, ends with the frame's command, length and payload, and a valid checksum.
pub feed_all-frame :
    (p : FrameParser) (noise : List ℕ) (cmd b2 b3 : ℕ) (xs : List ℕ)
    → IsIdle p
    → All (λ b. b ≢ 0xFC) noise
    → length xs + 6 ≤ max_frame_bytes
    → Parsed (feed_all p (noise ++ frame cmd b2 b3 xs)) cmd xs
unfolding data_length frame_size
feed_all-frame p noise cmd b2 b3 xs v h f = record {
  done = rw start done.done;
  valid = rw start (valid_lem _ _ _ _ _ done ∙ ground arith);
  read_command = rw start done.command;
  read_length = rw start (ground (arith, done.declared));
  read_size = rw start (ground (arith, done.declared, done.done));
  read_payload = rw start (payload_lem _ _ _ _ _ done);
}
  where
    start : feed_all p (noise ++ frame cmd b2 b3 xs) ≡ feed_all p (frame cmd b2 b3 xs)
    start =
        feed_all-append p noise (frame cmd b2 b3 xs)
        ∙ ap (λ q. feed_all q (frame cmd b2 b3 xs)) (garbage_skipped p noise v h)

    done :
        Complete
          (feed_all p (frame cmd b2 b3 xs))
          (body cmd b2 b3 xs)
          (length xs)
          cmd
          (checksum (body cmd b2 b3 xs) (length xs + 5))
    done = frame-Complete p cmd b2 b3 _ xs v f

-- If one payload byte of a frame is replaced by another byte value on the way, the parser completes
-- the frame with the altered payload and finds its checksum wrong.
pub feed_all-corrupted :
    (p : FrameParser) (cmd b2 b3 : ℕ) (xs : List ℕ) (i v : ℕ)
    → IsIdle p
    → length xs + 6 ≤ max_frame_bytes
    → i < length xs
    → get_or xs i 0 < 256
    → v < 256
    → v ≢ get_or xs i 0
    → let q =
        feed_all p
          (body cmd b2 b3 (set xs i v) ++ checksum (body cmd b2 b3 xs) (length xs + 5) ∷ []) in
      (q.complete ≡ true) × (payload q ≡ set xs i v) × (checksum_valid q ≡ false)
feed_all-corrupted p cmd b2 b3 xs i v idle f h old new ne =
    (done.done, payload_lem _ _ _ _ _ done, valid_lem _ _ _ _ _ done ∙ differs)
  where
    same_length : length (set xs i v) ≡ length xs
    same_length = length-set xs i v

    done :
        Complete
          (feed_all p
            (body cmd b2 b3 (set xs i v) ++ checksum (body cmd b2 b3 xs) (length xs + 5) ∷ []))
          (body cmd b2 b3 (set xs i v))
          (length (set xs i v))
          cmd
          (checksum (body cmd b2 b3 xs) (length xs + 5))
    done = frame-Complete p cmd b2 b3 _ (set xs i v) idle (omega (arith, same_length))

    altered : body cmd b2 b3 (set xs i v) ≡ set (body cmd b2 b3 xs) (5 + i) v
    altered =
        ap (λ k. 0xFC ∷ cmd ∷ b2 ∷ b3 ∷ k ∷ set xs i v) same_length
        ∙ ap (λ k. set (body cmd b2 b3 xs) k v) {x = suc (suc (suc (suc (suc i))))} {y = 5 + i}
            (omega arith)

    kept : get_or (body cmd b2 b3 xs) (5 + i) 0 ≡ get_or xs i 0
    kept =
        ap (λ k. get_or (body cmd b2 b3 xs) k 0) {x = 5 + i} {y = suc (suc (suc (suc (suc i))))}
          (omega arith)

    differs :
        (checksum (body cmd b2 b3 (set xs i v)) (length (set xs i v) + 5)
          == checksum (body cmd b2 b3 xs) (length xs + 5))
        ≡ false
    differs = ground (
      arith,
      altered,
      same_length,
      checksum-set_ne (body cmd b2 b3 xs) (5 + i) (length xs + 5) v (omega arith) (omega arith)
          (omega (arith, kept)) new (λ e. ne (e ∙ kept)),
    )
